-- ===== src/Node/Sqlite/Instance.antt =====
-- `impl Storage for SqliteStorage` of packages/node/src/storage/sqlite.rs.
use symantic_weft.Platform.{Platform}
use symantic_weft.Node.Storage.Interface.{Storage}
use symantic_weft.Node.Sqlite.{Engine, Connection}
use symantic_weft.Node.Sqlite.Units.{
  put_unit, get_unit, list_units, get_referencing_units, set_unit_credibility,
}
use symantic_weft.Node.Sqlite.Agents.{
  put_agent, get_agent, delete_agent, increment_agent_contribution, update_agent_reputation,
  agent_reputation_stats,
}
use symantic_weft.Node.Sqlite.Follows.{
  add_follow, remove_follow, list_following, list_followers, is_following,
}
use symantic_weft.Node.Sqlite.Peers.{
  add_peer, remove_peer, update_peer_reputation, list_peers, peer_reputation_stats,
}
use symantic_weft.Node.Sqlite.Settings.{
  get_node_config, set_node_config, get_cursor, set_cursor, deliver_to_inbox, get_inbox,
}

abbrev pub sqlite : (P : Platform) → Engine P → Storage P
sqlite P E = record {
  State = Connection P;
  put_unit = put_unit P E;
  get_unit = get_unit P E;
  list_units = list_units P E;
  get_referencing_units = get_referencing_units P E;
  set_unit_credibility = set_unit_credibility P;
  put_agent = put_agent P;
  get_agent = get_agent P E;
  delete_agent = delete_agent P;
  increment_agent_contribution = increment_agent_contribution P E;
  update_agent_reputation = update_agent_reputation P;
  agent_reputation_stats = agent_reputation_stats P E;
  add_follow = add_follow P;
  remove_follow = remove_follow P;
  list_following = list_following P;
  list_followers = list_followers P;
  is_following = is_following P;
  add_peer = add_peer P;
  remove_peer = remove_peer P;
  update_peer_reputation = update_peer_reputation P;
  list_peers = list_peers P;
  peer_reputation_stats = peer_reputation_stats P E;
  get_node_config = get_node_config P;
  set_node_config = set_node_config P;
  get_cursor = get_cursor P;
  set_cursor = set_cursor P;
  deliver_to_inbox = deliver_to_inbox P E;
  get_inbox = get_inbox P E;
}
