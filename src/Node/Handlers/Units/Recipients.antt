-- ===== src/Node/Handlers/Units/Recipients.antt =====
-- Whose inboxes `local_fanout` of packages/node/src/handlers/units.rs reaches.
use symantic_weft.Prelude.{
  Bool, true, false, List, [], ◌∷◌, String, ◌==◌, ◌≡◌, ◌↔◌, ◌⊎◌, inl, inr, refl, sym, ap, ◌∙◌, ok,
  is_some, if◌then◌else◌, arith, Bool-cases, subst, eq_iff, unwrap_or, has_char, Among, filter, not,
  Among-filter, Among-filter_of,
}
use symantic_weft.Prelude.Action.{for_each}
use symantic_weft.Prelude.Map.{Map, lookup, insert_sorted, lookup-insert, lookup-insert_sorted}
use symantic_weft.Platform.{Platform}
use symantic_weft.Core.Types.{
  SemanticUnit, Visibility, public, network, limited, effective_visibility,
}
use symantic_weft.Node.Memory.{Inner}
use symantic_weft.Node.Memory.Instance.{memory}
use symantic_weft.Node.Memory.Agents.{get_agent}
use symantic_weft.Node.Memory.Follows.{list_followers, firsts}
use symantic_weft.Node.Memory.Follows.Laws.{Among-firsts_iff}
use symantic_weft.Node.Memory.Settings.{deliver_to_inbox}
use symantic_weft.Node.Handlers.Units.Fanout.{
  deliver_registered, deliver_local, fan_out_as, local_fanout,
}

not-eq_false : (b : Bool) → not b ≡ true → b ≡ false
not-eq_false b h = ground arith

module _ {P : Platform} where
  -- A unit with this id lies in the inbox of an agent.
  abbrev pub holds : Inner P → String → String → Bool
  holds s did id = is_some (lookup id (unwrap_or (lookup did s.inbox) []))

  abbrev pub IsRegistered : Inner P → String → Type 0
  IsRegistered s did = is_some (lookup did s.agents) ≡ true

  -- Whom a unit of this visibility is meant for, among the agents of this node.
  abbrev pub IsRecipient : Inner P → SemanticUnit P → Visibility → String → Type 0
  IsRecipient s u public did = ⊥
  IsRecipient s u network did = IsRegistered s did × Among (did, u.author) s.follows
  IsRecipient s u limited did =
      IsRegistered s did × (has_char b'@' did ≡ false) × Among did (unwrap_or u.audience [])

  add_if_absent-holds :
      (k id : String) (u : SemanticUnit P) (m : Map (SemanticUnit P))
      → (is_some (lookup id (if is_some (lookup k m) then m else insert_sorted k u m)) ≡ true)
        ↔ ((is_some (lookup id m) ≡ true) ⊎ (id ≡ k))
  add_if_absent-holds k id u m = elim (Bool-cases (is_some (lookup k m))) [
    | inl e ↦ rw e (
      λ h. inl h,
      λ h. elim h [ inl f ↦ f | inr f ↦ subst (λ x. is_some (lookup x m) ≡ true) (sym f) e ],
    )
    | inr e ↦ rw (e, lookup-insert_sorted k id u m) (grind (arith, eq_iff k id))
  ]

  deliver_to_inbox-holds :
      (did : String) (u : SemanticUnit P) (s : Inner P) (d id : String)
      → (holds (deliver_to_inbox P did u s).1 d id ≡ true)
        ↔ ((holds s d id ≡ true) ⊎ ((d ≡ did) × (id ≡ u.id)))
  unfolding deliver_to_inbox
  deliver_to_inbox-holds did u s d id =
      let items = unwrap_or (lookup did s.inbox) [] in
      let items' = if is_some (lookup u.id items) then items else insert_sorted u.id u items in
      let added = add_if_absent-holds u.id id u items in
      rw (lookup-insert did d items' s.inbox) (elim (Bool-cases (did == d)) [
        | inl e ↦
            let same : did ≡ d = (eq_iff did d).0 e in
            rw e (
              λ h. elim (added.0 h) [
                | inl f ↦ inl (subst (λ x. holds s x id ≡ true) same f)
                | inr f ↦ inr (sym same, f)
              ],
              λ h. added.1 (elim h [
                | inl f ↦ inl (subst (λ x. holds s x id ≡ true) (sym same) f)
                | inr f ↦ inr f.1
              ]),
            )
        | inr e ↦ rw e (
          λ h. inl h,
          λ h. elim h [ inl f ↦ f | inr f ↦ cc (sym e ∙ (eq_iff did d).1 (sym f.0)) ],
        )
      ])

  deliver_registered-holds :
      (u : SemanticUnit P) (did : String) (s : Inner P) (d id : String)
      → (holds (deliver_registered P (memory P) u did s).1 d id ≡ true)
        ↔ ((holds s d id ≡ true) ⊎ ((d ≡ did) × (id ≡ u.id) × IsRegistered s did))
  unfolding deliver_registered get_agent
  deliver_registered-holds u did s d id = elim (Bool-cases (is_some (lookup did s.agents))) [
    | inl e ↦ rw e (grind (arith, deliver_to_inbox-holds did u s d id, e))
    | inr e ↦ rw e (grind (arith, e))
  ]

  deliver_registered-kept :
      (u : SemanticUnit P) (did : String) (s : Inner P)
      → ((deliver_registered P (memory P) u did s).0 ≡ ok tt)
        × ((deliver_registered P (memory P) u did s).1.agents ≡ s.agents)
  unfolding deliver_registered get_agent deliver_to_inbox
  deliver_registered-kept u did s = elim (Bool-cases (is_some (lookup did s.agents))) [
    | inl e ↦ rw e (refl, refl)
    | inr e ↦ rw e (refl, refl)
  ]

  -- Delivery to each of a list reaches those of the list who are registered.
  deliver_each-holds :
      (u : SemanticUnit P) (l : List String) (s : Inner P) (d id : String)
      → ((for_each (deliver_registered P (memory P) u) l s).0 ≡ ok tt)
        × ((holds (for_each (deliver_registered P (memory P) u) l s).1 d id ≡ true)
            ↔ ((holds s d id ≡ true) ⊎ ((id ≡ u.id) × IsRegistered s d × Among d l)))
  deliver_each-holds u [] s d id =
      (refl, (λ h. inl h, λ h. elim h [ inl f ↦ f | inr f ↦ absurd f.2 ]))
  deliver_each-holds u (did ∷ l) s d id =
      let after = (deliver_registered P (memory P) u did s).1 in
      let (done, agents) = deliver_registered-kept u did s in
      let rest = deliver_each-holds u l after d id in
      let one = deliver_registered-holds u did s d id in
      let here : IsRegistered after d → IsRegistered s d =
        λ h. subst (λ m. is_some (lookup d m) ≡ true) agents h in
      let there : IsRegistered s d → IsRegistered after d =
        λ h. subst (λ m. is_some (lookup d m) ≡ true) (sym agents) h in
      rw done (
        rest.0,
        (
          λ h. elim (rest.1.0 h) [
            | inl f ↦ elim (one.0 f) [
              | inl g ↦ inl g
              | inr g ↦ inr (g.1, subst (IsRegistered s) (sym g.0) g.2, inl g.0)
            ]
            | inr f ↦ inr (f.0, here f.1, inr f.2)
          ],
          λ h. rest.1.1 (elim h [
            | inl f ↦ inl (one.1 (inl f))
            | inr f ↦ elim f.2 [
              | inl g ↦ inl (one.1 (inr (g, f.0, subst (IsRegistered s) g f.1)))
              | inr g ↦ inr (f.0, there f.1, g)
            ]
          ]),
        ),
      )

  for_each-deliver_local :
      (u : SemanticUnit P) (l : List String) (s : Inner P)
      → for_each (deliver_local P (memory P) u) l s
        ≡ for_each (deliver_registered P (memory P) u) (filter (λ d. not (has_char b'@' d)) l) s
  unfolding deliver_local
  for_each-deliver_local u [] s = refl
  for_each-deliver_local u (did ∷ l) s = elim (Bool-cases (has_char b'@' did)) [
    | inl e ↦ rw e (for_each-deliver_local u l s)
    | inr e ↦
        let (done, _) = deliver_registered-kept u did s in
        rw (e, done) (for_each-deliver_local u l (deliver_registered P (memory P) u did s).1)
  ]

  fan_out_as-holds :
      (u : SemanticUnit P) (v : Visibility) (s : Inner P) (d id : String)
      → ((fan_out_as P (memory P) u v s).0 ≡ ok tt)
        × ((holds (fan_out_as P (memory P) u v s).1 d id ≡ true)
            ↔ ((holds s d id ≡ true) ⊎ ((id ≡ u.id) × IsRecipient s u v d)))
  unfolding fan_out_as list_followers
  fan_out_as-holds u public s d id =
      (refl, (λ h. inl h, λ h. elim h [ inl f ↦ f | inr f ↦ absurd f.1 ]))
  fan_out_as-holds u network s d id =
      let followers = firsts (filter (λ p. p.1 == u.author) s.follows) in
      let reached = deliver_each-holds u followers s d id in
      let follows = Among-firsts_iff d u.author s.follows in
      (
        reached.0,
        (
          λ h. elim (reached.1.0 h) [ inl f ↦ inl f | inr f ↦ inr (f.0, (f.1, follows.0 f.2)) ],
          λ h. reached.1.1 (elim h [ inl f ↦ inl f | inr f ↦ inr (f.0, f.1.0, follows.1 f.1.1) ]),
        ),
      )
  fan_out_as-holds u limited s d id =
      let audience = unwrap_or u.audience [] in
      let here = filter (λ x. not (has_char b'@' x)) audience in
      let reached = deliver_each-holds u here s d id in
      subst
        (λ r.
          (r.0 ≡ ok tt)
          × ((holds r.1 d id ≡ true)
              ↔ ((holds s d id ≡ true) ⊎ ((id ≡ u.id) × IsRecipient s u limited d))))
        (sym (for_each-deliver_local u audience s))
        (
          reached.0,
          (
            λ h. elim (reached.1.0 h) [
              | inl f ↦ inl f
              | inr f ↦
                  let (listed, near) = Among-filter d _ audience f.2 in
                  inr (f.0, (f.1, not-eq_false _ near, listed))
            ],
            λ h. reached.1.1 (elim h [
              | inl f ↦ inl f
              | inr f ↦ inr (f.0, f.1.0, Among-filter_of d _ audience f.1.2 (ap not f.1.1))
            ]),
          ),
        )

-- With the in-memory storage, whose methods never fail, fan-out on this node succeeds. Afterwards an id lies in the inbox of an agent exactly when it
-- lay there before, or it is the id of the unit and the agent is registered here and meant to get
-- it: as a follower of the author of a network unit, or as an entry without an `@` in the audience
-- of a limited one. A public unit goes to no inbox.
pub local_fanout_reaches :
    (P : Platform) (u : SemanticUnit P) (s : Inner P) (did id : String)
    → ((local_fanout P (memory P) u s).0 ≡ ok tt)
      × ((holds (local_fanout P (memory P) u s).1 did id ≡ true) ↔ (
          (holds s did id ≡ true) ⊎ ((id ≡ u.id) × IsRecipient s u (effective_visibility u) did)))
unfolding local_fanout
local_fanout_reaches P u s did id = fan_out_as-holds u (effective_visibility u) s did id
