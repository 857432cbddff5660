-- ===== src/Node/Auth/Header.antt =====
-- The `Signature` header of packages/node/src/middleware/auth.rs.
pub mod Scan
use Prim.Native.Char.{code}
use symantic_weft.Prelude.{
  ℕ, Bool, true, false, not, ◌&&◌, Option, none, some, List, [], ◌∷◌, String, ◌==◌, eqb, concat,
  if◌then◌else◌, strip_prefix, split_char, Result, ok, err, ◌>>=◌, ok_or, unwrap_or,
}
use symantic_weft.Platform.{Platform}

-- `s.strip_prefix('…')`
unfoldable pub strip_char : ℕ → String → Option String
strip_char n String.[] = none
strip_char n (String.◌∷◌ c s) = if eqb (code c) n then some s else none

is_nil : String → Bool
is_nil String.[] = true
is_nil (String.◌∷◌ c s) = false

-- the text without a last character that is `'…'`
unfoldable pub strip_last : ℕ → String → Option String
unfolding is_nil
strip_last n String.[] = none
strip_last n (String.◌∷◌ c s) = elim (strip_last n s) [
  | some front ↦ some (String.◌∷◌ c front)
  | none ↦ if is_nil s && eqb (code c) n then some "" else none
]

-- The scan of `split_signature_params`: what is still pushed to `current`, and the later values of
-- `current`. The flag is `in_quotes`.
unfoldable pub scan_params : Bool → String → String × List String
scan_params quoted String.[] = ("", [])
scan_params quoted (String.◌∷◌ c s) =
    let toggled = scan_params (not quoted) s in
    let rest = scan_params quoted s in
    if eqb (code c) b'"'
    then (String.◌∷◌ c toggled.0, toggled.1)
    else if eqb (code c) b',' && not quoted
    then ("", rest.0 ∷ rest.1)
    else (String.◌∷◌ c rest.0, rest.1)

pub record ParsedSignature : Type 0 where
  pub key_id : String
  pub algorithm : String
  pub headers : List String
  pub signature : String

-- the variables of the loop
pub record Fields : Type 0 where
  pub key_id : Option String
  pub algorithm : Option String
  pub headers : Option (List String)
  pub signature : Option String

module _ (P : Platform) where
  -- every finished part is kept, the last one if there is something in it
  unfoldable pub trimmed_parts : String → List String → List String
  trimmed_parts x [] = if P.trim x == "" then [] else P.trim x ∷ []
  trimmed_parts x (y ∷ rest) = P.trim x ∷ trimmed_parts y rest

  unfoldable pub split_signature_params : String → List String
  split_signature_params s = trimmed_parts (scan_params false s).0 (scan_params false s).1

  -- A text that starts and ends with a quote and has at least two bytes
  unfoldable pub unquote : String → Result String String
  unquote s =
      let t = P.trim s in
      ok_or (elim (strip_char b'"' t) [ none ↦ none | some rest ↦ strip_last b'"' rest ])
        (concat "expected quoted string, got: " (P.debug t))

  -- The body of the loop, on the trimmed part
  unfoldable pub take_named : String → Fields → Result Fields String
  take_named part fields = elim (strip_prefix "keyId=" part) [
    | some rest ↦ (do value ← unquote rest; ok (record fields { key_id = some value }))
    | none ↦ elim (strip_prefix "algorithm=" part) [
      | some rest ↦ (do value ← unquote rest; ok (record fields { algorithm = some value }))
      | none ↦ elim (strip_prefix "headers=" part) [
        | some rest ↦ (do
          value ← unquote rest
          ok (record fields {
            headers = some ((split_char b' ' value).0 ∷ (split_char b' ' value).1);
          }))
        | none ↦ elim (strip_prefix "signature=" part) [
          | some rest ↦ (do value ← unquote rest; ok (record fields { signature = some value }))
          | none ↦ ok fields
        ]
      ]
    ]
  ]

  unfoldable pub take_params : List String → Fields → Result Fields String
  take_params [] fields = ok fields
  take_params (part ∷ parts) fields = do
    next ← take_named (P.trim part) fields
    take_params parts next

  unfoldable pub parse_signature_header : String → Result ParsedSignature String
  parse_signature_header header = do
    fields ←
        take_params (split_signature_params header)
          (record { key_id = none; algorithm = none; headers = none; signature = none })
    key_id ← ok_or fields.key_id "missing keyId"
    signature ← ok_or fields.signature "missing signature"
    ok (record {
      key_id = key_id;
      algorithm = unwrap_or fields.algorithm "ed25519";
      headers = unwrap_or fields.headers ("date" ∷ []);
      signature = signature;
    })
