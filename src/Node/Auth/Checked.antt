-- ===== src/Node/Auth/Checked.antt =====
-- What a request needs to pass the checks of packages/node/src/middleware/auth.rs.
use symantic_weft.Prelude.{
  ℕ, ◌≤◌, Bool, true, false, Option, none, some, List, String, arith, length, eqb, ◌≡◌, ◌↔◌, refl,
  ap, ◌∙◌, ok, err, Result, ok_or, require, ◌>>=◌, ◌>>◌, Option-cases, inl, inr,
}
use symantic_weft.Prelude.Map.{lookup}
use symantic_weft.Platform.{Platform}
use symantic_weft.NodeApi.{AgentProfile}
use symantic_weft.Node.Memory.{Inner}
use symantic_weft.Node.Memory.Agents.{get_agent}
use symantic_weft.Node.Auth.{
  Library, Parts, build_signing_string, header_date, validate_date, decode_multibase_key,
  check_signature, registered_key, prefix_err, ok_of,
}
use symantic_weft.Node.Auth.Header.{ParsedSignature, strip_char}

module _ {A B E : Type 0} where
  pub bind-eq-ok_iff :
      (m : Result A E) (f : A → Result B E) (b : B)
      → ((m >>= f) ≡ ok b) ↔ ((a : A) × (m ≡ ok a) × (f a ≡ ok b))
  bind-eq-ok_iff (ok a) f b = (λ h. (a, refl, h), λ h. ap (λ r. r >>= f) h.1 ∙ h.2)
  bind-eq-ok_iff (err e) f b = (λ h. cc, λ h. cc h.1)

module _ {B E : Type 0} where
  pub then-eq-ok_iff :
      (m : Result (Unit {0}) E) (k : Result B E) (b : B)
      → ((m >> k) ≡ ok b) ↔ ((m ≡ ok tt) × (k ≡ ok b))
  then-eq-ok_iff (ok _) k b = (λ h. (refl, h), λ h. h.1)
  then-eq-ok_iff (err e) k b = (λ h. cc, λ h. cc h.0)

module _ {A : Type 0} where
  pub ok_or-eq-ok_iff :
      {E : Type 0} (o : Option A) (e : E) (a : A) → (ok_or o e ≡ ok a) ↔ (o ≡ some a)
  ok_or-eq-ok_iff none e a = (λ h. cc, λ h. cc)
  ok_or-eq-ok_iff (some x) e a = (λ h. cc h, λ h. cc h)

  pub ok_of_iff : (r : Result A String) (a : A) → (ok_of r ≡ some a) ↔ (r ≡ ok a)
  ok_of_iff (ok x) a = (λ h. cc h, λ h. cc h)
  ok_of_iff (err e) a = (λ h. cc, λ h. cc h)

  pub prefix_err-eq-ok_iff :
      (before : String) (r : Result A String) (a : A) → (prefix_err before r ≡ ok a) ↔ (r ≡ ok a)
  prefix_err-eq-ok_iff before (ok x) a = (λ h. h, λ h. h)
  prefix_err-eq-ok_iff before (err e) a = (λ h. cc, λ h. cc)

module _ (P : Platform) (L : Library) where
  pub validate_date_iff :
      (now : L.Instant) (date : String)
      → (validate_date P L now date ≡ ok tt)
        ↔ ((dt : L.Instant) × (header_date L now date ≡ some dt) × (L.seconds_between now dt ≤ 300))
  unfolding validate_date
  validate_date_iff now date = elim (Option-cases (header_date L now date)) [
    | inl e ↦ rw e ((λ h. cc), λ h. cc h.1)
    | inr (dt, e) ↦ rw e (λ h. (dt, refl, ground arith), λ h. ground arith)
  ]

  require_iff : (b : Bool) (e : String) → (require b e ≡ ok tt) ↔ (b ≡ true)
  require_iff true e = (λ h. refl, λ h. refl)
  require_iff false e = (λ h. cc, λ h. cc h)

  eqb_iff : (m n : ℕ) → (eqb m n ≡ true) ↔ (m ≡ n)
  eqb_iff m n = grind arith

  -- What `check_signature` checks of a parsed header
  pub check_signature_iff :
      (failed did : String) (key : L.VerifyingKey) (parts : Parts) (parsed : ParsedSignature)
      → (check_signature P L failed key parts parsed ≡ ok did) ↔ (
          (text : String) × (build_signing_string L parts parsed.headers ≡ ok text)
          × (b58 : String) × (strip_char b'z' parsed.signature ≡ some b58)
          × (bytes : List ℕ) × (L.bs58_decode b58 ≡ ok bytes)
          × (length bytes ≡ 64)
          × (L.verify key text bytes ≡ true)
          × (parsed.key_id ≡ did))
  check_signature_iff failed did key parts parsed = (
    λ h.
        let (text, a, k1) = (bind-eq-ok_iff _ _ did).0 h in
        let (b58, b, k2) = (bind-eq-ok_iff _ _ did).0 k1 in
        let (bytes, c, k3) = (bind-eq-ok_iff _ _ did).0 k2 in
        let (d, k4) =
          (then-eq-ok_iff
              (require {E = String} (eqb (length bytes) 64) "signature must be 64 bytes") _ did).0
            k3 in
        let (e, k5) = (then-eq-ok_iff (require (L.verify key text bytes) failed) _ did).0 k4 in
        (
          text,
          (prefix_err-eq-ok_iff _ _ text).0 a,
          b58,
          (ok_or-eq-ok_iff _ _ b58).0 b,
          bytes,
          (prefix_err-eq-ok_iff _ _ bytes).0 c,
          (eqb_iff (length bytes) 64).0 ((require_iff _ "signature must be 64 bytes").0 d),
          (require_iff _ failed).0 e,
          cc k5,
        ),
    λ (text, a, b58, b, bytes, c, d, e, f). rw (a, b, c, d, e, check_signature) (ap ok f),
  )

  pub registered_key_iff :
      (s : Inner P) (did : String) (key : L.VerifyingKey)
      → (registered_key P L s did ≡ ok key) ↔ (
          (profile : AgentProfile P) × (lookup did s.agents ≡ some profile)
          × (multibase : String) × (profile.public_key ≡ some multibase)
          × (decode_multibase_key P L multibase ≡ ok key))
  unfolding get_agent
  registered_key_iff s did key = (
    λ h.
        let (profile, a, k2) = (bind-eq-ok_iff _ _ key).0 h in
        let (multibase, c, k3) = (bind-eq-ok_iff _ _ key).0 k2 in
        (
          profile,
          (ok_or-eq-ok_iff _ _ profile).0 a,
          multibase,
          (ok_or-eq-ok_iff _ _ multibase).0 c,
          (prefix_err-eq-ok_iff _ _ key).0 k3,
        ),
    λ (profile, a, multibase, b, c). rw (a, b, c, registered_key) refl,
  )
