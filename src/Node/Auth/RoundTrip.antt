-- ===== src/Node/Auth/RoundTrip.antt =====
-- The header of `build_outbound_signature` read by `parse_signature_header`
-- (packages/node/src/middleware/auth.rs).
use Prim.Native.Char.{Char, code}
use Prim.Native.String.append
use Prim.Native.String.compare
use text.Mathlib.Text.{is_eq}
use text.Mathlib.TextLemmas.{append-nil, append_assoc}
use symantic_weft.Prelude.{
  ◌≤◌, ◌<◌, true, false, none, some, [], ◌∷◌, String, concat, has_char, arith, ◌≡◌, refl, ap, sym,
  ◌∙◌, ok, ◌>>=◌, eqb, if◌then◌else◌, ◌==◌, strip_prefix, split_char,
}
use symantic_weft.Prelude.Text.Prefix.{strip_prefix-concat, strip_prefix-other}
use symantic_weft.Platform.{Platform}
use symantic_weft.Node.Auth.Header.{
  Fields, strip_char, scan_params, trimmed_parts, split_signature_params, unquote, take_named,
  take_params, parse_signature_header,
}
use symantic_weft.Node.Auth.Header.Scan.{
  quotes_after, quotes_after-concat, glue, scan_params-concat, scan_params-quoted,
  quotes_after-plain, strip_last-concat,
}
use symantic_weft.Node.Auth.Outbound.{quoted, signature_header}

-- `trim` leaves a text alone that starts with a visible ASCII character and ends with a quote.
abbrev pub KeepsTight : (String → String) → Type 0
KeepsTight trim =
    (c : Char) (s : String)
    → 33 ≤ code c
    → code c < 127
    → trim (String.◌∷◌ c (concat s "\"")) ≡ String.◌∷◌ c (concat s "\"")

-- `name="value"` as a text that starts with the name's first character and ends with a quote
tight :
    (c : Char) (name value : String)
    → concat (String.◌∷◌ c name) (quoted value)
      ≡ String.◌∷◌ c (concat (concat name (concat "\"" value)) "\"")
tight c name value =
    append.cons c name (quoted value)
    ∙ ap (String.◌∷◌ c) (
        ap (concat name) (sym (append_assoc "\"" value "\""))
        ∙ sym (append_assoc name (concat "\"" value) "\""))

quoted-tight : (value : String) → quoted value ≡ String.◌∷◌ "\"" (concat value "\"")
quoted-tight value =
    append.cons "\"" "" (concat value "\"") ∙ ap (String.◌∷◌ "\"") (append.nil (concat value "\""))

scan_params-value :
    (value : String)
    → has_char b'"' value ≡ false
    → (scan_params false (quoted value) ≡ (quoted value, []))
      × (quotes_after false (quoted value) ≡ false)
unfolding scan_params
scan_params-value value h = (
  scan_params-concat false "\"" (concat value "\"") ∙ (λ i. glue "\"" [] (
      (scan_params-concat true value "\"" ∙ (λ j.
          glue (scan_params-quoted value h j).0 (scan_params-quoted value h j).1
            (scan_params (quotes_after-plain true value h j) "\"")))
        i)),
  quotes_after-concat false "\"" (concat value "\"")
      ∙ quotes_after-concat true value "\""
      ∙ ap (λ q. quotes_after q "\"") (quotes_after-plain true value h),
)

abbrev algorithm_param : String
algorithm_param = "algorithm=\"ed25519\""

abbrev headers_param : String
headers_param = "headers=\"(request-target) host date\""

scan_params-rest :
    (signature : String)
    → has_char b'"' signature ≡ false
    → scan_params false (
        concat ",algorithm=\"ed25519\",headers=\"(request-target) host date\",signature="
          (quoted signature))
      ≡ ("", algorithm_param ∷ headers_param ∷ concat "signature=" (quoted signature) ∷ [])
unfolding scan_params
scan_params-rest signature k =
    scan_params-concat false
      ",algorithm=\"ed25519\",headers=\"(request-target) host date\",signature=" (quoted signature)
    ∙ ap (glue "" (algorithm_param ∷ headers_param ∷ "signature=" ∷ []))
        (scan_params-value signature k).0

scan_params-header :
    (did signature : String)
    → has_char b'"' did ≡ false
    → has_char b'"' signature ≡ false
    → scan_params false (signature_header did signature) ≡ (
      concat "keyId=" (quoted did),
      algorithm_param ∷ headers_param ∷ concat "signature=" (quoted signature) ∷ [],
    )
unfolding scan_params signature_header
scan_params-header did signature h k =
    let rest =
      concat ",algorithm=\"ed25519\",headers=\"(request-target) host date\",signature="
        (quoted signature) in
    let (value, after) = scan_params-value did h in
    scan_params-concat false "keyId=" (concat (quoted did) rest)
    ∙ ap (glue "keyId=" []) (
        scan_params-concat false (quoted did) rest
        ∙ (λ i. glue (value i).0 (value i).1 (scan_params (after i) rest))
        ∙ ap (glue (quoted did) []) (scan_params-rest signature k))
    ∙ ap
        (λ x. (
          concat "keyId=" x,
          algorithm_param ∷ headers_param ∷ concat "signature=" (quoted signature) ∷ [],
        ))
        (append-nil (quoted did))

not_empty_cons : (c : Char) (s : String) → (String.◌∷◌ c s == "") ≡ false
not_empty_cons c s = ap is_eq (compare.cons-nil c s)

module _ (P : Platform) (keeps : KeepsTight P.trim) where
  unquote-trimmed :
      (value : String)
      → P.trim (quoted value) ≡ String.◌∷◌ "\"" (concat value "\"")
      → unquote P (quoted value) ≡ ok value
  unfolding unquote strip_char
  unquote-trimmed value t = rw (t, strip_last-concat value, unquote, strip_char) refl

  unquote-quoted : (value : String) → unquote P (quoted value) ≡ ok value
  unquote-quoted value =
      let e = keeps "\"" value (omega arith) (omega arith) in
      let t : P.trim (quoted value) ≡ String.◌∷◌ "\"" (concat value "\"") =
        ap P.trim (quoted-tight value) ∙ e in
      unquote-trimmed value t

  trim-param :
      (c : Char) (name value : String)
      → 33 ≤ code c
      → code c < 127
      → P.trim (concat (String.◌∷◌ c name) (quoted value))
        ≡ concat (String.◌∷◌ c name) (quoted value)
  trim-param c name value low high =
      ap P.trim (tight c name value) ∙ keeps c _ low high ∙ sym (tight c name value)

  trim-key : (did : String) → P.trim (concat "keyId=" (quoted did)) ≡ concat "keyId=" (quoted did)
  trim-key did = trim-param "k" "eyId=" did (omega arith) (omega arith)

  trim-algorithm : P.trim algorithm_param ≡ algorithm_param
  trim-algorithm = trim-param "a" "lgorithm=" "ed25519" (omega arith) (omega arith)

  trim-headers : P.trim headers_param ≡ headers_param
  trim-headers = trim-param "h" "eaders=" "(request-target) host date" (omega arith) (omega arith)

  trim-signature :
      (x : String) → P.trim (concat "signature=" (quoted x)) ≡ concat "signature=" (quoted x)
  trim-signature x = trim-param "s" "ignature=" x (omega arith) (omega arith)

  last_part :
      (x : String)
      → trimmed_parts P (concat "signature=" (quoted x)) [] ≡ concat "signature=" (quoted x) ∷ []
  unfolding trimmed_parts
  last_part x =
      ap (λ t. if t == "" then [] else t ∷ []) (trim-signature x)
      ∙ ap (λ b. if b then [] else concat "signature=" (quoted x) ∷ [])
          (ap (λ t. t == "") (tight "s" "ignature=" x) ∙ not_empty_cons "s" _)

  trimmed :
      (did signature : String)
      → trimmed_parts P
          (concat "keyId=" (quoted did))
          (algorithm_param ∷ headers_param ∷ concat "signature=" (quoted signature) ∷ [])
        ≡ concat "keyId=" (quoted did)
          ∷ algorithm_param
          ∷ headers_param
          ∷ concat "signature=" (quoted signature)
          ∷ []
  unfolding trimmed_parts
  trimmed did signature =
      λ i. trim-key did i ∷ trim-algorithm i ∷ trim-headers i ∷ last_part signature i

  split_signature_params-header :
      (did signature : String)
      → has_char b'"' did ≡ false
      → has_char b'"' signature ≡ false
      → split_signature_params P (signature_header did signature)
        ≡ concat "keyId=" (quoted did)
          ∷ algorithm_param
          ∷ headers_param
          ∷ concat "signature=" (quoted signature)
          ∷ []
  unfolding split_signature_params
  split_signature_params-header did signature h k =
      (λ i.
        trimmed_parts P (scan_params-header did signature h k i).0
          (scan_params-header did signature h k i).1)
      ∙ trimmed did signature

  take-key :
      (did : String) (f : Fields)
      → take_named P (concat "keyId=" (quoted did)) f ≡ ok (record f { key_id = some did })
  unfolding take_named
  take-key did f =
      rw (strip_prefix-concat "keyId=" (quoted did), unquote-quoted did, take_named) refl

  take-algorithm :
      (f : Fields) → take_named P algorithm_param f ≡ ok (record f { algorithm = some "ed25519" })
  unfolding take_named strip_prefix
  take-algorithm f =
      ap (λ r. r >>= λ value. ok (record f { algorithm = some value })) (unquote-quoted "ed25519")

  take-headers :
      (f : Fields)
      → take_named P headers_param f
        ≡ ok (record f { headers = some ("(request-target)" ∷ "host" ∷ "date" ∷ []) })
  unfolding take_named strip_prefix split_char
  take-headers f =
      ap
        (λ r. r >>= λ value.
          ok (record f { headers = some ((split_char b' ' value).0 ∷ (split_char b' ' value).1) }))
        (unquote-quoted "(request-target) host date")

  starts_with_s :
      (c : Char) (p x : String)
      → eqb (code c) b's' ≡ false
      → strip_prefix (String.◌∷◌ c p) (concat "signature=" (quoted x)) ≡ none
  starts_with_s c p x h =
      ap (strip_prefix (String.◌∷◌ c p)) (append.cons "s" "ignature=" (quoted x))
      ∙ strip_prefix-other c "s" p (concat "ignature=" (quoted x)) h

  take-signature :
      (x : String) (f : Fields)
      → take_named P (concat "signature=" (quoted x)) f ≡ ok (record f { signature = some x })
  unfolding take_named
  take-signature x f =
      rw
        (
          starts_with_s "k" "eyId=" x refl,
          starts_with_s "a" "lgorithm=" x refl,
          starts_with_s "h" "eaders=" x refl,
          strip_prefix-concat "signature=" (quoted x),
          unquote-quoted x,
          take_named,
        )
        refl

  taken :
      (did signature : String) (f : Fields)
      → take_params P
          (concat "keyId=" (quoted did)
            ∷ algorithm_param
            ∷ headers_param
            ∷ concat "signature=" (quoted signature)
            ∷ [])
          f
        ≡ ok (record {
          key_id = some did;
          algorithm = some "ed25519";
          headers = some ("(request-target)" ∷ "host" ∷ "date" ∷ []);
          signature = some signature;
        })
  unfolding take_params
  taken did signature f =
      rw
        (
          trim-key did,
          take-key did f,
          trim-algorithm,
          take-algorithm _,
          trim-headers,
          take-headers _,
          trim-signature signature,
          take-signature signature _,
          take_params,
        )
        refl

  finish :
      (did signature : String)
      → take_params P
          (split_signature_params P (signature_header did signature))
          (record { key_id = none; algorithm = none; headers = none; signature = none })
        ≡ ok (record {
          key_id = some did;
          algorithm = some "ed25519";
          headers = some ("(request-target)" ∷ "host" ∷ "date" ∷ []);
          signature = some signature;
        })
      → parse_signature_header P (signature_header did signature)
        ≡ ok (record {
          key_id = did;
          algorithm = "ed25519";
          headers = "(request-target)" ∷ "host" ∷ "date" ∷ [];
          signature = signature;
        })
  unfolding parse_signature_header
  finish did signature e = rw (e, parse_signature_header) refl

  pub parse_signature_header-outbound :
      (did signature : String)
      → has_char b'"' did ≡ false
      → has_char b'"' signature ≡ false
      → parse_signature_header P (signature_header did signature)
        ≡ ok (record {
          key_id = did;
          algorithm = "ed25519";
          headers = "(request-target)" ∷ "host" ∷ "date" ∷ [];
          signature = signature;
        })
  parse_signature_header-outbound did signature h k =
      let fields : Fields = record {
        key_id = none;
        algorithm = none;
        headers = none;
        signature = none;
      } in
      finish did signature (
        ap (λ ps. take_params P ps fields) (split_signature_params-header did signature h k)
        ∙ taken did signature fields)
