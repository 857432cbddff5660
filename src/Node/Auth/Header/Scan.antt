-- ===== src/Node/Auth/Header/Scan.antt =====
-- The character scans of packages/node/src/middleware/auth.rs on texts that are put together.
use Prim.Native.Char.{Char, code}
use Prim.Native.String.append
use symantic_weft.Prelude.{
  Bool, true, false, not, ◌&&◌, some, List, [], ◌∷◌, String, eqb, concat, has_char, arith,
  if◌then◌else◌, ◌≡◌, refl, ap, sym, ◌∙◌, Bool-cases, inl, inr,
}
use symantic_weft.Node.Auth.Header.{strip_last, is_nil, scan_params}

-- Whether the scan stands inside quotes behind the text.
abbrev pub quotes_after : Bool → String → Bool
quotes_after q String.[] = q
quotes_after q (String.◌∷◌ c s) =
    if eqb (code c) b'"' then quotes_after (not q) s else quotes_after q s

-- One scan after the other: the open part goes on.
abbrev pub glue : String → List String → String × List String → String × List String
glue x [] next = (concat x next.0, next.1)
glue x (y ∷ ys) next = let later = glue y ys next in (x, later.0 ∷ later.1)

glue-cons :
    (c : Char) (x : String) (xs : List String) (next : String × List String)
    → glue (String.◌∷◌ c x) xs next ≡ (String.◌∷◌ c (glue x xs next).0, (glue x xs next).1)
glue-cons c x [] next = ap (λ h. (h, next.1)) (append.cons c x next.0)
glue-cons c x (y ∷ ys) next = refl

module _ (q : Bool) (c : Char) (s : String) where
  scan-quote :
      eqb (code c) b'"' ≡ true
      → scan_params q (String.◌∷◌ c s)
        ≡ (String.◌∷◌ c (scan_params (not q) s).0, (scan_params (not q) s).1)
  unfolding scan_params
  scan-quote a = rw (a, scan_params) refl

  scan-comma :
      eqb (code c) b'"' ≡ false
      → (eqb (code c) b',' && not q) ≡ true
      → scan_params q (String.◌∷◌ c s) ≡ ("", (scan_params q s).0 ∷ (scan_params q s).1)
  unfolding scan_params
  scan-comma a b = rw (a, b, scan_params) refl

  scan-other :
      eqb (code c) b'"' ≡ false
      → (eqb (code c) b',' && not q) ≡ false
      → scan_params q (String.◌∷◌ c s) ≡ (String.◌∷◌ c (scan_params q s).0, (scan_params q s).1)
  unfolding scan_params
  scan-other a b = rw (a, b, scan_params) refl

  quotes-quote : eqb (code c) b'"' ≡ true → quotes_after q (String.◌∷◌ c s) ≡ quotes_after (not q) s
  quotes-quote a = rw a refl

  quotes-other : eqb (code c) b'"' ≡ false → quotes_after q (String.◌∷◌ c s) ≡ quotes_after q s
  quotes-other a = rw a refl

-- Two equal descriptions of the first scan glue to the same
reglued :
    (t : String) {x y : String × List String} {p q : Bool}
    → x ≡ y
    → p ≡ q
    → glue y.0 y.1 (scan_params q t) ≡ glue x.0 x.1 (scan_params p t)
reglued t e k = λ i. glue (sym e i).0 (sym e i).1 (scan_params (sym k i) t)

pub scan_params-concat :
    (q : Bool) (s t : String)
    → scan_params q (concat s t)
      ≡ glue (scan_params q s).0 (scan_params q s).1 (scan_params (quotes_after q s) t)
unfolding scan_params
scan_params-concat q String.[] t = ap (scan_params q) (append.nil t) ∙ λ i.
    (sym (append.nil (scan_params q t).0) i, (scan_params q t).1)
scan_params-concat q (String.◌∷◌ c s) t =
    ap (scan_params q) (append.cons c s t) ∙ elim (Bool-cases (eqb (code c) b'"')) [
      | inl a ↦
          let ih = scan_params-concat (not q) s t in
          scan-quote q c (concat s t) a
          ∙ (λ i. (String.◌∷◌ c (ih i).0, (ih i).1))
          ∙ sym (glue-cons c _ _ _)
          ∙ reglued t (scan-quote q c s a) (quotes-quote q c s a)
      | inr a ↦
          let ih = scan_params-concat q s t in
          elim (Bool-cases (eqb (code c) b',' && not q)) [
            | inl b ↦
                scan-comma q c (concat s t) a b
                ∙ (λ i. ("", (ih i).0 ∷ (ih i).1))
                ∙ reglued t (scan-comma q c s a b) (quotes-other q c s a)
            | inr b ↦
                scan-other q c (concat s t) a b
                ∙ (λ i. (String.◌∷◌ c (ih i).0, (ih i).1))
                ∙ sym (glue-cons c _ _ _)
                ∙ reglued t (scan-other q c s a b) (quotes-other q c s a)
          ]
    ]

pub scan_params-quoted : (s : String) → has_char b'"' s ≡ false → scan_params true s ≡ (s, [])
unfolding scan_params
scan_params-quoted String.[] h = refl
scan_params-quoted (String.◌∷◌ c s) h = ground (arith, scan_params-quoted s)

pub quotes_after-plain : (q : Bool) (s : String) → has_char b'"' s ≡ false → quotes_after q s ≡ q
quotes_after-plain q String.[] h = refl
quotes_after-plain q (String.◌∷◌ c s) h = ground (arith, quotes_after-plain q s)

pub quotes_after-concat :
    (q : Bool) (s t : String) → quotes_after q (concat s t) ≡ quotes_after (quotes_after q s) t
quotes_after-concat q String.[] t = ap (quotes_after q) (append.nil t)
quotes_after-concat q (String.◌∷◌ c s) t =
    ap (quotes_after q) (append.cons c s t) ∙ elim (Bool-cases (eqb (code c) b'"')) [
      | inl a ↦
          quotes-quote q c (concat s t) a
          ∙ quotes_after-concat (not q) s t
          ∙ ap (λ p. quotes_after p t) (sym (quotes-quote q c s a))
      | inr a ↦
          quotes-other q c (concat s t) a
          ∙ quotes_after-concat q s t
          ∙ ap (λ p. quotes_after p t) (sym (quotes-other q c s a))
    ]

strip_last-cons :
    (c : Char) (s front : String)
    → strip_last b'"' s ≡ some front
    → strip_last b'"' (String.◌∷◌ c s) ≡ some (String.◌∷◌ c front)
unfolding strip_last
strip_last-cons c s front h = rw (h, strip_last) refl

pub strip_last-concat : (s : String) → strip_last b'"' (concat s "\"") ≡ some s
unfolding strip_last is_nil
strip_last-concat String.[] = refl
strip_last-concat (String.◌∷◌ c s) =
    ap (strip_last b'"') (append.cons c s "\"")
    ∙ strip_last-cons c (concat s "\"") s (strip_last-concat s)
