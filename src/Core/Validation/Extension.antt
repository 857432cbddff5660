-- ===== src/Core/Validation/Extension.antt =====
-- `EXTENSION_RE` of packages/core/src/validation.rs, the regular expression
-- `^x-[a-z0-9]+(\.[a-z0-9]+)+$`, as the walk of its automaton, and the names that it accepts.
use Prim.Native.Char.{Char, code}
use Prim.Native.String.append
use text.Mathlib.TextEquality.{Char-path}
use symantic_weft.Prelude.{
  Bool-cases, inl, inr, ℕ, Bool, true, false, ◌&&◌, ◌||◌, ◌≡◌, refl, sym, ◌∙◌, ap, ◌↔◌, List, [],
  ◌∷◌, String, leb, eqb, concat, if◌then◌else◌, arith,
}

-- `[a-z0-9]`
abbrev pub is_alnum : ℕ → Bool
is_alnum n = (leb b'a' n && leb n b'z') || (leb b'0' n && leb n b'9')

-- Inside the segments: whether a dot has been read, and whether the segment is begun.
walk : Bool → Bool → String → Bool
walk dotted begun String.[] = dotted && begun
walk dotted begun (String.◌∷◌ c s) =
    let letter = walk dotted true s in
    let dot = walk true false s in
    if is_alnum (code c) then letter else if begun && eqb (code c) b'.' then dot else false

dash : String → Bool
dash String.[] = false
dash (String.◌∷◌ c s) = eqb (code c) b'-' && walk false false s

-- `EXTENSION_RE.is_match(name)`
unfoldable pub is_extension_name : String → Bool
unfolding walk dash
is_extension_name String.[] = false
is_extension_name (String.◌∷◌ c s) = eqb (code c) b'x' && dash s

-- A segment: at least one letter or digit, and nothing else.
abbrev pub AllAlnum : String → Type 0
AllAlnum String.[] = Unit
AllAlnum (String.◌∷◌ c s) = (is_alnum (code c) ≡ true) × AllAlnum s

abbrev pub IsSegment : String → Type 0
IsSegment String.[] = ⊥
IsSegment (String.◌∷◌ c s) = (is_alnum (code c) ≡ true) × AllAlnum s

abbrev pub AllSegments : List String → Type 0
AllSegments [] = Unit
AllSegments (s ∷ rest) = IsSegment s × AllSegments rest

-- each segment behind a dot
abbrev pub dotted_tail : List String → String
dotted_tail [] = ""
dotted_tail (s ∷ rest) = concat "." (concat s (dotted_tail rest))

-- "x-", a segment, and at least one more behind a dot.
pub record IsExtensionName (name : String) : Type 0 where
  pub first : String
  pub second : String
  pub others : List String
  pub segments : AllSegments (first ∷ second ∷ others)
  pub spelled : name ≡ concat "x-" (concat first (dotted_tail (second ∷ others)))

abbrev NonEmpty : List String → Type 0
NonEmpty [] = ⊥
NonEmpty (x ∷ xs) = Unit

-- How an accepted rest divides: the end of a segment, and whole segments behind dots.
record Split (dotted begun : Bool) (s : String) : Type 0 where
  head : String
  rest : List String
  alnum : AllAlnum head
  segments : AllSegments rest
  spelled : s ≡ concat head (dotted_tail rest)
  begins : begun ≡ false → IsSegment head
  dots : dotted ≡ false → NonEmpty rest

Split-letter :
    (dotted begun : Bool) (c : Char) (s : String)
    → is_alnum (code c) ≡ true
    → Split dotted true s
    → Split dotted begun (String.◌∷◌ c s)
Split-letter dotted begun c s e t = record {
  head = String.◌∷◌ c t.head;
  rest = t.rest;
  alnum = (e, t.alnum);
  segments = t.segments;
  spelled = ap (String.◌∷◌ c) t.spelled ∙ sym (append.cons c t.head (dotted_tail t.rest));
  begins = λ _. (e, t.alnum);
  dots = t.dots;
}

dot_text : (c : Char) (s : String) → code c ≡ b'.' → String.◌∷◌ c s ≡ concat "." s
dot_text c s e =
    ap (λ d. String.◌∷◌ d s) (Char-path c "." e)
    ∙ sym (append.cons "." String.[] s ∙ ap (String.◌∷◌ ".") (append.nil s))

Split-dot :
    (dotted : Bool) (c : Char) (s : String)
    → code c ≡ b'.'
    → Split true false s
    → Split dotted true (String.◌∷◌ c s)
Split-dot dotted c s e t = record {
  head = "";
  rest = t.head ∷ t.rest;
  alnum = tt;
  segments = (t.begins refl, t.segments);
  spelled = ap (String.◌∷◌ c) t.spelled ∙ dot_text c _ e ∙ sym (append.nil _);
  begins = λ h. cc;
  dots = λ _. tt;
}

walk_sound : (dotted begun : Bool) (s : String) → walk dotted begun s ≡ true → Split dotted begun s
unfolding walk
walk_sound true true String.[] h = record {
  head = "";
  rest = [];
  alnum = tt;
  segments = tt;
  spelled = sym (append.nil "");
  begins = λ e. cc;
  dots = λ e. cc;
}
walk_sound true false String.[] h = cc
walk_sound false begun String.[] h = cc
walk_sound dotted true (String.◌∷◌ c s) h = elim (Bool-cases (is_alnum (code c))) [
  | inl e ↦ Split-letter dotted true c s e (walk_sound dotted true s (rw e at h))
  | inr e ↦
      let e' : code c ≡ b'.' = ground arith in
      Split-dot dotted c s e' (walk_sound true false s (ground arith))
]
walk_sound dotted false (String.◌∷◌ c s) h = elim (Bool-cases (is_alnum (code c))) [
  | inl e ↦ Split-letter dotted false c s e (walk_sound dotted true s (rw e at h))
  | inr e ↦ absurd (ground arith)
]

walk-alnum :
    (dotted : Bool) (head t : String)
    → AllAlnum head
    → walk dotted true t ≡ true
    → walk dotted true (concat head t) ≡ true
unfolding walk
walk-alnum dotted String.[] t a h = rw append.nil h
walk-alnum dotted (String.◌∷◌ c s) t a h =
    rw append.cons (rw (a.0, walk) (walk-alnum dotted s t a.1 h))

walk-segment :
    (dotted begun : Bool) (head t : String)
    → IsSegment head
    → walk dotted true t ≡ true
    → walk dotted begun (concat head t) ≡ true
unfolding walk
walk-segment dotted begun String.[] t a h = absurd a
walk-segment dotted begun (String.◌∷◌ c s) t a h =
    rw append.cons (rw (a.0, walk) (walk-alnum dotted s t a.1 h))

walk-dotted_tail :
    (rest : List String) → AllSegments rest → walk true true (dotted_tail rest) ≡ true
unfolding walk
walk-dotted_tail [] a = refl
walk-dotted_tail (s ∷ rest) a =
    rw (← dot_text "." (concat s (dotted_tail rest)) refl)
      (walk-segment true false s (dotted_tail rest) a.0 (walk-dotted_tail rest a.1))

prefix_text :
    (c d : Char) (s : String)
    → code c ≡ b'x'
    → code d ≡ b'-'
    → String.◌∷◌ c (String.◌∷◌ d s) ≡ concat "x-" s
prefix_text c d s e f =
    ap (λ t. String.◌∷◌ t (String.◌∷◌ d s)) (Char-path c "x" e)
    ∙ ap (λ t. String.◌∷◌ "x" (String.◌∷◌ t s)) (Char-path d "-" f)
    ∙ sym (
        append.cons "x" (String.◌∷◌ "-" String.[]) s
        ∙ ap (String.◌∷◌ "x") (append.cons "-" String.[] s)
        ∙ ap (λ t. String.◌∷◌ "x" (String.◌∷◌ "-" t)) (append.nil s))

IsExtensionName-of_rest :
    (name s head : String) (rest : List String)
    → NonEmpty rest
    → IsSegment head
    → AllSegments rest
    → s ≡ concat head (dotted_tail rest)
    → name ≡ concat "x-" s
    → IsExtensionName name
IsExtensionName-of_rest name s head [] ne b a e f = absurd ne
IsExtensionName-of_rest name s head (second ∷ others) ne b a e f = record {
  first = head;
  second = second;
  others = others;
  segments = (b, a);
  spelled = f ∙ ap (concat "x-") e;
}

is_extension_name_sound : (name : String) → is_extension_name name ≡ true → IsExtensionName name
unfolding is_extension_name
is_extension_name_sound String.[] h = cc
is_extension_name_sound (String.◌∷◌ c String.[]) h = absurd (ground arith)
is_extension_name_sound (String.◌∷◌ c (String.◌∷◌ d s)) h =
    let t = walk_sound false false s (ground arith) in
    let e : code c ≡ b'x' = ground arith in
    let f : code d ≡ b'-' = ground arith in
    IsExtensionName-of_rest _ s t.head t.rest (t.dots refl) (t.begins refl) t.segments t.spelled
      (prefix_text c d s e f)

is_extension_name_complete : (name : String) → IsExtensionName name → is_extension_name name ≡ true
unfolding is_extension_name
is_extension_name_complete name n =
    let tail = dotted_tail n.others in
    rw n.spelled (
      rw (← prefix_text "x" "-" (concat n.first (concat "." (concat n.second tail))) refl refl) (
        walk-segment false false n.first (concat "." (concat n.second tail)) n.segments.0 (
          rw (← dot_text "." (concat n.second tail) refl) (
            walk-segment true false n.second tail n.segments.1.0
              (walk-dotted_tail n.others n.segments.1.1)))))

-- The automaton accepts exactly the names of the documented form.
pub is_extension_name_iff : (name : String) → (is_extension_name name ≡ true) ↔ IsExtensionName name
is_extension_name_iff name = (is_extension_name_sound name, is_extension_name_complete name)

test_valid : is_extension_name "x-com.example.myfield" ≡ true
unfolding is_extension_name
test_valid = refl

test_invalid :
    is_extension_name "x-com" || is_extension_name "x-Com.a" || is_extension_name "x-a..b" ≡ false
unfolding is_extension_name
test_invalid = refl
