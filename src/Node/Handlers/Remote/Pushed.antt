-- ===== src/Node/Handlers/Remote/Pushed.antt =====
-- The attempts of `push_to_inbox` of packages/node/src/handlers/units.rs.
use symantic_weft.Prelude.{
  ℕ, zero, suc, ◌+◌, ◌<◌, Bool, true, false, not, ◌&&◌, Option, none, some, [], ◌∷◌, ◌++◌, String,
  ltb, concat, arith, ◌≡◌, refl, ap, sym, ◌∙◌, ◌↔◌, ◌⊎◌, inl, inr, Bool-cases, subst,
}
use symantic_weft.Platform.{Platform}
use symantic_weft.Node.Handlers.Remote.{
  Internet, Reply, status, failed, Outcome, is_success, another, after_reply, attempts_from,
  max_attempts, Sender,
}

-- The unit arrived.
abbrev pub arrived : {A : Type 0} → Reply A → Bool
arrived (status s _) = is_success s
arrived (failed e) = false

-- Another attempt may help: there was no answer, or an error of the server.
abbrev pub may_retry : {A : Type 0} → Reply A → Bool
may_retry (status s _) = not (is_success s) && not (ltb s 500)
may_retry (failed e) = true

first_plus_zero : (n : ℕ) → n + 0 ≡ n
first_plus_zero n = omega arith

-- The attempts from number `first` on, of which `left` are allowed
pub record AreAttempts (net : Internet) (url : String) (left first : ℕ) (o : Outcome) : Type 0 where
  pub earlier : ℕ
  pub count : o.attempts ≡ suc earlier
  pub within : earlier < left
  pub retried : (k : ℕ) → k < earlier → may_retry (net.post url (first + k)) ≡ true
  pub ended : (suc earlier ≡ left) ⊎ (may_retry (net.post url (first + earlier)) ≡ false)
  pub result : (o.error ≡ none) ↔ (arrived (net.post url (first + earlier)) ≡ true)

-- The three ways in which a turn ends
after_reply-cases :
    (decimal : ℕ → String) (r : Reply (Unit {0})) (more : String → Outcome)
    → ((arrived r ≡ true)
        × (may_retry r ≡ false)
        × (after_reply decimal r more ≡ record { attempts = 1; error = none }))
      ⊎ (((e : String) × (arrived r ≡ false)
            × (may_retry r ≡ false)
            × (after_reply decimal r more ≡ record { attempts = 1; error = some e }))
          ⊎ ((e : String) × (arrived r ≡ false)
              × (may_retry r ≡ true)
              × (after_reply decimal r more ≡ another (more e))))
unfolding after_reply
after_reply-cases decimal (failed e) more =
    inr (inr (concat "delivery failed: " e, refl, refl, refl))
after_reply-cases decimal (status s _) more = elim (Bool-cases (is_success s)) [
  | inl b ↦ inl (b, rw b refl, rw (b, after_reply) refl)
  | inr b ↦ elim (Bool-cases (ltb s 500)) [
    | inl c ↦ inr (
        inl (
          concat "remote inbox returned HTTP " (decimal s),
          b,
          rw (b, c) refl,
          rw (b, c, after_reply) refl,
        ))
    | inr c ↦ inr (
        inr (
          concat "remote inbox returned HTTP " (decimal s),
          b,
          rw (b, c) refl,
          rw (b, c, after_reply) refl,
        ))
  ]
]

module _ (net : Internet) (decimal : ℕ → String) (url : String) where
  one_attempt :
      (left first : ℕ) (o : Outcome)
      → may_retry (net.post url first) ≡ false
      → o.attempts ≡ 1
      → (o.error ≡ none) ↔ (arrived (net.post url first) ≡ true)
      → AreAttempts net url (suc left) first o
  one_attempt left first o h c e = record {
    earlier = 0;
    count = c;
    within = omega arith;
    retried = λ k below. absurd (omega arith);
    ended = inr (ap (λ n. may_retry (net.post url n)) (first_plus_zero first) ∙ h);
    result =
        subst (λ n. (o.error ≡ none) ↔ (arrived (net.post url n) ≡ true))
          (sym (first_plus_zero first)) e;
  }

  shifted : (first n : ℕ) → suc first + n ≡ first + suc n
  shifted first n = omega arith

  another-AreAttempts :
      (left first : ℕ) (o : Outcome)
      → may_retry (net.post url first) ≡ true
      → AreAttempts net url left (suc first) o
      → AreAttempts net url (suc left) first (another o)
  another-AreAttempts left first o h w = record {
    earlier = suc w.earlier;
    count = ap suc w.count;
    within = omega (arith, w.within);
    retried = retried;
    ended = elim w.ended [
      | inl e ↦ inl (ap suc e)
      | inr e ↦ inr (ap (λ n. may_retry (net.post url n)) (sym (shifted first w.earlier)) ∙ e)
    ];
    result =
        subst (λ n. (o.error ≡ none) ↔ (arrived (net.post url n) ≡ true)) (shifted first w.earlier)
          w.result;
  }
    where
      retried : (k : ℕ) → k < suc w.earlier → may_retry (net.post url (first + k)) ≡ true
      retried zero below = ap (λ n. may_retry (net.post url n)) (first_plus_zero first) ∙ h
      retried (suc k) below =
          ap (λ n. may_retry (net.post url n)) (sym (shifted first k)) ∙ w.retried k (omega arith)

  last_attempt :
      (first : ℕ) (m : String)
      → arrived (net.post url first) ≡ false
      → AreAttempts net url 1 first (record { attempts = 1; error = some m })
  last_attempt first m h = record {
    earlier = 0;
    count = refl;
    within = omega arith;
    retried = λ k below. absurd (omega arith);
    ended = inl refl;
    result = (
      λ e. cc,
      λ e. cc (sym (ap (λ n. arrived (net.post url n)) (first_plus_zero first) ∙ h) ∙ e),
    );
  }

  -- One turn and what comes after it
  turn :
      (left first : ℕ) (more : String → Outcome)
      → ((m : String)
          → arrived (net.post url first) ≡ false
          → may_retry (net.post url first) ≡ true
          → AreAttempts net url (suc left) first (another (more m)))
      → AreAttempts net url (suc left) first (after_reply decimal (net.post url first) more)
  turn left first more again = elim (after_reply-cases decimal (net.post url first) more) [
    | inl (a, b, e) ↦
        subst (AreAttempts net url (suc left) first) (sym e)
          (one_attempt left first _ b refl (λ h. a, λ h. refl))
    | inr (inl (m, a, b, e)) ↦
        subst (AreAttempts net url (suc left) first) (sym e)
          (one_attempt left first _ b refl (λ h. cc, λ h. cc (a, h)))
    | inr (inr (m, a, b, e)) ↦ subst (AreAttempts net url (suc left) first) (sym e) (again m a b)
  ]

  pub attempts_from-AreAttempts :
      (left first : ℕ) (last : String)
      → AreAttempts net url (suc left) first (attempts_from net decimal url (suc left) first last)
  unfolding attempts_from
  attempts_from-AreAttempts zero first last = turn 0 first _ (λ m a b. last_attempt first m a)
  attempts_from-AreAttempts (suc left) first last = turn (suc left) first _ (λ m a b.
      another-AreAttempts (suc left) first _ b (attempts_from-AreAttempts left (suc first) m))

-- One failure notice more where there is an error
abbrev pub noticed : Option String → ℕ → ℕ
noticed none n = n
noticed (some reason) n = suc n

module _ (P : Platform) (net : Internet) (node_did base : String) where
  -- What the delivery of a unit to a URL comes to
  pub record IsPushed (url : String) (s t : Sender P) : Type 0 where
    pub outcome : Outcome
    pub tried : AreAttempts net url max_attempts 1 outcome
    pub posted : t.posted ≡ s.posted ++ ((url, outcome.attempts) ∷ [])
    pub notices : t.notices ≡ noticed outcome.error s.notices
    pub quiet : outcome.error ≡ none → t.storage ≡ s.storage
