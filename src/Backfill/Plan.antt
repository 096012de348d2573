-- ===== src/Backfill/Plan.antt =====
-- What a plan promises: a move is safe to make, and nobody is forgotten.
use circle_core.Prelude.{
  ℕ, ◌+◌, ◌≤◌, ◌≡◌, refl, Bool, true, false, not, Option, none, some, List, [], ◌∷◌, if◌then◌else◌,
  keep_if, count_if, ltb, ◌==◌, map, length, All, arith, Bool-cases, inl, inr, Option-cases,
  length-append,
}
use circle_core.Text.{Text, codes, text_eq_refl}
use circle_core.Text.Ops.{contains}
use circle_core.Value.{Fields}
use circle_core.Builtins.{Builtins}
use circle_core.Prelude.Every.{All-keep_if, All-keep_if_test, All-both, All-map}
use circle_core.Backfill.{
  EmailMove, on_domain, is_taken, is_passed_over, onboarding_for, company_email, reason_for,
  Verdict, pass_over, skip, propose, move_of, verdict, proposed, skipped, times, duplicate_of,
  settle, plan_backfill,
}

-- A move onto a company address that no employee has.
pub record IsGood (o : Builtins) (domain : Text) (employees : List Fields) (m : EmailMove)
    : Type 0 where
  pub an_address : contains (codes "@") m.new_email ≡ true
  pub company : on_domain o m.new_email domain ≡ true
  pub unclaimed : is_taken o employees m.new_email ≡ false

reason_for-IsGood :
    (o : Builtins) (domain : Text) (employees : List Fields) (found : Option Fields) (e : Fields)
    (company : Text)
    → reason_for o domain employees found company ≡ none
    → IsGood o domain employees (move_of o e company)
unfolding reason_for move_of
reason_for-IsGood o domain employees none e company h = ground (arith)
reason_for-IsGood o domain employees (some d) e company h = record {
  an_address = ground (arith);
  company = ground (arith);
  unclaimed = ground (arith);
}

-- The verdict on a single employee, if it is a proposal, is good.
Proposes : Builtins → Text → List Fields → Verdict → Type 0
Proposes o domain employees pass_over = Unit
Proposes o domain employees (skip s) = Unit
Proposes o domain employees (propose m) = IsGood o domain employees m

verdict-Proposes :
    (o : Builtins) (domain : Text) (employees onboarding : List Fields) (e : Fields)
    → Proposes o domain employees (verdict o domain employees onboarding e)
unfolding verdict Proposes
verdict-Proposes o domain employees onboarding e =
    let found = onboarding_for o onboarding e in
    let company = company_email o found in
    elim (Bool-cases (is_passed_over o domain e)) [
      | inl p ↦ rw (p, verdict) tt
      | inr p ↦ elim (Option-cases (reason_for o domain employees found company)) [
        | inl r ↦ rw (p, r, verdict) (reason_for-IsGood o domain employees found e company r)
        | inr (reason, r) ↦ rw (p, r, verdict) tt
      ]
    ]

proposed-All :
    (o : Builtins) (domain : Text) (employees : List Fields) (vs : List Verdict)
    → All (Proposes o domain employees) vs
    → All (IsGood o domain employees) (proposed vs)
unfolding proposed Proposes
proposed-All o domain employees [] h = tt
proposed-All o domain employees (pass_over ∷ vs) h = proposed-All o domain employees vs h.1
proposed-All o domain employees (skip s ∷ vs) h = proposed-All o domain employees vs h.1
proposed-All o domain employees (propose m ∷ vs) h = (h.0, proposed-All o domain employees vs h.1)

verdicts-All :
    (o : Builtins) (domain : Text) (employees onboarding es : List Fields)
    → All (Proposes o domain employees) (map (verdict o domain employees onboarding) es)
verdicts-All o domain employees onboarding [] = tt
verdicts-All o domain employees onboarding (e ∷ es) = (
  verdict-Proposes o domain employees onboarding e,
  verdicts-All o domain employees onboarding es,
)

-- Every proposal is of a new address that is proposed at least once.
times_self : (ms : List EmailMove) → All (λ m. 1 ≤ times ms m) ms
unfolding times
times_self [] = tt
times_self (x ∷ ms) = (
  ground (arith, text_eq_refl x.new_email),
  All-map (λ m. 1 ≤ times ms m) (λ m. 1 ≤ times (x ∷ ms) m) (λ m h. ground (arith, h)) ms
      (times_self ms),
)

times-keep_if :
    (p : EmailMove → Bool) (ms : List EmailMove) (m : EmailMove)
    → times (keep_if p ms) m ≤ times ms m
unfolding times
times-keep_if p [] m = omega arith
times-keep_if p (x ∷ ms) m = ground (arith, times-keep_if p ms m)

-- A move of the plan is good, and its address is the new one of no other move.
pub record IsSafe (o : Builtins) (domain : Text) (employees : List Fields) (moves : List EmailMove)
    (m : EmailMove) : Type 0 where
  pub good : IsGood o domain employees m
  pub unique : times moves m ≡ 1

once-Safe :
    (o : Builtins) (domain : Text) (employees : List Fields) (ms : List EmailMove)
    → All (IsGood o domain employees) ms
    → All
        (IsSafe o domain employees (keep_if (λ m. times ms m == 1) ms))
        (keep_if (λ m. times ms m == 1) ms)
once-Safe o domain employees ms h =
    let kept = keep_if (λ m. times ms m == 1) ms in
    All-map (λ m. (IsGood o domain employees m × ((times ms m == 1) ≡ true)) × (1 ≤ times kept m))
      (IsSafe o domain employees kept)
      (λ m q. record {
        good = q.0.0;
        unique = ground (arith, q, times-keep_if (λ x. times ms x == 1) ms m);
      })
      kept
      (All-both _ _ kept
        (All-both _ _ kept (All-keep_if _ (λ m. times ms m == 1) ms h)
          (All-keep_if_test (λ m. times ms m == 1) ms))
        (times_self kept))

-- Every move of a plan is onto an address on the company's domain that no employee has, present or
-- past, and that no other move of the plan is onto.
pub plan_backfill-IsSafe :
    (o : Builtins) (employees onboarding : List Fields) (domain : Text)
    → All
        (IsSafe o domain employees (plan_backfill o employees onboarding domain).moves)
        (plan_backfill o employees onboarding domain).moves
unfolding plan_backfill settle
plan_backfill-IsSafe o employees onboarding domain =
    once-Safe o domain employees _
      (proposed-All o domain employees _ (verdicts-All o domain employees onboarding employees))

decided : Verdict → ℕ
decided pass_over = 0
decided (skip s) = 1
decided (propose m) = 1

proposed-skipped :
    (v : Verdict) (vs : List Verdict)
    → length (proposed (v ∷ vs)) + length (skipped (v ∷ vs))
      ≡ decided v + (length (proposed vs) + length (skipped vs))
unfolding proposed skipped decided
proposed-skipped pass_over vs = omega arith
proposed-skipped (skip s) vs = omega arith
proposed-skipped (propose m) vs = omega arith

verdict-decided :
    (o : Builtins) (domain : Text) (employees onboarding : List Fields) (e : Fields)
    → decided (verdict o domain employees onboarding e)
      ≡ (if is_passed_over o domain e then 0 else 1)
unfolding decided verdict
verdict-decided o domain employees onboarding e =
    let found = onboarding_for o onboarding e in
    let company = company_email o found in
    elim (Bool-cases (is_passed_over o domain e)) [
      | inl p ↦ rw (p, verdict) refl
      | inr p ↦ elim (Option-cases (reason_for o domain employees found company)) [
        | inl r ↦ rw (p, r, verdict) refl
        | inr (reason, r) ↦ rw (p, r, verdict) refl
      ]
    ]

verdicts_count :
    (o : Builtins) (domain : Text) (employees onboarding es : List Fields)
    → length (proposed (map (verdict o domain employees onboarding) es))
        + length (skipped (map (verdict o domain employees onboarding) es))
      ≡ count_if (λ e. not (is_passed_over o domain e)) es
unfolding proposed skipped
verdicts_count o domain employees onboarding [] = refl
verdicts_count o domain employees onboarding (e ∷ es) = ground (
  arith,
  proposed-skipped (verdict o domain employees onboarding e)
      (map (verdict o domain employees onboarding) es),
  verdict-decided o domain employees onboarding e,
  verdicts_count o domain employees onboarding es,
)

-- Of counts that are not 0, each is 1 or more than 1.
split_by_count :
    (f : EmailMove → ℕ) (xs : List EmailMove)
    → All (λ m. 1 ≤ f m) xs
    → length (keep_if (λ m. f m == 1) xs)
        + length (map duplicate_of (keep_if (λ m. ltb 1 (f m)) xs))
      ≡ length xs
split_by_count f [] h = refl
split_by_count f (x ∷ xs) h = ground (arith, h.0, split_by_count f xs h.1)

-- Every employee who has not left and is off the domain is in the plan, as one move or one reason
-- not to move; nobody else is.
plan_backfill_count :
    (o : Builtins) (employees onboarding : List Fields) (domain : Text)
    → length (plan_backfill o employees onboarding domain).moves
        + length (plan_backfill o employees onboarding domain).skips
      ≡ count_if (λ e. not (is_passed_over o domain e)) employees
unfolding plan_backfill settle
plan_backfill_count o employees onboarding domain =
    let vs = map (verdict o domain employees onboarding) employees in
    let ms = proposed vs in
    omega (
      arith,
      verdicts_count o domain employees onboarding employees,
      split_by_count (times ms) ms (times_self ms),
      length-append (skipped vs) (map duplicate_of (keep_if (λ m. ltb 1 (times ms m)) ms)),
    )
