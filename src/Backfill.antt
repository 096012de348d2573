-- ===== src/Backfill.antt =====
-- app/services/company_email_backfill.py: which employees move onto their company mailbox.
pub mod Plan
mod Examples
use circle_core.Prelude.{
  ℕ, Bool, true, false, ◌&&◌, ◌||◌, not, String, Option, none, some, List, [], ◌∷◌, ◌++◌,
  if◌then◌else◌, any, keep_if, count_if, ltb, ◌==◌, map, str_eq,
}
use circle_core.Text.{Text, codes, text_eq, is_empty, strip, starts_with}
use circle_core.Text.Ops.{contains, ends_with}
use circle_core.Value.{Value, null, text, Fields, closed, field, get, is_falsy, is_text}
use circle_core.Value.Update.{set}
use circle_core.Builtins.{Builtins, str, str_or_empty}

pub record EmailMove : Type 0 where
  pub employee_id : Text
  pub name : Text
  pub old_email : Text
  pub new_email : Text

pub data Reason : Type 0 where
  no_onboarding : Reason
  no_company_email : Reason
  wrong_domain : Reason
  taken_email : Reason
  duplicate : Reason

pub record EmailSkip : Type 0 where
  pub employee_id : Text
  pub name : Text
  pub email : Text
  pub reason : Reason

pub record BackfillPlan : Type 0 where
  pub moves : List EmailMove
  pub skips : List EmailSkip

-- `_norm`
unfoldable pub norm : Builtins → Value → Text
norm o v = o.lower (strip (str_or_empty o v))

-- `s.lstrip("@")`
lstrip_at : Text → Text
lstrip_at [] = []
lstrip_at (c ∷ s) = let rest = lstrip_at s in if c == b'@' then rest else c ∷ s

unfoldable pub on_domain : Builtins → Text → Text → Bool
unfolding ends_with lstrip_at norm
on_domain o email domain = ends_with (norm o (text email)) (b'@' ∷ lstrip_at (norm o (text domain)))

-- The keys of the two dictionaries of onboarding records.
candidate_key : Builtins → Fields → Text
candidate_key o d =
    if is_falsy (get "candidateId" d) then str o (get "id" d) else str o (get "candidateId" d)

by_candidate : Builtins → Text → Fields → Bool
unfolding candidate_key
by_candidate o key d = text_eq (candidate_key o d) key

by_employee : Builtins → Text → Fields → Bool
by_employee o key d =
    not (is_falsy (get "employeeId" d)) && text_eq (str o (get "employeeId" d)) key

-- What a dictionary holds that was filled from a list: the last entry of a key.
last_with : (Fields → Bool) → List Fields → Option Fields
last_with p [] = none
last_with p (d ∷ ds) = elim (last_with p ds) [
  | some e ↦ some e
  | none ↦ if p d then some d else none
]

-- `a or b`; an empty dictionary counts as none.
first_full : Option Fields → Option Fields → Option Fields
first_full none b = b
first_full (some closed) b = b
first_full (some (field k v d)) b = some (field k v d)

-- `_onboarding_for`
onboarding_for : Builtins → List Fields → Fields → Option Fields
unfolding first_full last_with by_candidate by_employee
onboarding_for o onboarding employee =
    first_full (last_with (by_candidate o (str_or_empty o (get "candidateId" employee))) onboarding)
      (last_with (by_employee o (str_or_empty o (get "id" employee))) onboarding)

company_email : Builtins → Option Fields → Text
company_email o none = norm o null
company_email o (some d) = norm o (get "allocationEmail" d)

-- `company in taken`
unfoldable pub is_taken : Builtins → List Fields → Text → Bool
is_taken o employees company = any (λ e. text_eq (norm o (get "email" e)) company) employees

reason_for : Builtins → Text → List Fields → Option Fields → Text → Option Reason
reason_for o domain employees none company = some no_onboarding
reason_for o domain employees (some d) company =
    if not (contains (codes "@") company)
    then some no_company_email
    else if not (on_domain o company domain)
    then some wrong_domain
    else if is_taken o employees company
    then some taken_email
    else none

-- An employee who has left or is on the domain is passed over.
unfoldable pub is_passed_over : Builtins → Text → Fields → Bool
is_passed_over o domain e =
    is_text "Offboarded" (get "status" e) || on_domain o (norm o (get "email" e)) domain

-- What the loop does with one employee.
pub data Verdict : Type 0 where
  pass_over : Verdict
  skip : EmailSkip → Verdict
  propose : EmailMove → Verdict

skip_of : Builtins → Fields → Reason → EmailSkip
skip_of o e reason = record {
  employee_id = str_or_empty o (get "id" e);
  name = str_or_empty o (get "fullName" e);
  email = norm o (get "email" e);
  reason = reason;
}

move_of : Builtins → Fields → Text → EmailMove
move_of o e company = record {
  employee_id = str_or_empty o (get "id" e);
  name = str_or_empty o (get "fullName" e);
  old_email = norm o (get "email" e);
  new_email = company;
}

pub verdict : Builtins → Text → List Fields → List Fields → Fields → Verdict
unfolding reason_for onboarding_for company_email skip_of move_of
verdict o domain employees onboarding e =
    let found = onboarding_for o onboarding e in
    let company = company_email o found in
    if is_passed_over o domain e
    then pass_over
    else elim (reason_for o domain employees found company) [
      | some reason ↦ skip (skip_of o e reason)
      | none ↦ propose (move_of o e company)
    ]

proposed : List Verdict → List EmailMove
proposed [] = []
proposed (pass_over ∷ vs) = proposed vs
proposed (skip s ∷ vs) = proposed vs
proposed (propose m ∷ vs) = m ∷ proposed vs

skipped : List Verdict → List EmailSkip
skipped [] = []
skipped (pass_over ∷ vs) = skipped vs
skipped (skip s ∷ vs) = s ∷ skipped vs
skipped (propose m ∷ vs) = skipped vs

-- `Counter(move.new_email for move in ...)`
unfoldable pub times : List EmailMove → EmailMove → ℕ
times ms m = count_if (λ x. text_eq x.new_email m.new_email) ms

duplicate_of : EmailMove → EmailSkip
duplicate_of m = record {
  employee_id = m.employee_id;
  name = m.name;
  email = m.old_email;
  reason = duplicate;
}

-- The end of the plan: an address proposed more than once is nobody's.
pub settle : List EmailMove → List EmailSkip → BackfillPlan
unfolding times duplicate_of
settle ms skips = record {
  moves = keep_if (λ m. times ms m == 1) ms;
  skips = skips ++ map duplicate_of (keep_if (λ m. ltb 1 (times ms m)) ms);
}

pub plan_backfill : Builtins → List Fields → List Fields → Text → BackfillPlan
unfolding verdict proposed skipped settle
plan_backfill o employees onboarding domain =
    let vs = map (verdict o domain employees onboarding) employees in
    settle (proposed vs) (skipped vs)

pub apply_move : Builtins → Fields → EmailMove → Fields
unfolding set
apply_move o employee m =
    let updated = set "email" (text m.new_email) employee in
    if is_empty (strip (str_or_empty o (get "personalEmail" employee)))
    then set "personalEmail" (get "email" employee) updated
    else updated
