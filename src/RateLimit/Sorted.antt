-- ===== src/RateLimit/Sorted.antt =====
-- About the order of the rules and the widest of their windows.
use circle_core.Prelude.{ℕ, ◌≤◌, ◌≡◌, refl, ◌∙◌, String, List, [], ◌∷◌, if◌then◌else◌, arith, All}
use circle_core.RateLimit.{Rule, insert_rule, sort_rules, widest}
use circle_core.RateLimit.Reference.{History, permits, reference_run}

abbrev pub IsNarrow : ℕ → List Rule → Type 0
IsNarrow window = All (λ r. r.1 ≤ window)

-- The rules that `__init__` sorts.
permits-insert_rule :
    (r : Rule) (rules : List Rule) (key : String) (now : ℕ) (h : History)
    → permits (insert_rule r rules) key now h ≡ permits (r ∷ rules) key now h
unfolding insert_rule permits
permits-insert_rule r [] key now h = refl
permits-insert_rule r (q ∷ rules) key now h = ground (arith, permits-insert_rule r rules key now h)

permits-cons :
    (r : Rule) (rules rules' : List Rule) (key : String) (now : ℕ) (h : History)
    → permits rules key now h ≡ permits rules' key now h
    → permits (r ∷ rules) key now h ≡ permits (r ∷ rules') key now h
unfolding permits
permits-cons r rules rules' key now h e = ground arith

permits-sort_rules :
    (rules : List Rule) (key : String) (now : ℕ) (h : History)
    → permits (sort_rules rules) key now h ≡ permits rules key now h
unfolding sort_rules
permits-sort_rules [] key now h = refl
permits-sort_rules (r ∷ rules) key now h =
    permits-insert_rule r (sort_rules rules) key now h
    ∙ permits-cons r (sort_rules rules) rules key now h (permits-sort_rules rules key now h)

pub reference_run-sort_rules :
    (rules : List Rule) (calls : List (String × ℕ)) (h : History)
    → reference_run (sort_rules rules) calls h ≡ reference_run rules calls h
unfolding reference_run
reference_run-sort_rules rules [] h = refl
reference_run-sort_rules rules ((key, now) ∷ calls) h = rw permits-sort_rules (
    rw (
      reference_run-sort_rules rules calls (if permits rules key now h then (key, now) ∷ h else h)))

pub IsNarrow-mono : (v w : ℕ) (rules : List Rule) → v ≤ w → IsNarrow v rules → IsNarrow w rules
IsNarrow-mono v w [] p n = tt
IsNarrow-mono v w (r ∷ rules) p n = (omega arith, IsNarrow-mono v w rules p n.1)

pub widest-IsNarrow : (rules : List Rule) → IsNarrow (widest rules) rules
unfolding widest
widest-IsNarrow [] = tt
widest-IsNarrow ((m, w) ∷ rules) = (
  ground arith,
  IsNarrow-mono (widest rules) (widest ((m, w) ∷ rules)) rules (ground arith)
      (widest-IsNarrow rules),
)
