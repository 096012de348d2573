-- ===== src/RateLimit/Reference.antt =====
-- A limiter that forgets nothing: every accepted hit is kept, newest first, and each window is
-- counted over the whole history.
use circle_core.Prelude.{
  ℕ, ◌+◌, ◌≤◌, Bool, true, false, ◌&&◌, String, List, [], ◌∷◌, ltb, leb, if◌then◌else◌, count_if,
  str_eq,
}
use circle_core.RateLimit.{Rule}

abbrev pub History : Type 0
History = List (String × ℕ)

-- The accepted hits of `key` that lie in the window that ends at `now`.
unfoldable pub hits_within : String → ℕ → ℕ → History → ℕ
hits_within key window now = count_if (λ e. str_eq e.0 key && ltb now (e.1 + window))

unfoldable pub permits : List Rule → String → ℕ → History → Bool
permits [] key now h = true
permits ((m, w) ∷ rules) key now h =
    if leb m (hits_within key w now h) then false else permits rules key now h

unfoldable pub reference_run : List Rule → List (String × ℕ) → History → List Bool × History
reference_run rules [] h = ([], h)
reference_run rules ((key, now) ∷ calls) h =
    let answer = permits rules key now h in
    let (answers, h') = reference_run rules calls (if answer then (key, now) ∷ h else h) in
    (answer ∷ answers, h')

-- The clock does not run backwards.
abbrev pub IsMonotone : ℕ → List (String × ℕ) → Type 0
IsMonotone t [] = Unit
IsMonotone t ((key, now) ∷ calls) = (t ≤ now) × IsMonotone now calls
