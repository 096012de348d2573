-- ===== src/Screening/Fit.antt =====
-- What the rating says, and that it never falls when an answer gets better.
use circle_core.Prelude.{
  ℕ, ◌*◌, ◌≤◌, ◌≡◌, ◌↔◌, refl, Bool, true, false, ◌&&◌, List, [], ◌∷◌, leb, if◌then◌else◌, any,
  keep_if, count_if, length, arith, ◌⊎◌, ◌∙◌, ◌<◌,
}
use mathlib.Core.Path.{ap₂}
use circle_core.Text.{is_empty}
use circle_core.Screening.{
  Answer, Rating, fit, borderline, unfit, has_importance, failed_must_have, good_to_have,
  compute_fit,
}

abbrev asked : List Answer → ℕ
asked = count_if good_to_have

abbrev passed : List Answer → ℕ
passed = count_if (λ g. good_to_have g && g.passed)

length-keep_if {ℓ} :
    {A : Type ℓ} (p : A → Bool) (xs : List A) → length (keep_if p xs) ≡ count_if p xs
length-keep_if p [] = refl
length-keep_if p (x ∷ xs) = ground (arith, length-keep_if p xs)

count_if-keep_if {ℓ} :
    {A : Type ℓ} (p q : A → Bool) (xs : List A)
    → count_if q (keep_if p xs) ≡ count_if (λ x. p x && q x) xs
count_if-keep_if p q [] = refl
count_if-keep_if p q (x ∷ xs) = ground (arith, count_if-keep_if p q xs)

-- The rating in one formula.
rating : Bool → ℕ → ℕ → Rating
rating failed n k = if failed then unfit else if leb (3 * n) (5 * k) then fit else borderline

rating_of_none :
    (failed : Bool) (good : List Answer) (k : ℕ)
    → (if failed
        then unfit
        else if is_empty good
        then fit
        else if leb (3 * length good) (5 * k)
        then fit
        else borderline)
      ≡ rating failed (length good) k
unfolding rating is_empty
rating_of_none true good k = refl
rating_of_none false [] k = ground arith
rating_of_none false (g ∷ good) k = refl

compute_fit-rating :
    (answers : List Answer)
    → compute_fit answers ≡ rating (any failed_must_have answers) (asked answers) (passed answers)
unfolding compute_fit
compute_fit-rating [] = unfold rating in refl
compute_fit-rating (a ∷ rest) =
    let good = keep_if good_to_have (a ∷ rest) in
    rating_of_none (any failed_must_have (a ∷ rest)) good (count_if (λ g. g.passed) good)
    ∙ ap₂ (rating (any failed_must_have (a ∷ rest))) (length-keep_if good_to_have (a ∷ rest))
        (count_if-keep_if good_to_have (λ g. g.passed) (a ∷ rest))

-- A rating is unfit exactly if an answer to a must-have question fails; it is borderline exactly if
-- none does and fewer than three in five of the answers to good-to-have questions pass.
pub compute_fit_lem :
    (answers : List Answer)
    → ((compute_fit answers ≡ unfit) ↔ (any failed_must_have answers ≡ true))
      × ((compute_fit answers ≡ borderline) ↔ (
          (any failed_must_have answers ≡ false)
          × (5 * count_if (λ g. good_to_have g && g.passed) answers
              < 3 * count_if good_to_have answers)))
unfolding rating
compute_fit_lem answers =
    let e = compute_fit-rating answers in
    ((λ h. ground arith, λ h. ground arith), (λ h. ground arith, λ h. ground arith))

-- The same questions, and each answer that passes on the left passes on the right.
abbrev pub Improves : List Answer → List Answer → Type 0
Improves [] [] = Unit
Improves [] (b ∷ ys) = ⊥
Improves (a ∷ xs) [] = ⊥
Improves (a ∷ xs) (b ∷ ys) =
    (a.importance ≡ b.importance) × ((a.passed ≡ false) ⊎ (b.passed ≡ true)) × Improves xs ys

abbrev pub rank : Rating → ℕ
rank unfit = 0
rank borderline = 1
rank fit = 2

abbrev truth : Bool → ℕ
truth true = 1
truth false = 0

failed-Improves :
    (xs ys : List Answer)
    → Improves xs ys
    → truth (any failed_must_have ys) ≤ truth (any failed_must_have xs)
unfolding failed_must_have has_importance
failed-Improves [] [] h = omega arith
failed-Improves [] (b ∷ ys) h = absurd h
failed-Improves (a ∷ xs) [] h = absurd h
failed-Improves (a ∷ xs) (b ∷ ys) h = ground (arith, failed-Improves xs ys h.2)

asked-Improves : (xs ys : List Answer) → Improves xs ys → asked ys ≡ asked xs
unfolding good_to_have has_importance
asked-Improves [] [] h = refl
asked-Improves [] (b ∷ ys) h = absurd h
asked-Improves (a ∷ xs) [] h = absurd h
asked-Improves (a ∷ xs) (b ∷ ys) h = ground (arith, asked-Improves xs ys h.2)

passed-Improves : (xs ys : List Answer) → Improves xs ys → passed xs ≤ passed ys
unfolding good_to_have has_importance
passed-Improves [] [] h = omega arith
passed-Improves [] (b ∷ ys) h = absurd h
passed-Improves (a ∷ xs) [] h = absurd h
passed-Improves (a ∷ xs) (b ∷ ys) h = ground (arith, passed-Improves xs ys h.2)

rank-rating :
    (f g : Bool) (n k l : ℕ) → truth g ≤ truth f → k ≤ l → rank (rating f n k) ≤ rank (rating g n l)
unfolding rating
rank-rating f g n k l h p = ground arith

-- The rating never falls when answers that failed pass instead.
pub compute_fit_mono :
    (xs ys : List Answer) → Improves xs ys → rank (compute_fit xs) ≤ rank (compute_fit ys)
compute_fit_mono xs ys h =
    rw (compute_fit-rating xs, compute_fit-rating ys, asked-Improves xs ys h)
      (rank-rating _ _ (asked xs) _ _ (failed-Improves xs ys h) (passed-Improves xs ys h))
