-- ===== src/Prelude/Every.antt =====
-- A predicate of every element, under the list functions.
use circle_core.Prelude.{
  ℕ, zero, suc, ◌≡◌, Bool, true, List, [], ◌∷◌, ◌++◌, All, keep_if, take, Bool-cases, inl, inr,
}

module _ {ℓ κ} {A : Type ℓ} (Q : A → Type κ) where
  pub All-keep_if : (p : A → Bool) (l : List A) → All Q l → All Q (keep_if p l)
  All-keep_if p [] h = tt
  All-keep_if p (x ∷ l) h = elim (Bool-cases (p x)) [
    | inl e ↦ rw e (h.0, All-keep_if p l h.1)
    | inr e ↦ rw e (All-keep_if p l h.1)
  ]

  pub All-take : (n : ℕ) (l : List A) → All Q l → All Q (take n l)
  All-take zero l h = tt
  All-take (suc n) [] h = tt
  All-take (suc n) (x ∷ l) h = (h.0, All-take n l h.1)

  pub All-append : (xs ys : List A) → All Q xs → All Q ys → All Q (xs ++ ys)
  All-append [] ys hx hy = hy
  All-append (x ∷ xs) ys hx hy = (hx.0, All-append xs ys hx.1 hy)

  pub All-remove :
      (xs : List A) (a : A) (ys : List A) → All Q (xs ++ a ∷ ys) → All Q (xs ++ ys) × Q a
  All-remove [] a ys h = (h.1, h.0)
  All-remove (x ∷ xs) a ys h = let (rest, q) = All-remove xs a ys h.1 in ((h.0, rest), q)

pub All-keep_if_test {ℓ} :
    {A : Type ℓ} (p : A → Bool) (l : List A) → All (λ x. p x ≡ true) (keep_if p l)
All-keep_if_test p [] = tt
All-keep_if_test p (x ∷ l) = elim (Bool-cases (p x)) [
  | inl e ↦ rw e (e, All-keep_if_test p l)
  | inr e ↦ rw e (All-keep_if_test p l)
]

pub All-map {ℓ κ} :
    {A : Type ℓ} (Q R : A → Type κ) → ((a : A) → Q a → R a) → (l : List A) → All Q l → All R l
All-map Q R f [] h = tt
All-map Q R f (x ∷ l) h = (f x h.0, All-map Q R f l h.1)

pub All-both {ℓ κ} :
    {A : Type ℓ} (Q R : A → Type κ) (l : List A) → All Q l → All R l → All (λ a. Q a × R a) l
All-both Q R [] h k = tt
All-both Q R (x ∷ l) h k = ((h.0, k.0), All-both Q R l h.1 k.1)
