-- ===== src/Dict/Distinct.antt =====
-- Dictionaries in which no key stands twice.
use circle_core.Prelude.{
  ℕ, zero, suc, String, ◌≡◌, ◌≢◌, refl, Bool, none, some, [], ◌∷◌, arith, str_eq, eq_iff, All,
  keep_if, take, Bool-cases, inl, inr,
}
use circle_core.Dict.{Dict, lookup, insert, erase}

module _ {ℓ} {V : Type ℓ} where
  -- No entry has the key.
  abbrev pub Lacks : String → Dict V → Type ℓ
  Lacks k [] = Unit
  Lacks k ((j, v) ∷ m) = (j ≢ k) × Lacks k m

  abbrev pub Distinct : Dict V → Type ℓ
  Distinct [] = Unit
  Distinct ((k, v) ∷ m) = Lacks k m × Distinct m

  pub lookup-Lacks : (k : String) (m : Dict V) → Lacks k m → lookup k m ≡ none
  unfolding lookup
  lookup-Lacks k [] h = refl
  lookup-Lacks k ((j, v) ∷ m) h = ground (arith, eq_iff j k, lookup-Lacks k m h.1)

  insert-Lacks : (k j : String) (v : V) (m : Dict V) → j ≢ k → Lacks k m → Lacks k (insert j v m)
  unfolding insert
  insert-Lacks k j v [] n h = (n, tt)
  insert-Lacks k j v ((i, w) ∷ m) n h = elim (Bool-cases (str_eq i j)) [
    | inl e ↦ rw e (n, h.1)
    | inr e ↦ rw e (h.0, insert-Lacks k j v m n h.1)
  ]

  pub insert-Distinct : (j : String) (v : V) (m : Dict V) → Distinct m → Distinct (insert j v m)
  unfolding insert
  insert-Distinct j v [] h = (tt, tt)
  insert-Distinct j v ((i, w) ∷ m) h = elim (Bool-cases (str_eq i j)) [
    | inl e ↦ rw e (rw ((eq_iff i j).0 e) at h)
    | inr e ↦
        rw e (insert-Lacks i j v m (λ p. ground (arith, eq_iff i j)) h.0, insert-Distinct j v m h.1)
  ]

  erase-Lacks : (k j : String) (m : Dict V) → Lacks k m → Lacks k (erase j m)
  unfolding erase
  erase-Lacks k j [] h = tt
  erase-Lacks k j ((i, w) ∷ m) h = elim (Bool-cases (str_eq i j)) [
    | inl e ↦ rw e (erase-Lacks k j m h.1)
    | inr e ↦ rw e (h.0, erase-Lacks k j m h.1)
  ]

  pub erase-Distinct : (j : String) (m : Dict V) → Distinct m → Distinct (erase j m)
  unfolding erase
  erase-Distinct j [] h = tt
  erase-Distinct j ((i, w) ∷ m) h = elim (Bool-cases (str_eq i j)) [
    | inl e ↦ rw e (erase-Distinct j m h.1)
    | inr e ↦ rw e (erase-Lacks i j m h.0, erase-Distinct j m h.1)
  ]

  keep_if-Lacks :
      (k : String) (p : String × V → Bool) (m : Dict V) → Lacks k m → Lacks k (keep_if p m)
  keep_if-Lacks k p [] h = tt
  keep_if-Lacks k p ((i, w) ∷ m) h = elim (Bool-cases (p (i, w))) [
    | inl e ↦ rw e (h.0, keep_if-Lacks k p m h.1)
    | inr e ↦ rw e (keep_if-Lacks k p m h.1)
  ]

  pub keep_if-Distinct : (p : String × V → Bool) (m : Dict V) → Distinct m → Distinct (keep_if p m)
  keep_if-Distinct p [] h = tt
  keep_if-Distinct p ((i, w) ∷ m) h = elim (Bool-cases (p (i, w))) [
    | inl e ↦ rw e (keep_if-Lacks i p m h.0, keep_if-Distinct p m h.1)
    | inr e ↦ rw e (keep_if-Distinct p m h.1)
  ]

  take-Lacks : (k : String) (n : ℕ) (m : Dict V) → Lacks k m → Lacks k (take n m)
  take-Lacks k zero m h = tt
  take-Lacks k (suc n) [] h = tt
  take-Lacks k (suc n) ((i, w) ∷ m) h = (h.0, take-Lacks k n m h.1)

  pub take-Distinct : (n : ℕ) (m : Dict V) → Distinct m → Distinct (take n m)
  take-Distinct zero m h = tt
  take-Distinct (suc n) [] h = tt
  take-Distinct (suc n) ((i, w) ∷ m) h = (take-Lacks i n m h.0, take-Distinct n m h.1)

  -- Every entry is found under its key.
  abbrev pub Found : Dict V → String × V → Type ℓ
  Found m e = lookup e.0 m ≡ some e.1

  Found-cons :
      (k : String) (v : V) (m rest : Dict V)
      → Lacks k rest
      → All (Found m) rest
      → All (Found ((k, v) ∷ m)) rest
  unfolding lookup
  Found-cons k v m [] l h = tt
  Found-cons k v m ((j, w) ∷ rest) l h = (ground (arith, eq_iff k j), Found-cons k v m rest l.1 h.1)

  pub Distinct-Found : (m : Dict V) → Distinct m → All (Found m) m
  unfolding lookup
  Distinct-Found [] h = tt
  Distinct-Found ((k, v) ∷ m) h =
      (ground (arith, eq_iff k k), Found-cons k v m m h.0 (Distinct-Found m h.1))
