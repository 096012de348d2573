-- ===== src/RateLimit/Refines.antt =====
-- The limiter, which evicts old hits and collects idle keys, answers as the one that forgets
-- nothing.
use circle_core.Prelude.{
  ℕ, ◌+◌, ◌*◌, ◌≤◌, ◌≡◌, refl, ap, ◌∙◌, Bool, String, List, [], ◌∷◌, ◌++◌, ltb, if◌then◌else◌,
  str_eq, eq_iff, arith, Bool-cases, inl, inr,
}
use mathlib.Core.Path.{ap₂}
use circle_core.Dict.{Dict, lookup, insert, erase, keys, lookup-insert, lookup-erase}
use circle_core.RateLimit.{
  Rule, Limiter, sort_rules, new_limiter, hits_of, evict, recent, within, collect_key, collect_keys,
  collect_garbage, allow, run,
}
use circle_core.RateLimit.Reference.{History, hits_within, permits, reference_run, IsMonotone}
use circle_core.RateLimit.Sorted.{IsNarrow, reference_run-sort_rules, widest-IsNarrow}

-- Evicted hits count in no window that is at most as wide, then or later.
recent-evict :
    (w window now t : ℕ) (hits : List ℕ)
    → w ≤ window
    → now ≤ t
    → recent w t (evict window now hits) ≡ recent w t hits
unfolding recent evict
recent-evict w window now t [] p q = refl
recent-evict w window now t (x ∷ hits) p q = ground (arith, recent-evict w window now t hits p q)

recent-append :
    (w t x : ℕ) (hits : List ℕ)
    → recent w t (hits ++ x ∷ []) ≡ recent w t hits + (if ltb t (x + w) then 1 else 0)
unfolding recent
recent-append w t x [] = ground arith
recent-append w t x (y ∷ hits) = ground (arith, recent-append w t x hits)

hits_of-insert :
    (k j : String) (l : List ℕ) (d : Dict (List ℕ))
    → hits_of j (insert k l d) ≡ (if str_eq k j then l else hits_of j d)
unfolding hits_of
hits_of-insert k j l d = ground (arith, lookup-insert k j l d)

hits_of-erase :
    (k j : String) (d : Dict (List ℕ))
    → hits_of j (erase k d) ≡ (if str_eq k j then [] else hits_of j d)
unfolding hits_of
hits_of-erase k j d = ground (arith, lookup-erase k j d)

hits_of-collect_key :
    (window now : ℕ) (k j : String) (d : Dict (List ℕ))
    → hits_of j (collect_key window now k d)
      ≡ (if str_eq k j then evict window now (hits_of k d) else hits_of j d)
unfolding collect_key
hits_of-collect_key window now k j d = go (evict window now (hits_of k d))
  where
    go :
        (l : List ℕ)
        → hits_of j (elim l [ [] ↦ erase k d | t ∷ ts ↦ insert k (t ∷ ts) d ])
          ≡ (if str_eq k j then l else hits_of j d)
    go [] = hits_of-erase k j d
    go (t ∷ ts) = hits_of-insert k j (t ∷ ts) d

module _ (window w now t : ℕ) (narrow : w ≤ window) (later : now ≤ t) (j : String) where
  recent-collect_key :
      (k : String) (d : Dict (List ℕ))
      → recent w t (hits_of j (collect_key window now k d)) ≡ recent w t (hits_of j d)
  recent-collect_key k d = ground (
    arith,
    hits_of-collect_key window now k j d,
    eq_iff k j,
    recent-evict w window now t (hits_of k d) narrow later,
  )

  recent-collect_keys :
      (ks : List String) (d : Dict (List ℕ))
      → recent w t (hits_of j (collect_keys window now ks d)) ≡ recent w t (hits_of j d)
  unfolding collect_keys
  recent-collect_keys [] d = refl
  recent-collect_keys (k ∷ ks) d =
      recent-collect_keys ks (collect_key window now k d) ∙ recent-collect_key k d

  recent-collect_garbage :
      (s : Limiter)
      → s.max_window ≡ window
      → recent w t (hits_of j (collect_garbage now s).hits) ≡ recent w t (hits_of j s.hits)
  unfolding collect_garbage
  recent-collect_garbage s e = elim (Bool-cases (ltb now (s.last_gc + 60 * s.second))) [
    | inl early ↦ rw early
    | inr due ↦ rw (due, e) (recent-collect_keys (keys s.hits) s.hits)
  ]

-- From `now` on, every count that a rule can ask for is the same on both sides.
record Agrees (s : Limiter) (h : History) (now : ℕ) : Type 0 where
  narrow : IsNarrow s.max_window s.rules
  same :
      (key : String) (w t : ℕ)
      → w ≤ s.max_window
      → now ≤ t
      → recent w t (hits_of key s.hits) ≡ hits_within key w t h

within-permits :
    (window now : ℕ) (key : String) (hits : List ℕ) (h : History) (rules : List Rule)
    → IsNarrow window rules
    → ((w : ℕ) → w ≤ window → recent w now hits ≡ hits_within key w now h)
    → within rules now (evict window now hits) ≡ permits rules key now h
unfolding within permits
within-permits window now key hits h [] n same = refl
within-permits window now key hits h ((m, w) ∷ rules) n same = ground (
  arith,
  within-permits window now key hits h rules n.1 same,
  same w,
  recent-evict w window now now hits n.0,
)

module _ (s : Limiter) (h : History) {before : ℕ} (key : String) (now : ℕ) (ag : Agrees s h before)
    (later : before ≤ now) where
  allow-permits : (allow key now s).0 ≡ permits s.rules key now h
  unfolding allow
  allow-permits = ground (
    arith,
    within-permits s.max_window now key (hits_of key s.hits) h s.rules ag.narrow
        (λ w p. ag.same key w now p later),
  )

  evicted_same :
      (j : String) (w t : ℕ)
      → w ≤ s.max_window
      → now ≤ t
      → recent w t (hits_of j (insert key (evict s.max_window now (hits_of key s.hits)) s.hits))
        ≡ hits_within j w t h
  evicted_same j w t p q = ground (
    arith,
    eq_iff key j,
    hits_of-insert key j (evict s.max_window now (hits_of key s.hits)) s.hits,
    recent-evict w s.max_window now t (hits_of key s.hits) p q,
    ag.same j w t p,
  )

  accepted_same :
      (j : String) (w t : ℕ)
      → w ≤ s.max_window
      → now ≤ t
      → recent w t
          (hits_of j (insert key (evict s.max_window now (hits_of key s.hits) ++ now ∷ []) s.hits))
        ≡ hits_within j w t ((key, now) ∷ h)
  unfolding hits_within
  accepted_same j w t p q = ground (
    arith,
    eq_iff key j,
    hits_of-insert key j (evict s.max_window now (hits_of key s.hits) ++ now ∷ []) s.hits,
    recent-append w t now (evict s.max_window now (hits_of key s.hits)),
    recent-evict w s.max_window now t (hits_of key s.hits) p q,
    ag.same j w t p,
  )

collect_garbage-rules :
    (now : ℕ) (s : Limiter)
    → ((collect_garbage now s).rules ≡ s.rules)
      × ((collect_garbage now s).max_window ≡ s.max_window)
unfolding collect_garbage
collect_garbage-rules now s = ground arith

collect_garbage-Agrees :
    (s : Limiter) (h : History) (now : ℕ) → Agrees s h now → Agrees (collect_garbage now s) h now
collect_garbage-Agrees s h now ag =
    let (rs, ws) = collect_garbage-rules now s in
    record {
      narrow = rw (rs, ws) ag.narrow;
      same = λ j w t p q.
          let narrow : w ≤ s.max_window = omega (arith, ws) in
          recent-collect_garbage s.max_window w now t narrow q j s refl ∙ ag.same j w t narrow q;
    }

allow-Agrees :
    (s : Limiter) (h : History) {before : ℕ} (key : String) (now : ℕ)
    → Agrees s h before
    → before ≤ now
    → Agrees (allow key now s).1 (if (allow key now s).0 then (key, now) ∷ h else h) now
      × ((allow key now s).1.rules ≡ s.rules)
unfolding allow
allow-Agrees s h key now ag later =
    elim (Bool-cases (within s.rules now (evict s.max_window now (hits_of key s.hits)))) [
      | inl good ↦ rw good (
        collect_garbage-Agrees _ _ now
            (record { narrow = ag.narrow; same = accepted_same s h key now ag later }),
        (collect_garbage-rules now _).0,
      )
      | inr full ↦
          rw full (record { narrow = ag.narrow; same = evicted_same s h key now ag later }, refl)
    ]

run-Agrees :
    (calls : List (String × ℕ)) (s : Limiter) (h : History) (before : ℕ)
    → Agrees s h before
    → IsMonotone before calls
    → (run calls s).0 ≡ (reference_run s.rules calls h).0
unfolding run reference_run
run-Agrees [] s h before ag mono = refl
run-Agrees ((key, now) ∷ calls) s h before ag mono =
    let (next, same_rules) = allow-Agrees s h key now ag mono.0 in
    let answers_agree = allow-permits s h key now ag mono.0 in
    ap₂ ◌∷◌ answers_agree
      (rw (same_rules, answers_agree) at (run-Agrees calls (allow key now s).1 _ now next mono.1))

new_limiter-Agrees : (second : ℕ) (rules : List Rule) → Agrees (new_limiter second rules) [] 0
unfolding new_limiter
new_limiter-Agrees second rules = record {
  narrow = widest-IsNarrow (sort_rules rules);
  same = λ key w t p q. unfold hits_of lookup recent hits_within in refl;
}

-- A new limiter, given calls in the order of a clock that does not run backwards, gives the
-- answers of the limiter that keeps every accepted hit for ever: neither eviction nor the
-- collection of idle keys changes an answer.
pub run-reference_run :
    (second : ℕ) (rules : List Rule) (calls : List (String × ℕ))
    → IsMonotone 0 calls
    → (run calls (new_limiter second rules)).0 ≡ (reference_run rules calls []).0
run-reference_run second rules calls mono =
    run-Agrees calls (new_limiter second rules) [] 0 (new_limiter-Agrees second rules) mono
    ∙ (unfold new_limiter in
        ap (λ (r : List Bool × History). r.0) (reference_run-sort_rules rules calls []))
