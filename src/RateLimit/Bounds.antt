-- ===== src/RateLimit/Bounds.antt =====
-- What the limiter promises its callers: no window ever holds more accepted hits than its rule
-- allows.
use circle_core.Prelude.{
  ℕ, ◌+◌, ◌≤◌, ◌<◌, ◌≡◌, Bool, true, ◌&&◌, String, List, [], ◌∷◌, ltb, leb, if◌then◌else◌, count_if,
  str_eq, eq_iff, arith, All, Bool-cases, inl, inr,
}
use circle_core.RateLimit.{Rule, new_limiter, run}
use circle_core.RateLimit.Reference.{History, hits_within, permits, reference_run, IsMonotone}
use circle_core.RateLimit.Refines.{run-reference_run}

-- The accepted calls of a run, newest first, read off from the calls and the answers.
unfoldable pub accepted : List (String × ℕ) → List Bool → History → History
accepted [] answers h = h
accepted (call ∷ calls) [] h = h
accepted (call ∷ calls) (answer ∷ answers) h =
    accepted calls answers (if answer then call ∷ h else h)

-- The accepted hits of `key` in the window (t - w, t].
unfoldable pub load : String → ℕ → ℕ → History → ℕ
load key w t = count_if (λ e. str_eq e.0 key && (leb e.1 t && ltb t (e.1 + w)))

-- Each hit of the history found its key's window not full.
unfoldable pub IsSpaced : Rule → History → Type 0
IsSpaced r [] = Unit
IsSpaced r ((key, now) ∷ h) = (hits_within key r.1 now h < r.0) × IsSpaced r h

-- Before `t` a window that ends at `t` is covered by the one that ends at the last hit.
load-le-hits_within :
    (key : String) (w now t : ℕ) (h : History) → now ≤ t → load key w t h ≤ hits_within key w now h
unfolding load hits_within
load-le-hits_within key w now t [] p = omega arith
load-le-hits_within key w now t (e ∷ h) p = ground (arith, load-le-hits_within key w now t h p)

load-le : (r : Rule) (key : String) (t : ℕ) (h : History) → IsSpaced r h → load key r.1 t h ≤ r.0
unfolding load IsSpaced
load-le r key t [] sp = omega arith
load-le r key t ((k, now) ∷ h) sp =
    ground (arith, load-le r key t h sp.1, load-le-hits_within key r.1 now t h, eq_iff k key)

permits-IsSpaced :
    (rules : List Rule) (key : String) (now : ℕ) (h : History)
    → permits rules key now h ≡ true
    → All (λ r. IsSpaced r h) rules
    → All (λ r. IsSpaced r ((key, now) ∷ h)) rules
unfolding permits IsSpaced
permits-IsSpaced [] key now h ok sp = tt
permits-IsSpaced (r ∷ rules) key now h ok sp =
    ((ground arith, sp.0), permits-IsSpaced rules key now h (ground arith) sp.1)

reference_run-IsSpaced :
    (rules : List Rule) (calls : List (String × ℕ)) (h : History)
    → All (λ r. IsSpaced r h) rules
    → All (λ r. IsSpaced r (accepted calls (reference_run rules calls h).0 h)) rules
unfolding reference_run accepted
reference_run-IsSpaced rules [] h sp = sp
reference_run-IsSpaced rules ((key, now) ∷ calls) h sp =
    elim (Bool-cases (permits rules key now h)) [
      | inl ok ↦ rw ok (
          reference_run-IsSpaced rules calls ((key, now) ∷ h)
            (permits-IsSpaced rules key now h ok sp))
      | inr full ↦ rw full (reference_run-IsSpaced rules calls h sp)
    ]

IsSpaced-nil : (rules : List Rule) → All (λ r. IsSpaced r []) rules
unfolding IsSpaced
IsSpaced-nil [] = tt
IsSpaced-nil (r ∷ rules) = (tt, IsSpaced-nil rules)

All-load :
    (rules : List Rule) (key : String) (t : ℕ) (h : History)
    → All (λ r. IsSpaced r h) rules
    → All (λ r. load key r.1 t h ≤ r.0) rules
All-load [] key t h sp = tt
All-load (r ∷ rules) key t h sp = (load-le r key t h sp.0, All-load rules key t h sp.1)

-- Whatever calls a new limiter is given, by a clock that does not run backwards, the calls that it
-- accepts for a key in the window of length w that ends at t number at most max_requests, for each
-- of its rules (max_requests, w), each key and each moment t.
pub run-load-le :
    (second : ℕ) (rules : List Rule) (calls : List (String × ℕ)) (key : String) (t : ℕ)
    → IsMonotone 0 calls
    → All
        (λ r. load key r.1 t (accepted calls (run calls (new_limiter second rules)).0 []) ≤ r.0)
        rules
run-load-le second rules calls key t mono =
    rw (run-reference_run second rules calls mono)
      (All-load rules key t _ (reference_run-IsSpaced rules calls [] (IsSpaced-nil rules)))
