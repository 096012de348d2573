-- ===== src/RateLimit.antt =====
-- app/core/rate_limit.py: the sliding-window limiter. Times are ticks of the monotonic clock, in
-- any unit; a comparison with a difference, `ts > now - window`, is written as `now < ts + window`,
-- since a difference on ℕ stops at 0.
pub mod Reference
pub mod Sorted
pub mod Refines
pub mod Bounds
mod Examples
use circle_core.Prelude.{
  ℕ, zero, suc, ◌+◌, ◌*◌, Bool, true, false, String, Option, none, some, List, [], ◌∷◌, ◌++◌, ltb,
  leb, if◌then◌else◌, count_if,
}
use circle_core.Dict.{Dict, lookup, insert, erase, keys}

-- (max_requests, window)
abbrev pub Rule : Type 0
Rule = ℕ × ℕ

pub record Limiter : Type 0 where
  pub rules : List Rule
  pub max_window : ℕ
  pub second : ℕ
  pub hits : Dict (List ℕ)
  pub last_gc : ℕ

-- `sorted(rules, key=window)`: a stable insertion sort.
insert_rule : Rule → List Rule → List Rule
insert_rule r [] = r ∷ []
insert_rule (m, w) ((n, v) ∷ rs) =
    if leb w v then (m, w) ∷ (n, v) ∷ rs else (n, v) ∷ insert_rule (m, w) rs

pub sort_rules : List Rule → List Rule
unfolding insert_rule
sort_rules [] = []
sort_rules (r ∷ rs) = insert_rule r (sort_rules rs)

-- `max((w for _, w in rules), default=0)`
pub widest : List Rule → ℕ
widest [] = 0
widest ((m, w) ∷ rs) = let rest = widest rs in if leb rest w then w else rest

-- `__init__`; `second` is the number of clock ticks in a second.
pub new_limiter : ℕ → List Rule → Limiter
unfolding sort_rules widest
new_limiter second rules = record {
  rules = sort_rules rules;
  max_window = widest (sort_rules rules);
  second = second;
  hits = [];
  last_gc = 0;
}

-- The hits of a key; `defaultdict(deque)` gives a new key an empty one.
hits_of : String → Dict (List ℕ) → List ℕ
hits_of key d = elim (lookup key d) [ none ↦ [] | some l ↦ l ]

-- `while hits and hits[0] <= now - max_window: hits.popleft()`
evict : ℕ → ℕ → List ℕ → List ℕ
evict window now [] = []
evict window now (t ∷ ts) =
    let rest = evict window now ts in if leb (t + window) now then rest else t ∷ ts

-- `sum(1 for ts in hits if ts > now - window)`
recent : ℕ → ℕ → List ℕ → ℕ
recent window now = count_if (λ t. ltb now (t + window))

-- The loop over the rules: false as soon as one window is full.
within : List Rule → ℕ → List ℕ → Bool
unfolding recent
within [] now hits = true
within ((max_requests, window) ∷ rules) now hits =
    if leb max_requests (recent window now hits) then false else within rules now hits

-- One round of the clean-up loop: evict, and drop the key if nothing is left.
collect_key : ℕ → ℕ → String → Dict (List ℕ) → Dict (List ℕ)
unfolding hits_of evict
collect_key window now key d = elim (evict window now (hits_of key d)) [
  | [] ↦ erase key d
  | t ∷ ts ↦ insert key (t ∷ ts) d
]

collect_keys : ℕ → ℕ → List String → Dict (List ℕ) → Dict (List ℕ)
unfolding collect_key
collect_keys window now [] d = d
collect_keys window now (k ∷ ks) d = collect_keys window now ks (collect_key window now k d)

-- `_collect_garbage`: at most once a minute, over a snapshot of the keys.
collect_garbage : ℕ → Limiter → Limiter
unfolding collect_keys
collect_garbage now s =
    if ltb now (s.last_gc + 60 * s.second)
    then s
    else record s { last_gc = now; hits = collect_keys s.max_window now (keys s.hits) s.hits }

-- `allow`: what the clock says is an argument. A refused call has still evicted old hits.
pub allow : String → ℕ → Limiter → Bool × Limiter
unfolding hits_of evict within collect_garbage
allow key now s =
    let hits = evict s.max_window now (hits_of key s.hits) in
    if within s.rules now hits
    then (true, collect_garbage now (record s { hits = insert key (hits ++ now ∷ []) s.hits }))
    else (false, record s { hits = insert key hits s.hits })

-- A sequence of calls, each a key and the clock's value; the answers, in order.
pub run : List (String × ℕ) → Limiter → List Bool × Limiter
run [] s = ([], s)
run ((key, now) ∷ calls) s =
    let (answer, s') = allow key now s in
    let (answers, s'') = run calls s' in (answer ∷ answers, s'')
