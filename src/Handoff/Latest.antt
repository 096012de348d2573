-- ===== src/Handoff/Latest.antt =====
-- Which submission is picked for a type of document.
use mathlib.Core.Path.{subst}
use circle_core.Prelude.{
  ◌≡◌, refl, sym, ◌∙◌, ap, ◌&&◌, true, false, ◌⊎◌, All, arith, Option, none, some, List, [], ◌∷◌,
  if◌then◌else◌, keep_if, Bool-cases, inl, inr,
}
use circle_core.Text.{Text, text_eq, text_eq_iff, is_empty}
use circle_core.Resources.{Rows, find, upsert}
use circle_core.Resources.Laws.{find-upsert}
use circle_core.DocRequests.{Submission, is_verified}
use circle_core.Handoff.{text_le, key_of, stamp_of, replaces, best_of}

-- The loop, on the submissions of one type.
unfoldable latest_after : Option Submission → List Submission → Option Submission
unfolding replaces
latest_after best [] = best
latest_after best (s ∷ ss) =
    let kept = latest_after best ss in
    let changed = latest_after (some s) ss in if replaces best s then changed else kept

-- The approved submissions of a type.
abbrev pub approved_of : Text → List Submission → List Submission
approved_of key = keep_if (λ s. is_verified s.status && text_eq (key_of s) key)

best_of-latest_after :
    (key : Text) (ss : List Submission) (best : Rows Submission)
    → find key (best_of ss best) ≡ latest_after (find key best) (approved_of key ss)
unfolding best_of latest_after
best_of-latest_after key [] best = refl
best_of-latest_after key (s ∷ ss) best =
    let kept = best_of-latest_after key ss best in
    let changed = best_of-latest_after key ss (upsert (key_of s) s best) in
    elim (Bool-cases (is_verified s.status)) [
      | inr v ↦ rw v kept
      | inl v ↦ elim (Bool-cases (text_eq (key_of s) key)) [
        | inl own ↦
            let one : key_of s ≡ key = (text_eq_iff (key_of s) key).0 own in
            let asked : replaces (find (key_of s) best) s ≡ replaces (find key best) s =
              ap (λ k. replaces (find k best) s) one in
            let placed : find key (upsert (key_of s) s best) ≡ some s =
              find-upsert key (key_of s) s best ∙ rw own refl in
            elim (Bool-cases (replaces (find key best) s)) [
              | inl r ↦
                  rw (v, own)
                    (rw (asked, r) (changed ∙ ap (λ b. latest_after b (approved_of key ss)) placed))
              | inr r ↦ rw (v, own) (rw (asked, r) kept)
            ]
        | inr other ↦
            let left : find key (upsert (key_of s) s best) ≡ find key best =
              find-upsert key (key_of s) s best ∙ rw other refl in
            elim (Bool-cases (replaces (find (key_of s) best) s)) [
              | inl r ↦
                  rw (v, other)
                    (rw r (changed ∙ ap (λ b. latest_after b (approved_of key ss)) left))
              | inr r ↦ rw (v, other) (rw r kept)
            ]
      ]
    ]

text_le_total : (s t : Text) → text_le s t ≡ false → text_le t s ≡ true
unfolding text_le
text_le_total [] t h = ground (arith)
text_le_total (c ∷ s) [] h = refl
text_le_total (c ∷ s) (d ∷ t) h = ground (arith, text_le_total s t)

text_le_trans : (s t u : Text) → text_le s t ≡ true → text_le t u ≡ true → text_le s u ≡ true
unfolding text_le
text_le_trans [] t u h k = refl
text_le_trans (c ∷ s) [] u h k = ground (arith, h)
text_le_trans (c ∷ s) (d ∷ t) [] h k = ground (arith, k)
text_le_trans (c ∷ s) (d ∷ t) (e ∷ u) h k = ground (arith, h, k, text_le_trans s t u)

text_le_refl : (s : Text) → text_le s s ≡ true
unfolding text_le
text_le_refl [] = refl
text_le_refl (c ∷ s) = ground (arith, text_le_refl s)

-- One of the submissions, with none before it that is later and only earlier ones after it.
abbrev pub Picks : Submission → List Submission → Type 0
Picks s [] = ⊥
Picks s (t ∷ ts) =
    ((s ≡ t) × All (λ u. text_le (stamp_of s) (stamp_of u) ≡ false) ts)
    ⊎ ((text_le (stamp_of t) (stamp_of s) ≡ true) × Picks s ts)

abbrev pub IsLatest : Option Submission → List Submission → Type 0
IsLatest none ts = ts ≡ []
IsLatest (some s) ts = Picks s ts

-- The first of a list is not later than what is picked from it.
Picks-first :
    (r s : Submission) (ts : List Submission)
    → Picks r (s ∷ ts)
    → text_le (stamp_of s) (stamp_of r) ≡ true
Picks-first r s ts (inl (e, later)) =
    ap (λ x. text_le (stamp_of s) (stamp_of x)) e ∙ text_le_refl (stamp_of s)
Picks-first r s ts (inr (h, p)) = h

after_earlier :
    (b s : Submission) (ts : List Submission) (o : Option Submission)
    → text_le (stamp_of b) (stamp_of s) ≡ true
    → IsLatest o (s ∷ ts)
    → IsLatest o (b ∷ s ∷ ts)
after_earlier b s ts none h e = absurd (ground (arith, ap is_empty e))
after_earlier b s ts (some r) h p =
    inr (text_le_trans (stamp_of b) (stamp_of s) (stamp_of r) h (Picks-first r s ts p), p)

before_earlier :
    (b s : Submission) (ts : List Submission) (o : Option Submission)
    → text_le (stamp_of b) (stamp_of s) ≡ false
    → IsLatest o (b ∷ ts)
    → IsLatest o (b ∷ s ∷ ts)
before_earlier b s ts none h e = absurd (ground (arith, ap is_empty e))
before_earlier b s ts (some r) h (inl (e, earlier)) =
    inl (e, (ap (λ x. text_le (stamp_of x) (stamp_of s)) e ∙ h, earlier))
before_earlier b s ts (some r) h (inr (k, p)) =
    let back = text_le_total (stamp_of b) (stamp_of s) h in
    inr (k, inr (text_le_trans (stamp_of s) (stamp_of b) (stamp_of r) back k, p))

latest_after_later :
    (b s : Submission) (ts : List Submission)
    → text_le (stamp_of b) (stamp_of s) ≡ true
    → latest_after (some b) (s ∷ ts) ≡ latest_after (some s) ts
unfolding latest_after replaces
latest_after_later b s ts e = rw e refl

latest_after_earlier :
    (b s : Submission) (ts : List Submission)
    → text_le (stamp_of b) (stamp_of s) ≡ false
    → latest_after (some b) (s ∷ ts) ≡ latest_after (some b) ts
unfolding latest_after replaces
latest_after_earlier b s ts e = rw e refl

latest_after-IsLatest :
    (b : Submission) (ts : List Submission) → IsLatest (latest_after (some b) ts) (b ∷ ts)
unfolding latest_after
latest_after-IsLatest b [] = inl (refl, tt)
latest_after-IsLatest b (s ∷ ts) = elim (Bool-cases (text_le (stamp_of b) (stamp_of s))) [
  | inl e ↦
      subst (λ o. IsLatest o (b ∷ s ∷ ts)) (sym (latest_after_later b s ts e))
        (after_earlier b s ts (latest_after (some s) ts) e (latest_after-IsLatest s ts))
  | inr e ↦
      subst (λ o. IsLatest o (b ∷ s ∷ ts)) (sym (latest_after_earlier b s ts e))
        (before_earlier b s ts (latest_after (some b) ts) e (latest_after-IsLatest b ts))
]

all-IsLatest : (ts : List Submission) → IsLatest (latest_after none ts) ts
unfolding latest_after replaces
all-IsLatest [] = refl
all-IsLatest (s ∷ ts) = latest_after-IsLatest s ts

-- Of each type, the document that is picked from what a candidate handed in is the latest approved
-- one, by the time of its review or else of its upload, and the last of those that are equally late;
-- there is none exactly if none is approved.
pub best_of-IsLatest :
    (key : Text) (ss : List Submission) → IsLatest (find key (best_of ss [])) (approved_of key ss)
unfolding find
best_of-IsLatest key ss =
    subst (λ o. IsLatest o (approved_of key ss)) (sym (best_of-latest_after key ss []))
      (all-IsLatest (approved_of key ss))
