-- ===== src/Calls/Events/Frozen.antt =====
-- What any sequence of webhooks may do to a call.
use circle_core.Prelude.{
  ℕ, ◌≡◌, ◌≢◌, refl, ◌∙◌, ap, Bool, true, false, some, List, [], ◌∷◌, find, arith, Bool-cases, inl,
  inr, Option-cases,
}
use circle_core.Text.{Text, text_eq, text_eq_iff, is_empty}
use circle_core.Value.{Value, Fields, get, object_of, text_of}
use circle_core.Calls.{Call, State, Outside, is_terminal, row, upsert}
use circle_core.Calls.Table.{Distinct, row-upsert, row-id, upsert-Distinct, find-row}
use circle_core.Builtins.{str_or_empty}
use circle_core.Calls.Events.{
  holds_id, metadata_call_id, find_by_provider, find_by_metadata, find_call, apply_event,
  apply_sarvam_event,
}
use circle_core.Calls.Events.Found.{
  origin, Touched, same, report, apply_found-Touched, apply_sarvam_found-Touched,
}

-- A call of a webhook, with the time at which it comes in.
pub data Event : Type 0 where
  vapi : ℕ → Fields → Event
  sarvam : ℕ → Fields → Event

pub receive : Outside → Event → State → State
receive o (vapi now message) s = (apply_event o now message s).1
receive o (sarvam now payload) s = (apply_sarvam_event o now payload s).1

pub receive_all : Outside → List Event → State → State
unfolding receive
receive_all o [] s = s
receive_all o (e ∷ es) s = receive_all o es (receive o e s)

find_by_provider-row :
    (p : Value) (cs : List Call) (c : Call)
    → Distinct cs
    → find_by_provider p cs ≡ some c
    → row c.id cs ≡ some c
unfolding find_by_provider
find_by_provider-row p cs c d h = elim (Option-cases (text_of p)) [
  | inl e ↦ ground (arith)
  | inr (t, e) ↦ ground (arith, find-row (λ x. holds_id x.vapi_call_id t) cs c d)
]

find_by_metadata-row :
    (v : Value) (cs : List Call) (c : Call) → find_by_metadata v cs ≡ some c → row c.id cs ≡ some c
unfolding find_by_metadata
find_by_metadata-row v cs c h = elim (Option-cases (metadata_call_id v)) [
  | inl e ↦ ground (arith)
  | inr (id, e) ↦ ground (arith, row-id id cs c)
]

find_call-row :
    (v : Value) (cs : List Call) (c : Call)
    → Distinct cs
    → find_call v cs ≡ some c
    → row c.id cs ≡ some c
unfolding find_call
find_call-row v cs c d h = elim (Option-cases (object_of v)) [
  | inl e ↦ ground (arith)
  | inr (f, e) ↦ elim (Option-cases (find_by_provider (get "id" f) cs)) [
    | inl k ↦ ground (arith, find_by_metadata-row v cs c)
    | inr (x, k) ↦ ground (arith, find_by_provider-row (get "id" f) cs c d)
  ]
]

-- The table of a state with distinct rows, after a message: as before, or one row of a call that
-- had not ended is replaced by a report on it.
pub data Effect (before : List Call) : List Call → Type 0 where
  nothing : Effect before before
  replaced :
      (c d : Call)
      → row c.id before ≡ some c
      → is_terminal c.status ≡ false
      → origin d ≡ origin c
      → Effect before (upsert d before)

Touched-Effect :
    (c : Call) (before after : List Call)
    → row c.id before ≡ some c
    → Touched c before after
    → Effect before after
Touched-Effect c before after r same = nothing
Touched-Effect c before after r (report d h e) = replaced c d r h e

pub receive-Effect :
    (o : Outside) (e : Event) (s : State) → Distinct s.calls → Effect s.calls (receive o e s).calls
unfolding receive apply_event apply_sarvam_event
receive-Effect o (vapi now message) s d =
    elim (Option-cases (find_call (get "call" message) s.calls)) [
      | inl e ↦ rw (e, receive, apply_event) nothing
      | inr (c, e) ↦
          rw (e, receive, apply_event)
            (Touched-Effect c _ _ (find_call-row _ _ c d e) (apply_found-Touched o now message c s))
    ]
receive-Effect o (sarvam now payload) s d =
    let attempt = str_or_empty o.builtins (get "attempt_id" payload) in
    elim (Bool-cases (is_empty attempt)) [
      | inl k ↦ rw (k, receive, apply_sarvam_event) nothing
      | inr k ↦ elim (Option-cases (find (λ c. holds_id c.provider_call_id attempt) s.calls)) [
        | inl e ↦ rw (k, e, receive, apply_sarvam_event) nothing
        | inr (c, e) ↦
            rw (k, e, receive, apply_sarvam_event)
              (Touched-Effect c _ _ (find-row (λ x. holds_id x.provider_call_id attempt) _ c d e)
                (apply_sarvam_found-Touched o now payload c s))
      ]
    ]

pub Effect-Distinct :
    (before after : List Call) → Distinct before → Effect before after → Distinct after
Effect-Distinct before after d nothing = d
Effect-Distinct before after d (replaced c x r h e) = upsert-Distinct x before d

-- A row stays, with its origin; if its call had ended, unchanged.
pub record IsKept (c d : Call) : Type 0 where
  pub same_origin : origin d ≡ origin c
  pub frozen : is_terminal c.status ≡ true → d ≡ c

pub record Kept (id : Text) (c : Call) (after : List Call) : Type 0 where
  pub now : Call
  pub there : row id after ≡ some now
  pub kept : IsKept c now

Effect-Kept :
    (before after : List Call) (id : Text) (c : Call)
    → row id before ≡ some c
    → Effect before after
    → Kept id c after
Effect-Kept before after id c r nothing = record {
  now = c;
  there = r;
  kept = record { same_origin = refl; frozen = λ h. refl };
}
Effect-Kept before after id c r (replaced x y found h e) = elim (Bool-cases (text_eq y.id id)) [
  | inl k ↦
      let x_is_c : x ≡ c = ground (arith, text_eq_iff y.id id, ap (λ w. w.id) e) in
      record {
        now = y;
        there = row-upsert y before id ∙ ground (arith);
        kept = record {
          same_origin = e ∙ ap origin x_is_c;
          frozen = λ t. ground (arith, ap (λ w. is_terminal w.status) x_is_c);
        };
      }
  | inr k ↦ record {
    now = c;
    there = row-upsert y before id ∙ ground (arith);
    kept = record { same_origin = refl; frozen = λ t. refl };
  }
]

-- In a table with distinct rows, whatever webhooks of the two providers come in, in whatever order
-- and with whatever contents: every call stays in the table with its candidate, job, mode,
-- questions, start and provider's identifiers, and a call that had ended stays as it is.
pub receive_all-Kept :
    (o : Outside) (es : List Event) (s : State) (id : Text) (c : Call)
    → Distinct s.calls
    → row id s.calls ≡ some c
    → Kept id c (receive_all o es s).calls
unfolding receive_all
receive_all-Kept o [] s id c d r = record {
  now = c;
  there = r;
  kept = record { same_origin = refl; frozen = λ h. refl };
}
receive_all-Kept o (e ∷ es) s id c d r =
    let effect = receive-Effect o e s d in
    let first = Effect-Kept _ _ id c r effect in
    let rest =
      receive_all-Kept o es (receive o e s) id first.now (Effect-Distinct _ _ d effect)
        first.there in
    record {
      now = rest.now;
      there = rest.there;
      kept = record {
        same_origin = rest.kept.same_origin ∙ first.kept.same_origin;
        frozen = λ t.
            rest.kept.frozen (ap (λ w. is_terminal w.status) (first.kept.frozen t) ∙ t)
            ∙ first.kept.frozen t;
      };
    }

find-holds : (p : Call → Bool) (cs : List Call) (c : Call) → find p cs ≡ some c → p c ≡ true
find-holds p [] c h = ground (arith)
find-holds p (x ∷ cs) c h = elim (Bool-cases (p x)) [
  | inl e ↦ ground (arith)
  | inr e ↦ ground (arith, find-holds p cs c)
]

Touched-row :
    (x c : Call) (id : Text) (before after : List Call)
    → row x.id before ≡ some x
    → x ≢ c
    → row id before ≡ some c
    → Touched x before after
    → row id after ≡ some c
Touched-row x c id before after found other r same = r
Touched-row x c id before after found other r (report y h e) =
    row-upsert y before id ∙ ground (arith, text_eq_iff y.id id, ap (λ w. w.id) e)

-- A result from Sarvam changes no row but of a call that the provider knows by the attempt that the
-- result names, whatever identifier of ours the result carries.
pub apply_sarvam_event_row :
    (o : Outside) (now : ℕ) (payload : Fields) (s : State) (id : Text) (c : Call)
    → Distinct s.calls
    → row id s.calls ≡ some c
    → holds_id c.provider_call_id (str_or_empty o.builtins (get "attempt_id" payload)) ≡ false
    → row id (apply_sarvam_event o now payload s).1.calls ≡ some c
unfolding apply_sarvam_event
apply_sarvam_event_row o now payload s id c d r h =
    let attempt = str_or_empty o.builtins (get "attempt_id" payload) in
    elim (Bool-cases (is_empty attempt)) [
      | inl k ↦ rw (k, apply_sarvam_event) r
      | inr k ↦ elim (Option-cases (find (λ w. holds_id w.provider_call_id attempt) s.calls)) [
        | inl e ↦ rw (k, e, apply_sarvam_event) r
        | inr (x, e) ↦
            let held = find-holds (λ w. holds_id w.provider_call_id attempt) s.calls x e in
            rw (k, e, apply_sarvam_event)
              (Touched-row x c id _ _ (find-row (λ w. holds_id w.provider_call_id attempt) _ x d e)
                (λ same_call.
                  ground (arith, held, h, ap (λ w. holds_id w.provider_call_id attempt) same_call))
                r (apply_sarvam_found-Touched o now payload x s))
      ]
    ]
