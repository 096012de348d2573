-- ===== src/Calls/Start/Alone.antt =====
-- What starting a call does to the calls that are there.
use circle_core.Prelude.{
  ℕ, ◌≡◌, refl, ◌∙◌, ap, true, false, ◌&&◌, not, Option, some, List, [], ◌∷◌, All, arith,
  Bool-cases, inl, inr, Option-cases,
}
use circle_core.Text.{Text, text_eq, text_eq_refl, DigitTable, is_empty}
use circle_core.Calls.{
  upsert, Mode, web, phone, Actor, Call, Candidate, Job, State, Outside, queued, row, is_blocking,
  record_audit,
}
use circle_core.Phone.{normalize_indian_mobile}
use circle_core.Calls.Table.{row-upsert, row-id}
use circle_core.Calls.Start.{
  Dial, no_number, to_number, Setup, Begun, created, has_active_call, new_call, begin_for,
  begin_call, current_row, bind_provider_call, finish_start, dial, is_bad, begun_of, is_configured,
  with_calls,
}

-- None of the candidate's calls blocks another.
abbrev pub NoneBlocks : Outside → ℕ → Text → List Call → Type 0
NoneBlocks o now candidate =
    All (λ c. (text_eq c.candidate_id candidate && is_blocking o now c) ≡ false)

has_active_call-NoneBlocks :
    (o : Outside) (now : ℕ) (candidate : Text) (cs : List Call)
    → has_active_call o now candidate cs ≡ false
    → NoneBlocks o now candidate cs
unfolding has_active_call
has_active_call-NoneBlocks o now candidate [] h = tt
has_active_call-NoneBlocks o now candidate (c ∷ cs) h =
    elim (Bool-cases (text_eq c.candidate_id candidate)) [
      | inl e ↦ (ground (arith), has_active_call-NoneBlocks o now candidate cs (ground (arith)))
      | inr e ↦ (ground (arith), has_active_call-NoneBlocks o now candidate cs (ground (arith)))
    ]

-- What is dialled: nothing for a call in the browser, and for one by phone the candidate's number in
-- its normal form.
abbrev pub Reaches : DigitTable → Mode → Candidate → Dial → Type 0
Reaches dt web c d = d ≡ no_number
Reaches dt phone c d =
    (raw : Text) × (n : Text) × (c.phone ≡ some raw)
    × (normalize_indian_mobile dt raw ≡ some n)
    × (d ≡ to_number n)

-- A call that was begun.
pub record IsBegun (o : Outside) (dt : DigitTable) (m : Mode) (now : ℕ) (candidate_id id : Text)
    (s : State) (b : Begun) : Type 0 where
  pub candidate : Candidate
  pub listed : s.candidates candidate_id ≡ some candidate
  pub alone : NoneBlocks o now candidate_id s.calls
  pub fresh_id : b.call.id ≡ id
  pub waiting : b.call.status ≡ queued
  pub asks : not (is_empty b.call.questions) ≡ true
  pub reaches : Reaches dt m candidate b.number
  pub table : b.state.calls ≡ upsert b.call s.calls
  pub stored : row id b.state.calls ≡ some b.call
  pub others : (i : Text) → text_eq id i ≡ false → row i b.state.calls ≡ row i s.calls

dial-Reaches :
    (dt : DigitTable) (m : Mode) (c : Candidate)
    → is_bad (dial dt m c) ≡ false
    → Reaches dt m c (dial dt m c)
unfolding dial is_bad
dial-Reaches dt web c h = refl
dial-Reaches dt phone c h = elim (Option-cases c.phone) [
  | inl e ↦ ground (arith, h, e)
  | inr (raw, e) ↦ elim (Option-cases (normalize_indian_mobile dt raw)) [
    | inl f ↦ ground (arith, h, e, f)
    | inr (n, f) ↦ (raw, n, e, f, rw (dial, e, f) refl)
  ]
]

begun_of-IsBegun :
    (o : Outside) (dt : DigitTable) (now : ℕ) (id : Text) (m : Mode) (actor : Actor) (c : Candidate)
    (j : Job) (candidate_id : Text) (s : State)
    → s.candidates candidate_id ≡ some c
    → is_empty j.screening_questions ≡ false
    → is_bad (dial dt m c) ≡ false
    → has_active_call o now candidate_id s.calls ≡ false
    → IsBegun o dt m now candidate_id id s (begun_of o dt now id m actor c j s)
unfolding begun_of new_call with_calls
begun_of-IsBegun o dt now id m actor c j candidate_id s known asks dials alone = record {
  candidate = c;
  listed = known;
  alone = has_active_call-NoneBlocks o now candidate_id s.calls alone;
  fresh_id = refl;
  waiting = refl;
  asks = ground (arith);
  reaches = dial-Reaches dt m c dials;
  table = refl;
  stored = row-upsert (new_call o now id c j m actor) s.calls id ∙ ground (arith, text_eq_refl id);
  others = λ i h. row-upsert (new_call o now id c j m actor) s.calls i ∙ ground (arith);
}

begin_for-IsBegun :
    (o : Outside) (dt : DigitTable) (now : ℕ) (id : Text) (m : Mode) (actor : Actor) (c : Candidate)
    (j : Job) (candidate_id : Text) (s : State) (b : Begun)
    → s.candidates candidate_id ≡ some c
    → begin_for o dt now id m actor c j candidate_id s ≡ inr b
    → IsBegun o dt m now candidate_id id s b
unfolding begin_for
begin_for-IsBegun o dt now id m actor c j candidate_id s b known h =
    elim (Bool-cases (is_empty j.screening_questions)) [
      | inl e ↦ ground (arith)
      | inr e ↦ elim (Bool-cases (is_bad (dial dt m c))) [
        | inl k ↦ ground (arith)
        | inr k ↦ elim (Bool-cases (has_active_call o now candidate_id s.calls)) [
          | inl a ↦ ground (arith)
          | inr a ↦
              let found : begun_of o dt now id m actor c j s ≡ b = ground (arith) in
              rw⁻¹ found (begun_of-IsBegun o dt now id m actor c j candidate_id s known e k a)
        ]
      ]
    ]

-- A call is begun only if no call of the candidate blocks it. Then its row is in the table under the
-- fresh identifier, queued and with questions; a call by phone goes to the number of the candidate in
-- its normal form, one in the browser to none; every other row is as before.
pub begin_call-IsBegun :
    (setup : Setup) (o : Outside) (dt : DigitTable) (now : ℕ) (id candidate_id : Text) (m : Mode)
    (actor : Actor) (s : State) (b : Begun)
    → begin_call setup o dt now id candidate_id m actor s ≡ inr b
    → IsBegun o dt m now candidate_id id s b
unfolding begin_call
begin_call-IsBegun setup o dt now id candidate_id m actor s b h =
    elim (Bool-cases (is_configured setup m)) [
      | inr e ↦ ground (arith)
      | inl e ↦ elim (Option-cases (s.candidates candidate_id)) [
        | inl k ↦ ground (arith)
        | inr (c, k) ↦ elim (Option-cases (s.jobs c.job_id)) [
          | inl f ↦ ground (arith)
          | inr (j, f) ↦
              begin_for-IsBegun o dt now id m actor c j candidate_id s b k (ground (arith))
        ]
      ]
    ]

current_row-row :
    (call c : Call) (cs : List Call) → row call.id cs ≡ some c → current_row call cs ≡ c
unfolding current_row
current_row-row call c cs r = ground (arith)

bind_provider_call-row :
    (call c : Call) (provider_id : Text) (url : Option Text) (cs : List Call)
    → row call.id cs ≡ some c
    → bind_provider_call call provider_id url cs ≡ record c {
      provider_call_id = some provider_id;
      vapi_call_id = some provider_id;
      web_call_url = url;
    }
unfolding bind_provider_call
bind_provider_call-row call c provider_id url cs r =
    ap
      (λ (d : Call). record d {
        provider_call_id = some provider_id;
        vapi_call_id = some provider_id;
        web_call_url = url;
      })
      (current_row-row call c cs r)

-- Whatever the webhooks did to the row while the provider was dialling stays when its answer is
-- stored: only the identifiers and the address that the provider gave are written.
finish_start_row :
    (o : Outside) (now : ℕ) (call c : Call) (provider_id : Text) (url : Option Text) (s : State)
    → row call.id s.calls ≡ some c
    → row call.id (finish_start o now call (created provider_id url) s).1.calls
      ≡ some (record c {
        provider_call_id = some provider_id;
        vapi_call_id = some provider_id;
        web_call_url = url;
      })
unfolding finish_start with_calls record_audit
finish_start_row o now call c provider_id url s r =
    rw (bind_provider_call-row call c provider_id url s.calls r) (
      row-upsert
        (record c {
          provider_call_id = some provider_id;
          vapi_call_id = some provider_id;
          web_call_url = url;
        })
        s.calls call.id
      ∙ ground (arith, row-id call.id s.calls c r, text_eq_refl call.id))
