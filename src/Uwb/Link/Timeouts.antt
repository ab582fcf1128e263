-- ===== src/Uwb/Link/Timeouts.antt =====
-- Retransmission is bounded: check_timeouts and timeout_worker of src/Master/src/uwb/UwbHandle.cpp in
-- whole executions.
use mid_napi.Prelude.{
  ℕ, zero, suc, ◌+◌, ◌*◌, ◌≤◌, ◌<◌, ◌≡◌, ◌≢◌, refl, ap, ◌∙◌, inl, inr, true, false, Option, none,
  some, List, [], ◌∷◌, ◌==◌, arith, All, nat_eq, Bool-cases, ==_iff, ltb, ltb→lt,
}
use mid_napi.Http.{HttpLibrary}
use mid_napi.Uwb.Link.{
  PendingFrame, Handle, max_retries, is_late, retried, retransmit, give_up, sweep, check_timeouts,
  timeout_round,
}
use mid_napi.Uwb.Link.Pending.{Runs, IsOther, other_step-Runs}
use mid_napi.Uwb.Link.Events.{
  Event, runs, stops, sends, arrives, reads, slot_starts, heartbeats, checks, step, run_events,
  AllSeqFree,
}
use mid_napi.Uwb.Link.Ledger.{is_callback, told, waiting, ledger}
use mid_napi.Uwb.Link.Callbacks.{handed_over, all_handed_over, run_events-ledger}

-- The deadline of an acknowledgement.
abbrev pub timeout_ns : ℕ
timeout_ns = 2000 * 1000000

-- How long a frame that was retried so often waits at most after its next deadline was noticed, if
-- the rounds of the timeout worker are at most `gap` apart.
abbrev pub allowance : ℕ → ℕ → ℕ
allowance gap zero = 3 * (timeout_ns + gap)
allowance gap (suc zero) = 2 * (timeout_ns + gap)
allowance gap (suc (suc zero)) = timeout_ns + gap
allowance gap (suc (suc (suc n))) = 0

-- At a round at `last`, the end of all retries lies at `end` at the latest.
abbrev IsDue : ℕ → ℕ → ℕ → PendingFrame → Type 0
IsDue gap end last p =
    (p.send_time + timeout_ns + gap + allowance gap p.retry_count ≤ end)
    × (last + gap + allowance gap p.retry_count ≤ end)

-- So for every frame that waits with the callback `c`.
abbrev AreDue : ℕ → ℕ → ℕ → ℕ → List (ℕ × PendingFrame) → Type 0
AreDue c gap end last = All (λ e. e.1.callback ≡ some c → IsDue gap end last e.1)

allowance-suc :
    (gap n : ℕ) → n < max_retries → allowance gap n ≡ timeout_ns + gap + allowance gap (n + 1)
allowance-suc gap zero h = omega arith
allowance-suc gap (suc zero) h = omega arith
allowance-suc gap (suc (suc zero)) h = omega arith
allowance-suc gap (suc (suc (suc n))) h = absurd (omega (arith, h))

allowance-le : (gap n : ℕ) → allowance gap n ≤ 3 * (timeout_ns + gap)
allowance-le gap zero = omega arith
allowance-le gap (suc zero) = omega arith
allowance-le gap (suc (suc zero)) = omega arith
allowance-le gap (suc (suc (suc n))) = omega arith

retried-IsDue :
    (gap end last now : ℕ) (p : PendingFrame)
    → now ≤ last + gap
    → ltb p.retry_count max_retries ≡ true
    → IsDue gap end last p
    → IsDue gap end now (retried now p)
retried-IsDue gap end last now p w more (_, d) =
    let less = allowance-suc gap p.retry_count (ltb→lt p.retry_count max_retries more) in
    (omega (arith, w, d, less), omega (arith, w, d, less))

early-lt : (now : ℕ) (p : PendingFrame) → is_late now p ≡ false → now < p.send_time + timeout_ns
early-lt now p h = ground arith

early-IsDue :
    (gap end last now : ℕ) (p : PendingFrame)
    → is_late now p ≡ false
    → IsDue gap end last p
    → IsDue gap end now p
early-IsDue gap end last now p early (d, _) = (d, omega (arith, d, early-lt now p early))

module _ {Request : Type 0} where
  sweep-running :
      (now : ℕ) (m : List (ℕ × PendingFrame)) (h : Handle Request)
      → (sweep now m h).1.running ≡ h.running
  unfolding sweep retransmit give_up
  sweep-running now [] h = refl
  sweep-running now ((k, p) ∷ m) h = ground (
    arith,
    sweep-running now m h,
    sweep-running now m (retransmit p h),
    sweep-running now m (give_up p h),
  )

  sweep-AreDue :
      (c gap end last now : ℕ) (m : List (ℕ × PendingFrame)) (h : Handle Request)
      → now ≤ last + gap
      → AreDue c gap end last m
      → AreDue c gap end now (sweep now m h).0
  unfolding sweep
  sweep-AreDue c gap end last now [] h w a = tt
  sweep-AreDue c gap end last now ((k, p) ∷ m) h w (d, a) =
      let kept = sweep-AreDue c gap end last now m h w a in
      let again = sweep-AreDue c gap end last now m (retransmit p h) w a in
      let gone = sweep-AreDue c gap end last now m (give_up p h) w a in
      elim (Bool-cases (is_late now p)) [
        | inr early ↦ rw early ((λ e. early-IsDue gap end last now p early (d e)), kept)
        | inl late ↦ elim (Bool-cases (ltb p.retry_count max_retries)) [
          | inl more ↦ rw (late, more) ((λ e. retried-IsDue gap end last now p w more (d e)), again)
          | inr no_more ↦ rw (late, no_more) gone
        ]
      ]

is_callback-other : (c : ℕ) (callback : Option ℕ) → callback ≢ some c → is_callback c callback ≡ 0
is_callback-other c none n = refl
is_callback-other c (some b) n = elim (Bool-cases (b == c)) [
  | inl hit ↦ absurd (n (ap some ((==_iff b c).0 hit)))
  | inr miss ↦ rw miss refl
]

-- When the last round of the timeout worker was, after an event.
abbrev pub round_after : {Request : Type 0} → ℕ → Event Request → ℕ
round_after last (checks now) = now
round_after last e = last

-- A round is at most `gap` behind the last one; any other event is no stop and no send with the
-- callback `c`.
abbrev pub IsTimely : {Request : Type 0} → ℕ → ℕ → ℕ → Event Request → Type 0
IsTimely c gap last (checks now) = now ≤ last + gap
IsTimely c gap last e = IsOther c e

-- So in a whole execution, whose first round is at most `gap` behind `last`.
abbrev pub IsPaced : {Request : Type 0} → ℕ → ℕ → ℕ → List (Event Request) → Type 0
IsPaced c gap last [] = Unit
IsPaced c gap last (e ∷ es) = IsTimely c gap last e × IsPaced c gap (round_after last e) es

abbrev pub last_round : {Request : Type 0} → ℕ → List (Event Request) → ℕ
last_round last [] = last
last_round last (e ∷ es) = last_round (round_after last e) es

-- Then `c` is not handed over.
IsTimely-quiet :
    {Request : Type 0} (c gap last : ℕ) (e : Event Request)
    → IsTimely c gap last e
    → handed_over c e ≡ 0
IsTimely-quiet c gap last (sends req dst callback now) o = is_callback-other c callback o
IsTimely-quiet c gap last (runs opened ready) o = refl
IsTimely-quiet c gap last stops o = refl
IsTimely-quiet c gap last (arrives bytes) o = refl
IsTimely-quiet c gap last (reads failed) o = refl
IsTimely-quiet c gap last (slot_starts ok) o = refl
IsTimely-quiet c gap last heartbeats o = refl
IsTimely-quiet c gap last (checks now) o = refl

IsPaced-quiet :
    {Request : Type 0} (c gap last : ℕ) (es : List (Event Request))
    → IsPaced c gap last es
    → all_handed_over c es ≡ 0
IsPaced-quiet c gap last [] t = refl
IsPaced-quiet c gap last (e ∷ es) (t, ts) =
    omega (arith, IsPaced-quiet c gap (round_after last e) es ts, IsTimely-quiet c gap last e t)

-- The frames that wait with the callback `c` were sent by `start`.
abbrev pub SentBy : ℕ → ℕ → List (ℕ × PendingFrame) → Type 0
SentBy c start = All (λ e. e.1.callback ≡ some c → e.1.send_time ≤ start)

SentBy-AreDue :
    (c gap start : ℕ) (m : List (ℕ × PendingFrame))
    → SentBy c start m
    → AreDue c gap (start + 4 * (timeout_ns + gap)) start m
SentBy-AreDue c gap start [] s = tt
SentBy-AreDue c gap start ((k, p) ∷ m) (s, ss) =
    let most = allowance-le gap p.retry_count in
    (
      λ e. let sent = s e in (omega (arith, sent, most), omega (arith, most)),
      SentBy-AreDue c gap start m ss,
    )

-- Past the end nothing waits.
AreDue-waiting :
    (c gap end last : ℕ) (m : List (ℕ × PendingFrame))
    → end < last
    → AreDue c gap end last m
    → waiting c m ≡ 0
AreDue-waiting c gap end last [] past a = refl
AreDue-waiting c gap end last ((k, p) ∷ m) past (d, a) = omega (
  arith,
  AreDue-waiting c gap end last m past a,
  is_callback-other c p.callback (λ e. late (d e)),
)
  where
    late : IsDue gap end last p → ⊥
    late (_, h) = omega (arith, past, h)

module _ (lib : HttpLibrary) (c gap end : ℕ) where
  open lib use {Request}

  abbrev Due : ℕ → ℕ × PendingFrame → Type 0
  Due last e = e.1.callback ≡ some c → IsDue gap end last e.1

  kept :
      (e : Event Request) (last : ℕ) (h : Handle Request)
      → IsOther c e
      → Runs (Due last) h
      → Runs (Due last) (step lib e h)
  kept e last h o w = other_step-Runs lib (Due last) c e h o (λ k p n e'. absurd (n e')) w

  step-Due :
      (e : Event Request) (last : ℕ) (h : Handle Request)
      → IsTimely c gap last e
      → Runs (Due last) h
      → Runs (Due (round_after last e)) (step lib e h)
  unfolding step timeout_round check_timeouts
  step-Due (checks now) last h t (r, a) =
      simp r (
        sweep-running now h.pending_acks h ∙ r,
        sweep-AreDue c gap end last now h.pending_acks h t a,
      )
  step-Due (runs opened ready) last h t w = kept (runs opened ready) last h t w
  step-Due stops last h t w = absurd t
  step-Due (sends req dst callback now) last h t w = kept (sends req dst callback now) last h t w
  step-Due (arrives bytes) last h t w = kept (arrives bytes) last h t w
  step-Due (reads failed) last h t w = kept (reads failed) last h t w
  step-Due (slot_starts ok) last h t w = kept (slot_starts ok) last h t w
  step-Due heartbeats last h t w = kept heartbeats last h t w

  run_events-Due :
      (es : List (Event Request)) (last : ℕ) (h : Handle Request)
      → IsPaced c gap last es
      → Runs (Due last) h
      → Runs (Due (last_round last es)) (run_events lib es h)
  unfolding run_events
  run_events-Due [] last h t w = w
  run_events-Due (e ∷ es) last h (t, ts) w =
      run_events-Due es (round_after last e) (step lib e h) ts (step-Due e last h t w)

module _ (lib : HttpLibrary) where
  open lib use {Request}

  -- No callback waits for ever. Take any execution of a running handle in which the rounds of the timeout
  -- worker are at most `gap` apart and the first at most `gap` behind `start`, frames and heartbeats come
  -- and go, other requests are sent, no send takes a sequence number that still waits, and the handle is
  -- not stopped. Let the frames that wait with the callback `c` before it have been sent by `start`, and
  -- let nothing more be sent with `c`. If the last round is more than four times two seconds and `gap`
  -- behind `start`, then nothing waits with `c` at the end, and `c` has been called as often as it had
  -- been called or waited before.
  pub timeouts_drain :
      (c gap start : ℕ) (es : List (Event Request)) (h : Handle Request)
      → h.running ≡ true
      → SentBy c start h.pending_acks
      → IsPaced c gap start es
      → AllSeqFree lib es h
      → start + 4 * (timeout_ns + gap) < last_round start es
      → let h' = run_events lib es h in
        (waiting c h'.pending_acks ≡ 0) × (told c h'.called ≡ ledger c h)
  timeouts_drain c gap start es h r s t f past =
      let end = start + 4 * (timeout_ns + gap) in
      let due =
        run_events-Due lib c gap end es start h t (r, SentBy-AreDue c gap start h.pending_acks s) in
      let none_left =
        AreDue-waiting c gap end (last_round start es) (run_events lib es h).pending_acks past
          due.1 in
      (
        none_left,
        omega (arith, none_left, run_events-ledger lib c es h f, IsPaced-quiet c gap start es t),
      )
