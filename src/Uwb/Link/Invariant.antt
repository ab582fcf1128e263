-- ===== src/Uwb/Link/Invariant.antt =====
-- What always holds of a Handle of src/Master/src/uwb/UwbHandle.cpp.
use mid_napi.Prelude.{
  ℕ, suc, ◌<◌, ◌≤◌, ◌≡◌, ◌≢◌, refl, Bool, Bool-cases, Option-cases, inl, inr, not, ◌&&◌, Option,
  List, [], ◌∷◌, arith, Bytes, All, length, ltb, ◌==◌, lookup, remove, emplace, nat_eq,
}
use mid_napi.Http.{HttpLibrary}
use mid_napi.Uwb.Frame.{
  FrameType, data_frame, ack, heartbeat, TimeSlotFrame, broadcast_id, new_frame, decode,
}
use mid_napi.Uwb.Http.{cr, drop_last, serialize_http_request}
use mid_napi.Uwb.Link.{
  PendingFrame, Handle, max_retries, is_late, retransmit, give_up, sweep, check_timeouts,
  timeout_round, next_sequence, getline, run, stop_link, new_handle, flush, send_data, send_acks,
  on_my_slot, heartbeat_round, send_frame_immediately,
}
use mid_napi.Uwb.Link.Messages.{
  handle_ack, is_duplicate, queue_ack, deliver, deliver_data, handle_payload, dispatch,
  handle_received_frame, handle_line, handle_read, count_received, count_error, send_http_reliable,
  tell, queue_frame, await_ack,
}
use mid_napi.Uwb.Link.Events.{
  Event, runs, stops, sends, arrives, reads, slot_starts, heartbeats, checks, step, run_events,
}

-- A waiting frame is a data frame to one receiver, stands under its own sequence number, which is
-- not 0, and was not retried too often.
abbrev pub IsPending : ℕ × PendingFrame → Type 0
IsPending e =
    (e.1.frame.seq_no ≡ e.0)
    × (1 ≤ e.0)
    × (e.0 < 256)
    × (e.1.frame.type ≡ data_frame)
    × (e.1.frame.dst_id ≢ broadcast_id)
    × (e.1.retry_count ≤ max_retries)

-- So are all that wait; and the next sequence number is a byte but not 0.
abbrev pub WellFormed : {Request : Type 0} → Handle Request → Type 0
WellFormed h = (1 ≤ h.next_seq) × (h.next_seq < 256) × All IsPending h.pending_acks

-- What holds of all that wait holds of what is left, and with one more of which it holds.
module _ (P : ℕ × PendingFrame → Type 0) where
  pub All-remove : (k : ℕ) (m : List (ℕ × PendingFrame)) → All P m → All P (remove k m)
  All-remove k [] a = tt
  All-remove k ((j, p) ∷ m) (i, a) = elim (Bool-cases (j == k)) [
    | inl hit ↦ rw hit a
    | inr miss ↦ rw miss (i, All-remove k m a)
  ]

  pub All-emplace :
      (k : ℕ) (p : PendingFrame) (m : List (ℕ × PendingFrame))
      → P (k, p)
      → All P m
      → All P (emplace k p m)
  All-emplace k p [] i a = (i, tt)
  All-emplace k p ((j, q) ∷ m) i (b, a) = elim (Bool-cases (j == k)) [
    | inl hit ↦ rw hit (b, a)
    | inr miss ↦ rw miss (b, All-emplace k p m i a)
  ]

next_sequence-lt : (n : ℕ) → (1 ≤ next_sequence n) × (next_sequence n < 256)
unfolding next_sequence
next_sequence-lt n = ground arith

module _ {Request : Type 0} where
  sweep-next_seq :
      (now : ℕ) (m : List (ℕ × PendingFrame)) (h : Handle Request)
      → (sweep now m h).1.next_seq ≡ h.next_seq
  unfolding sweep retransmit give_up
  sweep-next_seq now [] h = refl
  sweep-next_seq now ((k, p) ∷ m) h = ground (
    arith,
    sweep-next_seq now m h,
    sweep-next_seq now m (retransmit p h),
    sweep-next_seq now m (give_up p h),
  )

  sweep-All :
      (now : ℕ) (m : List (ℕ × PendingFrame)) (h : Handle Request)
      → All IsPending m
      → All IsPending (sweep now m h).0
  unfolding sweep
  sweep-All now [] h a = tt
  sweep-All now ((k, p) ∷ m) h (i, a) =
      let early = sweep-All now m h a in
      let again = sweep-All now m (retransmit p h) a in
      let last = sweep-All now m (give_up p h) a in
      elim (Bool-cases (is_late now p)) [
        | inr early_yet ↦ rw early_yet (i, early)
        | inl late ↦ elim (Bool-cases (ltb p.retry_count max_retries)) [
          | inl more ↦ rw (late, more) ((i.0, i.1, i.2, i.3, i.4, ground arith), again)
          | inr no_more ↦ rw (late, no_more) last
        ]
      ]

  timeout_round-WellFormed :
      (now : ℕ) (h : Handle Request) → WellFormed h → WellFormed (timeout_round now h)
  unfolding timeout_round check_timeouts
  timeout_round-WellFormed now h (p, s, a) =
      let same = sweep-next_seq now h.pending_acks h in
      let kept = sweep-All now h.pending_acks h a in
      elim (Bool-cases h.running) [
        | inl on ↦ simp on (omega (arith, same), omega (arith, same), kept)
        | inr off ↦ simp off (p, s, a)
      ]

  send_frame-WellFormed :
      (ok : Bool) (f : TimeSlotFrame) (h : Handle Request)
      → WellFormed h
      → WellFormed (send_frame_immediately ok f h)
  unfolding send_frame_immediately
  send_frame-WellFormed ok f h (p, s, a) = ground arith

  flush-WellFormed :
      (ok : ℕ → Bool) (i : ℕ) (fs : List TimeSlotFrame) (h : Handle Request)
      → WellFormed h
      → WellFormed (flush ok i fs h)
  unfolding flush
  flush-WellFormed ok i [] h w = w
  flush-WellFormed ok i (f ∷ fs) h w =
      flush-WellFormed ok (suc i) fs (send_frame_immediately (ok i) f h)
        (send_frame-WellFormed (ok i) f h w)

  on_my_slot-WellFormed :
      (ok : ℕ → Bool) (h : Handle Request) → WellFormed h → WellFormed (on_my_slot ok h)
  unfolding on_my_slot send_acks send_data
  on_my_slot-WellFormed ok h w =
      flush-WellFormed ok (length h.send_queue) (send_data ok h).ack_queue
        (record (send_data ok h) { ack_queue = [] })
        (flush-WellFormed ok 0 h.send_queue (record h { send_queue = [] }) w)

  handle_ack-WellFormed :
      (f : TimeSlotFrame) (h : Handle Request) → WellFormed h → WellFormed (handle_ack f h)
  unfolding handle_ack
  handle_ack-WellFormed f h (p, s, a) = elim (Option-cases (lookup f.seq_no h.pending_acks)) [
    | inl e ↦ rw (e, handle_ack) (p, s, a)
    | inr (q, e) ↦ rw (e, handle_ack) (p, s, All-remove IsPending f.seq_no h.pending_acks a)
  ]

  await_ack-WellFormed :
      (f : TimeSlotFrame) (callback : Option ℕ) (now : ℕ) (h : Handle Request)
      → (1 ≤ f.seq_no) × (f.seq_no < 256)
      → f.type ≡ data_frame
      → f.dst_id ≢ broadcast_id
      → WellFormed h
      → WellFormed (await_ack f.seq_no f callback now (queue_frame f h))
  unfolding await_ack queue_frame
  await_ack-WellFormed f callback now h n t one (p, s, a) = (
    (next_sequence-lt h.next_seq).0,
    (next_sequence-lt h.next_seq).1,
    All-emplace IsPending f.seq_no
        (record { frame = f; send_time = now; retry_count = 0; callback = callback }) h.pending_acks
        (refl, n.0, n.1, t, one, omega arith) a,
  )

  queue_frame-WellFormed :
      (f : TimeSlotFrame) (h : Handle Request) → WellFormed h → WellFormed (queue_frame f h)
  unfolding queue_frame
  queue_frame-WellFormed f h (p, s, a) =
      ((next_sequence-lt h.next_seq).0, (next_sequence-lt h.next_seq).1, a)

module _ (lib : HttpLibrary) where
  open lib use {Request}

  handle_payload-WellFormed :
      (f : TimeSlotFrame) (h : Handle Request) → WellFormed h → WellFormed (handle_payload lib f h)
  unfolding handle_payload queue_ack deliver_data deliver is_duplicate
  handle_payload-WellFormed f h (p, s, a) = ground arith

  dispatch-WellFormed :
      (t : FrameType) (f : TimeSlotFrame) (h : Handle Request)
      → WellFormed h
      → WellFormed (dispatch lib t f h)
  unfolding dispatch
  dispatch-WellFormed data_frame f h w = handle_payload-WellFormed f h w
  dispatch-WellFormed ack f h w = handle_ack-WellFormed f h w
  dispatch-WellFormed heartbeat f h w = handle_payload-WellFormed f h w

  handle_received_frame-WellFormed :
      (f : TimeSlotFrame) (h : Handle Request)
      → WellFormed h
      → WellFormed (handle_received_frame lib f h)
  unfolding handle_received_frame count_received
  handle_received_frame-WellFormed f h w =
      elim (Bool-cases (not (f.dst_id == h.node_id) && not (f.dst_id == broadcast_id))) [
        | inl other ↦ rw other w
        | inr mine ↦ rw mine (dispatch-WellFormed f.type f (count_received h) w)
      ]

  handle_line-WellFormed :
      (line : Bytes) (h : Handle Request) → WellFormed h → WellFormed (handle_line lib line h)
  unfolding handle_line count_error
  handle_line-WellFormed line h w = elim (Option-cases (decode (drop_last cr line))) [
    | inl e ↦ rw (e, handle_line) w
    | inr (f, e) ↦ rw (e, handle_line) (handle_received_frame-WellFormed f h w)
  ]

  handle_read-WellFormed :
      (failed : Bool) (h : Handle Request) → WellFormed h → WellFormed (handle_read lib failed h)
  unfolding handle_read count_error
  handle_read-WellFormed failed h w =
      let line =
        handle_line-WellFormed (getline h.read_buffer).0
          (record h { read_buffer = (getline h.read_buffer).1 }) w in
      ground (arith, line, w)

  send-WellFormed :
      (req : Request) (dst : ℕ) (callback : Option ℕ) (now : ℕ) (h : Handle Request)
      → WellFormed h
      → WellFormed (send_http_reliable lib req dst callback now h)
  unfolding send_http_reliable tell new_frame
  send-WellFormed req dst callback now h w = ground (
    arith,
    queue_frame-WellFormed frame h w,
    λ (one : dst ≢ broadcast_id). await_ack-WellFormed frame callback now h (w.0, w.1) refl one w,
  )
    where
      frame : TimeSlotFrame
      frame = new_frame h.node_id dst h.next_seq data_frame (serialize_http_request lib req)

  -- Every event keeps a handle well-formed.
  step-WellFormed :
      (e : Event Request) (h : Handle Request) → WellFormed h → WellFormed (step lib e h)
  unfolding step
  step-WellFormed (runs opened ready) h w = unfold run in ground arith
  step-WellFormed stops h w = unfold stop_link in ground arith
  step-WellFormed (sends req dst callback now) h w = send-WellFormed req dst callback now h w
  step-WellFormed (arrives bytes) h w = w
  step-WellFormed (reads failed) h w = handle_read-WellFormed failed h w
  step-WellFormed (slot_starts ok) h w = on_my_slot-WellFormed ok h w
  step-WellFormed heartbeats h w = unfold heartbeat_round in ground arith
  step-WellFormed (checks now) h w = timeout_round-WellFormed now h w

  -- In every execution from the start, the next sequence number is a byte but not 0, and each
  -- waiting frame is a data frame to one receiver that stands under its own sequence number and
  -- was retried three times at most.
  pub run_events-WellFormed :
      (node_id : ℕ) (es : List (Event Request))
      → WellFormed (run_events lib es (new_handle node_id))
  unfolding run_events
  run_events-WellFormed node_id es = all es (new_handle node_id) (omega arith, omega arith, tt)
    where
      all :
          (es : List (Event Request)) (h : Handle Request)
          → WellFormed h
          → WellFormed (run_events lib es h)
      all [] h w = w
      all (e ∷ es) h w = all es (step lib e h) (step-WellFormed e h w)
