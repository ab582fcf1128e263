-- ===== src/Uwb/Link/Ledger.antt =====
-- Callbacks are called once: send_http_reliable, handle_received_frame, check_timeouts and stop of
-- src/Master/src/uwb/UwbHandle.cpp.
use mid_napi.Prelude.{
  ℕ, suc, ◌+◌, ◌≡◌, refl, ◌∙◌, inl, inr, Bool, true, false, not, ◌&&◌, Option, none, some, List, [],
  ◌∷◌, ◌++◌, arith, Bytes, ◌==◌, if◌then◌else◌, lookup, remove, Option-cases, Bool-cases, nat_eq,
  length,
}
use mid_napi.Http.{HttpLibrary}
use mid_napi.Uwb.Frame.{FrameType, data_frame, ack, heartbeat, TimeSlotFrame, broadcast_id, decode}
use mid_napi.Uwb.Http.{cr, drop_last, parse_http_request}
use mid_napi.Uwb.Link.{
  PendingFrame, Handle, call_back, call_all, stop_link, retransmit, give_up, sweep, check_timeouts,
  timeout_round, flush, on_my_slot, send_frame_immediately, send_data, getline,
}
use mid_napi.Uwb.Link.Messages.{
  handle_ack, is_duplicate, queue_ack, deliver, deliver_data, handle_payload, dispatch,
  handle_received_frame, handle_line, handle_read, count_received, count_error,
}

-- 1 if the callback is `c`.
abbrev pub is_callback : ℕ → Option ℕ → ℕ
is_callback c none = 0
is_callback c (some d) = if d == c then 1 else 0

-- How often `c` was called.
abbrev pub told : ℕ → List (ℕ × Bool) → ℕ
told c [] = 0
told c ((d, r) ∷ calls) = (if d == c then 1 else 0) + told c calls

-- How often `c` waits for an acknowledgement.
abbrev pub waiting : ℕ → List (ℕ × PendingFrame) → ℕ
waiting c [] = 0
waiting c ((k, p) ∷ m) = is_callback c p.callback + waiting c m

-- How often `c` was called or waits.
abbrev pub ledger : {Request : Type 0} → ℕ → Handle Request → ℕ
ledger c h = told c h.called + waiting c h.pending_acks

told-append : (c : ℕ) (xs ys : List (ℕ × Bool)) → told c (xs ++ ys) ≡ told c xs + told c ys
told-append c [] ys = omega arith
told-append c ((d, r) ∷ xs) ys = omega (arith, told-append c xs ys)

pub told-call_back :
    (c : ℕ) (cb : Option ℕ) (r : Bool) (calls : List (ℕ × Bool))
    → told c (call_back cb r calls) ≡ told c calls + is_callback c cb
unfolding call_back
told-call_back c none r calls = omega arith
told-call_back c (some d) r calls = omega (arith, told-append c calls ((d, r) ∷ []))

told-call_all :
    (c : ℕ) (m : List (ℕ × PendingFrame)) (calls : List (ℕ × Bool))
    → told c (call_all m calls) ≡ told c calls + waiting c m
unfolding call_all
told-call_all c [] calls = omega arith
told-call_all c ((k, p) ∷ m) calls = omega (
  arith,
  told-call_all c m (call_back p.callback false calls),
  told-call_back c p.callback false calls,
)

pub waiting-append :
    (c : ℕ) (xs ys : List (ℕ × PendingFrame)) → waiting c (xs ++ ys) ≡ waiting c xs + waiting c ys
waiting-append c [] ys = omega arith
waiting-append c ((k, p) ∷ xs) ys = omega (arith, waiting-append c xs ys)

waiting-remove :
    (c k : ℕ) (p : PendingFrame) (m : List (ℕ × PendingFrame))
    → lookup k m ≡ some p
    → waiting c (remove k m) + is_callback c p.callback ≡ waiting c m
waiting-remove c k p [] h = cc
waiting-remove c k p ((j, q) ∷ m) h = elim (Bool-cases (j == k)) [
  | inl hit ↦ rw hit (let e : q ≡ p = ground arith in rw e (omega arith))
  | inr miss ↦ rw miss (omega (arith, waiting-remove c k p m (ground arith)))
]

module _ {Request : Type 0} (c : ℕ) where
  pub stop_link-ledger : (h : Handle Request) → ledger c (stop_link h) ≡ ledger c h
  unfolding stop_link
  stop_link-ledger h = ground (arith, told-call_all c h.pending_acks h.called)

  give_up-told :
      (p : PendingFrame) (h : Handle Request)
      → told c (give_up p h).called ≡ told c h.called + is_callback c p.callback
  unfolding give_up
  give_up-told p h = told-call_back c p.callback false h.called

  sweep-ledger :
      (now : ℕ) (m : List (ℕ × PendingFrame)) (h : Handle Request)
      → told c (sweep now m h).1.called + waiting c (sweep now m h).0
        ≡ told c h.called + waiting c m
  unfolding sweep retransmit
  sweep-ledger now [] h = refl
  sweep-ledger now ((k, p) ∷ m) h = ground (
    arith,
    sweep-ledger now m h,
    sweep-ledger now m (retransmit p h),
    sweep-ledger now m (give_up p h),
    give_up-told p h,
  )

  pub timeout_round-ledger :
      (now : ℕ) (h : Handle Request) → ledger c (timeout_round now h) ≡ ledger c h
  unfolding timeout_round check_timeouts
  timeout_round-ledger now h = ground (arith, sweep-ledger now h.pending_acks h)

  send_frame-ledger :
      (ok : Bool) (f : TimeSlotFrame) (h : Handle Request)
      → ledger c (send_frame_immediately ok f h) ≡ ledger c h
  unfolding send_frame_immediately
  send_frame-ledger ok f h = ground arith

  flush-ledger :
      (ok : ℕ → Bool) (i : ℕ) (fs : List TimeSlotFrame) (h : Handle Request)
      → ledger c (flush ok i fs h) ≡ ledger c h
  unfolding flush
  flush-ledger ok i [] h = refl
  flush-ledger ok i (f ∷ fs) h =
      flush-ledger ok (suc i) fs (send_frame_immediately (ok i) f h) ∙ send_frame-ledger (ok i) f h

  pub on_my_slot-ledger :
      (ok : ℕ → Bool) (h : Handle Request) → ledger c (on_my_slot ok h) ≡ ledger c h
  unfolding on_my_slot
  on_my_slot-ledger ok h =
      flush-ledger ok (length h.send_queue) (send_data ok h).ack_queue
        (record (send_data ok h) { ack_queue = [] })
      ∙ flush-ledger ok 0 h.send_queue (record h { send_queue = [] })

  handle_ack-ledger :
      (f : TimeSlotFrame) (h : Handle Request) → ledger c (handle_ack f h) ≡ ledger c h
  unfolding handle_ack
  handle_ack-ledger f h = elim (Option-cases (lookup f.seq_no h.pending_acks)) [
    | inl e ↦ rw (e, handle_ack)
    | inr (p, e) ↦
        rw (e, handle_ack)
          (omega (
            arith,
            told-call_back c p.callback true h.called,
            waiting-remove c f.seq_no p h.pending_acks e,
          ))
  ]

  queue_ack-ledger :
      (f : TimeSlotFrame) (h : Handle Request) → ledger c (queue_ack f h) ≡ ledger c h
  unfolding queue_ack
  queue_ack-ledger f h = ground arith

module _ (lib : HttpLibrary) (c : ℕ) where
  open lib use {Request}

  deliver_data-ledger :
      (t : FrameType) (f : TimeSlotFrame) (h : Handle Request)
      → ledger c (deliver_data lib t f h) ≡ ledger c h
  unfolding deliver_data deliver
  deliver_data-ledger data_frame f h = elim (Option-cases (parse_http_request lib f.payload)) [
    | inl e ↦ rw (e, deliver)
    | inr (req, e) ↦ rw (e, deliver)
  ]
  deliver_data-ledger ack f h = refl
  deliver_data-ledger heartbeat f h = refl

  handle_payload-ledger :
      (f : TimeSlotFrame) (h : Handle Request) → ledger c (handle_payload lib f h) ≡ ledger c h
  unfolding handle_payload
  handle_payload-ledger f h = elim (Bool-cases (is_duplicate f h)) [
    | inl old ↦ rw old
    | inr new ↦ rw new (deliver_data-ledger f.type f _ ∙ queue_ack-ledger c f _)
  ]

  dispatch-ledger :
      (t : FrameType) (f : TimeSlotFrame) (h : Handle Request)
      → ledger c (dispatch lib t f h) ≡ ledger c h
  unfolding dispatch
  dispatch-ledger data_frame f h = handle_payload-ledger f h
  dispatch-ledger ack f h = handle_ack-ledger c f h
  dispatch-ledger heartbeat f h = handle_payload-ledger f h

  handle_received_frame-ledger :
      (f : TimeSlotFrame) (h : Handle Request)
      → ledger c (handle_received_frame lib f h) ≡ ledger c h
  unfolding handle_received_frame
  handle_received_frame-ledger f h =
      elim (Bool-cases (not (f.dst_id == h.node_id) && not (f.dst_id == broadcast_id))) [
        | inl other ↦ rw other
        | inr mine ↦ rw mine (dispatch-ledger f.type f (count_received h))
      ]

  handle_line-ledger :
      (line : Bytes) (h : Handle Request) → ledger c (handle_line lib line h) ≡ ledger c h
  unfolding handle_line count_error
  handle_line-ledger line h = elim (Option-cases (decode (drop_last cr line))) [
    | inl e ↦ rw (e, handle_line)
    | inr (f, e) ↦ rw (e, handle_line) (handle_received_frame-ledger f h)
  ]

  pub handle_read-ledger :
      (failed : Bool) (h : Handle Request) → ledger c (handle_read lib failed h) ≡ ledger c h
  unfolding handle_read count_error
  handle_read-ledger failed h = ground (
    arith,
    handle_line-ledger (getline h.read_buffer).0
        (record h { read_buffer = (getline h.read_buffer).1 }),
  )
