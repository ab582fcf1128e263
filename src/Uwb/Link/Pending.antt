-- ===== src/Uwb/Link/Pending.antt =====
-- What an event leaves as it is while a Handle of src/Master/src/uwb/UwbHandle.cpp runs: what holds of
-- every frame that waits.
use mid_napi.Prelude.{
  ℕ, suc, ◌≡◌, ◌≢◌, refl, sym, ◌∙◌, inl, inr, Bool, true, not, ◌&&◌, Option, some, List, [], ◌∷◌,
  ◌==◌, arith, All, Bytes, lookup, nat_eq, if_either, Option-cases, ltb, length,
}
use mid_napi.Http.{HttpLibrary}
use mid_napi.Uwb.Frame.{FrameType, data_frame, ack, heartbeat, TimeSlotFrame, broadcast_id, decode}
use mid_napi.Uwb.Http.{cr, drop_last, serialize_http_request}
use mid_napi.Uwb.Link.{
  PendingFrame, Handle, run, flush, on_my_slot, send_data, send_acks, send_frame_immediately,
  heartbeat_round, getline,
}
use mid_napi.Uwb.Link.Messages.{
  handle_ack, is_duplicate, queue_ack, deliver, deliver_data, handle_payload, dispatch,
  handle_received_frame, handle_line, handle_read, count_received, count_error, send_http_reliable,
  tell, queue_frame, await_ack,
}
use mid_napi.Uwb.Link.Events.{
  Event, runs, stops, sends, arrives, reads, slot_starts, heartbeats, checks, step,
}
use mid_napi.Uwb.Link.Invariant.{All-remove, All-emplace}

-- The handle runs, and `P` holds of every frame that waits.
abbrev pub Runs : {Request : Type 0} → (ℕ × PendingFrame → Type 0) → Handle Request → Type 0
Runs P h = (h.running ≡ true) × All P h.pending_acks

-- Neither a stop, nor a round of the timeout worker, nor a send with the callback `c`.
abbrev pub IsOther : {Request : Type 0} → ℕ → Event Request → Type 0
IsOther c (runs opened ready) = Unit
IsOther c stops = ⊥
IsOther c (sends req dst callback now) = callback ≢ some c
IsOther c (arrives bytes) = Unit
IsOther c (reads failed) = Unit
IsOther c (slot_starts ok) = Unit
IsOther c heartbeats = Unit
IsOther c (checks now) = ⊥

module _ {Request : Type 0} (P : ℕ × PendingFrame → Type 0) where
  flush-Runs :
      (ok : ℕ → Bool) (i : ℕ) (fs : List TimeSlotFrame) (h : Handle Request)
      → Runs P h
      → Runs P (flush ok i fs h)
  unfolding flush send_frame_immediately
  flush-Runs ok i [] h w = w
  flush-Runs ok i (f ∷ fs) h w =
      flush-Runs ok (suc i) fs (send_frame_immediately (ok i) f h) (ground (arith, w))

  on_my_slot-Runs : (ok : ℕ → Bool) (h : Handle Request) → Runs P h → Runs P (on_my_slot ok h)
  unfolding on_my_slot send_acks send_data
  on_my_slot-Runs ok h w =
      flush-Runs ok (length h.send_queue) (send_data ok h).ack_queue
        (record (send_data ok h) { ack_queue = [] })
        (flush-Runs ok 0 h.send_queue (record h { send_queue = [] }) w)

  handle_ack-Runs : (f : TimeSlotFrame) (h : Handle Request) → Runs P h → Runs P (handle_ack f h)
  unfolding handle_ack
  handle_ack-Runs f h (r, a) = elim (Option-cases (lookup f.seq_no h.pending_acks)) [
    | inl e ↦ rw (e, handle_ack) (r, a)
    | inr (q, e) ↦ rw (e, handle_ack) (r, All-remove P f.seq_no h.pending_acks a)
  ]

module _ (lib : HttpLibrary) (P : ℕ × PendingFrame → Type 0) where
  open lib use {Request}

  handle_payload-Runs :
      (f : TimeSlotFrame) (h : Handle Request) → Runs P h → Runs P (handle_payload lib f h)
  unfolding handle_payload queue_ack deliver_data deliver is_duplicate
  handle_payload-Runs f h (r, a) = ground arith

  dispatch-Runs :
      (t : FrameType) (f : TimeSlotFrame) (h : Handle Request)
      → Runs P h
      → Runs P (dispatch lib t f h)
  unfolding dispatch
  dispatch-Runs data_frame f h w = handle_payload-Runs f h w
  dispatch-Runs ack f h w = handle_ack-Runs P f h w
  dispatch-Runs heartbeat f h w = handle_payload-Runs f h w

  handle_received_frame-Runs :
      (f : TimeSlotFrame) (h : Handle Request) → Runs P h → Runs P (handle_received_frame lib f h)
  unfolding handle_received_frame count_received
  handle_received_frame-Runs f h w =
      if_either (Runs P) (not (f.dst_id == h.node_id) && not (f.dst_id == broadcast_id)) h _ w
        (dispatch-Runs f.type f (count_received h) w)

  handle_line-Runs :
      (line : Bytes) (h : Handle Request) → Runs P h → Runs P (handle_line lib line h)
  unfolding handle_line count_error
  handle_line-Runs line h w = elim (Option-cases (decode (drop_last cr line))) [
    | inl e ↦ rw (e, handle_line) w
    | inr (f, e) ↦ rw (e, handle_line) (handle_received_frame-Runs f h w)
  ]

  handle_read-Runs :
      (failed : Bool) (h : Handle Request) → Runs P h → Runs P (handle_read lib failed h)
  unfolding handle_read count_error
  handle_read-Runs failed h w =
      let line =
        handle_line-Runs (getline h.read_buffer).0
          (record h { read_buffer = (getline h.read_buffer).1 }) w in
      ground (arith, line, w)

  -- A frame that begins to wait has the callback it was sent with.
  send-Runs :
      (req : Request) (dst : ℕ) (callback : Option ℕ) (now : ℕ) (h : Handle Request)
      → ((k : ℕ) (p : PendingFrame) → p.callback ≡ callback → P (k, p))
      → Runs P h
      → Runs P (send_http_reliable lib req dst callback now h)
  unfolding send_http_reliable tell queue_frame await_ack
  send-Runs req dst callback now h new (r, a) =
      if_either (Runs P) (not h.running) _ _ (r, a)
        (if_either (Runs P) (ltb 65535 (length (serialize_http_request lib req))) _ _ (r, a)
          (if_either (Runs P) (dst == broadcast_id) _ _ (r, a)
            (r, All-emplace P h.next_seq _ h.pending_acks (new h.next_seq _ refl) a)))

  -- An event that is neither a stop nor a round of the timeout worker nor a send with the callback `c`.
  pub other_step-Runs :
      (c : ℕ) (e : Event Request) (h : Handle Request)
      → IsOther c e
      → ((k : ℕ) (p : PendingFrame) → p.callback ≢ some c → P (k, p))
      → Runs P h
      → Runs P (step lib e h)
  unfolding step
  other_step-Runs c (runs opened ready) h o new w = unfold run in ground (arith, w)
  other_step-Runs c stops h o new w = absurd o
  other_step-Runs c (sends req dst callback now) h o new w =
      send-Runs req dst callback now h (λ k p e. new k p (λ e'. o (sym e ∙ e'))) w
  other_step-Runs c (arrives bytes) h o new w = w
  other_step-Runs c (reads failed) h o new w = handle_read-Runs failed h w
  other_step-Runs c (slot_starts ok) h o new w = on_my_slot-Runs P ok h w
  other_step-Runs c heartbeats h o new w = unfold heartbeat_round in ground (arith, w)
  other_step-Runs c (checks now) h o new w = absurd o
