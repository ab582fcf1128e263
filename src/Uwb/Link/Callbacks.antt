-- ===== src/Uwb/Link/Callbacks.antt =====
-- Every callback is called exactly once: what holds of the callbacks over whole executions of the
-- Handle of src/Master/src/uwb/UwbHandle.cpp.
use mid_napi.Prelude.{
  ℕ, ◌+◌, ◌≤◌, ◌≡◌, ◌≢◌, refl, ap, Bool, true, false, Option, none, some, List, [], ◌∷◌, ◌++◌,
  arith, lookup, emplace, emplace-append, emplace_present, nat_eq, length, le→not-ltb, ne→not-==,
}
use mid_napi.Http.{HttpLibrary}
use mid_napi.Uwb.Frame.{TimeSlotFrame, broadcast_id, new_frame, data_frame}
use mid_napi.Uwb.Http.{serialize_http_request}
use mid_napi.Uwb.Link.{PendingFrame, Handle, new_handle, run, stop_link, heartbeat_round}
use mid_napi.Uwb.Link.Messages.{send_http_reliable, tell, queue_frame, await_ack}
use mid_napi.Uwb.Link.Events.{
  Event, runs, stops, sends, arrives, reads, slot_starts, heartbeats, checks, step, run_events,
  SeqFree, AllSeqFree,
}
use mid_napi.Uwb.Link.Ledger.{
  is_callback, told, waiting, ledger, told-call_back, waiting-append, stop_link-ledger,
  timeout_round-ledger, on_my_slot-ledger, handle_read-ledger,
}

stop_link_clears :
    {Request : Type 0} (h : Handle Request) → h.running ≡ true → (stop_link h).pending_acks ≡ []
unfolding stop_link
stop_link_clears h r = rw r

-- How often `c` is handed over by an event.
abbrev pub handed_over : {Request : Type 0} → ℕ → Event Request → ℕ
handed_over c (runs opened ready) = 0
handed_over c stops = 0
handed_over c (sends req dst callback now) = is_callback c callback
handed_over c (arrives bytes) = 0
handed_over c (reads failed) = 0
handed_over c (slot_starts ok) = 0
handed_over c heartbeats = 0
handed_over c (checks now) = 0

abbrev pub all_handed_over : {Request : Type 0} → ℕ → List (Event Request) → ℕ
all_handed_over c [] = 0
all_handed_over c (e ∷ es) = handed_over c e + all_handed_over c es

waiting-emplace :
    (c k : ℕ) (p : PendingFrame) (m : List (ℕ × PendingFrame))
    → lookup k m ≡ none
    → waiting c (emplace k p m) ≡ waiting c m + is_callback c p.callback
waiting-emplace c k p m h =
    rw (emplace-append k p m h) (omega (arith, waiting-append c m ((k, p) ∷ [])))

module _ {Request : Type 0} (c : ℕ) where
  tell-ledger :
      (callback : Option ℕ) (r : Bool) (h : Handle Request)
      → ledger c (tell callback r h) ≡ ledger c h + is_callback c callback
  unfolding tell
  tell-ledger callback r h = omega (arith, told-call_back c callback r h.called)

  queue_frame-ledger :
      (f : TimeSlotFrame) (h : Handle Request) → ledger c (queue_frame f h) ≡ ledger c h
  unfolding queue_frame
  queue_frame-ledger f h = refl

  await_ack-ledger :
      (seq : ℕ) (f : TimeSlotFrame) (callback : Option ℕ) (now : ℕ) (h : Handle Request)
      → lookup seq h.pending_acks ≡ none
      → ledger c (await_ack seq f callback now h) ≡ ledger c h + is_callback c callback
  unfolding await_ack
  await_ack-ledger seq f callback now h free = omega (
    arith,
    waiting-emplace c seq
        (record { frame = f; send_time = now; retry_count = 0; callback = callback }) h.pending_acks
        free,
  )

module _ (lib : HttpLibrary) (c : ℕ) where
  open lib use {Request}

  send-ledger :
      (req : Request) (dst : ℕ) (callback : Option ℕ) (now : ℕ) (h : Handle Request)
      → lookup h.next_seq h.pending_acks ≡ none
      → ledger c (send_http_reliable lib req dst callback now h)
        ≡ ledger c h + is_callback c callback
  unfolding send_http_reliable queue_frame
  send-ledger req dst callback now h free = ground (
    arith,
    tell-ledger c callback false h,
    tell-ledger c callback true (queue_frame frame h),
    queue_frame-ledger c frame h,
    await_ack-ledger c h.next_seq frame callback now (queue_frame frame h) free,
  )
    where
      frame : TimeSlotFrame
      frame = new_frame h.node_id dst h.next_seq data_frame (serialize_http_request lib req)

  step-ledger :
      (e : Event Request) (h : Handle Request)
      → SeqFree e h
      → ledger c (step lib e h) ≡ ledger c h + handed_over c e
  unfolding step
  step-ledger (runs opened ready) h f = unfold run in ground arith
  step-ledger stops h f = omega (arith, stop_link-ledger c h)
  step-ledger (sends req dst callback now) h f = send-ledger req dst callback now h f
  step-ledger (arrives bytes) h f = omega arith
  step-ledger (reads failed) h f = omega (arith, handle_read-ledger lib c failed h)
  step-ledger (slot_starts ok) h f = omega (arith, on_my_slot-ledger c ok h)
  step-ledger heartbeats h f = unfold heartbeat_round in ground arith
  step-ledger (checks now) h f = omega (arith, timeout_round-ledger c now h)

  -- Over every execution in which no send takes a sequence number that still waits: each callback
  -- is called or waits as often as it was handed over, no more and no less.
  pub run_events-ledger :
      (es : List (Event Request)) (h : Handle Request)
      → AllSeqFree lib es h
      → ledger c (run_events lib es h) ≡ ledger c h + all_handed_over c es
  unfolding run_events
  run_events-ledger [] h f = omega arith
  run_events-ledger (e ∷ es) h f =
      omega (arith, run_events-ledger es (step lib e h) f.1, step-ledger e h f.0)

  -- When a running handle is stopped after an execution from the start in which no send takes a
  -- sequence number that still waits, every callback has been called exactly as often as it was handed
  -- over, and none waits.
  pub stop_calls_all :
      (node_id : ℕ) (es : List (Event Request))
      → AllSeqFree lib es (new_handle node_id)
      → (run_events lib es (new_handle node_id)).running ≡ true
      → let h = stop_link (run_events lib es (new_handle node_id)) in
        (told c h.called ≡ all_handed_over c es) × (h.pending_acks ≡ [])
  stop_calls_all node_id es f r =
      let h = run_events lib es (new_handle node_id) in
      let empty = stop_link_clears h r in
      let total = run_events-ledger es (new_handle node_id) f in
      let same = stop_link-ledger c h in (omega (arith, total, same, ap (waiting c) empty), empty)

  -- When a running handle sends a request that fits into a frame to one receiver, and the sequence
  -- number still waits, the callback is lost: it is neither called nor kept, though the frame is queued.
  pub send_loses_callback :
      (req : Request) (dst now : ℕ) (p : PendingFrame) (h : Handle Request)
      → h.running ≡ true
      → length (serialize_http_request lib req) ≤ 65535
      → dst ≢ broadcast_id
      → lookup h.next_seq h.pending_acks ≡ some p
      → let h' = send_http_reliable lib req dst (some c) now h in
        (ledger c h' ≡ ledger c h)
        × (h'.send_queue
            ≡ h.send_queue
              ++ new_frame h.node_id dst h.next_seq data_frame (serialize_http_request lib req)
                ∷ [])
  unfolding send_http_reliable queue_frame await_ack
  send_loses_callback req dst now p h r fits one taken =
      rw
        (
          r,
          le→not-ltb 65535 (length (serialize_http_request lib req)) fits,
          ne→not-== dst broadcast_id one,
          emplace_present h.next_seq _ h.pending_acks taken,
        )
        (refl, refl)
