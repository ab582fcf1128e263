-- ===== src/Uwb/Link/Tests.antt =====
-- The reliable link at concrete handles, over the requests of Http/Sample.
use mid_napi.Prelude.{
  ℕ, zero, suc, ◌+◌, ◌*◌, ◌≤◌, ◌≡◌, refl, inl, Bool, true, false, ◌&&◌, some, List, [], ◌∷◌, ◌++◌,
  arith, Bytes, AreBytes, Lacks, codes, length, ltb, ltb→lt, and→, nat_eq,
}
use mid_napi.Http.Sample.{sample, Message, sub_request}
use mid_napi.Uwb.Frame.{TimeSlotFrame, IsFrame, heartbeat, new_frame, encode}
use mid_napi.Uwb.Http.{lf, escape, escape_byte, find, serialize_http_request, parse_http_request}
use mid_napi.Uwb.Http.Escaping.{parse-serialize_body, escape-Lacks}
use mid_napi.Uwb.Link.{
  PendingFrame, Handle, new_handle, stop_link, timeout_round, check_timeouts, run, on_my_slot,
  send_data, send_acks, flush, send_frame_immediately,
}
use mid_napi.Uwb.Link.Messages.{
  handle_received_frame, handle_read, send_http_reliable, count_received, await_ack, queue_frame,
  tell,
}
use mid_napi.Uwb.Link.Events.{
  Event, runs, sends, slot_starts, heartbeats, checks, step, run_events, AllSeqFree,
}
use mid_napi.Uwb.Link.Ledger.{told, waiting, ledger}
use mid_napi.Uwb.Link.Callbacks.{run_events-ledger, stop_calls_all, send_loses_callback}
use mid_napi.Uwb.Link.Receive.{handle_read-encode, request-IsFrame}
use mid_napi.Uwb.Link.Repeats.{handle_received_frame_twice, redelivered_after_heartbeat}
use mid_napi.Uwb.Link.Exchange.{request_frame}
use mid_napi.Uwb.Link.Timeouts.{IsPaced, last_round, timeouts_drain}
use mid_napi.Uwb.Link.Invariant.{WellFormed, run_events-WellFormed}

are_bytes : Bytes → Bool
are_bytes [] = true
are_bytes (b ∷ s) = ltb b 256 && are_bytes s

are_bytes_lem : (s : Bytes) → are_bytes s ≡ true → AreBytes s
unfolding are_bytes
are_bytes_lem [] h = tt
are_bytes_lem (b ∷ s) h =
    let (first, rest) = and→ (ltb b 256) (are_bytes s) h in
    (ltb→lt b 256 first, are_bytes_lem s rest)

-- Running handles of the nodes 1 and 2.
abbrev alice : Handle Message
alice = record (new_handle 1) { running = true; serial_open = true; next_seq = 255 }

abbrev bob : Handle Message
bob = record (new_handle 2) { running = true; serial_open = true }

wire_bytes : AreBytes (sample.wire sub_request)
unfolding are_bytes
wire_bytes = are_bytes_lem (sample.wire sub_request) refl

wire_fits : length (serialize_http_request sample sub_request) ≤ 65535
unfolding serialize_http_request escape escape_byte
wire_fits = omega arith

arrives :
    (received : Message) × (parse_http_request sample (serialize_http_request sample sub_request)
      ≡ some received)
    × (received.content ≡ codes "a\\b")
unfolding find
arrives =
    parse-serialize_body sample sub_request (codes "POST /NodeSub HTTP/1.1\r\nNode: n1") refl refl

-- Node 1 starts, sends two requests, and transmits in its slot.
abbrev busy : List (Event Message)
busy =
    runs true true
    ∷ sends sub_request 2 (some 7) 1000
    ∷ sends sub_request 255 (some 8) 2000
    ∷ slot_starts (λ i. true)
    ∷ checks 5000
    ∷ []

busy-AllSeqFree : AllSeqFree sample busy (new_handle 1)
unfolding step run send_http_reliable on_my_slot timeout_round serialize_http_request await_ack
    queue_frame
busy-AllSeqFree = (tt, (refl, (refl, (tt, (tt, tt)))))

run_events-ledger_example : ledger 7 (run_events sample busy (new_handle 1)) ≡ 1
run_events-ledger_example = run_events-ledger sample 7 busy (new_handle 1) busy-AllSeqFree

busy_running : (run_events sample busy (new_handle 1)).running ≡ true
unfolding run_events step run send_http_reliable on_my_slot send_data send_acks flush
    send_frame_immediately timeout_round serialize_http_request await_ack queue_frame tell
    check_timeouts
busy_running = refl

stop_calls_all_example :
    (told 7 (stop_link (run_events sample busy (new_handle 1))).called ≡ 1)
    × ((stop_link (run_events sample busy (new_handle 1))).pending_acks ≡ [])
stop_calls_all_example = stop_calls_all sample 7 1 busy busy-AllSeqFree busy_running

run_events-WellFormed_example : WellFormed (run_events sample busy (new_handle 1))
run_events-WellFormed_example = run_events-WellFormed sample 1 busy

-- The request of alice to bob, and her handle while it waits.
abbrev asked : TimeSlotFrame
asked = request_frame sample sub_request alice bob

abbrev pending : PendingFrame
pending = record { frame = asked; send_time = 1000; retry_count = 0; callback = some 7 }

abbrev patient : Handle Message
patient = record alice { pending_acks = (255, pending) ∷ [] }

-- The timeout worker, a round every 100 ms, with a heartbeat before each.
abbrev worker_gap : ℕ
worker_gap = 100 * 1000000

abbrev worker : ℕ → ℕ → List (Event Message)
worker zero now = []
worker (suc n) now = heartbeats ∷ checks (now + worker_gap) ∷ worker n (now + worker_gap)

worker-IsPaced : (n now : ℕ) → IsPaced 7 worker_gap now (worker n now)
worker-IsPaced zero now = tt
worker-IsPaced (suc n) now = (tt, (omega arith, worker-IsPaced n (now + worker_gap)))

worker-AllSeqFree : (n now : ℕ) (h : Handle Message) → AllSeqFree sample (worker n now) h
worker-AllSeqFree zero now h = tt
worker-AllSeqFree (suc n) now h = (tt, (tt, worker-AllSeqFree n (now + worker_gap) _))

last_round-worker : (n now : ℕ) → last_round now (worker n now) ≡ now + n * worker_gap
last_round-worker zero now = omega arith
last_round-worker (suc n) now = omega (arith, last_round-worker n (now + worker_gap))

timeouts_drain_example :
    let h = run_events sample (worker 85 1000) patient in
    (waiting 7 h.pending_acks ≡ 0) × (told 7 h.called ≡ 1)
timeouts_drain_example =
    timeouts_drain sample 7 worker_gap 1000 (worker 85 1000) patient refl ((λ e. omega arith), tt)
      (worker-IsPaced 85 1000) (worker-AllSeqFree 85 1000 patient)
      (omega (arith, last_round-worker 85 1000))

send_loses_callback_example :
    let h = send_http_reliable sample sub_request 2 (some 9) 2000 patient in
    (ledger 9 h ≡ 0) × (h.send_queue ≡ asked ∷ [])
send_loses_callback_example =
    send_loses_callback sample 9 sub_request 2 2000 pending patient refl wire_fits (omega arith)
      refl

asked-IsFrame : IsFrame asked
asked-IsFrame =
    request-IsFrame sample sub_request 1 2 255 (omega arith) (omega arith) (omega arith) wire_bytes
      wire_fits

asked-Lacks : Lacks lf asked.payload
unfolding new_frame serialize_http_request
asked-Lacks = (escape-Lacks (sample.wire sub_request)).0

handle_read-encode_example :
    handle_read sample false (record bob { read_buffer = encode asked ++ lf ∷ codes "[TS]" })
    ≡ handle_received_frame sample asked (record bob { read_buffer = codes "[TS]" })
handle_read-encode_example =
    handle_read-encode sample asked (codes "[TS]") bob asked-IsFrame asked-Lacks refl

handle_received_frame_twice_example :
    let once = handle_received_frame sample asked bob in
    handle_received_frame sample asked once ≡ count_received once
unfolding new_frame
handle_received_frame_twice_example =
    handle_received_frame_twice sample asked bob (inl refl) (λ e. absurd (ground (arith, e)))

beat : TimeSlotFrame
beat = new_frame 1 255 0 heartbeat (codes "HB:1")

redelivered_after_heartbeat_example :
    let once = handle_received_frame sample asked bob in
    let between = handle_received_frame sample beat once in
    (handle_received_frame sample asked between).delivered ≡ once.delivered ++ arrives.0 ∷ []
unfolding new_frame beat
redelivered_after_heartbeat_example =
    redelivered_after_heartbeat sample asked beat arrives.0 bob refl (omega arith) refl arrives.1
      refl refl refl (omega arith)
