-- ===== src/Uwb/Link/Messages.antt =====
-- Sending and receiving: send_http_reliable, handle_read and handle_received_frame of
-- src/Master/src/uwb/UwbHandle.cpp.
use mid_napi.Prelude.{
  ℕ, ◌+◌, Bool, true, false, not, ◌&&◌, Option, none, some, [], ◌∷◌, ◌++◌, Bytes, length, ltb, ◌==◌,
  if◌then◌else◌, u32, lookup, insert, emplace, remove, nat_eq,
}
use mid_napi.Http.{HttpLibrary}
use mid_napi.Uwb.Frame.{
  FrameType, data_frame, ack, heartbeat, TimeSlotFrame, broadcast_id, new_frame, decode,
}
use mid_napi.Uwb.Http.{cr, drop_last, serialize_http_request, parse_http_request}
use mid_napi.Uwb.Link.{Handle, call_back, next_sequence, getline}

-- The acknowledged frame leaves the waiting list and its callback is told.
unfoldable pub handle_ack : {Request : Type 0} → TimeSlotFrame → Handle Request → Handle Request
unfolding call_back
handle_ack frame h = elim (lookup frame.seq_no h.pending_acks) [
  | none ↦ h
  | some p ↦ record h {
    called = call_back p.callback true h.called;
    pending_acks = remove frame.seq_no h.pending_acks;
    stats = record h.stats { acks_received = u32 (h.stats.acks_received + 1) };
  }
]

-- The last frame taken from this sender had the same number.
unfoldable pub is_duplicate : {Request : Type 0} → TimeSlotFrame → Handle Request → Bool
is_duplicate frame h = elim (lookup frame.src_id h.last_received_seq) [
  | none ↦ false
  | some seq ↦ seq == frame.seq_no
]

abbrev pub is_heartbeat : FrameType → Bool
is_heartbeat data_frame = false
is_heartbeat ack = false
is_heartbeat heartbeat = true

-- An acknowledgement is queued for a data frame that is not a broadcast.
unfoldable pub queue_ack : {Request : Type 0} → TimeSlotFrame → Handle Request → Handle Request
unfolding new_frame
queue_ack frame h =
    if not (frame.dst_id == broadcast_id) && not (is_heartbeat frame.type)
    then record h {
      ack_queue = h.ack_queue ++ new_frame h.node_id frame.src_id frame.seq_no ack [] ∷ [];
    }
    else h

unfoldable pub count_received : {Request : Type 0} → Handle Request → Handle Request
count_received h = record h {
  stats = record h.stats { frames_received = u32 (h.stats.frames_received + 1) };
}

unfoldable pub count_error : {Request : Type 0} → Handle Request → Handle Request
count_error h = record h {
  stats = record h.stats { serial_errors = u32 (h.stats.serial_errors + 1) };
}

-- `if (callback) callback(result)`
unfoldable pub tell : {Request : Type 0} → Option ℕ → Bool → Handle Request → Handle Request
unfolding call_back
tell callback result h = record h { called = call_back callback result h.called }

-- The frame takes the next sequence number and is queued and counted.
unfoldable pub queue_frame : {Request : Type 0} → TimeSlotFrame → Handle Request → Handle Request
unfolding next_sequence
queue_frame frame h = record h {
  next_seq = next_sequence h.next_seq;
  send_queue = h.send_queue ++ frame ∷ [];
  stats = record h.stats { http_requests_sent = u32 (h.stats.http_requests_sent + 1) };
}

-- `emplace` leaves an entry that is there already.
unfoldable pub await_ack :
    {Request : Type 0} → ℕ → TimeSlotFrame → Option ℕ → ℕ → Handle Request → Handle Request
await_ack seq frame callback now h = record h {
  pending_acks =
      emplace seq (record { frame = frame; send_time = now; retry_count = 0; callback = callback })
        h.pending_acks;
}

module _ (lib : HttpLibrary) where
  open lib use {Request}

  -- The payload of a data frame goes to the interface router if it is a request.
  unfoldable pub deliver : TimeSlotFrame → Handle Request → Handle Request
  deliver frame h = elim (parse_http_request lib frame.payload) [
    | none ↦ h
    | some req ↦ record h {
      stats = record h.stats { http_requests_received = u32 (h.stats.http_requests_received + 1) };
      delivered = h.delivered ++ req ∷ [];
    }
  ]

  unfoldable pub deliver_data : FrameType → TimeSlotFrame → Handle Request → Handle Request
  unfolding deliver
  deliver_data data_frame frame h = deliver frame h
  deliver_data ack frame h = h
  deliver_data heartbeat frame h = h

  unfoldable pub handle_payload : TimeSlotFrame → Handle Request → Handle Request
  unfolding is_duplicate queue_ack deliver_data
  handle_payload frame h =
      if is_duplicate frame h
      then h
      else deliver_data frame.type frame (
          queue_ack frame
            (record h { last_received_seq = insert frame.src_id frame.seq_no h.last_received_seq }))

  unfoldable pub dispatch : FrameType → TimeSlotFrame → Handle Request → Handle Request
  dispatch ack frame h = handle_ack frame h
  dispatch data_frame frame h = handle_payload frame h
  dispatch heartbeat frame h = handle_payload frame h

  -- Frames for others are dropped without a trace.
  unfoldable pub handle_received_frame : TimeSlotFrame → Handle Request → Handle Request
  unfolding dispatch count_received
  handle_received_frame frame h =
      if not (frame.dst_id == h.node_id) && not (frame.dst_id == broadcast_id)
      then h
      else dispatch frame.type frame (count_received h)

  unfoldable pub handle_line : Bytes → Handle Request → Handle Request
  unfolding count_error
  handle_line line h = elim (decode (drop_last cr line)) [
    | none ↦ count_error h
    | some frame ↦ handle_received_frame frame h
  ]

  -- `failed` is the error code of the read; without one there is a line in the buffer.
  unfoldable pub handle_read : Bool → Handle Request → Handle Request
  unfolding count_error handle_line getline
  handle_read failed h =
      if not h.running
      then h
      else if failed
      then count_error h
      else let (line, rest) = getline h.read_buffer in
        handle_line line (record h { read_buffer = rest })

  -- `now` is the steady clock.
  unfoldable pub send_http_reliable : Request → ℕ → Option ℕ → ℕ → Handle Request → Handle Request
  send_http_reliable req dst_id callback now h =
      let serialized = serialize_http_request lib req in
      let frame = new_frame h.node_id dst_id h.next_seq data_frame serialized in
      if not h.running
      then tell callback false h
      else if ltb 65535 (length serialized)
      then tell callback false h
      else if dst_id == broadcast_id
      then tell callback true (queue_frame frame h)
      else await_ack h.next_seq frame callback now (queue_frame frame h)
