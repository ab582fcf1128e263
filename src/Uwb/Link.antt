-- ===== src/Uwb/Link.antt =====
-- The reliable link over the radio: Handle of src/Master/src/uwb/UwbHandle.hpp and UwbHandle.cpp.
-- A callback is a number, and a call of it an entry of `called`; what is written to the serial port
-- is in `sent`, and what is handed to the interface router in `delivered`, each oldest first.
-- Steady-clock times are in nanoseconds. Each operation is one step.
pub mod Messages
pub mod Events
pub mod Ledger
pub mod Callbacks
pub mod Receive
pub mod Repeats
pub mod Exchange
pub mod Pending
pub mod Timeouts
pub mod Invariant
pub mod Tests
use mid_napi.Prelude.{
  ℕ, suc, ◌+◌, ◌-◌, ◌*◌, ◌/◌, ◌%◌, ◌^◌, ◌<◌, ◌≤◌, ◌≡◌, Bool, true, false, not, ◌&&◌, ◌||◌, Option,
  none, some, List, [], ◌∷◌, ◌++◌, Bytes, codes, length, ltb, leb, ◌==◌, if◌then◌else◌, u8, u32,
  lookup, insert, emplace, remove, nat_eq,
}
use mid_napi.Http.{HttpLibrary}
use mid_napi.Uwb.Frame.{
  FrameType, data_frame, ack, heartbeat, TimeSlotFrame, broadcast_id, new_frame, encode, decode,
}
use mid_napi.Uwb.Slots.{Manager, new_manager, start, stop, set_my_slot_callback}
use mid_napi.Uwb.Http.{
  lf, cr, drop_last, escape, unescape, serialize_http_request, parse_http_request,
}

pub record Stats : Type 0 where
  pub frames_sent : ℕ
  pub frames_received : ℕ
  pub acks_sent : ℕ
  pub acks_received : ℕ
  pub retransmissions : ℕ
  pub timeouts : ℕ
  pub http_requests_sent : ℕ
  pub http_requests_received : ℕ
  pub serial_errors : ℕ
  pub heartbeats_sent : ℕ

abbrev pub no_stats : Stats
no_stats = record {
  frames_sent = 0;
  frames_received = 0;
  acks_sent = 0;
  acks_received = 0;
  retransmissions = 0;
  timeouts = 0;
  http_requests_sent = 0;
  http_requests_received = 0;
  serial_errors = 0;
  heartbeats_sent = 0;
}

-- `callback` is `none` for a null function.
pub record PendingFrame : Type 0 where
  pub frame : TimeSlotFrame
  pub send_time : ℕ
  pub retry_count : ℕ
  pub callback : Option ℕ

pub record Handle (Request : Type 0) : Type 0 where
  pub node_id : ℕ
  pub running : Bool
  pub serial_open : Bool
  pub slots : Manager
  pub send_queue : List TimeSlotFrame
  pub ack_queue : List TimeSlotFrame
  pub pending_acks : List (ℕ × PendingFrame)
  pub last_received_seq : List (ℕ × ℕ)
  pub next_seq : ℕ
  pub read_buffer : Bytes
  pub stats : Stats
  pub sent : List Bytes
  pub called : List (ℕ × Bool)
  pub delivered : List Request

abbrev pub ack_timeout_ms : ℕ
ack_timeout_ms = 2000

abbrev pub max_retries : ℕ
max_retries = 3

-- The deadline of the acknowledgement has passed.
abbrev pub is_late : ℕ → PendingFrame → Bool
is_late now p = leb ack_timeout_ms ((now - p.send_time) / 1000000)

abbrev pub retried : ℕ → PendingFrame → PendingFrame
retried now p = record p { retry_count = p.retry_count + 1; send_time = now }

-- `if (callback) callback(result)`, behind the calls made so far.
unfoldable pub call_back : Option ℕ → Bool → List (ℕ × Bool) → List (ℕ × Bool)
call_back none result calls = calls
call_back (some c) result calls = calls ++ (c, result) ∷ []

unfoldable pub count_sent : FrameType → Stats → Stats
count_sent ack s = record s {
  frames_sent = u32 (s.frames_sent + 1);
  acks_sent = u32 (s.acks_sent + 1);
}
count_sent data_frame s = record s { frames_sent = u32 (s.frames_sent + 1) }
count_sent heartbeat s = record s { frames_sent = u32 (s.frames_sent + 1) }

-- Stop fails every callback that still waits.
unfoldable pub call_all : List (ℕ × PendingFrame) → List (ℕ × Bool) → List (ℕ × Bool)
unfolding call_back
call_all [] calls = calls
call_all ((k, p) ∷ m) calls = call_all m (call_back p.callback false calls)

-- `m_next_seq++` on a uint8_t, past 0.
unfoldable pub next_sequence : ℕ → ℕ
next_sequence seq = if u8 (seq + 1) == 0 then 1 else u8 (seq + 1)

-- std::to_string of a uint8_t.
unfoldable pub decimal : ℕ → Bytes
decimal n =
    if ltb n 10
    then (b'0' + n) ∷ []
    else if ltb n 100
    then (b'0' + n / 10) ∷ (b'0' + n % 10) ∷ []
    else (b'0' + n / 100) ∷ (b'0' + n / 10 % 10) ∷ (b'0' + n % 10) ∷ []

-- std::getline: the text up to the first line feed, and what follows it.
unfoldable pub getline : Bytes → Bytes × Bytes
getline [] = ([], [])
getline (c ∷ s) = let rest = getline s in if c == lf then ([], s) else (c ∷ rest.0, rest.1)

abbrev pub new_handle : {Request : Type 0} → ℕ → Handle Request
new_handle node_id = record {
  node_id = node_id;
  running = false;
  serial_open = false;
  slots = new_manager node_id;
  send_queue = [];
  ack_queue = [];
  pending_acks = [];
  last_received_seq = [];
  next_seq = 1;
  read_buffer = [];
  stats = no_stats;
  sent = [];
  called = [];
  delivered = [];
}

module _ {Request : Type 0} where
  -- Whether `init_serial` opens the port, and whether it sets the options of the port then: if not, the
  -- port stays open.
  unfoldable pub run : Bool → Bool → Handle Request → Handle Request
  unfolding start set_my_slot_callback
  run opened ready h =
      if h.running
      then h
      else if not opened
      then h
      else if not ready
      then record h { serial_open = true }
      else record h {
        running = true;
        serial_open = true;
        slots = start (set_my_slot_callback h.slots);
      }

  unfoldable pub stop_link : Handle Request → Handle Request
  unfolding stop call_all
  stop_link h = if not h.running then h else record h {
    running = false;
    slots = stop h.slots;
    serial_open = false;
    called = call_all h.pending_acks h.called;
    pending_acks = [];
  }

  -- `ok` is false if the write throws.
  unfoldable pub send_frame_immediately : Bool → TimeSlotFrame → Handle Request → Handle Request
  unfolding encode count_sent
  send_frame_immediately ok frame h =
      if not h.serial_open
      then h
      else if ok
      then record h {
        sent = h.sent ++ (encode frame ++ lf ∷ []) ∷ [];
        stats = count_sent frame.type h.stats;
      }
      else record h { stats = record h.stats { serial_errors = u32 (h.stats.serial_errors + 1) } }

  -- `ok i` tells whether the i-th write of this slot succeeds.
  unfoldable pub flush : (ℕ → Bool) → ℕ → List TimeSlotFrame → Handle Request → Handle Request
  flush ok i [] h = h
  flush ok i (f ∷ fs) h = flush ok (suc i) fs (send_frame_immediately (ok i) f h)

  unfoldable pub send_data : (ℕ → Bool) → Handle Request → Handle Request
  unfolding flush
  send_data ok h = flush ok 0 h.send_queue (record h { send_queue = [] })

  unfoldable pub send_acks : (ℕ → Bool) → ℕ → Handle Request → Handle Request
  unfolding flush
  send_acks ok i h = flush ok i h.ack_queue (record h { ack_queue = [] })

  -- All queued data frames, then all queued acknowledgements.
  unfoldable pub on_my_slot : (ℕ → Bool) → Handle Request → Handle Request
  unfolding send_data send_acks
  on_my_slot ok h = send_acks ok (length h.send_queue) (send_data ok h)

  -- One round of `heartbeat_worker`.
  unfoldable pub heartbeat_round : Handle Request → Handle Request
  unfolding decimal new_frame
  heartbeat_round h = if not h.running then h else record h {
    send_queue =
        h.send_queue
        ++ new_frame h.node_id broadcast_id 0 heartbeat (codes "HB:" ++ decimal h.node_id) ∷ [];
    stats = record h.stats { heartbeats_sent = u32 (h.stats.heartbeats_sent + 1) };
  }

  -- The frame goes to the send queue again.
  unfoldable pub retransmit : PendingFrame → Handle Request → Handle Request
  retransmit p h = record h {
    send_queue = h.send_queue ++ p.frame ∷ [];
    stats = record h.stats { retransmissions = u32 (h.stats.retransmissions + 1) };
  }

  -- All retransmissions went unanswered.
  unfoldable pub give_up : PendingFrame → Handle Request → Handle Request
  unfolding call_back
  give_up p h = record h {
    called = call_back p.callback false h.called;
    stats = record h.stats { timeouts = u32 (h.stats.timeouts + 1) };
  }

  -- The loop of `check_timeouts` over the waiting frames: which entries stay, and the effects.
  unfoldable pub sweep :
      ℕ → List (ℕ × PendingFrame) → Handle Request → List (ℕ × PendingFrame) × Handle Request
  unfolding retransmit give_up
  sweep now [] h = ([], h)
  sweep now ((k, p) ∷ m) h =
      let early = sweep now m h in
      let again = sweep now m (retransmit p h) in
      let last = sweep now m (give_up p h) in
      if not (is_late now p)
      then ((k, p) ∷ early.0, early.1)
      else if ltb p.retry_count max_retries
      then ((k, retried now p) ∷ again.0, again.1)
      else last

  unfoldable pub check_timeouts : ℕ → Handle Request → Handle Request
  unfolding sweep
  check_timeouts now h =
      let (kept, h') = sweep now h.pending_acks h in record h' { pending_acks = kept }

  -- One round of `timeout_worker`.
  unfoldable pub timeout_round : ℕ → Handle Request → Handle Request
  timeout_round now h = if h.running then check_timeouts now h else h
