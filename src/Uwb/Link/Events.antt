-- ===== src/Uwb/Link/Events.antt =====
-- What can happen to a Handle of src/Master/src/uwb/UwbHandle.cpp, one thing after another: each
-- operation is one step. send_http_reliable takes its locks one after the other, and its steps are not
-- interleaved with others here: one io_context runs all requests.
use mid_napi.Prelude.{ℕ, ◌≡◌, Bool, Option, none, List, [], ◌∷◌, ◌++◌, Bytes, lookup, nat_eq}
use mid_napi.Http.{HttpLibrary}
use mid_napi.Uwb.Link.{Handle, run, stop_link, on_my_slot, heartbeat_round, timeout_round}
use mid_napi.Uwb.Link.Messages.{handle_read, send_http_reliable}

pub data Event (Request : Type 0) : Type 0 where
  -- Whether the serial port opens, and whether its options are set then.
  runs : Bool → Bool → Event Request
  stops : Event Request
  sends : Request → ℕ → Option ℕ → ℕ → Event Request
  -- Bytes come in on the serial port.
  arrives : Bytes → Event Request
  reads : Bool → Event Request
  slot_starts : (ℕ → Bool) → Event Request
  heartbeats : Event Request
  checks : ℕ → Event Request

module _ (lib : HttpLibrary) where
  open lib use {Request}

  unfoldable pub step : Event Request → Handle Request → Handle Request
  unfolding handle_read send_http_reliable run stop_link on_my_slot heartbeat_round timeout_round
  step (runs opened ready) h = run opened ready h
  step stops h = stop_link h
  step (sends req dst callback now) h = send_http_reliable lib req dst callback now h
  step (arrives bytes) h = record h { read_buffer = h.read_buffer ++ bytes }
  step (reads failed) h = handle_read lib failed h
  step (slot_starts ok) h = on_my_slot ok h
  step heartbeats h = heartbeat_round h
  step (checks now) h = timeout_round now h

  unfoldable pub run_events : List (Event Request) → Handle Request → Handle Request
  run_events [] h = h
  run_events (e ∷ es) h = run_events es (step e h)

-- The sequence number of a send is not that of a frame that still waits.
abbrev pub SeqFree : {Request : Type 0} → Event Request → Handle Request → Type 0
SeqFree (runs opened ready) h = Unit
SeqFree stops h = Unit
SeqFree (sends req dst callback now) h = lookup h.next_seq h.pending_acks ≡ none
SeqFree (arrives bytes) h = Unit
SeqFree (reads failed) h = Unit
SeqFree (slot_starts ok) h = Unit
SeqFree heartbeats h = Unit
SeqFree (checks now) h = Unit

-- So at every send of a run.
abbrev pub AllSeqFree : (lib : HttpLibrary) → List (Event lib.Request) → Handle lib.Request → Type 0
AllSeqFree lib [] h = Unit
AllSeqFree lib (e ∷ es) h = SeqFree e h × AllSeqFree lib es (step lib e h)
