-- ===== src/Tcp.antt =====
-- The connection to another host: TcpHostInterface of src/Master/src/tcp/TcpHostInterface.hpp and
-- TcpHostInterface.cpp. The handlers are called by boost::asio, which is not part of the
-- repository: an execution is a list of calls, each with the result that asio reports. What the
-- program asks of it is recorded: connects that were started, cancellations, the calls of onNew and
-- onFail, and the writes that have ended, oldest first. Addresses and timers are not modelled, and a
-- send that onFail causes is a later call.
pub mod Order
pub mod Tests
use mid_napi.Prelude.{
  ℕ, suc, ◌+◌, Bool, true, false, not, ◌&&◌, Option, none, some, List, [], ◌∷◌, ◌++◌, if◌then◌else◌,
}

pub data Notice : Type 0 where
  new_notice fail_notice : Notice

pub record TcpHostInterface (Request : Type 0) : Type 0 where
  pub is_connected : Bool
  pub is_ready : Bool
  pub is_connecting : Bool
  pub request_queue : List Request
  -- The request that is being written.
  pub in_flight : List Request
  pub finished : List (Request × Bool)
  pub connects : ℕ
  pub cancels : ℕ
  pub notices : List Notice

abbrev pub new_interface : {Request : Type 0} → TcpHostInterface Request
new_interface = record {
  is_connected = false;
  is_ready = true;
  is_connecting = false;
  request_queue = [];
  in_flight = [];
  finished = [];
  connects = 0;
  cancels = 0;
  notices = [];
}

module _ {Request : Type 0} where
  unfoldable pub do_connect : TcpHostInterface Request → TcpHostInterface Request
  do_connect s =
      if s.is_connecting
      then s
      else record s { is_connected = false; is_connecting = true; connects = s.connects + 1 }

  -- The timers are set up, and the first connect starts.
  unfoldable pub run_host : TcpHostInterface Request → TcpHostInterface Request
  run_host s = do_connect s

  -- The head of the queue goes into flight.
  unfoldable pub write_next : List Request → TcpHostInterface Request → TcpHostInterface Request
  write_next [] s = s
  write_next (r ∷ rs) s = record s { is_ready = false; request_queue = rs; in_flight = r ∷ [] }

  unfoldable pub do_write : TcpHostInterface Request → TcpHostInterface Request
  do_write s = if s.is_ready && s.is_connected then write_next s.request_queue s else s

  abbrev pub notify : Notice → TcpHostInterface Request → TcpHostInterface Request
  notify n s = record s { notices = s.notices ++ n ∷ [] }

  -- `ok` is false for an error code.
  unfoldable pub on_connect : Bool → TcpHostInterface Request → TcpHostInterface Request
  on_connect ok s =
      if not ok
      then notify fail_notice (record s { is_connecting = false })
      else notify new_notice (do_write (record s { is_connecting = false; is_connected = true }))

  -- `req` is what `prepare_payload` made of the argument.
  unfoldable pub send_request : Request → TcpHostInterface Request → TcpHostInterface Request
  send_request req s =
      let queued = record s { request_queue = s.request_queue ++ req ∷ [] } in
      if not s.is_connected then do_connect queued else do_write queued

  -- The write of `r` has ended.
  abbrev pub finish : List Request → Bool → List (Request × Bool)
  finish [] ok = []
  finish (r ∷ rs) ok = (r, ok) ∷ finish rs ok

  unfoldable pub on_write : Bool → TcpHostInterface Request → TcpHostInterface Request
  on_write ok s =
      let ended = record s {
        is_ready = true;
        in_flight = [];
        finished = s.finished ++ finish s.in_flight ok;
      } in
      if not ok then do_connect (notify fail_notice ended) else do_write ended

  -- The timer of a connect or a write; it is cancelled when that ends, which is an error here.
  unfoldable pub on_timeout : Bool → TcpHostInterface Request → TcpHostInterface Request
  on_timeout ok s = if not ok then s else record s { cancels = s.cancels + 1 }

  unfoldable pub on_reconnect_timeout : Bool → TcpHostInterface Request → TcpHostInterface Request
  on_reconnect_timeout ok s = if not ok then s else if not s.is_connected then do_connect s else s

pub data Call (Request : Type 0) : Type 0 where
  runs : Call Request
  sends : Request → Call Request
  connected : Bool → Call Request
  written : Bool → Call Request
  times_out : Bool → Call Request
  reconnects : Bool → Call Request

unfoldable pub step :
    {Request : Type 0} → Call Request → TcpHostInterface Request → TcpHostInterface Request
step runs s = run_host s
step (sends req) s = send_request req s
step (connected ok) s = on_connect ok s
step (written ok) s = on_write ok s
step (times_out ok) s = on_timeout ok s
step (reconnects ok) s = on_reconnect_timeout ok s

unfoldable pub run_calls :
    {Request : Type 0} → List (Call Request) → TcpHostInterface Request → TcpHostInterface Request
run_calls [] s = s
run_calls (c ∷ cs) s = run_calls cs (step c s)
