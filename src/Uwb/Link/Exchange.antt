-- ===== src/Uwb/Link/Exchange.antt =====
-- One reliable exchange between two nodes, from send_http_reliable to the callback: the whole path
-- through src/Master/src/uwb/UwbHandle.cpp and the codec, when the radio carries both lines intact.
use mid_napi.Prelude.{◌<◌, ◌≡◌, ◌≢◌, true, [], nat_eq}
use mid_napi.Http.{HttpLibrary}
use mid_napi.Uwb.Frame.{TimeSlotFrame, data_frame, ack, broadcast_id, new_frame}
use mid_napi.Uwb.Http.{serialize_http_request}
use mid_napi.Uwb.Link.{Handle}

-- A running node with an address of its own; the fields are bytes.
pub record IsNode {Request : Type 0} (h : Handle Request) : Type 0 where
  pub runs : h.running ≡ true
  pub id_byte : h.node_id < 256
  pub one : h.node_id ≢ broadcast_id
  pub seq_byte : h.next_seq < 256

module _ (lib : HttpLibrary) where
  open lib use {Request, wire}

  -- The data frame that a request becomes.
  abbrev pub request_frame : Request → Handle Request → Handle Request → TimeSlotFrame
  request_frame req a b =
      new_frame a.node_id b.node_id a.next_seq data_frame (serialize_http_request lib req)

  -- The acknowledgement that it is answered with.
  abbrev pub ack_frame : Handle Request → Handle Request → TimeSlotFrame
  ack_frame a b = new_frame b.node_id a.node_id a.next_seq ack []
