-- ===== src/Uwb/Link/Repeats.antt =====
-- Frames that arrive again: handle_received_frame and is_duplicate of
-- src/Master/src/uwb/UwbHandle.cpp.
use mid_napi.Prelude.{
  ◌≡◌, ◌≢◌, refl, ap, ◌⊎◌, ◌∙◌, sym, beq_refl, inl, inr, true, false, some, [], ◌∷◌, ◌++◌, arith,
  lookup-insert, nat_eq,
}
use mid_napi.Http.{HttpLibrary}
use mid_napi.Uwb.Frame.{data_frame, ack, heartbeat, TimeSlotFrame, broadcast_id}
use mid_napi.Uwb.Http.{parse_http_request}
use mid_napi.Uwb.Link.{Handle}
use mid_napi.Uwb.Link.Messages.{
  is_duplicate, queue_ack, count_received, deliver, deliver_data, handle_payload, dispatch,
  handle_received_frame,
}
use mid_napi.Uwb.Link.Receive.{handle_received_frame-new}

module _ (lib : HttpLibrary) where
  open lib use {Request, wire}

  handle_payload-seen :
      (f : TimeSlotFrame) (h : Handle Request) → is_duplicate f (handle_payload lib f h) ≡ true
  unfolding handle_payload queue_ack deliver_data deliver is_duplicate
  handle_payload-seen f h =
      let inserted = lookup-insert f.src_id f.src_id f.seq_no h.last_received_seq in
      ground (arith, inserted, beq_refl f.src_id)

  handle_payload-node_id :
      (f : TimeSlotFrame) (h : Handle Request) → (handle_payload lib f h).node_id ≡ h.node_id
  unfolding handle_payload queue_ack deliver_data deliver is_duplicate
  handle_payload-node_id f h = ground arith

  handle_payload-heartbeat :
      (beat : TimeSlotFrame) (h : Handle Request)
      → beat.type ≡ heartbeat
      → (handle_payload lib beat h).delivered ≡ h.delivered
  unfolding handle_payload queue_ack deliver_data is_duplicate
  handle_payload-heartbeat beat h b = ground arith

  handle_received_frame-payload :
      (f : TimeSlotFrame) (h : Handle Request)
      → (f.dst_id ≡ h.node_id) ⊎ (f.dst_id ≡ broadcast_id)
      → f.type ≢ ack
      → handle_received_frame lib f h ≡ handle_payload lib f (count_received h)
  unfolding handle_received_frame dispatch count_received
  handle_received_frame-payload f h d t = ground arith

  is_duplicate-other :
      (f beat : TimeSlotFrame) (h : Handle Request)
      → beat.src_id ≡ f.src_id
      → beat.seq_no ≢ f.seq_no
      → is_duplicate beat h ≡ true
      → is_duplicate f h ≡ false
  unfolding is_duplicate
  is_duplicate-other f beat h s n old = ground arith

  handle_payload-other :
      (f beat : TimeSlotFrame) (h : Handle Request)
      → beat.src_id ≡ f.src_id
      → beat.seq_no ≢ f.seq_no
      → is_duplicate f (handle_payload lib beat h) ≡ false
  handle_payload-other f beat h s n =
      is_duplicate-other f beat (handle_payload lib beat h) s n (handle_payload-seen beat h)

  handle_payload-old :
      (f : TimeSlotFrame) (h : Handle Request)
      → is_duplicate f h ≡ true
      → handle_payload lib f h ≡ h
  unfolding handle_payload
  handle_payload-old f h old = rw old refl

  -- A frame that just arrived for this node or for all, an acknowledgement apart, and arrives again,
  -- only counts: it is not delivered again, and it is not acknowledged again either.
  pub handle_received_frame_twice :
      (f : TimeSlotFrame) (h : Handle Request)
      → (f.dst_id ≡ h.node_id) ⊎ (f.dst_id ≡ broadcast_id)
      → f.type ≢ ack
      → let once = handle_received_frame lib f h in
        handle_received_frame lib f once ≡ count_received once
  unfolding count_received is_duplicate
  handle_received_frame_twice f h d t =
      handle_received_frame-payload f (handle_received_frame lib f h) (again d) t
      ∙ handle_payload-old f (count_received (handle_received_frame lib f h)) seen
    where
      once : handle_received_frame lib f h ≡ handle_payload lib f (count_received h)
      once = handle_received_frame-payload f h d t

      same : (handle_received_frame lib f h).node_id ≡ h.node_id
      same = rw once (handle_payload-node_id f (count_received h))

      again :
          (f.dst_id ≡ h.node_id) ⊎ (f.dst_id ≡ broadcast_id)
          → (f.dst_id ≡ (handle_received_frame lib f h).node_id) ⊎ (f.dst_id ≡ broadcast_id)
      again (inl e) = inl (e ∙ sym same)
      again (inr e) = inr e

      seen : is_duplicate f (count_received (handle_received_frame lib f h)) ≡ true
      seen = rw once (handle_payload-seen f (count_received h))

  -- Only the last number of a sender is remembered: a data frame for this node alone, with a request in
  -- it, that is repeated after a broadcast heartbeat of its sender with another number, is delivered at its
  -- repetition, whether it was delivered before or not.
  pub redelivered_after_heartbeat :
      (f beat : TimeSlotFrame) (req : Request) (h : Handle Request)
      → f.dst_id ≡ h.node_id
      → h.node_id ≢ broadcast_id
      → f.type ≡ data_frame
      → parse_http_request lib f.payload ≡ some req
      → beat.type ≡ heartbeat
      → beat.dst_id ≡ broadcast_id
      → beat.src_id ≡ f.src_id
      → beat.seq_no ≢ f.seq_no
      → let once = handle_received_frame lib f h in
        let between = handle_received_frame lib beat once in
        (handle_received_frame lib f between).delivered ≡ once.delivered ++ req ∷ []
  unfolding count_received
  redelivered_after_heartbeat f beat req h d one t p b bd bs bn =
      (handle_received_frame-new lib f req (handle_received_frame lib beat once) here not_all t
        fresh p).0
      ∙ ap (λ x. x ++ req ∷ []) kept
    where
      once : Handle Request
      once = handle_received_frame lib f h

      taken : handle_received_frame lib beat once ≡ handle_payload lib beat (count_received once)
      taken = handle_received_frame-payload beat once (inr bd) (λ e. cc)

      first : once ≡ handle_payload lib f (count_received h)
      first = handle_received_frame-payload f h (inl d) (λ e. cc)

      id : (handle_received_frame lib beat once).node_id ≡ h.node_id
      id =
          ap (λ x. x.node_id) taken
          ∙ handle_payload-node_id beat (count_received once)
          ∙ ap (λ x. x.node_id) first
          ∙ handle_payload-node_id f (count_received h)

      here : f.dst_id ≡ (handle_received_frame lib beat once).node_id
      here = d ∙ sym id

      not_all : (handle_received_frame lib beat once).node_id ≢ broadcast_id
      not_all = λ e. one (sym id ∙ e)

      fresh : is_duplicate f (handle_received_frame lib beat once) ≡ false
      fresh = rw taken (handle_payload-other f beat (count_received once) bs bn)

      kept : (handle_received_frame lib beat once).delivered ≡ once.delivered
      kept = rw taken (handle_payload-heartbeat beat (count_received once) b)
