-- ===== src/Uwb/Link/Receive.antt =====
-- From one node to the other: a frame that a Handle sends as a line and another one reads,
-- handle_read and handle_received_frame of src/Master/src/uwb/UwbHandle.cpp.
use mid_napi.Prelude.{
  ℕ, ◌<◌, ◌≤◌, ◌≡◌, ◌≢◌, refl, ap, ◌∙◌, sym, append-nil, true, false, Option, some, [], ◌∷◌, ◌++◌,
  arith, Bytes, AreBytes, Lacks, All-append, length, lookup, insert, remove, nat_eq, le→not-ltb,
  ne→not-==, ==_refl,
}
use mid_napi.Http.{HttpLibrary}
use mid_napi.Uwb.Frame.{
  FrameType, data_frame, ack, TimeSlotFrame, IsFrame, broadcast_id, new_frame, encode, decode,
  calculate_checksum,
}
use mid_napi.Uwb.Frame.RoundTrip.{decode-encode}
use mid_napi.Uwb.Frame.Lines.{encode-Lacks, encode-ends}
use mid_napi.Uwb.Http.{
  cr, lf, drop_last, escape, escape_byte, serialize_http_request, parse_http_request,
}
use mid_napi.Uwb.Link.{PendingFrame, Handle, getline, call_back}
use mid_napi.Uwb.Link.Messages.{
  handle_ack, is_duplicate, queue_ack, count_received, deliver, deliver_data, handle_payload,
  dispatch, handle_received_frame, handle_line, handle_read, send_http_reliable, queue_frame,
  await_ack,
}

getline_front : (s rest : Bytes) → Lacks lf s → getline (s ++ lf ∷ rest) ≡ (s, rest)
unfolding getline
getline_front [] rest h = refl
getline_front (c ∷ s) rest h = rw (ne→not-== c lf h.0, getline_front s rest h.1)

drop_last_kept : (c d : ℕ) (s : Bytes) → d ≢ c → drop_last c (s ++ d ∷ []) ≡ s ++ d ∷ []
unfolding drop_last
drop_last_kept c d [] h = rw (ne→not-== d c h)
drop_last_kept c d (a ∷ []) h = rw (ne→not-== d c h)
drop_last_kept c d (a ∷ b ∷ s) h = ap (◌∷◌ a) (drop_last_kept c d (b ∷ s) h)

drop_last-encode : (f : TimeSlotFrame) → drop_last cr (encode f) ≡ encode f
drop_last-encode f = let (front, c, e, h) = encode-ends f in rw e (drop_last_kept cr c front h)

line-encode : (f : TimeSlotFrame) → IsFrame f → decode (drop_last cr (encode f)) ≡ some f
line-encode f v =
    ap decode (drop_last-encode f) ∙ ap decode (sym (append-nil (encode f))) ∙ decode-encode f [] v

AreBytes-escape : (s : Bytes) → AreBytes s → AreBytes (escape s)
unfolding escape escape_byte
AreBytes-escape [] h = tt
AreBytes-escape (c ∷ s) (b, h) =
    All-append _ (escape_byte c) (escape s) (ground arith) (AreBytes-escape s h)

pub new_frame-IsFrame :
    (src dst seq : ℕ) (t : FrameType) (p : Bytes)
    → src < 256
    → dst < 256
    → seq < 256
    → AreBytes p
    → length p ≤ 65535
    → (t ≡ ack → p ≡ [])
    → IsFrame (new_frame src dst seq t p)
unfolding new_frame calculate_checksum
new_frame-IsFrame src dst seq t p s d q b l a = record {
  src_byte = s;
  dst_byte = d;
  seq_byte = q;
  payload_bytes = b;
  payload_fits = omega arith;
  ack_empty = a;
  checked = refl;
}

module _ (lib : HttpLibrary) where
  open lib use {Request, wire}

  handle_line-encode :
      (f : TimeSlotFrame) (h : Handle Request)
      → IsFrame f
      → handle_line lib (encode f) h ≡ handle_received_frame lib f h
  unfolding handle_line
  handle_line-encode f h v = rw (line-encode f v, handle_line)

  -- A frame that was written as a line, its payload free of line feeds, is what the reader hands
  -- on, and the rest of the buffer is kept.
  pub handle_read-encode :
      (f : TimeSlotFrame) (rest : Bytes) (h : Handle Request)
      → IsFrame f
      → Lacks lf f.payload
      → h.running ≡ true
      → handle_read lib false (record h { read_buffer = encode f ++ lf ∷ rest })
        ≡ handle_received_frame lib f (record h { read_buffer = rest })
  unfolding handle_read
  handle_read-encode f rest h v l r =
      rw (r, getline_front (encode f) rest (encode-Lacks f l)) (handle_line-encode f _ v)

  -- A frame for this node that is a repetition changes nothing but a counter.
  pub handle_received_frame-old :
      (f : TimeSlotFrame) (h : Handle Request)
      → f.dst_id ≡ h.node_id
      → f.type ≡ data_frame
      → is_duplicate f h ≡ true
      → handle_received_frame lib f h ≡ count_received h
  unfolding handle_received_frame dispatch handle_payload is_duplicate count_received
  handle_received_frame-old f h d t old = rw (d, ==_refl h.node_id, t, old)

  -- A data frame for this node alone, not the last one again, with a request in it.
  pub handle_received_frame-new :
      (f : TimeSlotFrame) (req : Request) (h : Handle Request)
      → f.dst_id ≡ h.node_id
      → h.node_id ≢ broadcast_id
      → f.type ≡ data_frame
      → is_duplicate f h ≡ false
      → parse_http_request lib f.payload ≡ some req
      → let h' = handle_received_frame lib f h in
        (h'.delivered ≡ h.delivered ++ req ∷ [])
        × (h'.ack_queue ≡ h.ack_queue ++ new_frame h.node_id f.src_id f.seq_no ack [] ∷ [])
        × (h'.last_received_seq ≡ insert f.src_id f.seq_no h.last_received_seq)
  unfolding handle_received_frame dispatch handle_payload queue_ack deliver_data deliver
      count_received is_duplicate
  handle_received_frame-new f req h d one t new p = ground arith

  pub handle_received_frame-ack :
      (f : TimeSlotFrame) (p : PendingFrame) (h : Handle Request)
      → f.dst_id ≡ h.node_id
      → f.type ≡ ack
      → lookup f.seq_no h.pending_acks ≡ some p
      → let h' = handle_received_frame lib f h in
        (h'.called ≡ call_back p.callback true h.called)
        × (h'.pending_acks ≡ remove f.seq_no h.pending_acks)
  unfolding handle_received_frame dispatch handle_ack count_received
  handle_received_frame-ack f p h d t w = ground arith

  pub send_http_reliable-accepted :
      (req : Request) (dst : ℕ) (callback : Option ℕ) (now : ℕ) (h : Handle Request)
      → h.running ≡ true
      → length (serialize_http_request lib req) ≤ 65535
      → dst ≢ broadcast_id
      → send_http_reliable lib req dst callback now h ≡ (
          let frame =
            new_frame h.node_id dst h.next_seq data_frame (serialize_http_request lib req) in
          await_ack h.next_seq frame callback now (queue_frame frame h))
  unfolding send_http_reliable
  send_http_reliable-accepted req dst callback now h r fits one = rw (
    r,
    le→not-ltb 65535 (length (serialize_http_request lib req)) fits,
    ne→not-== dst broadcast_id one,
  )

  -- A frame from the node itself is a data frame that `send_http_reliable` made.
  pub request-IsFrame :
      (req : Request) (src dst seq : ℕ)
      → src < 256
      → dst < 256
      → seq < 256
      → AreBytes (wire req)
      → length (serialize_http_request lib req) ≤ 65535
      → IsFrame (new_frame src dst seq data_frame (serialize_http_request lib req))
  unfolding serialize_http_request
  request-IsFrame req src dst seq s d q b l =
      new_frame-IsFrame src dst seq data_frame (escape (wire req)) s d q
        (AreBytes-escape (wire req) b) l (λ e. cc)
