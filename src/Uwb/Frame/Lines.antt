-- ===== src/Uwb/Frame/Lines.antt =====
-- An encoded frame as a line of text: what FrameCodec::encode of
-- src/Master/src/uwb/UwbFramecodec.cpp owes to the line protocol of UwbHandle.cpp.
use mid_napi.Prelude.{
  ℕ, ◌/◌, ◌%◌, ◌≡◌, ◌≢◌, [], ◌∷◌, ◌++◌, arith, Bytes, Lacks, All-append, append_assoc,
}
use mid_napi.Uwb.Hex.{hex_digit, to_hex_byte, to_hex_word}
use mid_napi.Uwb.Frame.{
  FrameType, data_frame, ack, heartbeat, TimeSlotFrame, header, frame_type_to_string,
  encode_payload, encode,
}

hex_digit-ne : (d : ℕ) → (hex_digit d ≢ 10) × (hex_digit d ≢ 13)
unfolding hex_digit
hex_digit-ne d = ground arith

to_hex_byte-Lacks : (v : ℕ) → Lacks 10 (to_hex_byte v)
unfolding to_hex_byte
to_hex_byte-Lacks v = ((hex_digit-ne (v / 16)).0, ((hex_digit-ne (v % 16)).0, tt))

to_hex_word-Lacks : (v : ℕ) → Lacks 10 (to_hex_word v)
unfolding to_hex_word
to_hex_word-Lacks v = (
  (hex_digit-ne (v / 4096)).0,
  (
    (hex_digit-ne (v / 256 % 16)).0,
    ((hex_digit-ne (v / 16 % 16)).0, ((hex_digit-ne (v % 16)).0, tt)),
  ),
)

frame_type-Lacks : (t : FrameType) → Lacks 10 (frame_type_to_string t)
unfolding frame_type_to_string
frame_type-Lacks data_frame = omega arith
frame_type-Lacks ack = omega arith
frame_type-Lacks heartbeat = omega arith

encode_payload-Lacks : (t : FrameType) (p : Bytes) → Lacks 10 p → Lacks 10 (encode_payload t p)
unfolding encode_payload
encode_payload-Lacks data_frame p h = All-append _ _ p (to_hex_word-Lacks _) h
encode_payload-Lacks ack p h = tt
encode_payload-Lacks heartbeat p h = All-append _ _ p (to_hex_word-Lacks _) h

-- The encoding of a frame whose payload holds no line feed holds none.
pub encode-Lacks : (f : TimeSlotFrame) → Lacks 10 f.payload → Lacks 10 (encode f)
unfolding encode
encode-Lacks f h = All-append _ header _ (omega arith) (
    All-append _ (to_hex_byte f.src_id) _ (to_hex_byte-Lacks f.src_id) (
      All-append _ (to_hex_byte f.dst_id) _ (to_hex_byte-Lacks f.dst_id) (
        All-append _ (to_hex_byte f.seq_no) _ (to_hex_byte-Lacks f.seq_no) (
          All-append _ (frame_type_to_string f.type) _ (frame_type-Lacks f.type) (
            All-append _ (encode_payload f.type f.payload) _
              (encode_payload-Lacks f.type f.payload h) (to_hex_byte-Lacks f.checksum))))))

-- The last byte of an encoding is a digit, not a carriage return.
pub encode-ends :
    (f : TimeSlotFrame) → (front : Bytes) × (c : ℕ) × (encode f ≡ front ++ c ∷ []) × (c ≢ 13)
unfolding encode to_hex_byte
encode-ends f = (
  header
      ++ (to_hex_byte f.src_id
          ++ (to_hex_byte f.dst_id
              ++ (to_hex_byte f.seq_no
                  ++ (frame_type_to_string f.type
                      ++ (encode_payload f.type f.payload ++ hex_digit (f.checksum / 16) ∷ []))))),
  hex_digit (f.checksum % 16),
  simp append_assoc,
  (hex_digit-ne (f.checksum % 16)).1,
)
