-- ===== src/Uwb/Frame/RoundTrip.antt =====
-- Decoding what was encoded: FrameCodec::decode after FrameCodec::encode, of
-- src/Master/src/uwb/UwbFramecodec.cpp.
use native.Mathlib.Nat.{mod-eq_of_lt}
use mid_napi.Prelude.{
  ℕ, ◌+◌, ◌<◌, ◌≡◌, refl, [], ◌++◌, some, none, Option, true, arith, Bytes, length, drop,
  length-append, take-append, drop_front, take_front, append_assoc, ==_iff, le→not-ltb,
  if◌then◌else◌,
}
use mid_napi.Uwb.Hex.{
  to_hex_byte, to_hex_word, from_hex_byte-to_hex_byte, from_hex_word-to_hex_word,
}
use mid_napi.Uwb.Frame.{
  FrameType, data_frame, ack, heartbeat, TimeSlotFrame, calculate_checksum, verify_checksum,
  IsFrame, header, encode, encode_payload, frame_type_to_string, carries_payload, decode,
  decode_payload, decode_checksum, string_to_frame_type,
}
use mid_napi.Uwb.Frame.Checksum.{calculate_checksum-lt}

-- What `decode` makes of a text whose fields are those of `f`.
abbrev checked : TimeSlotFrame → Option TimeSlotFrame
checked f = if verify_checksum f then some f else none

-- Reading the checksum that was written at position `pos`.
decode_checksum_at :
    (pos : ℕ) (before rest : Bytes) (f : TimeSlotFrame) (c : ℕ)
    → length before ≡ pos
    → c < 256
    → decode_checksum (before ++ (to_hex_byte c ++ rest)) pos f
      ≡ checked (record f { checksum = c })
unfolding decode_checksum to_hex_byte
decode_checksum_at pos before rest f c e h = ground (
  arith,
  length-append before (to_hex_byte c ++ rest),
  drop_front pos before (to_hex_byte c ++ rest) e,
  from_hex_byte-to_hex_byte c h,
)

length-to_hex_word : (n : ℕ) → length (to_hex_word n) ≡ 4
unfolding to_hex_word
length-to_hex_word n = refl

length-to_hex_byte : (n : ℕ) → length (to_hex_byte n) ≡ 2
unfolding to_hex_byte
length-to_hex_byte n = refl

-- The 13 bytes in front of the length.
front : ℕ → ℕ → ℕ → FrameType → Bytes
unfolding to_hex_byte frame_type_to_string
front src dst seq t =
    header ++ (to_hex_byte src ++ (to_hex_byte dst ++ (to_hex_byte seq ++ frame_type_to_string t)))

length-front : (src dst seq : ℕ) (t : FrameType) → length (front src dst seq t) ≡ 13
unfolding front
length-front src dst seq data_frame = refl
length-front src dst seq ack = refl
length-front src dst seq heartbeat = refl

-- A payload and a checksum behind 13 bytes are read as they were written.
decode_payload-carried :
    (a p rest : Bytes) (c : ℕ) (g : TimeSlotFrame)
    → length a ≡ 13
    → length p < 65536
    → c < 256
    → carries_payload g.type ≡ true
    → decode_payload (a ++ (to_hex_word (length p) ++ (p ++ (to_hex_byte c ++ rest)))) g
      ≡ checked (record g { payload = p; checksum = c })
unfolding decode_payload
decode_payload-carried a p rest c g la lp lc carries = ground (
  arith,
  size,
  drop_front 13 a (word ++ (p ++ tail)) la,
  take_front 4 word (p ++ tail) (length-to_hex_word (length p)),
  from_hex_word-to_hex_word (length p) lp,
  payload_there,
  take-append p tail,
  checksum_there,
)
  where
    word : Bytes
    word = to_hex_word (length p)

    tail : Bytes
    tail = to_hex_byte c ++ rest

    size : length (a ++ (word ++ (p ++ tail))) ≡ 13 + 4 + length p + 2 + length rest
    size = omega (
      arith,
      length-append a (word ++ (p ++ tail)),
      length-append word (p ++ tail),
      length-append p tail,
      length-append (to_hex_byte c) rest,
      length-to_hex_word (length p),
      length-to_hex_byte c,
    )

    payload_there : drop 17 (a ++ (word ++ (p ++ tail))) ≡ p ++ tail
    payload_there = rw (← append_assoc a word (p ++ tail)) (
        drop_front 17 (a ++ word) (p ++ tail)
          (omega (arith, length-append a word, length-to_hex_word (length p))))

    checksum_there :
        decode_checksum (a ++ (word ++ (p ++ tail))) (17 + length p) (record g { payload = p })
        ≡ checked (record g { payload = p; checksum = c })
    checksum_there =
        rw (← append_assoc word p tail, ← append_assoc a (word ++ p) tail)
          (decode_checksum_at (17 + length p) (a ++ (word ++ p)) rest (record g { payload = p }) c
            (omega (
              arith,
              length-append a (word ++ p),
              length-append word p,
              length-to_hex_word (length p),
            ))
            lc)

-- The fields in front of the length are read as they were written.
decode-front :
    (src dst seq : ℕ) (t : FrameType) (tail : Bytes)
    → src < 256
    → dst < 256
    → seq < 256
    → decode (front src dst seq t ++ tail)
      ≡ decode_payload (front src dst seq t ++ tail) (record {
        src_id = src;
        dst_id = dst;
        seq_no = seq;
        type = t;
        payload = [];
        checksum = 0;
      })
unfolding decode front string_to_frame_type
decode-front src dst seq data_frame tail p q r = rw (
  le→not-ltb (length (front src dst seq data_frame ++ tail)) 12 (omega arith),
  le→not-ltb (length (front src dst seq data_frame ++ tail)) 4 (omega arith),
  le→not-ltb (length (front src dst seq data_frame ++ tail)) 6 (omega arith),
  le→not-ltb (length (front src dst seq data_frame ++ tail)) 8 (omega arith),
  le→not-ltb (length (front src dst seq data_frame ++ tail)) 10 (omega arith),
  from_hex_byte-to_hex_byte src p,
  from_hex_byte-to_hex_byte dst q,
  from_hex_byte-to_hex_byte seq r,
)
decode-front src dst seq t tail p q r = rw (
  le→not-ltb (length (front src dst seq t ++ tail)) 12 (omega arith),
  le→not-ltb (length (front src dst seq t ++ tail)) 4 (omega arith),
  le→not-ltb (length (front src dst seq t ++ tail)) 6 (omega arith),
  le→not-ltb (length (front src dst seq t ++ tail)) 8 (omega arith),
  le→not-ltb (length (front src dst seq t ++ tail)) 10 (omega arith),
  from_hex_byte-to_hex_byte src p,
  from_hex_byte-to_hex_byte dst q,
  from_hex_byte-to_hex_byte seq r,
)

-- What `encode` writes, cut behind the type.
encode-front :
    (f : TimeSlotFrame)
    → encode f
      ≡ front f.src_id f.dst_id f.seq_no f.type
        ++ (encode_payload f.type f.payload ++ to_hex_byte f.checksum)
unfolding encode front
encode-front f = simp append_assoc

-- The fields that fit the format, whatever the checksum.
pub record Fits (f : TimeSlotFrame) : Type 0 where
  pub src_byte : f.src_id < 256
  pub dst_byte : f.dst_id < 256
  pub seq_byte : f.seq_no < 256
  pub checksum_byte : f.checksum < 256
  pub payload_fits : length f.payload < 65536
  pub ack_empty : f.type ≡ ack → f.payload ≡ []

decode_payload-encode :
    (a rest : Bytes) (src dst seq : ℕ) (t : FrameType) (p : Bytes) (c : ℕ)
    → length a ≡ 13
    → length p < 65536
    → c < 256
    → (t ≡ ack → p ≡ [])
    → decode_payload
        (a ++ ((encode_payload t p ++ to_hex_byte c) ++ rest))
        (record { src_id = src; dst_id = dst; seq_no = seq; type = t; payload = []; checksum = 0 })
      ≡ checked
          (record { src_id = src; dst_id = dst; seq_no = seq; type = t; payload = p; checksum = c })
unfolding encode_payload
decode_payload-encode a rest src dst seq ack p c la lp lc e =
    rw (e refl) (unfold decode_payload in decode_checksum_at 13 a rest _ c la lc)
decode_payload-encode a rest src dst seq t p c la lp lc e =
    rw (mod-eq_of_lt lp, append_assoc, append_assoc)
      (decode_payload-carried a p rest c _ la lp lc refl)

-- A well-formed text is decoded to the frame it was made of if the checksum is right, and is
-- refused otherwise. Bytes behind the checksum are not looked at.
pub decode-encode_append :
    (f : TimeSlotFrame) (rest : Bytes)
    → Fits f
    → decode (encode f ++ rest) ≡ (if verify_checksum f then some f else none)
decode-encode_append f rest v =
    rw
      (
        encode-front f,
        append_assoc,
        decode-front f.src_id f.dst_id f.seq_no f.type _ v.src_byte v.dst_byte v.seq_byte,
      )
      (decode_payload-encode (front f.src_id f.dst_id f.seq_no f.type) rest f.src_id f.dst_id
        f.seq_no f.type f.payload f.checksum (length-front f.src_id f.dst_id f.seq_no f.type)
        v.payload_fits v.checksum_byte v.ack_empty)

pub IsFrame-Fits : (f : TimeSlotFrame) → IsFrame f → Fits f
IsFrame-Fits f v = record {
  src_byte = v.src_byte;
  dst_byte = v.dst_byte;
  seq_byte = v.seq_byte;
  checksum_byte =
      rw v.checked (calculate_checksum-lt f v.src_byte v.dst_byte v.seq_byte v.payload_bytes);
  payload_fits = v.payload_fits;
  ack_empty = v.ack_empty;
}

-- Every frame with fields in range, a payload of at most 65535 bytes (none for an
-- acknowledgement) and its own checksum is decoded from its encoding, whatever bytes follow.
pub decode-encode :
    (f : TimeSlotFrame) (rest : Bytes) → IsFrame f → decode (encode f ++ rest) ≡ some f
unfolding verify_checksum
decode-encode f rest v = rw (
  decode-encode_append f rest (IsFrame-Fits f v),
  (==_iff f.checksum (calculate_checksum f)).1 v.checked,
)
