-- ===== src/Uwb/Frame.antt =====
-- Frames and their codec: TimeSlotFrame and FrameCodec of
-- src/Master/src/uwb/UwbFramecodec.hpp and UwbFramecodec.cpp.
-- A uint8_t field is a number below 256 (IsFrame); what a caller narrows is written `u8`.
pub mod Checksum
pub mod RoundTrip
pub mod Corruption
pub mod Lines
pub mod Tests
use mid_napi.Prelude.{
  ℕ, zero, suc, ◌+◌, ◌<◌, ◌≤◌, ◌≡◌, refl, Bool, true, false, not, ◌&&◌, ◌||◌, Option, none, some,
  List, [], ◌∷◌, ◌++◌, arith, Bytes, AreBytes, codes, length, take, drop, ltb, leb, ◌==◌,
  if◌then◌else◌, ◌>>=◌, bit_xor, u16, ◌≟◌, bytes_eq, bytes_beq,
}
use mid_napi.Uwb.Hex.{to_hex_byte, to_hex_word, from_hex_byte, from_hex_word}

pub data FrameType : Type 0 where
  data_frame ack heartbeat : FrameType

pub record TimeSlotFrame : Type 0 where
  pub src_id : ℕ
  pub dst_id : ℕ
  pub seq_no : ℕ
  pub type : FrameType
  pub payload : Bytes
  pub checksum : ℕ

abbrev pub header : Bytes
header = codes "[TS]"

abbrev pub broadcast_id : ℕ
broadcast_id = 0xff

abbrev pub min_frame_size : ℕ
min_frame_size = 12

-- The value of the enumerator.
abbrev pub type_code : FrameType → ℕ
type_code data_frame = 0
type_code ack = 1
type_code heartbeat = 2

-- `checksum ^= byte` for each byte.
abbrev pub xor_all : ℕ → Bytes → ℕ
xor_all acc [] = acc
xor_all acc (b ∷ s) = xor_all (bit_xor acc b) s

unfoldable pub calculate_checksum : TimeSlotFrame → ℕ
calculate_checksum f =
    xor_all (bit_xor (bit_xor (bit_xor (bit_xor 0 f.src_id) f.dst_id) f.seq_no) (type_code f.type))
      f.payload

unfoldable pub verify_checksum : TimeSlotFrame → Bool
unfolding calculate_checksum
verify_checksum f = f.checksum == calculate_checksum f

-- The constructors: the checksum is that of the other fields.
unfoldable pub new_frame : ℕ → ℕ → ℕ → FrameType → Bytes → TimeSlotFrame
unfolding calculate_checksum
new_frame src dst seq t bytes = record blank { checksum = calculate_checksum blank }
  where
    blank : TimeSlotFrame
    blank = record {
      src_id = src;
      dst_id = dst;
      seq_no = seq;
      type = t;
      payload = bytes;
      checksum = 0;
    }

unfoldable pub frame_type_to_string : FrameType → Bytes
frame_type_to_string data_frame = codes "DAT"
frame_type_to_string ack = codes "ACK"
frame_type_to_string heartbeat = codes "HBT"

-- `none` is the exception for an unknown type.
unfoldable pub string_to_frame_type : Bytes → Option FrameType
unfolding bytes_beq
string_to_frame_type type_str =
    if type_str ≟ codes "DAT"
    then some data_frame
    else if type_str ≟ codes "ACK"
    then some ack
    else if type_str ≟ codes "HBT"
    then some heartbeat
    else none

abbrev pub carries_payload : FrameType → Bool
carries_payload data_frame = true
carries_payload ack = false
carries_payload heartbeat = true

-- The length and the payload; an acknowledgement has neither.
unfoldable pub encode_payload : FrameType → Bytes → Bytes
encode_payload data_frame payload = to_hex_word (u16 (length payload)) ++ payload
encode_payload ack payload = []
encode_payload heartbeat payload = to_hex_word (u16 (length payload)) ++ payload

unfoldable pub encode : TimeSlotFrame → Bytes
unfolding encode_payload frame_type_to_string
encode f =
    header
    ++ (to_hex_byte f.src_id
        ++ (to_hex_byte f.dst_id
            ++ (to_hex_byte f.seq_no
                ++ (frame_type_to_string f.type
                    ++ (encode_payload f.type f.payload ++ to_hex_byte f.checksum)))))

-- `data.substr(pos, n)`; `none` is std::out_of_range.
abbrev pub substr : Bytes → ℕ → ℕ → Option Bytes
substr text pos n = if ltb (length text) pos then none else some (take n (drop pos text))

-- The end of `decode`: the checksum at `pos`, and its verification.
unfoldable pub decode_checksum : Bytes → ℕ → TimeSlotFrame → Option TimeSlotFrame
decode_checksum text pos f = if ltb (length text) (pos + 2) then none else do
  hex ← substr text pos 2
  checksum ← from_hex_byte hex
  if verify_checksum (record f { checksum = checksum })
      then some (record f { checksum = checksum })
      else none

-- The length and payload at position 13.
unfoldable pub decode_payload : Bytes → TimeSlotFrame → Option TimeSlotFrame
decode_payload text f =
    if carries_payload f.type
    then if ltb (length text) (13 + 4) then none else (do
      hex ← substr text 13 4
      n ← from_hex_word hex
      if ltb (length text) (17 + n + 2)
          then none
          else decode_checksum text (17 + n) (record f { payload = take n (drop 17 text) }))
    else decode_checksum text 13 f

-- `none` is a return of false; what was written to the frame before is not looked at then.
unfoldable pub decode : Bytes → Option TimeSlotFrame
unfolding bytes_beq
decode text = if ltb (length text) min_frame_size || not (take 4 text ≟ header) then none else do
  src_hex ← substr text 4 2
  src ← from_hex_byte src_hex
  dst_hex ← substr text 6 2
  dst ← from_hex_byte dst_hex
  seq_hex ← substr text 8 2
  seq ← from_hex_byte seq_hex
  type_str ← substr text 10 3
  t ← string_to_frame_type type_str
  decode_payload text
      (record { src_id = src; dst_id = dst; seq_no = seq; type = t; payload = []; checksum = 0 })

-- What the C++ types guarantee of a frame, what `encode` can write, and the checksum of the
-- constructors.
pub record IsFrame (f : TimeSlotFrame) : Type 0 where
  pub src_byte : f.src_id < 256
  pub dst_byte : f.dst_id < 256
  pub seq_byte : f.seq_no < 256
  pub payload_bytes : AreBytes f.payload
  pub payload_fits : length f.payload < 65536
  pub ack_empty : f.type ≡ ack → f.payload ≡ []
  pub checked : f.checksum ≡ calculate_checksum f
