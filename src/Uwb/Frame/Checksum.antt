-- ===== src/Uwb/Frame/Checksum.antt =====
-- The exclusive-or checksum of src/Master/src/uwb/UwbFramecodec.cpp.
use mid_napi.Prelude.{
  ℕ, ◌+◌, ◌<◌, ◌≡◌, [], ◌∷◌, ◌++◌, arith, Bytes, AreBytes, bit_xor, bit_xor_cancel_left,
  bit_xor_cancel_right, bit_xor-lt,
}
use mid_napi.Uwb.Frame.{
  FrameType, data_frame, ack, heartbeat, TimeSlotFrame, type_code, xor_all, calculate_checksum,
}

pub xor_all_cancel : (s : Bytes) (a b : ℕ) → xor_all a s ≡ xor_all b s → a ≡ b
xor_all_cancel [] a b h = h
xor_all_cancel (c ∷ s) a b h =
    bit_xor_cancel_right (a + b) a b c (omega arith) (omega arith)
      (xor_all_cancel s (bit_xor a c) (bit_xor b c) h)

-- Two payloads that differ in one byte have different exclusive-or sums.
pub xor_all_one_byte :
    (p q : Bytes) (acc x y : ℕ) → xor_all acc (p ++ x ∷ q) ≡ xor_all acc (p ++ y ∷ q) → x ≡ y
xor_all_one_byte [] q acc x y h =
    bit_xor_cancel_left (x + y) acc x y (omega arith) (omega arith)
      (xor_all_cancel q (bit_xor acc x) (bit_xor acc y) h)
xor_all_one_byte (c ∷ p) q acc x y h = xor_all_one_byte p q (bit_xor acc c) x y h

xor_all-lt : (s : Bytes) (acc : ℕ) → acc < 256 → AreBytes s → xor_all acc s < 256
xor_all-lt [] acc h b = h
xor_all-lt (c ∷ s) acc h b = xor_all-lt s (bit_xor acc c) (bit_xor-lt 8 acc c h b.0) b.1

type_code-lt : (t : FrameType) → type_code t < 256
type_code-lt data_frame = omega arith
type_code-lt ack = omega arith
type_code-lt heartbeat = omega arith

-- The checksum of bytes is a byte.
pub calculate_checksum-lt :
    (f : TimeSlotFrame)
    → f.src_id < 256
    → f.dst_id < 256
    → f.seq_no < 256
    → AreBytes f.payload
    → calculate_checksum f < 256
unfolding calculate_checksum
calculate_checksum-lt f p q r b =
    xor_all-lt f.payload _
      (bit_xor-lt 8 _ _
        (bit_xor-lt 8 _ _ (bit_xor-lt 8 _ _ (bit_xor-lt 8 0 f.src_id (omega arith) p) q) r)
        (type_code-lt f.type))
      b
