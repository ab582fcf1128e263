-- ===== src/Uwb/Frame/Corruption.antt =====
-- A byte of the payload that was changed on the way: FrameCodec::decode of
-- src/Master/src/uwb/UwbFramecodec.cpp.
use mathlib.Core.List.{append-ne-nil_of_right_ne-nil}
use mid_napi.Prelude.{
  ℕ, ◌≡◌, ◌≢◌, sym, ap, ◌∙◌, ◌∷◌, ◌++◌, none, arith, Bytes, length, length-append,
}
use mid_napi.Uwb.Frame.{
  TimeSlotFrame, xor_all, calculate_checksum, verify_checksum, IsFrame, encode, decode,
}
use mid_napi.Uwb.Frame.RoundTrip.{Fits, IsFrame-Fits, decode-encode_append}
use mid_napi.Uwb.Frame.Checksum.{xor_all_one_byte}

-- Putting `y` in the place of the payload byte `x`.
abbrev pub corrupt : TimeSlotFrame → Bytes → ℕ → Bytes → TimeSlotFrame
corrupt f before y after = record f { payload = before ++ y ∷ after }

module _ (f : TimeSlotFrame) (before after : Bytes) (x y : ℕ) (v : IsFrame f)
    (e : f.payload ≡ before ++ x ∷ after) where
  corrupt-Fits : Fits (corrupt f before y after)
  corrupt-Fits = record {
    src_byte = v.src_byte;
    dst_byte = v.dst_byte;
    seq_byte = v.seq_byte;
    checksum_byte = (IsFrame-Fits f v).checksum_byte;
    payload_fits = omega (
      arith,
      v.payload_fits,
      ap length e,
      length-append before (x ∷ after),
      length-append before (y ∷ after),
    );
    ack_empty = λ t.
        absurd
          (append-ne-nil_of_right_ne-nil before {t = x ∷ after} (λ q. cc) (sym e ∙ v.ack_empty t));
  }

  corrupt-checksum : x ≢ y → ¬ (f.checksum ≡ calculate_checksum (corrupt f before y after))
  unfolding calculate_checksum
  corrupt-checksum ne h =
      ne (xor_all_one_byte before after _ x y (ap (xor_all _) (sym e) ∙ sym v.checked ∙ h))

  -- A frame in which one payload byte was changed after the checksum was computed is refused.
  pub decode_corrupted :
      (rest : Bytes) → x ≢ y → decode (encode (corrupt f before y after) ++ rest) ≡ none
  unfolding verify_checksum
  decode_corrupted rest ne =
      rw (decode-encode_append (corrupt f before y after) rest corrupt-Fits)
        (ground (arith, corrupt-checksum ne))
