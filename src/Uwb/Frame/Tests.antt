-- ===== src/Uwb/Frame/Tests.antt =====
-- Frames at concrete inputs.
use mid_napi.Prelude.{◌≡◌, refl, [], ◌++◌, some, none, arith, codes}
use mid_napi.Uwb.Hex.{to_hex_byte, to_hex_word, from_hex_byte, from_hex_word}
use mid_napi.Uwb.Frame.{
  data_frame, ack, TimeSlotFrame, new_frame, calculate_checksum, verify_checksum, IsFrame, encode,
  decode, decode_payload, decode_checksum, string_to_frame_type,
}
use mid_napi.Uwb.Frame.RoundTrip.{decode-encode}
use mid_napi.Uwb.Frame.Corruption.{decode_corrupted, corrupt}

abbrev greeting : TimeSlotFrame
greeting = record {
  src_id = 1;
  dst_id = 2;
  seq_no = 0x1f;
  type = data_frame;
  payload = codes "hi";
  checksum = 0x1d;
}

greeting_new : new_frame 1 2 0x1f data_frame (codes "hi") ≡ greeting
unfolding new_frame
greeting_new = refl

encode-greeting : encode greeting ≡ codes "[TS]01021FDAT0002hi1D"
unfolding encode to_hex_byte to_hex_word
encode-greeting = refl

decode-greeting : decode (codes "[TS]01021FDAT0002hi1D") ≡ some greeting
unfolding decode decode_payload decode_checksum string_to_frame_type verify_checksum from_hex_byte
    from_hex_word
decode-greeting = refl

-- std::stoul takes lower case, a sign, blanks and a "0x".
decode_lenient :
    decode (codes "[TS] 1+20xACK02")
    ≡ some (record { src_id = 1; dst_id = 2; seq_no = 0; type = ack; payload = []; checksum = 2 })
unfolding decode decode_payload decode_checksum string_to_frame_type verify_checksum from_hex_byte
decode_lenient = refl

hex_forms :
    (from_hex_byte (codes "fF") ≡ some 255)
    × (from_hex_byte (codes "-1") ≡ some 255)
    × (from_hex_byte (codes " 7") ≡ some 7)
    × (from_hex_word (codes "0x1A") ≡ some 26)
    × (from_hex_byte (codes "0x") ≡ some 0)
    × (from_hex_byte (codes "G1") ≡ none)
unfolding from_hex_byte from_hex_word
hex_forms = (refl, refl, refl, refl, refl, refl)

greeting-IsFrame : IsFrame greeting
unfolding calculate_checksum
greeting-IsFrame = record {
  src_byte = omega arith;
  dst_byte = omega arith;
  seq_byte = omega arith;
  payload_bytes = omega arith;
  payload_fits = omega arith;
  ack_empty = λ e. cc;
  checked = refl;
}

decode-encode_example : decode (encode greeting ++ codes "\r") ≡ some greeting
decode-encode_example = decode-encode greeting (codes "\r") greeting-IsFrame

decode_corrupted_example : decode (encode (corrupt greeting (codes "h") b'o' []) ++ []) ≡ none
decode_corrupted_example =
    decode_corrupted greeting (codes "h") [] b'i' b'o' greeting-IsFrame refl [] (omega arith)
