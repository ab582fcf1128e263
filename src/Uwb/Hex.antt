-- ===== src/Uwb/Hex.antt =====
-- The hexadecimal fields of a frame: FrameCodec::to_hex and from_hex_byte, from_hex_word of
-- src/Master/src/uwb/UwbFramecodec.cpp, with `std::stoul(s, nullptr, 16)` of the C++ library.
use mathlib.Core.Option
use mid_napi.Prelude.{
  ℕ, ◌+◌, ◌-◌, ◌*◌, ◌/◌, ◌%◌, ◌^◌, ◌<◌, ◌≡◌, Bool, false, ◌&&◌, ◌||◌, Option, none, some, [], ◌∷◌,
  arith, Bytes, ltb, leb, ◌==◌, if◌then◌else◌, u8, u16,
}

-- One digit of an ostream with std::hex and std::uppercase.
unfoldable pub hex_digit : ℕ → ℕ
hex_digit d = if ltb d 10 then b'0' + d else b'A' + (d - 10)

-- std::setw(2), std::setfill('0'), of a uint8_t.
unfoldable pub to_hex_byte : ℕ → Bytes
unfolding hex_digit
to_hex_byte value = hex_digit (value / 16) ∷ hex_digit (value % 16) ∷ []

-- std::setw(4), std::setfill('0'), of a uint16_t.
unfoldable pub to_hex_word : ℕ → Bytes
unfolding hex_digit
to_hex_word value =
    hex_digit (value / 4096)
    ∷ hex_digit (value / 256 % 16)
    ∷ hex_digit (value / 16 % 16)
    ∷ hex_digit (value % 16)
    ∷ []

hex_value : ℕ → Option ℕ
hex_value c =
    if leb b'0' c && leb c b'9'
    then some (c - b'0')
    else if leb b'A' c && leb c b'F'
    then some (c - b'A' + 10)
    else if leb b'a' c && leb c b'f'
    then some (c - b'a' + 10)
    else none

is_space : ℕ → Bool
is_space c = c == 32 || leb 9 c && leb c 13

skip_space : Bytes → Bytes
skip_space [] = []
skip_space (c ∷ s) = let rest = skip_space s in if is_space c then rest else c ∷ s

-- The digits up to the first byte that is none.
hex_digits : ℕ → Bytes → ℕ
hex_digits acc [] = acc
hex_digits acc (c ∷ s) = elim (hex_value c) [ none ↦ acc | some d ↦ hex_digits (acc * 16 + d) s ]

-- No digit at all is std::invalid_argument.
hex_number : Bytes → Option ℕ
unfolding hex_value hex_digits
hex_number [] = none
hex_number (c ∷ s) = Option.map (λ d. hex_digits d s) (hex_value c)

-- "0x" is a prefix only in front of a digit.
hex_prefixed : Bytes → Option ℕ
unfolding hex_number
hex_prefixed (c ∷ x ∷ s) =
    if c == b'0' && (x == b'x' || x == b'X')
    then elim (hex_number s) [ none ↦ hex_number (c ∷ x ∷ s) | some n ↦ some n ]
    else hex_number (c ∷ x ∷ s)
hex_prefixed s = hex_number s

-- A value that does not fit an unsigned long is std::out_of_range.
in_range : Option ℕ → Option ℕ
in_range none = none
in_range (some n) = if ltb n (2 ^ 64) then some n else none

hex_signed : Bytes → Option ℕ
unfolding hex_prefixed in_range
hex_signed [] = none
hex_signed (c ∷ s) =
    if c == b'-'
    then Option.map (λ n. (2 ^ 64 - n) % 2 ^ 64) (in_range (hex_prefixed s))
    else if c == b'+'
    then in_range (hex_prefixed s)
    else in_range (hex_prefixed (c ∷ s))

-- `none` is an exception.
unfoldable pub stoul_hex : Bytes → Option ℕ
unfolding hex_signed is_space skip_space
stoul_hex s = hex_signed (skip_space s)

unfoldable pub from_hex_byte : Bytes → Option ℕ
unfolding stoul_hex
from_hex_byte hex_str = Option.map u8 (stoul_hex hex_str)

unfoldable pub from_hex_word : Bytes → Option ℕ
unfolding stoul_hex
from_hex_word hex_str = Option.map u16 (stoul_hex hex_str)

-- What is needed of a printed digit when it is read back.
hex_digit_reads :
    (d : ℕ)
    → d < 16
    → (hex_value (hex_digit d) ≡ some d)
      × (is_space (hex_digit d) ≡ false)
      × ((hex_digit d == b'-') ≡ false)
      × ((hex_digit d == b'+') ≡ false)
      × ((hex_digit d == b'x') ≡ false)
      × ((hex_digit d == b'X') ≡ false)
unfolding hex_value hex_digit is_space
hex_digit_reads d h = ground arith

-- A text that starts with two printed digits has no sign, no blank and no "0x" in front.
stoul_hex_digits :
    (a b : ℕ) (s : Bytes)
    → a < 16
    → b < 16
    → stoul_hex (hex_digit a ∷ hex_digit b ∷ s) ≡ in_range (some (hex_digits (a * 16 + b) s))
unfolding stoul_hex
stoul_hex_digits a b s p q = ground (arith, hex_digit_reads a p, hex_digit_reads b q)

stoul_hex_two :
    (a b : ℕ) → a < 16 → b < 16 → stoul_hex (hex_digit a ∷ hex_digit b ∷ []) ≡ some (a * 16 + b)
unfolding in_range hex_digits
stoul_hex_two a b p q = ground (arith, stoul_hex_digits a b [] p q)

stoul_hex_four :
    (a b c d : ℕ)
    → a < 16
    → b < 16
    → c < 16
    → d < 16
    → stoul_hex (hex_digit a ∷ hex_digit b ∷ hex_digit c ∷ hex_digit d ∷ [])
      ≡ some (((a * 16 + b) * 16 + c) * 16 + d)
unfolding in_range hex_digits
stoul_hex_four a b c d p q r t = ground (
  arith,
  stoul_hex_digits a b (hex_digit c ∷ hex_digit d ∷ []) p q,
  hex_digit_reads c r,
  hex_digit_reads d t,
)

-- A printed byte is read back.
pub from_hex_byte-to_hex_byte : (v : ℕ) → v < 256 → from_hex_byte (to_hex_byte v) ≡ some v
unfolding from_hex_byte to_hex_byte
from_hex_byte-to_hex_byte v h =
    rw (stoul_hex_two (v / 16) (v % 16) (omega arith) (omega arith)) (ground arith)

pub from_hex_word-to_hex_word : (v : ℕ) → v < 65536 → from_hex_word (to_hex_word v) ≡ some v
unfolding from_hex_word to_hex_word
from_hex_word-to_hex_word v h =
    rw
      (stoul_hex_four (v / 4096) (v / 256 % 16) (v / 16 % 16) (v % 16) (omega arith) (omega arith)
        (omega arith) (omega arith))
      (ground arith)
