-- ===== src/Uwb/Http.antt =====
-- HTTP requests as frame payloads: serialize_http_request and parse_http_request of
-- src/Master/src/uwb/UwbHandle.cpp.
pub mod Escaping
pub mod Tests
use mid_napi.Prelude.{
  ℕ, zero, suc, ◌+◌, ◌≡◌, Bool, true, false, not, ◌&&◌, ◌||◌, Option, none, some, List, [], ◌∷◌,
  ◌++◌, arith, Bytes, codes, length, take, drop, leb, ◌==◌, if◌then◌else◌, ◌≟◌, bytes_eq, bytes_beq,
}
use mid_napi.Http.{Verb, get, post, put, delete, unknown, HttpLibrary}

abbrev pub cr : ℕ
cr = 13

abbrev pub lf : ℕ
lf = 10

abbrev pub backslash : ℕ
backslash = b'\\'

-- One case of the switch: the text that a byte is replaced by.
unfoldable pub escape_byte : ℕ → Bytes
escape_byte c =
    if c == cr
    then backslash ∷ b'r' ∷ []
    else if c == lf
    then backslash ∷ b'n' ∷ []
    else if c == backslash
    then backslash ∷ backslash ∷ []
    else c ∷ []

unfoldable pub escape : Bytes → Bytes
unfolding escape_byte
escape [] = []
escape (c ∷ s) = escape_byte c ++ escape s

-- The first loop of `parse_http_request`, which looks at two bytes at a time.
unfoldable pub unescape : Bytes → Bytes
unescape [] = []
unescape (c ∷ []) = c ∷ []
unescape (c ∷ d ∷ s) =
    let past = unescape s in
    let next = unescape (d ∷ s) in
    if c == backslash && d == b'r'
    then cr ∷ past
    else if c == backslash && d == b'n'
    then lf ∷ past
    else if c == backslash && d == backslash
    then backslash ∷ past
    else c ∷ next

-- Whether the text begins with the bytes of the first argument.
unfoldable pub starts_with : Bytes → Bytes → Bool
starts_with [] text = true
starts_with (p ∷ ps) [] = false
starts_with (p ∷ ps) (c ∷ s) = p == c && starts_with ps s

-- `text.find(pattern)` for a pattern that is not empty.
unfoldable pub find : Bytes → Bytes → Option ℕ
unfolding starts_with
find pattern [] = none
find pattern (c ∷ s) =
    let later = find pattern s in
    if starts_with pattern (c ∷ s)
    then some 0
    else elim later [ none ↦ none | some i ↦ some (suc i) ]

-- The lines that std::getline returns one after the other.
unfoldable pub lines_from : Bytes → Bytes → List Bytes
lines_from cur [] = elim cur [ [] ↦ [] | (c ∷ s) ↦ (c ∷ s) ∷ [] ]
lines_from cur (c ∷ s) =
    let same = lines_from (cur ++ c ∷ []) s in
    let fresh = lines_from [] s in if c == lf then cur ∷ fresh else same

-- `if (!line.empty() && line.back() == c) line.pop_back()`
unfoldable pub drop_last : ℕ → Bytes → Bytes
drop_last c [] = []
drop_last c (b ∷ []) = if b == c then [] else b ∷ []
drop_last c (b ∷ d ∷ s) = b ∷ drop_last c (d ∷ s)

is_blank : ℕ → Bool
is_blank c = c == 32 || leb 9 c && leb c 13

skip_blanks : Bytes → Bytes
unfolding is_blank
skip_blanks [] = []
skip_blanks (c ∷ s) = let rest = skip_blanks s in if is_blank c then rest else c ∷ s

-- The word at the head of the text, and what follows it.
word_rest : Bytes → Bytes × Bytes
unfolding is_blank
word_rest [] = ([], [])
word_rest (c ∷ s) =
    let rest = word_rest s in if is_blank c then ([], c ∷ s) else (c ∷ rest.0, rest.1)

-- `line_stream >> word`, the empty word at the end of the stream.
unfoldable pub next_word : Bytes → Bytes × Bytes
unfolding skip_blanks word_rest
next_word s = word_rest (skip_blanks s)

unfoldable pub parse_verb : Bytes → Verb
parse_verb m =
    if m ≟ codes "GET"
    then get
    else if m ≟ codes "POST"
    then post
    else if m ≟ codes "PUT"
    then put
    else if m ≟ codes "DELETE"
    then delete
    else unknown

-- `while (!value.empty() && value[0] == ' ') value.erase(0, 1)`
trim_left : Bytes → Bytes
trim_left [] = []
trim_left (c ∷ s) = let rest = trim_left s in if c == 32 then rest else c ∷ s

-- `while (!value.empty() && value.back() == ' ') value.pop_back()`
trim_right : Bytes → Bytes
trim_right [] = []
trim_right (c ∷ s) =
    let rest = trim_right s in
    elim rest [ [] ↦ (if c == 32 then [] else c ∷ []) | (d ∷ t) ↦ c ∷ d ∷ t ]

unfoldable pub trim : Bytes → Bytes
unfolding trim_left trim_right
trim value = trim_right (trim_left value)

module _ (lib : HttpLibrary) where
  open lib use {Request, blank, set_method, set_target, set_body, set, prepare_payload, wire}

  unfoldable pub serialize_http_request : Request → Bytes
  unfolding escape
  serialize_http_request req = escape (wire req)

  -- The request line.
  unfoldable pub parse_request_line : Bytes → Request → Request
  unfolding next_word parse_verb
  parse_request_line line req =
      let (m, rest) = next_word line in
      let (path, _) = next_word rest in set_target path (set_method (parse_verb m) req)

  -- A header line; one without a colon is skipped.
  unfoldable pub parse_header_line : Bytes → Request → Request
  unfolding find trim
  parse_header_line line req = elim (find (codes ":") line) [
    | none ↦ req
    | some colon ↦ set (take colon line) (trim (drop (colon + 1) line)) req
  ]

  -- The loop over the lines; the flag is `first_line`. An empty line ends it.
  unfoldable pub parse_lines : Bool → List Bytes → Request → Request
  unfolding drop_last
  parse_lines first [] req = req
  parse_lines true (l ∷ ls) req = elim (drop_last cr l) [
    | [] ↦ req
    | (c ∷ s) ↦ parse_lines false ls (parse_request_line (c ∷ s) req)
  ]
  parse_lines false (l ∷ ls) req = elim (drop_last cr l) [
    | [] ↦ req
    | (c ∷ s) ↦ parse_lines false ls (parse_header_line (c ∷ s) req)
  ]

  -- What follows the search for the empty line, which starts at `body_start`; `none` is a return
  -- of false.
  unfoldable pub parse_decoded : Bytes → Option ℕ → Option Request
  unfolding lines_from
  parse_decoded decoded none = none
  parse_decoded decoded (some body_start) = some (
      prepare_payload (
        set_body (drop (body_start + 4) decoded)
          (parse_lines true (lines_from [] (take body_start decoded)) blank)))

  unfoldable pub parse_http_request : Bytes → Option Request
  unfolding unescape find parse_decoded
  parse_http_request text =
      parse_decoded (unescape text) (find (cr ∷ lf ∷ cr ∷ lf ∷ []) (unescape text))
