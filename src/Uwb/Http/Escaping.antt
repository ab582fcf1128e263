-- ===== src/Uwb/Http/Escaping.antt =====
-- The escaping of line breaks in payloads, and what it is for: src/Master/src/uwb/UwbHandle.cpp.
use mid_napi.Prelude.{
  ℕ, ◌+◌, ◌≡◌, ◌≢◌, refl, ap, ◌∙◌, true, some, [], ◌∷◌, ◌++◌, arith, Bytes, Lacks, All-append,
  length, take, drop, drop_front, length-append, append_assoc,
}
use mid_napi.Http.{HttpLibrary}
use mid_napi.Uwb.Http.{
  cr, lf, backslash, escape_byte, escape, unescape, find, lines_from, parse_lines,
  parse_http_request, serialize_http_request,
}

unescape_plain : (c : ℕ) (s : Bytes) → c ≢ backslash → unescape (c ∷ s) ≡ c ∷ unescape s
unfolding unescape
unescape_plain c [] h = refl
unescape_plain c (d ∷ s) h = ground arith

unescape-escape_byte : (c : ℕ) (s : Bytes) → unescape (escape_byte c ++ s) ≡ c ∷ unescape s
unfolding escape_byte unescape
unescape-escape_byte c s = ground (arith, unescape_plain c s)

-- The receiver recovers every text that the sender escaped.
pub unescape-escape : (s : Bytes) → unescape (escape s) ≡ s
unfolding escape
unescape-escape [] = unfold unescape in refl
unescape-escape (c ∷ s) = unescape-escape_byte c (escape s) ∙ ap (◌∷◌ c) (unescape-escape s)

abbrev pub empty_line : Bytes
empty_line = cr ∷ lf ∷ cr ∷ lf ∷ []

escape_byte-Lacks : (c : ℕ) → Lacks lf (escape_byte c) × Lacks cr (escape_byte c)
unfolding escape_byte
escape_byte-Lacks c = ground arith

-- An escaped text holds no line break of either kind, so it fits the line protocol of the radio.
pub escape-Lacks : (s : Bytes) → Lacks lf (escape s) × Lacks cr (escape s)
unfolding escape
escape-Lacks [] = (tt, tt)
escape-Lacks (c ∷ s) =
    let (no_lf, no_cr) = escape_byte-Lacks c in
    let (rest_lf, rest_cr) = escape-Lacks s in
    (
      All-append _ (escape_byte c) (escape s) no_lf rest_lf,
      All-append _ (escape_byte c) (escape s) no_cr rest_cr,
    )

module _ (lib : HttpLibrary) where
  open lib use {
    Request, wire, body, prepare_payload, set_body, blank, body-set_body, body-prepare_payload,
  }

  pub parse-serialize_body :
      (req : Request) (head : Bytes)
      → wire req ≡ head ++ (empty_line ++ body req)
      → find empty_line (wire req) ≡ some (length head)
      → (received : Request) × (parse_http_request lib (serialize_http_request lib req)
          ≡ some received)
        × (body received ≡ body req)
  unfolding parse_http_request serialize_http_request
  parse-serialize_body req head w f =
      let text = wire req in
      let lines = lines_from [] (take (length head) text) in
      (
        prepare_payload (set_body (drop (length head + 4) text) (parse_lines lib true lines blank)),
        rw (unescape-escape text, f),
        body-prepare_payload _ ∙ body-set_body _ _ ∙ behind_head,
      )
    where
      behind_head : drop (length head + 4) (wire req) ≡ body req
      behind_head =
          rw (w, ← append_assoc head empty_line (body req))
            (drop_front (length head + 4) (head ++ empty_line) (body req)
              (length-append head empty_line))
