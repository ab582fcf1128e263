-- ===== src/Uwb/Http/Tests.antt =====
-- Requests as payloads, at concrete inputs.
use mid_napi.Prelude.{◌≡◌, codes}
use mid_napi.Uwb.Http.{escape, unescape}
use mid_napi.Uwb.Http.Escaping.{unescape-escape}

unescape-escape_example : unescape (escape (codes "a\\\r\nb")) ≡ codes "a\\\r\nb"
unescape-escape_example = unescape-escape (codes "a\\\r\nb")
