-- ===== src/Dgps/Sentences.antt =====
-- The lines of the receiver and the four expressions that are searched in them: getNmea and appendNMEA
-- of src/Dgps/src/ntripclient.cpp, and the head of getGpsMsg of src/Dgps/src/dgps_hmw_node.cpp. In an
-- expression each group is the shortest text before a comma, the last one of three before an
-- asterisk; a dot matches no line feed and no carriage return.
use mid_napi.Prelude.{
  ℕ, Bool, false, ◌||◌, Option, none, some, ◌>>=◌, List, [], ◌∷◌, ◌++◌, Bytes, codes, replicate,
  ◌==◌, if◌then◌else◌,
}

abbrev pub comma : ℕ
comma = b','

abbrev pub is_line_end : ℕ → Bool
is_line_end c = c == 10 || c == 13

-- The text before the first `stop`, and what follows it.
unfoldable pub group : ℕ → Bytes → Option (Bytes × Bytes)
group stop [] = none
group stop (c ∷ s) =
    let rest = group stop s in
    if c == stop
    then some ([], s)
    else if is_line_end c
    then none
    else (do (g, s') ← rest; some (c ∷ g, s'))

unfoldable pub groups : List ℕ → Bytes → Option (List Bytes)
unfolding group
groups [] s = some []
groups (stop ∷ stops) s = do (g, s') ← group stop s; gs ← groups stops s'; some (g ∷ gs)

-- What follows a literal.
unfoldable pub after : Bytes → Bytes → Option Bytes
after [] s = some s
after (x ∷ p) [] = none
after (x ∷ p) (c ∷ s) = if x == c then after p s else none

abbrev pub or_else : {A : Type 0} → Option A → Option A → Option A
or_else none y = y
or_else (some x) y = some x

abbrev pub commas : ℕ → List ℕ
commas n = replicate n comma

-- `.*?GGA,` and nine groups.
unfoldable pub match_gga : Bytes → Option (List Bytes)
unfolding after groups
match_gga [] = none
match_gga (c ∷ s) =
    let rest = match_gga s in
    or_else (after (codes "GGA,") (c ∷ s) >>= groups (commas 9))
      (if is_line_end c then none else rest)

-- regex_search of the first expression: the first place that matches.
unfoldable pub search_gga : Bytes → Option (List Bytes)
unfolding match_gga
search_gga [] = none
search_gga (c ∷ s) =
    let rest = search_gga s in if c == b'$' then or_else (match_gga s) rest else rest

-- The other expressions: a literal, groups before commas and one before an asterisk.
unfoldable pub search_after : Bytes → ℕ → Bytes → Option (List Bytes)
unfolding after groups
search_after literal n [] = none
search_after literal n (c ∷ s) =
    or_else (after literal (c ∷ s) >>= groups (commas n ++ b'*' ∷ [])) (search_after literal n s)

abbrev pub has_line : Bytes → Bool
has_line [] = false
has_line (c ∷ s) = c == 10 || has_line s

-- The first line of `g_nmea` and what is left; no line is the empty text.
unfoldable pub get_nmea : Bytes → Bytes × Bytes
get_nmea [] = ([], [])
get_nmea (c ∷ s) =
    let rest = get_nmea s in
    if c == 10 then ([], s) else if has_line s then (c ∷ rest.0, rest.1) else ([], c ∷ s)

unfoldable pub append_nmea : Bytes → Bytes → Bytes
append_nmea buffer nmea = nmea ++ buffer
