-- ===== src/Dgps/Lines.antt =====
-- What becomes of a position sentence: getNmea of src/Dgps/src/ntripclient.cpp, and getGpsMsg and
-- timer_callback of src/Dgps/src/dgps_hmw_node.cpp.
use mid_napi.Prelude.{
  ℕ, ◌≡◌, ◌≢◌, if◌then◌else◌, ◌≟◌, bytes_eq, refl, sym, ap, ◌∙◌, true, false, none, some, List, [],
  ◌∷◌, ◌++◌, Bytes, All, Lacks, arith, codes, length, append_assoc, ne→not-==,
}
use mid_napi.Shm.{ℤ}
use mid_napi.Dgps.Sentences.{
  comma, commas, is_line_end, has_line, group, groups, after, match_gga, search_gga, get_nmea,
  or_else,
}
use mid_napi.Dgps.{
  DoubleLibrary, CovarianceType, quality, nmea_to_float, longitude_of, number,
  position_covariance_of, filled_fix, fix, nmea_to_fix, caught, get_gps_msg, DgpsNode,
  publish_reading, timer_callback,
}

has_line-append : (line rest : Bytes) → has_line (line ++ 10 ∷ rest) ≡ true
has_line-append [] rest = refl
has_line-append (c ∷ line) rest = ground (arith, has_line-append line rest)

-- A line is taken as a whole, and what follows it is kept.
get_nmea-line : (line rest : Bytes) → Lacks 10 line → get_nmea (line ++ 10 ∷ rest) ≡ (line, rest)
unfolding get_nmea
get_nmea-line [] rest h = refl
get_nmea-line (c ∷ line) rest (n, h) =
    rw (ne→not-== c 10 n, has_line-append line rest, get_nmea-line line rest h) refl

-- No comma and no end of a line.
abbrev pub IsField : Bytes → Type 0
IsField = All (λ c. ¬ (c ≡ comma) × ¬ (c ≡ 10) × ¬ (c ≡ 13))

-- Fields, each with a comma behind it.
abbrev pub print_fields : List Bytes → Bytes
print_fields [] = []
print_fields (g ∷ gs) = g ++ comma ∷ print_fields gs

group-field : (g s : Bytes) → IsField g → group comma (g ++ comma ∷ s) ≡ some (g, s)
unfolding group
group-field [] s h = refl
group-field (c ∷ g) s (n, h) =
    rw (ne→not-== c comma n.0, ne→not-== c 10 n.1, ne→not-== c 13 n.2, group-field g s h) refl

groups-print_fields :
    (gs : List Bytes) (s : Bytes)
    → All IsField gs
    → groups (commas (length gs)) (print_fields gs ++ s) ≡ some gs
unfolding groups
groups-print_fields [] s h = refl
groups-print_fields (g ∷ gs) s (f, h) =
    rw
      (
        append_assoc g (comma ∷ print_fields gs) s,
        group-field g (print_fields gs ++ s) f,
        groups-print_fields gs s h,
      )
      refl

match_gga-here :
    (s : Bytes) (gs : List Bytes)
    → groups (commas 9) s ≡ some gs
    → match_gga (codes "GGA," ++ s) ≡ some gs
unfolding match_gga after
match_gga-here s gs e = ap (λ o. or_else o (match_gga (codes "GA," ++ s))) e

match_gga-skip :
    (c : ℕ) (s : Bytes)
    → after (codes "GGA,") (c ∷ s) ≡ none
    → is_line_end c ≡ false
    → match_gga (c ∷ s) ≡ match_gga s
unfolding match_gga
match_gga-skip c s e h = rw (e, h) refl

match_gga-sentence :
    (a b : ℕ) (gs : List Bytes) (s : Bytes)
    → is_line_end a ≡ false
    → is_line_end b ≡ false
    → length gs ≡ 9
    → All IsField gs
    → match_gga (a ∷ b ∷ codes "GGA," ++ print_fields gs ++ s) ≡ some gs
unfolding after
match_gga-sentence a b gs s ha hb l h =
    let t = print_fields gs ++ s in
    match_gga-skip a (b ∷ codes "GGA," ++ t) (ground arith) ha
    ∙ match_gga-skip b (codes "GGA," ++ t) (ground arith) hb
    ∙ match_gga-here t gs (ap (λ n. groups (commas n) t) (sym l) ∙ groups-print_fields gs s h)

-- A GGA sentence of a two-letter talker with these fields, and what follows the ninth comma.
abbrev pub gga_line : ℕ → ℕ → List Bytes → Bytes → Bytes
gga_line a b gs s = codes "$" ++ a ∷ b ∷ codes "GGA," ++ print_fields gs ++ s

search_gga-sentence :
    (a b : ℕ) (gs : List Bytes) (s : Bytes)
    → is_line_end a ≡ false
    → is_line_end b ≡ false
    → length gs ≡ 9
    → All IsField gs
    → search_gga (gga_line a b gs s) ≡ some gs
unfolding search_gga
search_gga-sentence a b gs s ha hb l h = rw (match_gga-sentence a b gs s ha hb l h) refl

module _ (lib : DoubleLibrary) where
  open lib use {Double, negate}

  get_gps_msg-gga :
      (a b : ℕ) (gs : List Bytes) (s : Bytes) (now : ℕ)
      → search_gga (gga_line a b gs s) ≡ some gs
      → get_gps_msg lib (gga_line a b gs s) now ≡ caught lib fix (nmea_to_fix lib gs now)
  unfolding get_gps_msg
  get_gps_msg-gga a b gs s now e = rw (e, get_gps_msg) refl

  -- The line is taken as a whole, and its nine fields are what nmeaToFix gets.
  timer_callback-gga :
      (a b : ℕ) (gs : List Bytes) (s rest : Bytes) (now : ℕ) (n : DgpsNode lib)
      → is_line_end a ≡ false
      → is_line_end b ≡ false
      → length gs ≡ 9
      → All IsField gs
      → Lacks 10 (gga_line a b gs s)
      → n.nmea ≡ gga_line a b gs s ++ 10 ∷ rest
      → timer_callback lib now n ≡ record {
        nmea = rest;
        published = publish_reading lib (caught lib fix (nmea_to_fix lib gs now)) n.published;
      }
  unfolding timer_callback
  timer_callback-gga a b gs s rest now n ha hb l h one_line next =
      let taken = ap get_nmea next ∙ get_nmea-line (gga_line a b gs s) rest one_line in
      rw (taken, get_gps_msg-gga a b gs s now (search_gga-sentence a b gs s ha hb l h)) refl

  nmea_to_fix-filled :
      (time lat ns lon ew q sats hdop alt : Bytes) (now : ℕ) (status : ℤ)
      (epe latitude longitude altitude : Double) (kind : CovarianceType) (cov : List Double)
      → lat ≢ []
      → quality lib q ≡ some (status, epe, kind)
      → nmea_to_float lib lat ≡ some latitude
      → longitude_of lib lon ≡ some longitude
      → number lib alt ≡ some altitude
      → position_covariance_of lib hdop epe ≡ some cov
      → nmea_to_fix lib (time ∷ lat ∷ ns ∷ lon ∷ ew ∷ q ∷ sats ∷ hdop ∷ alt ∷ []) now
        ≡ some (record {
          frame_id = codes "gps";
          seconds = now;
          status = status;
          service = 0;
          position_covariance_type = kind;
          latitude = if ns ≟ codes "S" then negate latitude else latitude;
          longitude = if ew ≟ codes "W" then negate longitude else longitude;
          altitude = altitude;
          position_covariance = cov;
        })
  unfolding nmea_to_fix filled_fix
  nmea_to_fix-filled time [] ns lon ew q sats hdop alt now status epe la lo al kind cov ne eq ela
        elo eal ec =
      absurd (ne refl)
  nmea_to_fix-filled time (c ∷ lat) ns lon ew q sats hdop alt now status epe la lo al kind cov ne eq
        ela elo eal ec =
      rw (eq, ela, elo, eal, ec) refl

  -- When a position sentence of any two-letter talker is the next line, with nine fields without commas
  -- and ends of lines, of which the latitude is not empty and the quality, the coordinates, the altitude
  -- and the dilution are read as numbers, the timer takes just that line and publishes the position with
  -- the latitude of the second field, negated by an S in the third, the longitude of the fourth, negated
  -- by a W in the fifth, the status of the sixth, the covariance of the eighth, and the altitude of the
  -- ninth.
  pub timer_callback-gga_fix :
      (a b : ℕ) (time lat ns lon ew q sats hdop alt s rest : Bytes) (now : ℕ) (status : ℤ)
      (epe latitude longitude altitude : Double) (kind : CovarianceType) (cov : List Double)
      (n : DgpsNode lib)
      → let gs = time ∷ lat ∷ ns ∷ lon ∷ ew ∷ q ∷ sats ∷ hdop ∷ alt ∷ [] in
        is_line_end a ≡ false
        → is_line_end b ≡ false
        → All IsField gs
        → Lacks 10 (gga_line a b gs s)
        → n.nmea ≡ gga_line a b gs s ++ 10 ∷ rest
        → lat ≢ []
        → quality lib q ≡ some (status, epe, kind)
        → nmea_to_float lib lat ≡ some latitude
        → longitude_of lib lon ≡ some longitude
        → number lib alt ≡ some altitude
        → position_covariance_of lib hdop epe ≡ some cov
        → timer_callback lib now n ≡ record {
          nmea = rest;
          published =
              n.published
              ++ fix (record {
                frame_id = codes "gps";
                seconds = now;
                status = status;
                service = 0;
                position_covariance_type = kind;
                latitude = if ns ≟ codes "S" then negate latitude else latitude;
                longitude = if ew ≟ codes "W" then negate longitude else longitude;
                altitude = altitude;
                position_covariance = cov;
              })
                ∷ [];
        }
  timer_callback-gga_fix a b time lat ns lon ew q sats hdop alt s rest now status epe la lo al kind
        cov n ha hb h one_line next ne eq ela elo eal ec =
      timer_callback-gga a b (time ∷ lat ∷ ns ∷ lon ∷ ew ∷ q ∷ sats ∷ hdop ∷ alt ∷ []) s rest now n
        ha hb refl h one_line next
      ∙ ap
          (λ o. record {
            nmea = rest;
            published = publish_reading lib (caught lib fix o) n.published;
          })
          (nmea_to_fix-filled time lat ns lon ew q sats hdop alt now status epe la lo al kind cov ne
            eq ela elo eal ec)
