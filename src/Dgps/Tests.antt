-- ===== src/Dgps/Tests.antt =====
-- A position sentence of the receiver, with numbers that stand for the length of their text.
use mid_napi.Prelude.{
  ℕ, ◌+◌, ◌-◌, ◌*◌, ◌/◌, ◌≡◌, refl, some, List, [], ◌∷◌, ◌++◌, Bytes, arith, codes, length,
  bytes_beq,
}
use mid_napi.Shm.{pos}
use mid_napi.Dgps.{
  DoubleLibrary, fix, DgpsNode, timer_callback, get_gps_msg, nothing, covariance_approximated,
  with_hdop, quality, nmea_to_float, number, position_covariance_of,
}
use mid_napi.Dgps.Lines.{gga_line, timer_callback-gga_fix}

abbrev lengths : DoubleLibrary
lengths = record {
  Double = ℕ;
  literal = λ n digits. n;
  negate = λ x. 0 - x;
  plus = λ x y. x + y;
  minus = λ x y. x - y;
  times = λ x y. x * y;
  divide = λ x y. x / y;
  floor = λ x. x;
  square = λ x. x * x;
  to_uint32 = λ x. x;
  stod = λ s. some (length s);
  stoi = λ s. some (pos (length s));
  strtol16 = λ s. length s;
}

abbrev fields : List Bytes
fields =
    codes "0933"
    ∷ codes "2810.7"
    ∷ codes "S"
    ∷ codes "112.4"
    ∷ codes "E"
    ∷ codes "1"
    ∷ codes "13"
    ∷ codes "52"
    ∷ codes "61"
    ∷ []

abbrev waiting : DgpsNode lengths
waiting = record {
  nmea = gga_line b'G' b'P' fields (codes "M,*49") ++ 10 ∷ codes "$GT";
  published = [];
}

timer_callback-gga_fix_example : timer_callback lengths 7 waiting ≡ record {
  nmea = codes "$GT";
  published =
      fix (record {
        frame_id = codes "gps";
        seconds = 7;
        status = pos 1;
        service = 0;
        position_covariance_type = covariance_approximated;
        latitude = 0;
        longitude = 0;
        altitude = 2;
        position_covariance = with_hdop lengths 2 40;
      })
      ∷ [];
}
unfolding quality nmea_to_float number position_covariance_of bytes_beq
timer_callback-gga_fix_example =
    timer_callback-gga_fix lengths b'G' b'P' (codes "0933") (codes "2810.7") (codes "S")
      (codes "112.4") (codes "E") (codes "1") (codes "13") (codes "52") (codes "61") (codes "M,*49")
      (codes "$GT") 7 (pos 1) 40 0 0 2 covariance_approximated (with_hdop lengths 2 40) waiting refl
      refl (ground arith) (ground arith) refl (λ e. absurd (ground (arith, e))) refl refl refl refl
      refl

-- The sentence that a comment gives for the last expression is not matched by it.
get_gps_msg-gnvtg :
    get_gps_msg lengths (codes "$GNVTG,0.00,T,0.00,M,0.00,N,0.000,K,A*3D") 7 ≡ nothing
unfolding get_gps_msg
get_gps_msg-gnvtg = refl
