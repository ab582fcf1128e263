-- ===== src/Dgps.antt =====
-- The positioning node: DGpsHmw of src/Dgps/src/dgps_hmw_node.cpp, from the lines of the receiver to
-- the messages that it publishes. Floating-point numbers and their texts are a parameter, the clock
-- is an argument; an exception is `none`.
pub mod Sentences
pub mod Lines
pub mod Tests
use Prim.Native.String.{String}
use mid_napi.Prelude.{
  ℕ, ◌+◌, ◌-◌, ◌%◌, Bool, ◌||◌, Option, none, some, ◌>>=◌, List, [], ◌∷◌, ◌++◌, Bytes, codes,
  get_elem?, set, ltb, ◌≟◌, bytes_eq, if◌then◌else◌,
}
use mid_napi.Shm.{ℤ, pos, negsuc}
use mid_napi.Dgps.Sentences.{search_gga, search_after, get_nmea}

pub record DoubleLibrary : Type 1 where
  pub Double : Type 0
  -- A literal, as a whole number and how many of its digits stand behind the point.
  pub literal : ℕ → ℕ → Double
  pub negate : Double → Double
  pub plus : Double → Double → Double
  pub minus : Double → Double → Double
  pub times : Double → Double → Double
  pub divide : Double → Double → Double
  pub floor : Double → Double
  -- std::pow(x, 2)
  pub square : Double → Double
  -- The conversion to uint32.
  pub to_uint32 : Double → ℕ
  -- std::stod and std::stoi throw where they have no result.
  pub stod : Bytes → Option Double
  pub stoi : Bytes → Option ℤ
  -- std::strtol to the base 16, as a uint32.
  pub strtol16 : Bytes → ℕ

-- The conversion of an int to int8_t.
unfoldable pub to_int8 : ℤ → ℤ
to_int8 (pos n) = let r = n % 256 in if ltb r 128 then pos r else negsuc (255 - r)
to_int8 (negsuc n) = let r = n % 256 in if ltb r 128 then negsuc r else pos (255 - r)

pub data CovarianceType : Type 0 where
  covariance_unknown covariance_approximated : CovarianceType

-- `m[i]`
abbrev pub capture : List Bytes → ℕ → Bytes
capture m i = elim (get_elem? m (i - 1)) [ none ↦ [] | some g ↦ g ]

abbrev pub is_text : Bytes → String → Bool
is_text s t = s ≟ codes t

module _ (lib : DoubleLibrary) where
  open lib use {
    Double, literal, negate, plus, minus, times, divide, floor, square, to_uint32, stod, stoi,
    strtol16,
  }

  pub record NavSatFix : Type 0 where
    pub frame_id : Bytes
    pub seconds : ℕ
    pub status : ℤ
    pub service : ℕ
    pub position_covariance_type : CovarianceType
    pub latitude : Double
    pub longitude : Double
    pub altitude : Double
    pub position_covariance : List Double

  -- Gpfpd and Gtimu: the sentence, its numbers in the order of their groups, and the whole numbers.
  pub record Numbers : Type 0 where
    pub frame_id : Bytes
    pub seconds : ℕ
    pub sentence : Bytes
    pub numbers : List Double
    pub counts : List ℕ

  pub record Gnvtg : Type 0 where
    pub seconds : ℕ
    pub sentence : Bytes
    pub heading1 : Double
    pub heading2 : Double
    pub speed1 : Double
    pub speed2 : Double
    pub status : Bytes

  -- What getGpsMsg returns, with the message that it filled.
  pub data Reading : Type 0 where
    nothing : Reading
    fix : NavSatFix → Reading
    gpfpd gtimu : Numbers → Reading
    gnvtg : Gnvtg → Reading

  abbrev pub zero_double : Double
  zero_double = literal 0 0

  -- NMEA2float
  unfoldable pub nmea_to_float : Bytes → Option Double
  nmea_to_float s = do
    x ← stod s
    let d = divide x (literal 1000 1)
    some (plus (floor d) (divide (times (minus d (floor d)) (literal 10 0)) (literal 6 0)))

  -- A number that is only set where its group is not empty.
  unfoldable pub number : Bytes → Option Double
  number [] = some zero_double
  number (c ∷ s) = stod (c ∷ s)

  unfoldable pub all_numbers : List Bytes → Option (List Double)
  unfolding number
  all_numbers [] = some []
  all_numbers (g ∷ gs) = do x ← number g; xs ← all_numbers gs; some (x ∷ xs)

  -- The chain of conditions on `m[6]`: status, epe_quality and covariance_type.
  unfoldable pub quality : Bytes → Option (ℤ × Double × CovarianceType)
  unfolding to_int8
  quality g =
      let read = stoi g in
      if is_text g "-1" || is_text g "0"
      then some (negsuc 0, literal 1000000 0, covariance_unknown)
      else if is_text g "1"
      then some (pos 1, literal 40 1, covariance_approximated)
      else if is_text g "2"
      then some (pos 2, literal 1 1, covariance_approximated)
      else if is_text g "4"
      then some (pos 4, literal 2 2, covariance_approximated)
      else if is_text g "5"
      then some (pos 5, literal 40 1, covariance_approximated)
      else if is_text g "9"
      then some (pos 9, literal 30 1, covariance_approximated)
      else (do status ← read; some (to_int8 status, literal 1000000 0, covariance_unknown))

  abbrev pub empty_fix : ℕ → NavSatFix
  empty_fix now = record {
    frame_id = codes "gps";
    seconds = now;
    status = pos 0;
    service = 0;
    position_covariance_type = covariance_unknown;
    latitude = zero_double;
    longitude = zero_double;
    altitude = zero_double;
    position_covariance = [];
  }

  -- The member `covariance`.
  abbrev pub covariance : List Double
  covariance =
      literal 1 0
      ∷ zero_double
      ∷ zero_double
      ∷ zero_double
      ∷ literal 1 0
      ∷ zero_double
      ∷ zero_double
      ∷ zero_double
      ∷ literal 1 0
      ∷ []

  abbrev pub with_hdop : Double → Double → List Double
  with_hdop hdop epe =
      let flat = square (times hdop epe) in
      let high = square (times (times (times (literal 2 0) hdop) epe) (literal 2 0)) in
      set (set (set covariance 0 flat) 4 flat) 8 high

  unfoldable pub position_covariance_of : Bytes → Double → Option (List Double)
  position_covariance_of [] epe = some covariance
  position_covariance_of (c ∷ s) epe = do hdop ← stod (c ∷ s); some (with_hdop hdop epe)

  -- A coordinate with the letter that negates it.
  abbrev pub signed : Bytes → Bytes → Double → Double
  signed letter negative x = if letter ≟ negative then negate x else x

  abbrev pub longitude_of : Bytes → Option Double
  longitude_of [] = some zero_double
  longitude_of (c ∷ s) = nmea_to_float (c ∷ s)

  -- nmeaToFix after the test of `m[2]`.
  unfoldable pub filled_fix : List Bytes → ℕ → Option NavSatFix
  unfolding quality nmea_to_float number position_covariance_of
  filled_fix m now = do
    (status, epe, kind) ← quality (capture m 6)
    latitude ← nmea_to_float (capture m 2)
    longitude ← longitude_of (capture m 4)
    altitude ← number (capture m 9)
    cov ← position_covariance_of (capture m 8) epe
    some (record {
      frame_id = codes "gps";
      seconds = now;
      status = status;
      service = 0;
      position_covariance_type = kind;
      latitude = signed (capture m 3) (codes "S") latitude;
      longitude = signed (capture m 5) (codes "W") longitude;
      altitude = altitude;
      position_covariance = cov;
    })

  unfoldable pub nmea_to_fix : List Bytes → ℕ → Option NavSatFix
  unfolding filled_fix
  nmea_to_fix m now =
      let filled = filled_fix m now in
      elim (capture m 2) [ [] ↦ some (empty_fix now) | _ ∷ _ ↦ filled ]

  unfoldable pub count : Bytes → Option ℕ
  count [] = some 0
  count (c ∷ s) = do x ← stod (c ∷ s); some (to_uint32 x)

  abbrev pub state_of : Bytes → ℕ
  state_of [] = 0
  state_of (c ∷ s) = strtol16 (c ∷ s)

  unfoldable pub read_gpfpd : Bytes → List Bytes → ℕ → Option Numbers
  unfolding all_numbers count
  read_gpfpd candidate m now = do
    numbers ← all_numbers (
        capture m 3
        ∷ capture m 4
        ∷ capture m 5
        ∷ capture m 6
        ∷ capture m 7
        ∷ capture m 8
        ∷ capture m 9
        ∷ capture m 10
        ∷ capture m 11
        ∷ capture m 12
        ∷ [])
    nsv1 ← count (capture m 13)
    nsv2 ← count (capture m 14)
    some (record {
      frame_id = codes "gpfpd";
      seconds = now;
      sentence = candidate;
      numbers = numbers;
      counts = nsv1 ∷ nsv2 ∷ state_of (capture m 15) ∷ [];
    })

  unfoldable pub read_gtimu : Bytes → List Bytes → ℕ → Option Numbers
  unfolding all_numbers
  read_gtimu candidate m now = do
    numbers ← all_numbers (
        capture m 3
        ∷ capture m 4
        ∷ capture m 5
        ∷ capture m 6
        ∷ capture m 7
        ∷ capture m 8
        ∷ capture m 9
        ∷ [])
    some (record {
      frame_id = codes "gtimu";
      seconds = now;
      sentence = candidate;
      numbers = numbers;
      counts = [];
    })

  unfoldable pub read_gnvtg : Bytes → List Bytes → ℕ → Option Gnvtg
  unfolding number
  read_gnvtg candidate m now = do
    heading1 ← number (capture m 1)
    heading2 ← number (capture m 3)
    speed1 ← number (capture m 5)
    speed2 ← number (capture m 7)
    some (record {
      seconds = now;
      sentence = candidate;
      heading1 = heading1;
      heading2 = heading2;
      speed1 = speed1;
      speed2 = speed2;
      status = capture m 8;
    })

  -- An exception is caught, and then nothing is returned.
  abbrev pub caught : {A : Type 0} → (A → Reading) → Option A → Reading
  caught kind none = nothing
  caught kind (some message) = kind message

  unfoldable pub get_gps_msg : Bytes → ℕ → Reading
  unfolding search_gga search_after nmea_to_fix read_gpfpd read_gtimu read_gnvtg
  get_gps_msg [] now = nothing
  get_gps_msg (c ∷ s) now = elim (search_gga (c ∷ s)) [
    | some m ↦ caught fix (nmea_to_fix m now)
    | none ↦ elim (search_after (codes "$GPFPD,") 14 (c ∷ s)) [
      | some m ↦ caught gpfpd (read_gpfpd (c ∷ s) m now)
      | none ↦ elim (search_after (codes "$GTIMU,") 8 (c ∷ s)) [
        | some m ↦ caught gtimu (read_gtimu (c ∷ s) m now)
        | none ↦ elim (search_after (codes "$GPVTG,") 8 (c ∷ s)) [
          | some m ↦ caught gnvtg (read_gnvtg (c ∷ s) m now)
          | none ↦ nothing
        ]
      ]
    ]
  ]

  pub record DgpsNode : Type 0 where
    -- `g_nmea`
    pub nmea : Bytes
    pub published : List Reading

  abbrev pub publish_reading : Reading → List Reading → List Reading
  publish_reading nothing out = out
  publish_reading (fix x) out = out ++ fix x ∷ []
  publish_reading (gpfpd x) out = out ++ gpfpd x ∷ []
  publish_reading (gtimu x) out = out ++ gtimu x ∷ []
  publish_reading (gnvtg x) out = out ++ gnvtg x ∷ []

  unfoldable pub timer_callback : ℕ → DgpsNode → DgpsNode
  unfolding get_nmea get_gps_msg
  timer_callback now n =
      let (candidate, left) = get_nmea n.nmea in
      record { nmea = left; published = publish_reading (get_gps_msg candidate now) n.published }
