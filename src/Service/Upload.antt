-- ===== src/Service/Upload.antt =====
-- From a scan to the readings of a request: ins-node/src/wifi_module/wifi_module.ino writes the
-- request that `SetReceivedSignalStrengths` of server/src/ins_service.cpp reads. What Pistache makes
-- of the bytes is a parameter, with what its documentation says of a route's parameters.
pub mod Segments
pub mod RoundTrip
use indoor_navigation_system.WifiModule.{
  transmissions, transmit_data, transmit_all, line_end, Datapoint, Network, Link, get_datapoints,
  datapoints_path, request_text, loop,
}
use native.Mathlib.Numerals.{add-one}
use indoor_navigation_system.Base.{
  true, false, All-implies, decimal-IsNumeral, ℕ, zero, suc, ◌+◌, ◌*◌, ◌≤◌, ◌<◌, ◌≡◌, ◌≢◌, refl, ap,
  ◌∙◌, subst, ℤ, pos, negsuc, print_ℤ, Text, codes, decimal, Option, none, some, List, [], ◌∷◌,
  ◌++◌, map, length, get_elem?, All, arith, if◌then◌else◌,
}
use indoor_navigation_system.Service.{has_param, Request, read_reading, read_readings, all_readings}
use mathlib.Core.Option
use indoor_navigation_system.DataStore.{AccessPoint, AccessPointRssi}

-- A segment of a path.
abbrev pub IsSegment : Text → Type 0
IsSegment t = (t ≢ []) × All (λ c. (c ≢ b'/') × (c ≢ b' ')) t

-- Segments with a slash behind each.
abbrev pub joined : List Text → Text
joined [] = []
joined (t ∷ ts) = t ++ (codes "/" ++ joined ts)

abbrev pub IsInt32 : ℤ → Type 0
IsInt32 (pos n) = n < 2147483648
IsInt32 (negsuc n) = n < 2147483648

-- Segments enough for the parameters of the route of `set_rssi` that must be there, and not too many.
abbrev pub IsPath : List Text → Type 0
IsPath segments = All IsSegment segments × (3 ≤ length segments) × (length segments ≤ 21)

-- The bytes of a request for the route.
abbrev pub post : List Text → Text → Text
post segments rest = codes "POST /set_rssi/" ++ (joined segments ++ (codes " HTTP/1.1" ++ rest))

-- What Pistache documents: the segments of a path that matches the route are the values of its
-- parameters, in order, the optional ones being absent where the path ends; and a text of an
-- `int32_t` is converted to it.
pub record IsRouter (receive : Text → Request) : Type 0 where
  pub device :
      (segments : List Text) (rest : Text)
      → IsPath segments
      → (receive (post segments rest)).param (codes ":device_id") ≡ get_elem? segments 0
  pub address :
      (segments : List Text) (rest : Text)
      → IsPath segments
      → (i : ℕ) → i < 10
      → (receive (post segments rest)).param (codes ":mac_addr" ++ decimal (i + 1))
        ≡ get_elem? segments (2 * i + 1)
  pub strength :
      (segments : List Text) (rest : Text)
      → IsPath segments
      → (i : ℕ) → i < 10
      → (receive (post segments rest)).param (codes ":rssi" ++ decimal (i + 1))
        ≡ get_elem? segments (2 * i + 2)
  pub converts : (sent : Text) (r : ℤ) → IsInt32 r → (receive sent).as_int (print_ℤ r) ≡ some r

abbrev pub IsMeasured : Datapoint → Type 0
IsMeasured (mac, rssi) = IsSegment mac × IsInt32 rssi

abbrev pub reading_of : Datapoint → AccessPointRssi
reading_of (mac, rssi) = (record { mac_addr = mac }, rssi)

-- The segments that the module writes for its datapoints.
abbrev pub segments_of : List Datapoint → List Text
segments_of [] = []
segments_of ((mac, rssi) ∷ ds) = mac ∷ print_ℤ rssi ∷ segments_of ds
