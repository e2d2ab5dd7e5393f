-- ===== src/Service/Upload/Segments.antt =====
-- The segments of the path that ins-node/src/wifi_module/wifi_module.ino writes.
use mathlib.Core.Option
use indoor_navigation_system.Base.{
  All-implies, decimal-IsNumeral, ℕ, zero, suc, ◌+◌, ◌*◌, ◌≤◌, ◌≡◌, ◌≢◌, refl, ap, ◌∙◌, ℤ, pos,
  negsuc, print_ℤ, decimal, List, [], ◌∷◌, length, get_elem?, All, arith,
}
use indoor_navigation_system.WifiModule.{Datapoint, datapoints_path}
use indoor_navigation_system.Service.Upload.{IsSegment, joined, IsMeasured, segments_of}

IsClean-of_digit : (c : ℕ) → b'0' ≤ c → (c ≢ b'/') × (c ≢ b' ')
IsClean-of_digit c h = (λ e. omega (arith, e, h), λ e. omega (arith, e, h))

print_ℤ-IsSegment : (r : ℤ) → IsSegment (print_ℤ r)
unfolding print_ℤ
print_ℤ-IsSegment (pos n) =
    ((decimal-IsNumeral n).0, All-implies IsClean-of_digit (decimal n) (decimal-IsNumeral n).1)
print_ℤ-IsSegment (negsuc n) = (
  λ e. cc,
  (
    (λ e. omega (arith, e), λ e. omega (arith, e)),
    All-implies IsClean-of_digit (decimal (suc n)) (decimal-IsNumeral (suc n)).1,
  ),
)

pub segments_of-IsSegment :
    (ds : List Datapoint) → All IsMeasured ds → All IsSegment (segments_of ds)
segments_of-IsSegment [] h = tt
segments_of-IsSegment ((mac, rssi) ∷ ds) (h, hs) =
    (h.0, (print_ℤ-IsSegment rssi, segments_of-IsSegment ds hs))

pub length-segments_of : (ds : List Datapoint) → length (segments_of ds) ≡ 2 * length ds
length-segments_of [] = refl
length-segments_of (d ∷ ds) = omega (arith, length-segments_of ds)

pub datapoints_path-joined : (ds : List Datapoint) → datapoints_path ds ≡ joined (segments_of ds)
unfolding datapoints_path
datapoints_path-joined [] = refl
datapoints_path-joined ((mac, rssi) ∷ ds) = rw (datapoints_path-joined ds) refl

pub get_elem?-segments_of :
    (ds : List Datapoint) (i : ℕ)
    → (get_elem? (segments_of ds) (2 * i) ≡ Option.map (λ (d : Datapoint). d.0) (get_elem? ds i))
      × (get_elem? (segments_of ds) (2 * i + 1)
          ≡ Option.map (λ (d : Datapoint). print_ℤ d.1) (get_elem? ds i))
get_elem?-segments_of [] i = (refl, refl)
get_elem?-segments_of (d ∷ ds) zero = (refl, refl)
get_elem?-segments_of (d ∷ ds) (suc i) =
    let even : 2 * suc i ≡ suc (suc (2 * i)) = omega arith in
    let odd : 2 * suc i + 1 ≡ suc (suc (2 * i + 1)) = omega arith in
    let (macs, strengths) = get_elem?-segments_of ds i in
    let all = d.0 ∷ print_ℤ d.1 ∷ segments_of ds in
    (ap (get_elem? all) even ∙ macs, ap (get_elem? all) odd ∙ strengths)
