-- ===== src/Service/Upload/RoundTrip.antt =====
-- What server/src/ins_service.cpp reads from a request of ins-node/src/wifi_module/wifi_module.ino.
use indoor_navigation_system.WifiModule.{
  transmissions, transmit_data, transmit_all, line_end, Datapoint, Network, Link, get_datapoints,
  request_text, loop,
}
use native.Mathlib.Numerals.{add-one}
use indoor_navigation_system.Service.{has_param, Request, read_reading, read_readings, all_readings}
use mathlib.Core.Option
use indoor_navigation_system.Base.{
  All-implies, ℕ, zero, suc, ◌+◌, ◌*◌, ◌≤◌, ◌<◌, ◌≡◌, refl, ap, ◌∙◌, subst, print_ℤ, Text, codes,
  decimal, Option, none, some, List, [], ◌∷◌, ◌++◌, map, length, get_elem?, All, arith,
  if◌then◌else◌,
}
use indoor_navigation_system.Service.Upload.{
  IsSegment, joined, IsRouter, IsMeasured, reading_of, segments_of,
}
use indoor_navigation_system.Service.Upload.Segments.{
  segments_of-IsSegment, length-segments_of, datapoints_path-joined, get_elem?-segments_of,
}

-- The parameters of number `n` are those of a datapoint, or are absent.
abbrev IsBound : Request → ℕ → Option Datapoint → Type 0
IsBound request n d =
    (request.param (codes ":mac_addr" ++ decimal n) ≡ Option.map (λ (d : Datapoint). d.0) d)
    × (request.param (codes ":rssi" ++ decimal n) ≡ Option.map (λ (d : Datapoint). print_ℤ d.1) d)

abbrev IsConverted : Request → Datapoint → Type 0
IsConverted request d = request.as_int (print_ℤ d.1) ≡ some d.1

read_reading-bound :
    (request : Request) (n : ℕ) (d : Datapoint)
    → IsBound request n (some d)
    → IsConverted request d
    → read_reading request n ≡ some (reading_of d)
unfolding read_reading
read_reading-bound request n d bound int = rw (bound.0, bound.1, int) refl

-- From number `i` on, with the rounds left, the parameters of a request are those of the datapoints.
read_readings-map :
    (request : Request) (ds : List Datapoint) (i rounds : ℕ)
    → length ds ≤ rounds
    → ((j : ℕ) → j < rounds → IsBound request (i + j) (get_elem? ds j))
    → All (IsConverted request) ds
    → read_readings request i rounds ≡ some (map reading_of ds)
unfolding read_readings
read_readings-map request [] i zero fits bound ints = refl
read_readings-map request [] i (suc rounds) fits bound ints =
    let here : IsBound request i none =
      subst (λ n. IsBound request n none) (omega arith) (bound 0 (omega arith)) in
    rw (has_param, here.0) refl
read_readings-map request (d ∷ ds) i zero fits bound ints = elim fits [ ]
read_readings-map request (d ∷ ds) i (suc rounds) fits bound (int, ints) =
    let here : IsBound request i (some d) =
      subst (λ n. IsBound request n (some d)) (omega arith) (bound 0 (omega arith)) in
    let rest =
      read_readings-map request ds (i + 1) rounds (omega arith)
        (λ j l.
          subst (λ n. IsBound request n (get_elem? ds j)) (omega arith)
            (bound (suc j) (omega arith)))
        ints in
    rw (has_param, here.0, here.1, int, rest) refl

-- What the module writes behind the path and ` HTTP/1.1`.
abbrev headers : Text
headers =
    line_end
    ++ (codes "Host: 192.168.0.2"
        ++ (line_end ++ (codes "Connection: close" ++ (line_end ++ line_end))))

request_text-joined :
    (ds : List Datapoint)
    → request_text ds
      ≡ codes "POST /set_rssi/"
        ++ (joined (codes "1" ∷ segments_of ds) ++ (codes " HTTP/1.1" ++ headers))
unfolding request_text
request_text-joined ds = rw (datapoints_path-joined ds) refl

transmit_all-once :
    (links : ℕ → Link) (d : Datapoint) (ds : List Datapoint)
    → transmit_all links (d ∷ ds) 0 1
      ≡ (if (links 0).connects then request_text (d ∷ ds) ∷ [] else [])
unfolding transmit_all transmit_data
transmit_all-once links d ds = ground arith

loop-once :
    (links : ℕ → Link) (networks : List Network) {d : Datapoint} {ds : List Datapoint}
    → get_datapoints networks ≡ d ∷ ds
    → length (d ∷ ds) ≤ 10
    → loop links networks ≡ (if (links 0).connects then request_text (d ∷ ds) ∷ [] else [])
unfolding loop
loop-once links networks {d} {ds} e fits =
    let once : transmissions (length (d ∷ ds)) ≡ 1 = unfold transmissions in omega arith in
    rw (e, once) (transmit_all-once links d ds)

module _ (receive : Text → Request) (router : IsRouter receive) where
  request_text-IsBound :
      (ds : List Datapoint)
      → All IsMeasured ds
      → 1 ≤ length ds
      → length ds ≤ 10
      → ((receive (request_text ds)).param (codes ":device_id") ≡ some (codes "1"))
        × ((i : ℕ) → i < 10 → IsBound (receive (request_text ds)) (i + 1) (get_elem? ds i))
  request_text-IsBound ds measured more fits = rw (request_text-joined ds) (
    router.device all headers (clean, three, short),
    λ i l. (
      router.address all headers (clean, three, short) i l
          ∙ get_elem?-odd i
          ∙ (get_elem?-segments_of ds i).0,
      router.strength all headers (clean, three, short) i l
          ∙ get_elem?-even i
          ∙ (get_elem?-segments_of ds i).1,
    ),
  )
    where
      all : List Text
      all = codes "1" ∷ segments_of ds

      clean : All IsSegment all
      clean = (
        (λ e. cc, ((λ e. omega (arith, e), λ e. omega (arith, e)), tt)),
        segments_of-IsSegment ds measured,
      )

      three : 3 ≤ length all
      three = omega (arith, length-segments_of ds)

      short : length all ≤ 21
      short = omega (arith, length-segments_of ds)

      get_elem?-odd : (i : ℕ) → get_elem? all (2 * i + 1) ≡ get_elem? (segments_of ds) (2 * i)
      get_elem?-odd i = ap (get_elem? all) (add-one (2 * i))

      get_elem?-even : (i : ℕ) → get_elem? all (2 * i + 2) ≡ get_elem? (segments_of ds) (2 * i + 1)
      get_elem?-even i = let e : 2 * i + 2 ≡ suc (2 * i + 1) = omega arith in ap (get_elem? all) e

  -- The server reads from a request of the module what the module measured.
  all_readings-request_text :
      (d : Datapoint) (ds : List Datapoint)
      → All IsMeasured (d ∷ ds)
      → length (d ∷ ds) ≤ 10
      → ((receive (request_text (d ∷ ds))).param (codes ":device_id") ≡ some (codes "1"))
        × (all_readings (receive (request_text (d ∷ ds))) ≡ some (map reading_of (d ∷ ds)))
  unfolding all_readings
  all_readings-request_text d ds measured fits =
      let sent = request_text (d ∷ ds) in
      let request = receive sent in
      let (device, bound) = request_text-IsBound (d ∷ ds) measured (omega arith) fits in
      let (int, ints) : All (IsConverted request) (d ∷ ds) =
        All-implies (λ d h. router.converts sent d.1 h.1) (d ∷ ds) measured in
      let first = read_reading-bound request 1 d (bound 0 (omega arith)) int in
      let others =
        read_readings-map request ds 2 9 (omega arith)
          (λ j l.
            subst (λ n. IsBound request n (get_elem? ds j)) (omega arith)
              (bound (suc j) (omega arith)))
          ints in
      (device, rw (first, others) refl)

  -- If Pistache binds the segments of a path to the parameters of the route and converts the text
  -- of an `int32_t`, a module that hears one to ten access points, whose addresses are segments
  -- and whose strengths are values of `int32_t`, sends one request if its first connection is made
  -- and none if not; the server reads from that request the device number and exactly what the
  -- module measured, in order.
  pub loop-all_readings :
      (links : ℕ → Link) (networks : List Network) {d : Datapoint} {ds : List Datapoint}
      → get_datapoints networks ≡ d ∷ ds
      → All IsMeasured (d ∷ ds)
      → length (d ∷ ds) ≤ 10
      → let sent = request_text (d ∷ ds) in
        (loop links networks ≡ (if (links 0).connects then sent ∷ [] else []))
        × ((receive sent).param (codes ":device_id") ≡ some (codes "1"))
        × (all_readings (receive sent) ≡ some (map reading_of (d ∷ ds)))
  loop-all_readings links networks e measured fits =
      let (device, readings) = all_readings-request_text _ _ measured fits in
      (loop-once links networks e fits, device, readings)
