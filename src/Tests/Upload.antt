-- ===== src/Tests/Upload.antt =====
-- A request of ins-node/src/wifi_module/wifi_module.ino, read by server/src/ins_service.cpp through
-- a router that splits the path at its slashes.
use indoor_navigation_system.WifiModule.{
  get_network_context, Datapoint, Network, Link, get_datapoints, request_text, loop,
}
use mathlib.Core.Option
use mathlib.Core.List.{append_assoc, append-nil}
use indoor_navigation_system.Base.{
  ℕ, zero, suc, ◌+◌, ◌*◌, ◌-◌, ◌≤◌, ◌<◌, ◌≡◌, ◌≢◌, refl, ap, ◌∙◌, subst, ℤ, pos, negsuc, print_ℤ,
  Text, codes, decimal, value, sym, ◌>>=◌, IsNumeral, decimal-IsNumeral, value-decimal, Option,
  none, some, List, [], ◌∷◌, ◌++◌, map, get_elem?, drop, All, arith, Bool, true, false, ◌==◌, ◌&&◌,
  text_eq, inl, inr, Bool-cases, if◌then◌else◌,
}
use indoor_navigation_system.Service.{Request, all_readings}
use indoor_navigation_system.Service.Upload.{IsSegment, IsRouter, IsMeasured, joined, reading_of}
use indoor_navigation_system.Service.Upload.RoundTrip.{loop-all_readings}

-- The segments of a path up to a space, with what is read of the first.
abbrev split_path : Text → Text → List Text
split_path read [] = []
split_path read (c ∷ t) = elim (c == b'/') [
  | true ↦ read ∷ split_path [] t
  | false ↦ elim (c == b' ') [ true ↦ [] | false ↦ split_path (read ++ (c ∷ [])) t ]
]

split_path-segment :
    (read t rest : Text)
    → All (λ c. (c ≢ b'/') × (c ≢ b' ')) t
    → split_path read (t ++ (codes "/" ++ rest)) ≡ (read ++ t) ∷ split_path [] rest
split_path-segment read [] rest clean = ap (λ r. r ∷ split_path [] rest) (sym (append-nil read))
split_path-segment read (c ∷ t) rest ((slash, space), clean) =
    let no_slash : (c == b'/') ≡ false = ground (arith, slash) in
    let no_space : (c == b' ') ≡ false = ground (arith, space) in
    rw (split_path, no_slash, no_space)
      (split_path-segment (read ++ (c ∷ [])) t rest clean
        ∙ ap (λ r. r ∷ split_path [] rest) (append_assoc read (c ∷ []) t))

split_path-joined :
    (segments : List Text) (rest : Text)
    → All IsSegment segments
    → split_path [] (joined segments ++ (codes " HTTP/1.1" ++ rest)) ≡ segments
split_path-joined [] rest clean = refl
split_path-joined (t ∷ ts) rest (clean, others) =
    let behind = codes " HTTP/1.1" ++ rest in
    ap (split_path []) (append_assoc t (codes "/" ++ joined ts) behind)
    ∙ split_path-segment [] t (joined ts ++ behind) clean.1
    ∙ ap (◌∷◌ t) (split_path-joined ts rest others)

abbrev number_of : Text → Option ℤ
number_of [] = none
number_of (c ∷ t) = some (if c == b'-' then negsuc (value 0 t - 1) else pos (value 0 (c ∷ t)))

number_of-IsNumeral : (t : Text) → IsNumeral t → number_of t ≡ some (pos (value 0 t))
number_of-IsNumeral [] n = absurd (n.0 refl)
number_of-IsNumeral (c ∷ t) n = let e : (c == b'-') ≡ false = ground (arith, n.1.0) in rw e refl

number_of-print_ℤ : (r : ℤ) → number_of (print_ℤ r) ≡ some r
unfolding print_ℤ
number_of-print_ℤ (pos n) =
    number_of-IsNumeral (decimal n) (decimal-IsNumeral n) ∙ ap (λ k. some (pos k)) (value-decimal n)
number_of-print_ℤ (negsuc n) =
    rw (value-decimal (suc n)) (let e : suc n - 1 ≡ n = omega arith in ap (λ k. some (negsuc k)) e)

abbrev names_from : ℕ → ℕ → List Text
names_from i zero = []
names_from i (suc rounds) =
    (codes ":mac_addr" ++ decimal i) ∷ (codes ":rssi" ++ decimal i) ∷ names_from (i + 1) rounds

-- The parameters of the route, each with the place of its segment.
abbrev names : List Text
names = codes ":device_id" ∷ names_from 1 10

abbrev place_of : List Text → Text → Option ℕ
place_of [] key = none
place_of (t ∷ ts) key = if text_eq t key then some 0 else Option.map suc (place_of ts key)

abbrev receive : Text → Request
receive sent = record {
  param = λ key. place_of names key >>= get_elem? (split_path [] (drop 15 sent));
  as_int = number_of;
}

abbrev is_place : Option ℕ → ℕ → Bool
is_place none n = false
is_place (some k) n = k == n

eq_some-of_is_place : (o : Option ℕ) (n : ℕ) → is_place o n ≡ true → o ≡ some n
eq_some-of_is_place none n h = cc
eq_some-of_is_place (some k) n h = ap (λ j. some j) (ground arith)

abbrev all_below : ℕ → (ℕ → Bool) → Bool
all_below zero f = true
all_below (suc n) f = f n && all_below n f

all_below-at : (n : ℕ) (f : ℕ → Bool) (i : ℕ) → all_below n f ≡ true → i < n → f i ≡ true
all_below-at zero f i h l = elim l [ ]
all_below-at (suc n) f i h l =
    let (last, before) = and_parts (f n) (all_below n f) h in
    elim (Bool-cases (i == n)) [
      | inl same ↦ subst (λ k. f k ≡ true) (ground (arith, same)) last
      | inr other ↦ all_below-at n f i before (ground (arith, other, l))
    ]
  where
    and_parts : (a b : Bool) → (a && b) ≡ true → (a ≡ true) × (b ≡ true)
    and_parts true b h = (refl, h)
    and_parts false b h = cc

addresses :
    all_below 10 (λ i. is_place (place_of names (codes ":mac_addr" ++ decimal (i + 1))) (2 * i + 1))
    ≡ true
unfolding decimal text_eq
addresses = refl

strengths :
    all_below 10 (λ i. is_place (place_of names (codes ":rssi" ++ decimal (i + 1))) (2 * i + 2))
    ≡ true
unfolding decimal text_eq
strengths = refl

device_place : place_of names (codes ":device_id") ≡ some 0
unfolding text_eq
device_place = refl

receive-get_elem? :
    (segments : List Text) (rest key : Text) (n : ℕ)
    → All IsSegment segments
    → place_of names key ≡ some n
    → (receive (codes "POST /set_rssi/" ++ (joined segments ++ (codes " HTTP/1.1" ++ rest)))).param
        key
      ≡ get_elem? segments n
receive-get_elem? segments rest key n clean e =
    ap
      (λ (o : Option ℕ).
        o >>= get_elem? (split_path [] (joined segments ++ (codes " HTTP/1.1" ++ rest))))
      e
    ∙ ap (λ s. get_elem? s n) (split_path-joined segments rest clean)

receive-IsRouter : IsRouter receive
receive-IsRouter = record {
  device = λ segments rest path. receive-get_elem? segments rest _ 0 path.0 device_place;
  address = λ segments rest path i l. receive-get_elem? segments rest _ (2 * i + 1) path.0 (
      eq_some-of_is_place _ _ (
        all_below-at 10
          (λ i. is_place (place_of names (codes ":mac_addr" ++ decimal (i + 1))) (2 * i + 1)) i
          addresses l));
  strength = λ segments rest path i l. receive-get_elem? segments rest _ (2 * i + 2) path.0 (
      eq_some-of_is_place _ _ (
        all_below-at 10
          (λ i. is_place (place_of names (codes ":rssi" ++ decimal (i + 1))) (2 * i + 2)) i
          strengths l));
  converts = λ sent r h. number_of-print_ℤ r;
}

abbrev networks : List Network
networks =
    record { ssid = codes "SSID-a"; bssid = codes "aa"; rssi = negsuc 49 }
    ∷ record { ssid = codes "guest"; bssid = codes "bb"; rssi = negsuc 39 }
    ∷ record { ssid = codes "SSID-b"; bssid = codes "cc"; rssi = negsuc 69 }
    ∷ []

abbrev heard : List Datapoint
heard = (codes "aa", negsuc 49) ∷ (codes "cc", negsuc 69) ∷ []

networks-heard : get_datapoints networks ≡ heard
unfolding get_datapoints get_network_context text_eq
networks-heard = refl

letter-IsClean : (c : ℕ) → 65 ≤ c → (c ≢ b'/') × (c ≢ b' ')
letter-IsClean c h = (λ e. omega (arith, e, h), λ e. omega (arith, e, h))

heard-IsMeasured : All IsMeasured heard
heard-IsMeasured =
    let a = letter-IsClean b'a' (omega arith) in
    let c = letter-IsClean b'c' (omega arith) in
    (((λ e. cc, (a, (a, tt))), omega arith), (((λ e. cc, (c, (c, tt))), omega arith), tt))

abbrev link : Link
link = record { connects = true; answers = false }

loop-all_readings_example :
    let sent = request_text heard in
    (loop (λ i. link) networks ≡ (if link.connects then sent ∷ [] else []))
    × ((receive sent).param (codes ":device_id") ≡ some (codes "1"))
    × (all_readings (receive sent) ≡ some (map reading_of heard))
loop-all_readings_example =
    loop-all_readings receive receive-IsRouter (λ i. link) networks networks-heard heard-IsMeasured
      (omega arith)
