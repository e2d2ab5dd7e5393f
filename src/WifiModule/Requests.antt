-- ===== src/WifiModule/Requests.antt =====
-- The requests that ins-node/src/wifi_module/wifi_module.ino sends.
use indoor_navigation_system.Base.{
  ℕ, zero, suc, ◌+◌, ◌-◌, ◌*◌, ◌≡◌, ◌≤◌, ◌<◌, refl, true, List, [], ◌∷◌, length, take, drop,
  replicate, arith, ap, ◌∙◌,
}
use indoor_navigation_system.WifiModule.{
  Network, Datapoint, Link, get_datapoints, request_text, transmit_data, transmissions,
  transmission_data, transmit_all, loop,
}

-- A link that connects and answers.
abbrev pub IsGood : Link → Type 0
IsGood link = (link.connects ≡ true) × (link.answers ≡ true)

transmit_all-replicate :
    (links : ℕ → Link) (d : Datapoint) (ds : List Datapoint) (i rounds : ℕ)
    → ((j : ℕ) → IsGood (links j))
    → transmit_all links (d ∷ ds) i rounds ≡ replicate rounds (request_text (d ∷ ds))
unfolding transmit_all transmit_data replicate
transmit_all-replicate links d ds i zero good = refl
transmit_all-replicate links d ds i (suc rounds) good =
    rw ((good i).0, (good i).1)
      (ap (◌∷◌ (request_text (d ∷ ds))) (transmit_all-replicate links d ds (i + 1) rounds good))

-- If every connection is made and answered, the module sends one and the same request, with all that
-- it measured, once for each group of ten.
pub loop-replicate :
    (links : ℕ → Link) (networks : List Network) {d : Datapoint} {ds : List Datapoint}
    → ((j : ℕ) → IsGood (links j))
    → get_datapoints networks ≡ d ∷ ds
    → loop links networks ≡ replicate (transmissions (length (d ∷ ds))) (request_text (d ∷ ds))
unfolding loop
loop-replicate links networks {d} {ds} good e =
    rw e (transmit_all-replicate links d ds 0 (transmissions (length (d ∷ ds))) good)

length-take : {A : Type 0} (n : ℕ) (xs : List A) → n ≤ length xs → length (take n xs) ≡ n
length-take zero xs h = refl
length-take (suc n) [] h = ground arith
length-take (suc n) (x ∷ xs) h = ap suc (length-take n xs (omega arith))

length-drop : {A : Type 0} (n : ℕ) (xs : List A) → length (drop n xs) ≡ length xs - n
length-drop zero xs = omega arith
length-drop (suc n) [] = omega arith
length-drop (suc n) (x ∷ xs) = length-drop n xs ∙ omega arith

-- Of up to 2550 datapoints in groups of ten, `transmissionData` holds in every round as many as the
-- last group has, also in the rounds before the last.
pub length-transmission_data :
    (datapoints : List Datapoint) (rounds i : ℕ)
    → i < rounds
    → rounds ≡ transmissions (length datapoints)
    → length datapoints ≤ 2550
    → length (transmission_data datapoints rounds i) ≡ length datapoints - (rounds - 1) * 10
unfolding transmission_data transmissions
length-transmission_data datapoints rounds i l e short =
    length-take _ (drop (i * 10) datapoints) (omega (arith, length-drop (i * 10) datapoints, e))
    ∙ omega (arith, e)
