-- ===== src/WifiModule/Connection.antt =====
-- How `setup` of ins-node/src/wifi_module/wifi_module.ino ends.
use mathlib.Core.List.{append-nil}
use indoor_navigation_system.Base.{
  ◌∙◌, ap, ℕ, zero, suc, ◌≤◌, ◌<◌, ◌≡◌, refl, Bool, true, false, List, [], ◌∷◌, ◌++◌, replicate,
  arith, subst, sym, ◌==◌, if◌then◌else◌, Bool-cases, inl, inr, ◌⊎◌,
}
use indoor_navigation_system.WifiModule.Power.{
  Action, go_to_sleep, wait_for_connection, begin_setup, setup,
}

-- The connection stands at read `k` and not before, or at none of the attempts.
abbrev IsWait : (ℕ → Bool) → ℕ → List Action × ℕ → Type 0
IsWait status n r =
    ((k : ℕ) × (k ≤ n)
      × (status k ≡ true)
      × ((j : ℕ) → j < k → status j ≡ false)
      × (0 < r.1)
      × (r.0 ≡ replicate k (Action.delay 500)))
    ⊎ (((j : ℕ) → j ≤ n → status j ≡ false) × (r.1 ≡ 0) × (r.0 ≡ replicate n (Action.delay 500)))

IsWait-at_once :
    (status : ℕ → Bool) (n left : ℕ) → status 0 ≡ true → 0 < left → IsWait status n ([], left)
unfolding replicate
IsWait-at_once status n left up more = inl (0, omega arith, up, λ j l. elim l [ ], more, refl)

IsWait-later :
    (status : ℕ → Bool) (n : ℕ) (r : List Action × ℕ)
    → status 0 ≡ false
    → IsWait (λ i. status (suc i)) n r
    → IsWait status (suc n) (Action.delay 500 ∷ r.0, r.1)
unfolding replicate
IsWait-later status n r down (inl (k, fits, up, before, more, same)) =
    inl (suc k, omega arith, up, earlier, more, ap (◌∷◌ (Action.delay 500)) same)
  where
    earlier : (j : ℕ) → j < suc k → status j ≡ false
    earlier zero l = down
    earlier (suc j) l = before j (omega arith)
IsWait-later status n r down (inr (before, none_left, same)) =
    inr (earlier, none_left, ap (◌∷◌ (Action.delay 500)) same)
  where
    earlier : (j : ℕ) → j ≤ suc n → status j ≡ false
    earlier zero l = down
    earlier (suc j) l = before j (omega arith)

if-false-false :
    {A : Type 0} (b c : Bool) (x y z : A)
    → b ≡ false
    → c ≡ false
    → (if b then x else if c then y else z) ≡ z
if-false-false false false x y z e f = refl
if-false-false true c x y z e f = cc
if-false-false false true x y z e f = cc

wait_for_connection-later :
    (status : ℕ → Bool) (n : ℕ)
    → status 0 ≡ false
    → let r = wait_for_connection (λ i. status (suc i)) (suc n) in
      wait_for_connection status (suc (suc n)) ≡ (Action.delay 500 ∷ r.0, r.1)
unfolding wait_for_connection
wait_for_connection-later status n down =
    if-false-false (status 0) (suc n == 0) _ _ _ down (ground arith)

wait_for_connection-IsWait :
    (status : ℕ → Bool) (n : ℕ) → IsWait status n (wait_for_connection status (suc n))
unfolding wait_for_connection replicate
wait_for_connection-IsWait status zero = elim (Bool-cases (status 0)) [
  | inl up ↦ rw up (IsWait-at_once status 0 1 up (omega arith))
  | inr down ↦ rw down (inr (λ j l. ap status (omega arith) ∙ down, refl, refl))
]
wait_for_connection-IsWait status (suc n) = elim (Bool-cases (status 0)) [
  | inl up ↦ rw up (IsWait-at_once status (suc n) (suc (suc n)) up (omega arith))
  | inr down ↦ subst (IsWait status (suc n)) (sym (wait_for_connection-later status n down)) (
      IsWait-later status n (wait_for_connection (λ i. status (suc i)) (suc n)) down
        (wait_for_connection-IsWait (λ i. status (suc i)) n))
]

-- What follows the wait.
abbrev ending : List Action × ℕ → List Action
ending (delays, attempts_left) =
    begin_setup ++ (delays ++ (if attempts_left == 0 then go_to_sleep else []))

ending-connected :
    (delays waits : List Action) (left : ℕ)
    → 0 < left
    → delays ≡ waits
    → ending (delays, left) ≡ begin_setup ++ waits
ending-connected delays waits left more same =
    let e : (left == 0) ≡ false = ground arith in
    rw (e, same) (ap (λ w. begin_setup ++ w) (append-nil waits))

ending-asleep :
    (delays waits : List Action) (left : ℕ)
    → left ≡ 0
    → delays ≡ waits
    → ending (delays, left) ≡ begin_setup ++ (waits ++ go_to_sleep)
ending-asleep delays waits left none_left same = rw (none_left, same) refl

-- If one of the first twenty reads of the status finds the module connected, `setup` waits half a
-- second for each read before it and goes on; if none does, it waits 19 times and goes to sleep.
pub setup_connects_or_sleeps :
    (status : ℕ → Bool)
    → ((k : ℕ) × (k < 20)
        × (status k ≡ true)
        × ((j : ℕ) → j < k → status j ≡ false)
        × (setup status ≡ begin_setup ++ replicate k (Action.delay 500)))
      ⊎ (((j : ℕ) → j < 20 → status j ≡ false)
          × (setup status ≡ begin_setup ++ (replicate 19 (Action.delay 500) ++ go_to_sleep)))
unfolding setup
setup_connects_or_sleeps status =
    let (delays, left) = wait_for_connection status 20 in
    elim (wait_for_connection-IsWait status 19) [
      | inl (k, fits, up, before, more, same) ↦
          inl (k, omega arith, up, before, ending-connected delays _ left more same)
      | inr (before, none_left, same) ↦
          inr (λ j l. before j (omega arith), ending-asleep delays _ left none_left same)
    ]
