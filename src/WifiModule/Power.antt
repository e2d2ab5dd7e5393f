-- ===== src/WifiModule/Power.antt =====
-- The start and the end of a wake phase in ins-node/src/wifi_module/wifi_module.ino: `setup`,
-- `goToSleep`, and what `loop` does once it has sent its requests. The pins, the delays and the
-- radio are given by the calls on them, in order.
use indoor_navigation_system.Base.{
  ℕ, zero, suc, ◌*◌, Bool, true, false, List, [], ◌∷◌, ◌++◌, ◌==◌, if◌then◌else◌,
}

pub data Pin : Type 0 where
  tx rx : Pin

pub data Action : Type 0 where
  pin_mode : Pin → (is_output : Bool) → Action
  digital_write : Pin → (level : Bool) → Action
  delay : (milliseconds : ℕ) → Action
  delay_microseconds : ℕ → Action
  station_mode disconnect begin_connection : Action
  deep_sleep : (microseconds : ℕ) → Action

abbrev pub connection_retries : ℕ
connection_retries = 20

unfoldable pub go_to_sleep : List Action
go_to_sleep =
    digital_write tx true
    ∷ delay_microseconds 10
    ∷ digital_write tx false
    ∷ deep_sleep (60 * 1000000)
    ∷ []

-- The loop that waits for the connection: the delays and `attemptsLeft` behind it. `status i` tells
-- whether the read `i` of the status from here on finds the module connected. The attempts left
-- start above 0.
unfoldable pub wait_for_connection : (ℕ → Bool) → ℕ → List Action × ℕ
wait_for_connection status zero = ([], 0)
wait_for_connection status (suc attempts_left) =
    let (delays, left) = wait_for_connection (λ i. status (suc i)) attempts_left in
    if status 0
    then ([], suc attempts_left)
    else if attempts_left == 0
    then ([], 0)
    else (delay 500 ∷ delays, left)

-- What `setup` does before it waits.
abbrev pub begin_setup : List Action
begin_setup =
    pin_mode tx true
    ∷ pin_mode rx false
    ∷ digital_write tx false
    ∷ station_mode
    ∷ disconnect
    ∷ delay 100
    ∷ begin_connection
    ∷ []

unfoldable pub setup : (ℕ → Bool) → List Action
unfolding go_to_sleep wait_for_connection
setup status =
    let (delays, attempts_left) = wait_for_connection status connection_retries in
    begin_setup ++ (delays ++ (if attempts_left == 0 then go_to_sleep else []))

-- The end of `loop`.
unfoldable pub release : List Action
unfolding go_to_sleep
release = disconnect ∷ go_to_sleep
