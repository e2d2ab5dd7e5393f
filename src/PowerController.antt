-- ===== src/PowerController.antt =====
-- ins-node/src/power_controller/power_controller.ino: the power controller of a node, which sleeps
-- and switches the wireless module on and off. The registers of the microcontroller are modelled by
-- what they do: whether the watchdog is armed, and the levels of the pins.
pub mod Sleep
pub mod Invariant
pub mod Cycle
pub mod Handshake
use indoor_navigation_system.Base.{
  ℕ, ◌+◌, ◌%◌, ◌^◌, Bool, true, false, ◌||◌, ◌&&◌, List, [], ◌∷◌, leb, if◌then◌else◌,
}

pub data WatchDogTimeout : Type 0 where
  wdt_16ms wdt_32ms wdt_64ms wdt_128ms wdt_250ms wdt_500ms wdt_1sec wdt_2sec wdt_4sec wdt_8sec :
      WatchDogTimeout

-- The number of an enumerator.
abbrev pub number_of : WatchDogTimeout → ℕ
number_of wdt_16ms = 0
number_of wdt_32ms = 1
number_of wdt_64ms = 2
number_of wdt_128ms = 3
number_of wdt_250ms = 4
number_of wdt_500ms = 5
number_of wdt_1sec = 6
number_of wdt_2sec = 7
number_of wdt_4sec = 8
number_of wdt_8sec = 9

pub data PowerState : Type 0 where
  sleep_wifi_off sleep_wifi_on prepare_shutdown : PowerState

abbrev pub wifi_off_sleep_duration : ℕ
wifi_off_sleep_duration = 16000

abbrev pub wifi_on_sleep_duration : ℕ
wifi_on_sleep_duration = 16000

abbrev pub wifi_prepare_shutdown_duration : ℕ
wifi_prepare_shutdown_duration = 10000

-- The variables of the program, whether the watchdog is armed, the level of `WIFI_MODULE_PIN`, and the
-- number of pulses sent on `TX_PIN`.
pub record Controller : Type 0 where
  pub current_timeout : WatchDogTimeout
  pub time_we_have_slept : ℕ
  pub watch_dog_barked : Bool
  pub watch_dog_enabled : Bool
  pub signal_from_wifi_module : Bool
  pub current_state : PowerState
  pub watch_dog_armed : Bool
  pub wifi_module_pin : Bool
  pub pulses : ℕ

-- The two interrupts; a change of a pin comes with the level of `RX_PIN`.
pub data Interrupt : Type 0 where
  pin_change : Bool → Interrupt
  watch_dog : Interrupt

abbrev pub is_sleep_wifi_on : PowerState → Bool
is_sleep_wifi_on sleep_wifi_on = true
is_sleep_wifi_on _ = false

-- The interrupt routines. A watchdog that is not armed does not interrupt.
unfoldable pub serve_interrupt : Interrupt → Controller → Controller
serve_interrupt (pin_change level) c =
    if is_sleep_wifi_on c.current_state && level
    then record c { signal_from_wifi_module = true }
    else c
serve_interrupt watch_dog c =
    if c.watch_dog_armed then record c { watch_dog_barked = true; watch_dog_armed = false } else c

-- `goToSleep`, with the interrupts until the program goes on.
unfoldable pub go_to_sleep : List Interrupt → Controller → Controller
unfolding serve_interrupt
go_to_sleep [] c = c
go_to_sleep (i ∷ is) c = go_to_sleep is (serve_interrupt i c)

unfoldable pub trigger_watch_dog_in : WatchDogTimeout → Controller → Controller
trigger_watch_dog_in wdt c = record c { watch_dog_armed = true; current_timeout = wdt }

-- `1 << (currentTimeout + 4)`, which is below 2^15 for all timeouts.
unfoldable pub get_timeout_duration : Controller → ℕ
get_timeout_duration c = 2 ^ (number_of c.current_timeout + 4)

-- What `stayAsleepFor` does before it sleeps.
abbrev pub before_sleep : Controller → Controller
before_sleep c =
    if c.watch_dog_enabled
    then c
    else record (trigger_watch_dog_in c.current_timeout c) { watch_dog_enabled = false }

-- What it does once it is awake: the variables and whether it slept long enough. `unsigned long` has 32
-- bits.
unfoldable pub after_sleep : ℕ → Controller → Controller × Bool
unfolding get_timeout_duration
after_sleep duration c =
    if c.watch_dog_barked
    then (let slept = (c.time_we_have_slept + get_timeout_duration c) % 2 ^ 32 in
        let awake = record c { watch_dog_barked = false; watch_dog_enabled = false } in
        if leb duration slept
        then (record awake { time_we_have_slept = 0 }, true)
        else (record awake { time_we_have_slept = slept }, false))
    else (c, false)

unfoldable pub stay_asleep_for : ℕ → List Interrupt → Controller → Controller × Bool
unfolding trigger_watch_dog_in go_to_sleep after_sleep
stay_asleep_for duration is c = after_sleep duration (go_to_sleep is (before_sleep c))

unfoldable pub notify_wifi_shutdown : Controller → Controller
notify_wifi_shutdown c = record c { pulses = c.pulses + 1 }

-- The variables and the pins after `setup`.
unfoldable pub setup : Controller
setup = record {
  current_timeout = wdt_8sec;
  time_we_have_slept = 0;
  watch_dog_barked = false;
  watch_dog_enabled = false;
  signal_from_wifi_module = false;
  current_state = sleep_wifi_off;
  watch_dog_armed = false;
  wifi_module_pin = false;
  pulses = 0;
}

-- The three cases of `loop` behind the sleep.
unfoldable pub leave_wifi_off : Controller × Bool → Controller
leave_wifi_off (c, time_to_change_state) =
    if time_to_change_state
    then record c { current_state = sleep_wifi_on; wifi_module_pin = true }
    else c

unfoldable pub leave_wifi_on : Controller × Bool → Controller
unfolding notify_wifi_shutdown
leave_wifi_on (c, time_to_change_state) =
    if time_to_change_state || c.signal_from_wifi_module
    then record (notify_wifi_shutdown (record c { current_state = prepare_shutdown })) {
      signal_from_wifi_module = false;
      time_we_have_slept = 0;
    }
    else c

unfoldable pub leave_shutdown : Controller × Bool → Controller
leave_shutdown (c, time_to_change_state) =
    let changed =
      if time_to_change_state
      then record c { current_state = sleep_wifi_off; wifi_module_pin = false }
      else if c.signal_from_wifi_module
      then record c { current_state = sleep_wifi_on; time_we_have_slept = 0 }
      else c in
    record changed { signal_from_wifi_module = false }

abbrev pub loop_in : PowerState → List Interrupt → Controller → Controller
loop_in sleep_wifi_off is c = leave_wifi_off (stay_asleep_for wifi_off_sleep_duration is c)
loop_in sleep_wifi_on is c = leave_wifi_on (stay_asleep_for wifi_on_sleep_duration is c)
loop_in prepare_shutdown is c = leave_shutdown (stay_asleep_for wifi_prepare_shutdown_duration is c)

-- One call of `loop`, with the interrupts while it sleeps.
unfoldable pub loop : List Interrupt → Controller → Controller
unfolding stay_asleep_for leave_wifi_off leave_wifi_on leave_shutdown
loop is c = loop_in c.current_state is c

-- The program: calls of `loop`, with interrupts also between them.
pub data Step : Controller → Controller → Type 0 where
  round : (is : List Interrupt) (c : Controller) → Step c (loop is c)
  interrupted : (i : Interrupt) (c : Controller) → Step c (serve_interrupt i c)

pub data Reachable : Controller → Type 0 where
  start : Reachable setup
  next : {c c' : Controller} → Reachable c → Step c c' → Reachable c'
