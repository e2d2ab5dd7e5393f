-- ===== src/PowerController/Sleep.antt =====
-- The sleep of ins-node/src/power_controller/power_controller.ino: what an interrupt, and a sleep
-- with any interrupts, leaves of a well-formed state.
use indoor_navigation_system.PowerController.{
  number_of, is_sleep_wifi_on, Controller, PowerState, WatchDogTimeout, Interrupt, setup,
  serve_interrupt, go_to_sleep, trigger_watch_dog_in, get_timeout_duration, after_sleep,
  stay_asleep_for, before_sleep,
}
use indoor_navigation_system.Base.{
  ◌∙◌, subst, ap, ◌^◌, ◌%◌, ◌&&◌, leb, ℕ, ◌+◌, ◌≡◌, ◌≤◌, refl, Bool, true, false, List, [], ◌∷◌,
  if◌then◌else◌, arith, inl, inr, ◌⊎◌,
}

-- The wireless module is off in the state that says so, and on in the other two.
abbrev pub powered : PowerState → Bool
powered PowerState.sleep_wifi_off = false
powered PowerState.sleep_wifi_on = true
powered PowerState.prepare_shutdown = true

-- A signal is only kept where it is looked for.
abbrev pub MaySignal : PowerState → Bool → Type 0
MaySignal PowerState.sleep_wifi_on signal = Unit
MaySignal _ signal = signal ≡ false

-- The pin fits the state, the watchdog times out after eight seconds, at most one of its barks has
-- been counted, and it is never marked as enabled.
pub record IsSound (c : Controller) : Type 0 where
  pub pin : c.wifi_module_pin ≡ powered c.current_state
  pub signal : MaySignal c.current_state c.signal_from_wifi_module
  pub timeout : c.current_timeout ≡ WatchDogTimeout.wdt_8sec
  pub slept : (c.time_we_have_slept ≡ 0) ⊎ (c.time_we_have_slept ≡ 8192)
  pub enabled : c.watch_dog_enabled ≡ false

pub setup-IsSound : IsSound setup
unfolding setup
setup-IsSound = record {
  pin = refl;
  signal = refl;
  timeout = refl;
  slept = inl refl;
  enabled = refl;
}

pub IsSound-if :
    (b : Bool) {c c' : Controller}
    → (b ≡ true → IsSound c)
    → (b ≡ false → IsSound c')
    → IsSound (if b then c else c')
IsSound-if true f g = f refl
IsSound-if false f g = g refl

MaySignal-on :
    (p : PowerState) (level : Bool) → (is_sleep_wifi_on p && level) ≡ true → MaySignal p true
MaySignal-on PowerState.sleep_wifi_on level e = tt
MaySignal-on PowerState.sleep_wifi_off level e = ground arith
MaySignal-on PowerState.prepare_shutdown level e = ground arith

pub MaySignal-false : (p : PowerState) → MaySignal p false
MaySignal-false PowerState.sleep_wifi_on = tt
MaySignal-false PowerState.sleep_wifi_off = refl
MaySignal-false PowerState.prepare_shutdown = refl

pub serve_interrupt-IsSound :
    (i : Interrupt) (c : Controller) → IsSound c → IsSound (serve_interrupt i c)
unfolding serve_interrupt
serve_interrupt-IsSound (Interrupt.pin_change level) c s =
    IsSound-if (is_sleep_wifi_on c.current_state && level)
      (λ e. record {
        pin = s.pin;
        signal = MaySignal-on c.current_state level e;
        timeout = s.timeout;
        slept = s.slept;
        enabled = s.enabled;
      })
      (λ e. s)
serve_interrupt-IsSound Interrupt.watch_dog c s =
    IsSound-if c.watch_dog_armed
      (λ e. record {
        pin = s.pin;
        signal = s.signal;
        timeout = s.timeout;
        slept = s.slept;
        enabled = s.enabled;
      })
      (λ e. s)

pub field-if :
    {A B : Type 0} (field : B → A) (b : Bool) (a : A) {c c' : B}
    → field c ≡ a
    → field c' ≡ a
    → field (if b then c else c') ≡ a
field-if field true a e e' = e
field-if field false a e e' = e'

-- The interrupts leave the state alone.
serve_interrupt-current_state :
    (i : Interrupt) (c : Controller) → (serve_interrupt i c).current_state ≡ c.current_state
unfolding serve_interrupt
serve_interrupt-current_state (Interrupt.pin_change level) c =
    field-if (λ (d : Controller). d.current_state) (is_sleep_wifi_on c.current_state && level)
      c.current_state refl refl
serve_interrupt-current_state Interrupt.watch_dog c =
    field-if (λ (d : Controller). d.current_state) c.watch_dog_armed c.current_state refl refl

pub go_to_sleep-current_state :
    (is : List Interrupt) (c : Controller) → (go_to_sleep is c).current_state ≡ c.current_state
unfolding go_to_sleep
go_to_sleep-current_state [] c = refl
go_to_sleep-current_state (i ∷ is) c =
    go_to_sleep-current_state is (serve_interrupt i c) ∙ serve_interrupt-current_state i c

go_to_sleep-IsSound :
    (is : List Interrupt) (c : Controller) → IsSound c → IsSound (go_to_sleep is c)
unfolding go_to_sleep
go_to_sleep-IsSound [] c s = s
go_to_sleep-IsSound (i ∷ is) c s =
    go_to_sleep-IsSound is (serve_interrupt i c) (serve_interrupt-IsSound i c s)

before_sleep-IsSound : (c : Controller) → IsSound c → IsSound (before_sleep c)
unfolding trigger_watch_dog_in
before_sleep-IsSound c s =
    IsSound-if c.watch_dog_enabled (λ e. s)
      (λ e. record {
        pin = s.pin;
        signal = s.signal;
        timeout = s.timeout;
        slept = s.slept;
        enabled = refl;
      })

-- A sound state awake: it is sound, in the same power state, and starts anew if it slept enough.
abbrev pub IsAwake : PowerState → Controller × Bool → Type 0
IsAwake p (c, enough) =
    IsSound c × (c.current_state ≡ p) × (enough ≡ true → c.time_we_have_slept ≡ 0)

IsAwake-if :
    (p : PowerState) (b : Bool) {r r' : Controller × Bool}
    → (b ≡ true → IsAwake p r)
    → (b ≡ false → IsAwake p r')
    → IsAwake p (if b then r else r')
IsAwake-if p true f g = f refl
IsAwake-if p false f g = g refl

pub get_timeout_duration-IsSound : (c : Controller) → IsSound c → get_timeout_duration c ≡ 8192
unfolding get_timeout_duration
get_timeout_duration-IsSound c s = ap (λ t. 2 ^ (number_of t + 4)) s.timeout

counted :
    (duration slept d : ℕ)
    → duration ≤ 16000
    → d ≡ 8192
    → (slept ≡ 0) ⊎ (slept ≡ 8192)
    → leb duration ((slept + d) % 2 ^ 32) ≡ false
    → (slept + d) % 2 ^ 32 ≡ 8192
counted duration slept d short e (inl at) f = ground arith
counted duration slept d short e (inr at) f = ground arith

after_sleep-IsAwake :
    (duration : ℕ) (c : Controller)
    → duration ≤ 16000
    → IsSound c
    → IsAwake c.current_state (after_sleep duration c)
unfolding after_sleep
after_sleep-IsAwake duration c short s =
    let d = get_timeout_duration c in
    IsAwake-if c.current_state c.watch_dog_barked
      (λ barked.
        IsAwake-if c.current_state (leb duration ((c.time_we_have_slept + d) % 2 ^ 32))
          (λ e. (
            record {
              pin = s.pin;
              signal = s.signal;
              timeout = s.timeout;
              slept = inl refl;
              enabled = refl;
            },
            refl,
            λ _. refl,
          ))
          (λ e. (
            record {
              pin = s.pin;
              signal = s.signal;
              timeout = s.timeout;
              slept = inr (
                  counted duration c.time_we_have_slept d short (get_timeout_duration-IsSound c s)
                    s.slept e);
              enabled = refl;
            },
            refl,
            λ f. cc,
          )))
      (λ quiet. (s, refl, λ f. cc))

pub stay_asleep_for-IsAwake :
    (duration : ℕ) (is : List Interrupt) (c : Controller)
    → duration ≤ 16000
    → IsSound c
    → IsAwake c.current_state (stay_asleep_for duration is c)
unfolding stay_asleep_for trigger_watch_dog_in
stay_asleep_for-IsAwake duration is c short s =
    let asleep = go_to_sleep is (before_sleep c) in
    subst (λ p. IsAwake p (after_sleep duration asleep))
      (go_to_sleep-current_state is (before_sleep c)
        ∙ field-if (λ (d : Controller). d.current_state) c.watch_dog_enabled c.current_state refl
            refl)
      (after_sleep-IsAwake duration asleep short
        (go_to_sleep-IsSound is (before_sleep c) (before_sleep-IsSound c s)))
