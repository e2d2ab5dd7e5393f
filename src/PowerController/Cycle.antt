-- ===== src/PowerController/Cycle.antt =====
-- The cycle of the states of ins-node/src/power_controller/power_controller.ino.
use indoor_navigation_system.PowerController.Sleep.{
  MaySignal, IsSound, IsAwake, stay_asleep_for-IsAwake,
}
use indoor_navigation_system.Base.{
  sym, ◌<◌, subst, ℕ, zero, suc, ◌+◌, ◌%◌, ◌^◌, ◌≡◌, ◌≢◌, ◌≤◌, ◌∙◌, ap, refl, Bool, true, false,
  List, [], ◌∷◌, leb, if◌then◌else◌, arith, inl, inr, ◌⊎◌,
}
use indoor_navigation_system.PowerController.{
  notify_wifi_shutdown, wifi_prepare_shutdown_duration, loop_in, Controller, PowerState, Interrupt,
  go_to_sleep, serve_interrupt, trigger_watch_dog_in, get_timeout_duration, after_sleep,
  stay_asleep_for, leave_wifi_off, leave_wifi_on, leave_shutdown, loop, Reachable, Step,
}
use indoor_navigation_system.PowerController.Invariant.{Reachable-IsSound, leave_shutdown-quiet}

off_or_same :
    (c : Controller) (enough : Bool)
    → IsAwake PowerState.prepare_shutdown (c, enough)
    → (leave_shutdown (c, enough)).current_state ≢ PowerState.sleep_wifi_on
off_or_same c true a e =
    ground (arith, ap (λ d. d.current_state) (leave_shutdown-quiet c true a), e)
off_or_same c false (s, p, anew) e =
    ground (arith, ap (λ d. d.current_state) (leave_shutdown-quiet c false (s, p, anew)), e, p)

loop_in-prepare_shutdown :
    (is : List Interrupt) (c : Controller) (p : PowerState)
    → p ≡ PowerState.prepare_shutdown
    → c.current_state ≡ p
    → IsSound c
    → (loop_in p is c).current_state ≢ PowerState.sleep_wifi_on
loop_in-prepare_shutdown is c PowerState.prepare_shutdown f e s = off_or_same _ _ (
    subst (λ q. IsAwake q (stay_asleep_for wifi_prepare_shutdown_duration is c)) e
      (stay_asleep_for-IsAwake wifi_prepare_shutdown_duration is c (omega arith) s))
loop_in-prepare_shutdown is c PowerState.sleep_wifi_on f e s = absurd (ground (arith, f))
loop_in-prepare_shutdown is c PowerState.sleep_wifi_off f e s = absurd (ground (arith, f))

-- Once the program prepares the shutdown it never goes back to waiting for the wireless module,
-- whatever interrupts come: a reachable state that prepares the shutdown is not followed by
-- `SLEEP_WIFI_ON`.
pub shutdown_is_not_postponed :
    (is : List Interrupt) (c : Controller)
    → Reachable c
    → c.current_state ≡ PowerState.prepare_shutdown
    → (loop is c).current_state ≢ PowerState.sleep_wifi_on
unfolding loop
shutdown_is_not_postponed is c r e =
    loop_in-prepare_shutdown is c c.current_state e refl (Reachable-IsSound r)

-- The next state of the cycle.
abbrev pub next_state : PowerState → PowerState
next_state PowerState.sleep_wifi_off = PowerState.sleep_wifi_on
next_state PowerState.sleep_wifi_on = PowerState.prepare_shutdown
next_state PowerState.prepare_shutdown = PowerState.sleep_wifi_off

-- A number of rounds in which only the watchdog interrupts.
abbrev pub run : ℕ → Controller → Controller
run zero c = c
run (suc n) c = run n (loop (Interrupt.watch_dog ∷ []) c)

-- A round ended by the watchdog: on to the next state, or one more timeout is counted.
abbrev IsProgress : Controller → Controller → Type 0
IsProgress c c' =
    (c'.current_state ≡ next_state c.current_state)
    ⊎ ((c'.current_state ≡ c.current_state)
        × (c.time_we_have_slept ≡ 0)
        × (c'.time_we_have_slept ≡ 8192))

stay_asleep_for-bark :
    (duration : ℕ) (c : Controller)
    → IsSound c
    → let slept = (c.time_we_have_slept + 8192) % 2 ^ 32 in
      let awake = record c {
        watch_dog_barked = false;
        watch_dog_enabled = false;
        watch_dog_armed = false;
      } in
      stay_asleep_for duration (Interrupt.watch_dog ∷ []) c ≡ (
        if leb duration slept
        then (record awake { time_we_have_slept = 0 }, true)
        else (record awake { time_we_have_slept = slept }, false))
unfolding stay_asleep_for trigger_watch_dog_in go_to_sleep serve_interrupt after_sleep
    get_timeout_duration
stay_asleep_for-bark duration c s = rw (s.enabled, s.timeout) refl

-- The state after a bark.
abbrev awake : ℕ → Controller → Controller
awake time c = record c {
  watch_dog_barked = false;
  watch_dog_enabled = false;
  watch_dog_armed = false;
  time_we_have_slept = time;
}

stay_asleep_for-first :
    (duration : ℕ) (c : Controller)
    → 8192 < duration
    → IsSound c
    → c.time_we_have_slept ≡ 0
    → stay_asleep_for duration (Interrupt.watch_dog ∷ []) c ≡ (awake 8192 c, false)
stay_asleep_for-first duration c long s at =
    let slept : (c.time_we_have_slept + 8192) % 2 ^ 32 ≡ 8192 = omega (arith, at) in
    let short : leb duration ((c.time_we_have_slept + 8192) % 2 ^ 32) ≡ false = ground arith in
    stay_asleep_for-bark duration c s
    ∙ ap
        (λ b.
          if b
          then (awake 0 c, true)
          else (awake ((c.time_we_have_slept + 8192) % 2 ^ 32) c, false))
        short
    ∙ ap (λ t. (awake t c, false)) slept

stay_asleep_for-second :
    (duration : ℕ) (c : Controller)
    → duration ≤ 16384
    → IsSound c
    → c.time_we_have_slept ≡ 8192
    → stay_asleep_for duration (Interrupt.watch_dog ∷ []) c ≡ (awake 0 c, true)
stay_asleep_for-second duration c short s at =
    let long : leb duration ((c.time_we_have_slept + 8192) % 2 ^ 32) ≡ true = ground arith in
    stay_asleep_for-bark duration c s
    ∙ ap
        (λ b.
          if b
          then (awake 0 c, true)
          else (awake ((c.time_we_have_slept + 8192) % 2 ^ 32) c, false))
        long

leave_wifi_on-IsProgress :
    (c : Controller)
    → c.current_state ≡ PowerState.sleep_wifi_on
    → c.time_we_have_slept ≡ 0
    → IsProgress c (leave_wifi_on (awake 8192 c, false))
unfolding leave_wifi_on notify_wifi_shutdown
leave_wifi_on-IsProgress c e at = by_signal c.signal_from_wifi_module refl
  where
    by_signal :
        (b : Bool)
        → c.signal_from_wifi_module ≡ b
        → IsProgress c (leave_wifi_on (awake 8192 c, false))
    by_signal true f = inl (rw f (sym (ap next_state e)))
    by_signal false f = inr (rw f refl, at, rw f refl)

leave_shutdown-IsProgress :
    (c : Controller)
    → IsSound c
    → c.current_state ≡ PowerState.prepare_shutdown
    → c.time_we_have_slept ≡ 0
    → IsProgress c (leave_shutdown (awake 8192 c, false))
unfolding leave_shutdown
leave_shutdown-IsProgress c s e at =
    let quiet : c.signal_from_wifi_module ≡ false =
      subst (λ q. MaySignal q c.signal_from_wifi_module) e s.signal in
    inr (rw quiet refl, at, rw quiet refl)

leave_wifi_off-IsProgress :
    (c : Controller)
    → c.time_we_have_slept ≡ 0
    → IsProgress c (leave_wifi_off (awake 8192 c, false))
unfolding leave_wifi_off
leave_wifi_off-IsProgress c at = inr (refl, at, refl)

-- The first bark of the watchdog is counted or ends the state.
loop_in-first :
    (p : PowerState) (c : Controller)
    → c.current_state ≡ p
    → IsSound c
    → c.time_we_have_slept ≡ 0
    → IsProgress c (loop_in p (Interrupt.watch_dog ∷ []) c)
loop_in-first PowerState.sleep_wifi_off c e s at =
    subst (λ r. IsProgress c (leave_wifi_off r))
      (sym (stay_asleep_for-first 16000 c (omega arith) s at)) (leave_wifi_off-IsProgress c at)
loop_in-first PowerState.sleep_wifi_on c e s at =
    subst (λ r. IsProgress c (leave_wifi_on r))
      (sym (stay_asleep_for-first 16000 c (omega arith) s at)) (leave_wifi_on-IsProgress c e at)
loop_in-first PowerState.prepare_shutdown c e s at =
    subst (λ r. IsProgress c (leave_shutdown r))
      (sym (stay_asleep_for-first 10000 c (omega arith) s at)) (leave_shutdown-IsProgress c s e at)

-- The second one ends it.
loop_in-second :
    (p : PowerState) (c : Controller)
    → IsSound c
    → c.time_we_have_slept ≡ 8192
    → (loop_in p (Interrupt.watch_dog ∷ []) c).current_state ≡ next_state p
unfolding leave_wifi_off leave_wifi_on leave_shutdown notify_wifi_shutdown
loop_in-second PowerState.sleep_wifi_off c s at =
    ap (λ r. (leave_wifi_off r).current_state) (stay_asleep_for-second 16000 c (omega arith) s at)
loop_in-second PowerState.sleep_wifi_on c s at =
    ap (λ r. (leave_wifi_on r).current_state) (stay_asleep_for-second 16000 c (omega arith) s at)
loop_in-second PowerState.prepare_shutdown c s at =
    ap (λ r. (leave_shutdown r).current_state) (stay_asleep_for-second 10000 c (omega arith) s at)

-- From every reachable state one or two timeouts of the watchdog lead to the next state of the
-- cycle, if nothing else interrupts: off, on, preparing the shutdown, and off again.
pub run-next_state :
    (c : Controller)
    → Reachable c
    → (k : ℕ) × (1 ≤ k) × (k ≤ 2) × ((run k c).current_state ≡ next_state c.current_state)
unfolding loop
run-next_state c r =
    let s = Reachable-IsSound r in
    let barked = loop (Interrupt.watch_dog ∷ []) c in
    elim s.slept [
      | inr at ↦ (1, omega arith, omega arith, loop_in-second c.current_state c s at)
      | inl at ↦ elim (loop_in-first c.current_state c refl s at) [
        | inl on ↦ (1, omega arith, omega arith, on)
        | inr (same, _, counted) ↦ (
          2,
          omega arith,
          omega arith,
          loop_in-second barked.current_state barked
                (Reachable-IsSound (Reachable.next r (Step.round (Interrupt.watch_dog ∷ []) c)))
                counted
              ∙ ap next_state same,
        )
      ]
    ]
