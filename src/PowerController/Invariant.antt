-- ===== src/PowerController/Invariant.antt =====
-- What holds in every state that ins-node/src/power_controller/power_controller.ino reaches.
use indoor_navigation_system.PowerController.{
  wifi_prepare_shutdown_duration, wifi_on_sleep_duration, wifi_off_sleep_duration, loop_in,
  notify_wifi_shutdown, Controller, PowerState, Interrupt, stay_asleep_for, leave_wifi_off,
  leave_wifi_on, leave_shutdown, loop, Step, Reachable,
}
use indoor_navigation_system.Base.{
  ◌||◌, sym, ◌∙◌, subst, ap, ◌≡◌, refl, Bool, true, false, List, if◌then◌else◌, arith, inl,
}
use indoor_navigation_system.PowerController.Sleep.{
  IsSound, IsAwake, IsSound-if, MaySignal-false, setup-IsSound, serve_interrupt-IsSound,
  stay_asleep_for-IsAwake, powered, MaySignal,
}

leave_wifi_off-IsSound :
    (r : Controller × Bool) → IsAwake PowerState.sleep_wifi_off r → IsSound (leave_wifi_off r)
unfolding leave_wifi_off
leave_wifi_off-IsSound (c, enough) (s, p, anew) =
    IsSound-if enough
      (λ e. record {
        pin = refl;
        signal = tt;
        timeout = s.timeout;
        slept = s.slept;
        enabled = s.enabled;
      })
      (λ e. s)

leave_wifi_on-IsSound :
    (r : Controller × Bool) → IsAwake PowerState.sleep_wifi_on r → IsSound (leave_wifi_on r)
unfolding leave_wifi_on notify_wifi_shutdown
leave_wifi_on-IsSound (c, enough) (s, p, anew) =
    IsSound-if (enough || c.signal_from_wifi_module)
      (λ e. record {
        pin = s.pin ∙ ap powered p;
        signal = refl;
        timeout = s.timeout;
        slept = inl refl;
        enabled = s.enabled;
      })
      (λ e. s)

-- Getting ready to shut down, no signal can have come.
pub leave_shutdown-quiet :
    (c : Controller) (enough : Bool)
    → IsAwake PowerState.prepare_shutdown (c, enough)
    → leave_shutdown (c, enough) ≡ (
        if enough
        then record c {
          current_state = PowerState.sleep_wifi_off;
          wifi_module_pin = false;
          signal_from_wifi_module = false;
        }
        else record c { signal_from_wifi_module = false })
unfolding leave_shutdown
leave_shutdown-quiet c true (s, p, anew) = refl
leave_shutdown-quiet c false (s, p, anew) =
    let quiet : c.signal_from_wifi_module ≡ false =
      subst (λ q. MaySignal q c.signal_from_wifi_module) p s.signal in
    rw quiet refl

leave_shutdown-IsSound :
    (r : Controller × Bool) → IsAwake PowerState.prepare_shutdown r → IsSound (leave_shutdown r)
leave_shutdown-IsSound (c, enough) (s, p, anew) =
    subst IsSound (sym (leave_shutdown-quiet c enough (s, p, anew))) (
      IsSound-if enough
        (λ e. record {
          pin = refl;
          signal = refl;
          timeout = s.timeout;
          slept = s.slept;
          enabled = s.enabled;
        })
        (λ e. record {
          pin = s.pin;
          signal = MaySignal-false c.current_state;
          timeout = s.timeout;
          slept = s.slept;
          enabled = s.enabled;
        }))

loop_in-IsSound :
    (p : PowerState) (is : List Interrupt) (c : Controller)
    → c.current_state ≡ p
    → IsSound c
    → IsSound (loop_in p is c)
loop_in-IsSound PowerState.sleep_wifi_off is c e s = leave_wifi_off-IsSound _ (
    subst (λ p. IsAwake p (stay_asleep_for wifi_off_sleep_duration is c)) e
      (stay_asleep_for-IsAwake wifi_off_sleep_duration is c (omega arith) s))
loop_in-IsSound PowerState.sleep_wifi_on is c e s = leave_wifi_on-IsSound _ (
    subst (λ p. IsAwake p (stay_asleep_for wifi_on_sleep_duration is c)) e
      (stay_asleep_for-IsAwake wifi_on_sleep_duration is c (omega arith) s))
loop_in-IsSound PowerState.prepare_shutdown is c e s = leave_shutdown-IsSound _ (
    subst (λ p. IsAwake p (stay_asleep_for wifi_prepare_shutdown_duration is c)) e
      (stay_asleep_for-IsAwake wifi_prepare_shutdown_duration is c (omega arith) s))

Step-IsSound : {c c' : Controller} → Step c c' → IsSound c → IsSound c'
unfolding loop
Step-IsSound (Step.round is c) s = loop_in-IsSound c.current_state is c refl s
Step-IsSound (Step.interrupted i c) s = serve_interrupt-IsSound i c s

-- In every state that the program reaches the wireless module is powered exactly in the two states that
-- want it, a signal of it is only pending where it may come, the time that was slept is none or one
-- timeout of the watchdog, and the watchdog is marked as not enabled.
pub Reachable-IsSound : {c : Controller} → Reachable c → IsSound c
Reachable-IsSound Reachable.start = setup-IsSound
Reachable-IsSound (Reachable.next r step) = Step-IsSound step (Reachable-IsSound r)
