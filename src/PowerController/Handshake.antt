-- ===== src/PowerController/Handshake.antt =====
-- The end of a wake phase of a node: ins-node/src/wifi_module/wifi_module.ino signals that it is
-- done, and ins-node/src/power_controller/power_controller.ino, whose `RX_PIN` is wired to the
-- `TX_PIN` of the module, switches it off.
use indoor_navigation_system.WifiModule.Power.{Pin, Action, release}
use indoor_navigation_system.PowerController.{
  Controller, PowerState, Interrupt, is_sleep_wifi_on, serve_interrupt, go_to_sleep, before_sleep,
  trigger_watch_dog_in, get_timeout_duration, after_sleep, stay_asleep_for, notify_wifi_shutdown,
  leave_wifi_on, loop_in, loop, Reachable, Step, wifi_on_sleep_duration,
}
use indoor_navigation_system.PowerController.Sleep.{powered, field-if, go_to_sleep-current_state}
use indoor_navigation_system.PowerController.Invariant.{Reachable-IsSound}
use indoor_navigation_system.PowerController.Cycle.{run, run-next_state, next_state}
use indoor_navigation_system.Base.{
  ℕ, zero, suc, ◌≤◌, ◌≡◌, refl, ap, ◌∙◌, subst, Bool, true, false, ◌&&◌, sym, ◌+◌, ◌%◌, ◌^◌, List,
  [], ◌∷◌, ◌++◌, leb, arith,
}

-- What the controller sees of the calls of the module: the levels of the wire between them.
abbrev pub signals : List Action → List Interrupt
signals [] = []
signals (Action.digital_write Pin.tx level ∷ actions) = Interrupt.pin_change level ∷ signals actions
signals (_ ∷ actions) = signals actions

-- A signal that has come stays until the program has seen it.
serve_interrupt-signalled :
    (i : Interrupt) (c : Controller)
    → c.signal_from_wifi_module ≡ true
    → (serve_interrupt i c).signal_from_wifi_module ≡ true
unfolding serve_interrupt
serve_interrupt-signalled (Interrupt.pin_change level) c e =
    field-if (λ (d : Controller). d.signal_from_wifi_module)
      (is_sleep_wifi_on c.current_state && level) true refl e
serve_interrupt-signalled Interrupt.watch_dog c e =
    field-if (λ (d : Controller). d.signal_from_wifi_module) c.watch_dog_armed true e e

go_to_sleep-signalled :
    (is : List Interrupt) (c : Controller)
    → c.signal_from_wifi_module ≡ true
    → (go_to_sleep is c).signal_from_wifi_module ≡ true
unfolding go_to_sleep
go_to_sleep-signalled [] c e = e
go_to_sleep-signalled (i ∷ is) c e = go_to_sleep-signalled is _ (serve_interrupt-signalled i c e)

go_to_sleep-append :
    (is js : List Interrupt) (c : Controller)
    → go_to_sleep (is ++ js) c ≡ go_to_sleep js (go_to_sleep is c)
unfolding go_to_sleep
go_to_sleep-append [] js c = refl
go_to_sleep-append (i ∷ is) js c = go_to_sleep-append is js (serve_interrupt i c)

serve_interrupt-pulse :
    (c : Controller)
    → c.current_state ≡ PowerState.sleep_wifi_on
    → (serve_interrupt (Interrupt.pin_change true) c).signal_from_wifi_module ≡ true
unfolding serve_interrupt
serve_interrupt-pulse c e = rw e refl

-- The end of the module's `loop` is noticed, whatever interrupts before and behind it.
go_to_sleep-release :
    (before after : List Interrupt) (c : Controller)
    → c.current_state ≡ PowerState.sleep_wifi_on
    → (go_to_sleep (before ++ (signals release ++ after)) c).signal_from_wifi_module ≡ true
unfolding release go_to_sleep
go_to_sleep-release before after c e =
    let begun = go_to_sleep before c in
    subst (λ (d : Controller). d.signal_from_wifi_module ≡ true)
      (sym (go_to_sleep-append before (signals release ++ after) c))
      (go_to_sleep-signalled (Interrupt.pin_change false ∷ after)
        (serve_interrupt (Interrupt.pin_change true) begun)
        (serve_interrupt-pulse begun (go_to_sleep-current_state before c ∙ e)))

after_sleep-keeps :
    (duration : ℕ) (c : Controller)
    → ((after_sleep duration c).0.signal_from_wifi_module ≡ c.signal_from_wifi_module)
unfolding after_sleep
after_sleep-keeps duration c =
    field-if (λ (r : Controller × Bool). r.0.signal_from_wifi_module) c.watch_dog_barked _
      (field-if (λ (r : Controller × Bool). r.0.signal_from_wifi_module)
        (leb duration ((c.time_we_have_slept + get_timeout_duration c) % 2 ^ 32)) _ refl refl)
      refl

leave_wifi_on-signalled :
    (r : Controller × Bool)
    → r.0.signal_from_wifi_module ≡ true
    → (leave_wifi_on r).current_state ≡ PowerState.prepare_shutdown
unfolding leave_wifi_on notify_wifi_shutdown
leave_wifi_on-signalled (c, true) e = refl
leave_wifi_on-signalled (c, false) e = rw e refl

loop_in-release :
    (p : PowerState) (before after : List Interrupt) (c : Controller)
    → p ≡ PowerState.sleep_wifi_on
    → c.current_state ≡ p
    → (loop_in p (before ++ (signals release ++ after)) c).current_state
      ≡ PowerState.prepare_shutdown
unfolding stay_asleep_for trigger_watch_dog_in
loop_in-release PowerState.sleep_wifi_on before after c f e =
    let is = before ++ (signals release ++ after) in
    leave_wifi_on-signalled _ (
      after_sleep-keeps wifi_on_sleep_duration (go_to_sleep is (before_sleep c))
      ∙ go_to_sleep-release before after (before_sleep c)
          (field-if (λ (d : Controller). d.current_state) c.watch_dog_enabled _ e e))
loop_in-release PowerState.sleep_wifi_off before after c f e = absurd (ground (arith, f))
loop_in-release PowerState.prepare_shutdown before after c f e = absurd (ground (arith, f))

run-Reachable : (k : ℕ) {c : Controller} → Reachable c → Reachable (run k c)
run-Reachable zero r = r
run-Reachable (suc k) {c} r =
    run-Reachable k (Reachable.next r (Step.round (Interrupt.watch_dog ∷ []) c))

-- When the controller, in a reachable state, waits for the module, and the module signals the end
-- of its work at any time while the controller sleeps, the controller prepares the shutdown, with
-- the module still powered, and after one or two timeouts of the watchdog with no other interrupt
-- the module is off.
pub release_switches_off :
    (before after : List Interrupt) (c : Controller)
    → Reachable c
    → c.current_state ≡ PowerState.sleep_wifi_on
    → let noticed = loop (before ++ (signals release ++ after)) c in
      (noticed.current_state ≡ PowerState.prepare_shutdown)
      × (noticed.wifi_module_pin ≡ true)
      × ((k : ℕ) × (1 ≤ k)
          × (k ≤ 2)
          × ((run k noticed).current_state ≡ PowerState.sleep_wifi_off)
          × ((run k noticed).wifi_module_pin ≡ false))
unfolding loop
release_switches_off before after c r e =
    let is = before ++ (signals release ++ after) in
    let noticed = loop is c in
    let preparing : noticed.current_state ≡ PowerState.prepare_shutdown =
      loop_in-release c.current_state before after c e refl in
    let reached : Reachable noticed = Reachable.next r (Step.round is c) in
    let (k, some_rounds, few, off) = run-next_state noticed reached in
    let ended = off ∙ ap next_state preparing in
    (
      preparing,
      (Reachable-IsSound reached).pin ∙ ap powered preparing,
      (
        k,
        some_rounds,
        few,
        ended,
        (Reachable-IsSound (run-Reachable k reached)).pin ∙ ap powered ended,
      ),
    )
