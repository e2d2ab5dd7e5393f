-- ===== src/Tests/Power.antt =====
-- The two programs of a node: ins-node/src/power_controller/power_controller.ino from its start on,
-- and the requests of ins-node/src/wifi_module/wifi_module.ino.
use indoor_navigation_system.WifiModule.Power as Start
use indoor_navigation_system.WifiModule.Power.{Action, begin_setup, release}
use indoor_navigation_system.WifiModule.Connection.{setup_connects_or_sleeps}
use indoor_navigation_system.PowerController.Handshake.{signals, release_switches_off}
use indoor_navigation_system.Base.{
  Bool, false, ◌==◌, ◌<◌, ◌⊎◌, ◌++◌, codes, negsuc, text_eq, replicate, length, arith, ℕ, ◌≡◌, ◌≢◌,
  ◌≤◌, refl, List, [], ◌∷◌, true,
}
use indoor_navigation_system.WifiModule
use indoor_navigation_system.WifiModule.{
  Network, Link, Datapoint, get_datapoints, get_network_context, transmissions, transmission_data,
  request_text,
}
use indoor_navigation_system.WifiModule.Requests.{loop-replicate, length-transmission_data}
use indoor_navigation_system.PowerController.{
  Controller, PowerState, Interrupt, setup, loop, Step, Reachable, stay_asleep_for,
  trigger_watch_dog_in, go_to_sleep, serve_interrupt, after_sleep, get_timeout_duration,
  leave_wifi_off, leave_wifi_on, notify_wifi_shutdown,
}
use indoor_navigation_system.PowerController.Sleep.{IsSound}
use indoor_navigation_system.PowerController.Invariant.{Reachable-IsSound}
use indoor_navigation_system.PowerController.Cycle.{
  shutdown_is_not_postponed, run, next_state, run-next_state,
}

abbrev bark : List Interrupt
bark = Interrupt.watch_dog ∷ []

abbrev preparing : Controller
preparing = loop bark (loop bark (loop bark (loop bark setup)))

preparing-Reachable : Reachable preparing
preparing-Reachable =
    Reachable.next
      (Reachable.next
        (Reachable.next (Reachable.next Reachable.start (Step.round bark setup))
          (Step.round bark _))
        (Step.round bark _))
      (Step.round bark _)

preparing-state : preparing.current_state ≡ PowerState.prepare_shutdown
unfolding loop setup stay_asleep_for trigger_watch_dog_in go_to_sleep serve_interrupt after_sleep
    get_timeout_duration leave_wifi_off leave_wifi_on notify_wifi_shutdown
preparing-state = refl

Reachable-IsSound_example : IsSound preparing
Reachable-IsSound_example = Reachable-IsSound preparing-Reachable

shutdown_is_not_postponed_example :
    (loop (Interrupt.pin_change true ∷ []) preparing).current_state ≢ PowerState.sleep_wifi_on
shutdown_is_not_postponed_example =
    shutdown_is_not_postponed (Interrupt.pin_change true ∷ []) preparing preparing-Reachable
      preparing-state

run-next_state_example :
    (k : ℕ) × (1 ≤ k)
    × (k ≤ 2)
    × ((run k preparing).current_state ≡ next_state preparing.current_state)
run-next_state_example = run-next_state preparing preparing-Reachable

abbrev scan : List Network
scan =
    record { ssid = codes "SSID-a"; bssid = codes "aa"; rssi = negsuc 49 }
    ∷ record { ssid = codes "guest"; bssid = codes "bb"; rssi = negsuc 39 }
    ∷ []

abbrev good_link : Link
good_link = record { connects = true; answers = true }

scanned : get_datapoints scan ≡ (codes "aa", negsuc 49) ∷ []
unfolding get_datapoints get_network_context text_eq
scanned = refl

loop-replicate_example :
    WifiModule.loop (λ i. good_link) scan
    ≡ replicate (transmissions 1) (request_text ((codes "aa", negsuc 49) ∷ []))
loop-replicate_example = loop-replicate (λ i. good_link) scan (λ j. (refl, refl)) scanned

abbrev twelve : List Datapoint
twelve = replicate 12 (codes "aa", negsuc 49)

length-transmission_data_example : length (transmission_data twelve 2 0) ≡ 2
unfolding replicate transmissions
length-transmission_data_example =
    length-transmission_data twelve 2 0 (omega arith) refl (omega arith)

-- The status of a module that is connected at its fourth read.
abbrev slow_status : ℕ → Bool
slow_status i = 3 == i

setup_connects_or_sleeps_example :
    ((k : ℕ) × (k < 20)
      × (slow_status k ≡ true)
      × ((j : ℕ) → j < k → slow_status j ≡ false)
      × (Start.setup slow_status ≡ begin_setup ++ replicate k (Action.delay 500)))
    ⊎ (((j : ℕ) → j < 20 → slow_status j ≡ false)
        × (Start.setup slow_status
            ≡ begin_setup ++ (replicate 19 (Action.delay 500) ++ Start.go_to_sleep)))
setup_connects_or_sleeps_example = setup_connects_or_sleeps slow_status

abbrev waiting : Controller
waiting = loop bark (loop bark setup)

waiting-Reachable : Reachable waiting
waiting-Reachable =
    Reachable.next (Reachable.next Reachable.start (Step.round bark setup)) (Step.round bark _)

waiting-state : waiting.current_state ≡ PowerState.sleep_wifi_on
unfolding loop setup stay_asleep_for trigger_watch_dog_in go_to_sleep serve_interrupt after_sleep
    get_timeout_duration leave_wifi_off
waiting-state = refl

release_switches_off_example :
    let noticed = loop ([] ++ (signals release ++ bark)) waiting in
    (noticed.current_state ≡ PowerState.prepare_shutdown)
    × (noticed.wifi_module_pin ≡ true)
    × ((k : ℕ) × (1 ≤ k)
        × (k ≤ 2)
        × ((run k noticed).current_state ≡ PowerState.sleep_wifi_off)
        × ((run k noticed).wifi_module_pin ≡ false))
release_switches_off_example = release_switches_off [] bark waiting waiting-Reachable waiting-state
