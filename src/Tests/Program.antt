-- ===== src/Tests/Program.antt =====
-- The server of server/src/main.cpp and server/src/ins_service.cpp from its start on.
use indoor_navigation_system.Base.{
  if◌then◌else◌, ℕ, ℤ, pos, negsuc, codes, text_eq, Text, Option, none, some, List, [], ◌∷◌, ◌≡◌,
  refl, true, false, arith,
}
use indoor_navigation_system.Machine.Integers.{integers}
use indoor_navigation_system.LocalConfig.Initialize.{FileCalls, Config}
use indoor_navigation_system.WifiNode.Registry.Ready.{IsNodeList}
use indoor_navigation_system.Service.{
  Server, init_server, success, get_device_position, handle_ready,
}
use indoor_navigation_system.Service.Routes.{Handler, setup_routes, serve}
use indoor_navigation_system.Service.Reachable.{Reachable, Reachable-IsNodeList}
use indoor_navigation_system.Service.Main.{
  EndpointCall, Event, Program, arguments, to_uint16, to_int, main, run,
}
use indoor_navigation_system.Service.Main.Run.{IsHandled, IsEnd, answered, main-IsEnd}
use indoor_navigation_system.Service.Registration.{
  set_received_signal_strengths-IsRegistered, IsRegistered,
}
use indoor_navigation_system.DataStore.{create_device_sql, insert_readings_sql}
use indoor_navigation_system.DataStore.Operations.{create_device_table, insert_rssi_readings, init}
use indoor_navigation_system.WifiNode.{InsNode}
use indoor_navigation_system.Tests.Requests.{
  device_seven, one_reading, aa, two_rows, empty, request, origin,
}

abbrev pub file_calls : FileCalls ℕ
file_calls = record { open_ok = false; fstat_ok = true; malloc_ok = true; parsed = none }

abbrev pub no_config : Config ℕ
no_config = record { doc = none; first_root_child = none }

abbrev started : Server ℕ ℕ ℕ ℤ
started = init_server integers two_rows empty 0 file_calls no_config

started-IsNodeList : IsNodeList integers started.nodes
started-IsNodeList =
    Reachable-IsNodeList integers two_rows empty [] origin (Reachable.start 0 file_calls no_config)

registers :
    (nodes : List (InsNode ℤ)) × (serve integers two_rows empty [] origin Handler.set_rssi started
        request
      ≡ some (record started { nodes = nodes }, success ∷ []))
    × IsRegistered (codes "7") nodes
unfolding serve create_device_table create_device_sql insert_rssi_readings insert_readings_sql
    text_eq init_server init
registers =
    set_received_signal_strengths-IsRegistered integers two_rows empty started request (codes "7")
      ((aa, negsuc 49) ∷ []) device_seven one_reading (omega arith) started-IsNodeList.1

Reachable-IsNodeList_example : IsNodeList integers registers.0
Reachable-IsNodeList_example = Reachable-IsNodeList integers two_rows empty [] origin (
    Reachable.after Handler.set_rssi request (success ∷ []) (Reachable.start 0 file_calls no_config)
      registers.1)

abbrev argv : List Text
argv = codes "ins_server" ∷ codes "70000" ∷ codes "4" ∷ []

abbrev stol : Text → Option ℤ
stol t = if text_eq t (codes "4") then some (pos 4) else some (pos 70000)

arguments-argv : arguments stol argv ≡ some (4464, pos 4)
unfolding arguments text_eq to_uint16 to_int
arguments-argv = refl

abbrev events : List Event
events =
    Event.requested Handler.ready request
    ∷ Event.awoken
    ∷ Event.signalled
    ∷ Event.requested Handler.get_device_pos request
    ∷ Event.awoken
    ∷ []

ready-IsHandled :
    IsHandled integers two_rows empty [] origin (Event.requested Handler.ready request)
unfolding serve handle_ready
ready-IsHandled s r = (s, _, refl)

get_device_pos-IsHandled :
    IsHandled integers two_rows empty [] origin (Event.requested Handler.get_device_pos request)
unfolding serve get_device_position text_eq
get_device_pos-IsHandled s r = (s, _, refl)

main-IsEnd_example :
    (begun : Program ℕ ℕ ℕ ℤ) × (last : Server ℕ ℕ ℕ ℤ) × (p : Program ℕ ℕ ℕ ℤ) × (main integers
        two_rows empty [] origin stol 0 file_calls no_config argv
      ≡ some begun)
    × (answered integers two_rows empty [] origin true events
          (init_server integers two_rows empty 0 file_calls no_config)
        ≡ some last)
    × (run integers two_rows empty [] origin events begun ≡ some p)
    × IsEnd integers two_rows empty [] origin
        (EndpointCall.create 4464
          ∷ EndpointCall.init (pos 4)
          ∷ EndpointCall.set_handler setup_routes
          ∷ EndpointCall.serve_threaded
          ∷ [])
        true
        last
        p
main-IsEnd_example =
    main-IsEnd integers two_rows empty [] origin stol 0 file_calls no_config argv events
      arguments-argv (ready-IsHandled, (tt, (tt, (get_device_pos-IsHandled, (tt, tt)))))
