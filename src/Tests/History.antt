-- ===== src/Tests/History.antt =====
-- Device 7 uploads a reading, is resolved and is asked for, on the small database.
use indoor_navigation_system.WifiNode.Registry.Ready.{create_ins_node_list_device-IsNodeList}
use indoor_navigation_system.Base.{
  length-Perm, ap, ◌<◌, length, true, inl, arith, negsuc, join, print_ℤ, decimal, ◌∙◌, sym,
  some_injective, ℕ, starts_with, ℤ, codes, text_eq, Option, none, some, List, [], ◌∷◌, ◌≡◌, refl,
}
use mathlib.Mathlib.Data.Multiset.Defs.{of_list}
use indoor_navigation_system.DataStore.Groups.{length-all_rows, all_rows}
use indoor_navigation_system.Service.Site.{IsSeries, Step, IsServing, Site, IsClean}
use indoor_navigation_system.DataStore.Operations.{
  AccessPointRssiList, create_location_table, init, insert_rssi_readings, create_device_table,
  get_distinct_access_points, read_access_points, close_store, update_device_location,
}
use indoor_navigation_system.DataStore.{
  AccessPointRssi, insert_readings_sql, create_device_sql, Position, distinct_sql, clear_device_sql,
  update_location_sql,
}
use indoor_navigation_system.WifiNode.Registry.Lookup.{contains_id}
use mathlib.Core.Quot.{lift}
use native.Mathlib.Nat.{ℕ_set}
use indoor_navigation_system.Tests.Requests.{aa, empty, request, origin, one_reading, device_seven}
use indoor_navigation_system.Service.Site.Ends.{serve_answers}
use indoor_navigation_system.Service.{
  Response, get_device_position, resolve_device_position, all_readings,
  set_received_signal_strengths, Server, success, init_server, position_response,
}
use indoor_navigation_system.DataStore.Contents.{Contents, no_rows}
use indoor_navigation_system.Service.Site.Refinement.{serve-Step}
use indoor_navigation_system.Service.Site.History.{Agrees, Event, Run, IsPlaced}
use indoor_navigation_system.WifiNode.{ins_node_define}
use indoor_navigation_system.WifiNode.Registry.{create_from, create_ins_node_list_device}
use indoor_navigation_system.LocalConfig.Initialize.{check_root, lcfg_initialize}
use indoor_navigation_system.Machine.Integers.{integers}
use indoor_navigation_system.DataStore.Contents.Contract.{answer_for}
use indoor_navigation_system.Service.Routes.{Handler, serve}
use indoor_navigation_system.Service.Site.History.Agreement.{
  Run-Agrees, get_device_position-IsPlaced,
}
use indoor_navigation_system.Localization.{process_rssi_data_set, position_of}
use indoor_navigation_system.Tests.Program.{file_calls, no_config}
use indoor_navigation_system.Tests.SmallStore.{Rows, small_store, small_contract, seven}

abbrev no_row : Rows
no_row = record { table = []; placed = none }

-- Device 7 belongs to an employee.
abbrev assigned : Contents ℤ
assigned = record no_rows { staff = λ e. seven ∷ [] }

abbrev started : Server ℕ Rows ℕ ℤ
started = init_server integers small_store empty no_row file_calls no_config

-- The server after a request, or as before if the handler does not end.
abbrev next : Handler → Server ℕ Rows ℕ ℤ → Server ℕ Rows ℕ ℤ
next h server = elim (serve integers small_store empty [] origin h server request) [
  | none ↦ server
  | some r ↦ r.0
]

abbrev uploaded : Server ℕ Rows ℕ ℤ
uploaded = next Handler.set_rssi started

abbrev resolved : Server ℕ Rows ℕ ℤ
resolved = next Handler.resolve_pos uploaded

abbrev log : List Event
log =
    record { handler = Handler.resolve_pos; request = request; sent = success ∷ [] }
    ∷ record { handler = Handler.set_rssi; request = request; sent = success ∷ [] }
    ∷ []

no_employee : request.param (codes ":employee_id") ≡ none
unfolding text_eq
no_employee = refl

request-IsClean : IsClean integers small_store empty [] origin small_contract no_config request
unfolding small_contract
request-IsClean = record {
  name = λ id e. some_injective (sym e ∙ device_seven);
  employee = λ u e. cc (e, no_employee);
  upload = λ rs e. some_injective (sym e ∙ one_reading);
}

started_config : (lcfg_initialize empty file_calls no_config).1 ≡ no_config
unfolding lcfg_initialize check_root
started_config = refl

upload_handled :
    serve integers small_store empty [] origin Handler.set_rssi started request
    ≡ some (uploaded, success ∷ [])
unfolding serve set_received_signal_strengths all_readings text_eq decimal create_device_table
    insert_rssi_readings create_ins_node_list_device create_from create_device_sql init_server init
    ins_node_define create_location_table insert_readings_sql print_ℤ lcfg_initialize check_root
    clear_device_sql starts_with join
upload_handled = refl

resolve_handled :
    serve integers small_store empty [] origin Handler.resolve_pos uploaded request
    ≡ some (resolved, success ∷ [])
unfolding serve set_received_signal_strengths all_readings text_eq decimal create_device_table
    insert_rssi_readings create_ins_node_list_device create_from create_device_sql init_server init
    ins_node_define create_location_table insert_readings_sql print_ℤ lcfg_initialize check_root
    resolve_device_position process_rssi_data_set position_of get_distinct_access_points
    distinct_sql read_access_points update_location_sql starts_with close_store clear_device_sql
    update_device_location join
resolve_handled = refl

steps : Run integers small_store empty [] origin small_contract no_config assigned resolved log
unfolding small_contract
steps =
    Run.after Handler.resolve_pos request (success ∷ [])
      (Run.after Handler.set_rssi request (success ∷ [])
        (Run.start no_row file_calls no_config (refl, refl, refl) started_config) request-IsClean
        upload_handled)
      request-IsClean resolve_handled

get_device_position-IsPlaced_example :
    (o : Option (Position ℤ)) × IsPlaced integers small_store empty [] origin small_contract
      no_config assigned seven log o
    × (get_device_position integers small_store empty origin resolved request
        ≡ some (
          resolved,
          position_response integers small_store empty
                (codes "device_id")
                seven
                (answer_for origin o)
              ∷ [],
        ))
get_device_position-IsPlaced_example =
    get_device_position-IsPlaced integers small_store empty [] origin small_contract no_config
      assigned request seven steps request-IsClean device_seven

abbrev no_site : Site ℤ
no_site = record { names = [] ∷ []; contents = assigned }

started-IsServing :
    IsServing integers small_store empty [] origin small_contract no_config started no_site
unfolding small_contract init_server init create_location_table text_eq starts_with clear_device_sql
    insert_readings_sql
started-IsServing = record {
  opened = tt;
  represents = (refl, refl, refl);
  named = refl;
  well = (refl, ((refl, tt), tt), tt);
  configured = started_config;
}

serve-Step_example :
    (site : Site ℤ) × Step integers small_store empty [] origin small_contract no_config request
      no_site Handler.set_rssi site
      (success ∷ [])
    × IsServing integers small_store empty [] origin small_contract no_config uploaded site
serve-Step_example =
    serve-Step integers small_store empty [] origin small_contract no_config Handler.set_rssi
      started no_site request started-IsServing request-IsClean upload_handled

Run-Agrees_example :
    (site : Site ℤ) × IsServing integers small_store empty [] origin small_contract no_config
      resolved site
    × Agrees integers small_store empty [] origin small_contract no_config assigned log site
Run-Agrees_example =
    Run-Agrees integers small_store empty [] origin small_contract no_config assigned steps

-- The site after the upload.
abbrev seven_site : Site ℤ
seven_site = record {
  names = [] ∷ seven ∷ [];
  contents = record assigned { readings = λ t. of_list ((aa, negsuc 49) ∷ []) };
}

seven_created :
    (p : Option ℕ) × (create_ins_node_list_device integers started.nodes seven
      ≡ some (uploaded.nodes, p))
unfolding serve set_received_signal_strengths all_readings text_eq decimal create_device_table
    insert_rssi_readings create_ins_node_list_device create_from create_device_sql init_server init
    ins_node_define create_location_table insert_readings_sql print_ℤ lcfg_initialize check_root
    clear_device_sql starts_with join
seven_created = (_, refl)

uploaded-IsServing :
    IsServing integers small_store empty [] origin small_contract no_config uploaded seven_site
unfolding small_contract serve set_received_signal_strengths all_readings text_eq decimal
    create_device_table insert_rssi_readings create_ins_node_list_device create_from
    create_device_sql init_server init ins_node_define create_location_table insert_readings_sql
    print_ℤ lcfg_initialize check_root clear_device_sql starts_with join
uploaded-IsServing = record {
  opened = tt;
  represents = (refl, refl, refl);
  named = refl;
  well =
      create_ins_node_list_device-IsNodeList integers started.nodes seven seven_created.1
        started-IsServing.well;
  configured = started_config;
}

length-of_list : (xs ys : List AccessPointRssi) → of_list xs ≡ of_list ys → length xs ≡ length ys
length-of_list xs ys e = ap (lift ℕ_set length (λ us vs p. length-Perm p)) e

one_access_point :
    (list : List AccessPointRssiList)
    → IsSeries integers small_store empty [] origin small_contract no_config seven
        seven_site.contents list
    → length list < 3
one_access_point list (used, once, heard) =
    omega (
      arith,
      length-of_list (all_rows list) ((aa, negsuc 49) ∷ []) used,
      length-all_rows list heard,
    )

seven_registered : contains_id seven seven_site.names ≡ true
unfolding text_eq
seven_registered = refl

serve_answers_example :
    (after : Server ℕ Rows ℕ ℤ) × (sent : List Response) × (site : Site ℤ) × (serve integers
        small_store empty [] origin Handler.resolve_pos uploaded request
      ≡ some (after, sent))
    × Step integers small_store empty [] origin small_contract no_config request seven_site
        Handler.resolve_pos site sent
    × IsServing integers small_store empty [] origin small_contract no_config after site
serve_answers_example =
    serve_answers integers small_store empty [] origin small_contract no_config Handler.resolve_pos
      uploaded seven_site request uploaded-IsServing request-IsClean
      (
        seven,
        device_seven,
        (λ e. cc),
        seven_registered,
        λ list series. inl (one_access_point list series),
      )
