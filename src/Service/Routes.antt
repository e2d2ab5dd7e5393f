-- ===== src/Service/Routes.antt =====
-- `SetupRoutes` of server/src/ins_service.cpp: which handler Pistache calls for which route.
use indoor_navigation_system.Base.{Text, codes, List, [], ◌∷◌, ◌++◌}
use indoor_navigation_system.Machine.{Machine}
use indoor_navigation_system.LocalConfig.{Xml}
use indoor_navigation_system.DataStore.{Position, Sqlite}
use indoor_navigation_system.Service.{
  Server, Request, Handled, set_received_signal_strengths, resolve_device_position,
  reset_device_position, get_device_position, get_employee_position, handle_ready, auth,
}

pub data Method : Type 0 where
  get post : Method

pub data Handler : Type 0 where
  set_rssi resolve_pos reset_pos get_device_pos get_employee_pos ready authorise : Handler

pub record Route : Type 0 where
  pub method : Method
  pub pattern : Text
  pub handler : Handler

abbrev route : Method → Text → Handler → Route
route method pattern handler = record { method = method; pattern = pattern; handler = handler }

abbrev set_rssi_pattern : Text
set_rssi_pattern =
    codes "/set_rssi/:device_id/:mac_addr1/:rssi1/:mac_addr2?/:rssi2?/:mac_addr3?/:rssi3?/"
    ++ (codes ":mac_addr4?/:rssi4?/:mac_addr5?/:rssi5?/:mac_addr6?/:rssi6?/:mac_addr7?/:rssi7?/"
        ++ codes ":mac_addr8?/:rssi8?/:mac_addr9?/:rssi9?/:mac_addr10?/:rssi10?")

unfoldable pub setup_routes : List Route
setup_routes =
    route post set_rssi_pattern set_rssi
    ∷ route post (codes "/resolve_pos/:device_id") resolve_pos
    ∷ route post (codes "/reset_pos/:device_id") reset_pos
    ∷ route get (codes "/get_device_pos/:device_id") get_device_pos
    ∷ route get (codes "/get_employee_pos/:employee_id") get_employee_pos
    ∷ route get (codes "/ready") ready
    ∷ route get (codes "/auth") authorise
    ∷ []

module _ {H B R N F D : Type 0} (m : Machine F D) (sqlite : Sqlite H B R D) (xml : Xml N)
    (unwritten : Text) (unset : Position D) where
  -- The call of a route's handler.
  unfoldable pub serve : Handler → Server H B N F → Request → Handled m sqlite xml
  serve set_rssi = set_received_signal_strengths m sqlite xml
  serve resolve_pos = resolve_device_position m sqlite xml unwritten
  serve reset_pos = reset_device_position m sqlite xml
  serve get_device_pos = get_device_position m sqlite xml unset
  serve get_employee_pos = get_employee_position m sqlite xml unset
  serve ready = handle_ready m sqlite xml
  serve authorise = auth m sqlite xml
