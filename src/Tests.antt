-- ===== src/Tests.antt =====
-- The theorems on concrete inputs: the nodes and the positioning of server/src/WifiNode.c, the local
-- configuration, the data store, the requests, and the programs of a node.
mod Positioning
mod Registry
mod Config
mod Parameters
mod Unmeasured
mod Unterminated
mod Program
mod Stored
mod Race
mod Requests
mod Upload
mod Power
mod SmallStore
mod History
mod Nearest
use indoor_navigation_system.Base.{ℕ, ℤ, pos, negsuc, Text, codes, List, [], ◌∷◌}
use indoor_navigation_system.Machine.Integers.{integers}
use indoor_navigation_system.WifiNode.{WifiParams, InsNode, zero_wifi, zero_node, Callback}

-- An access point at a place and a distance.
abbrev pub access_point_at : ℤ → ℤ → ℤ → WifiParams ℤ
access_point_at x y distance = record (zero_wifi integers) {
  position = record { x = x; y = y; z = pos 0 };
  distance = distance;
}

abbrev pub far : WifiParams ℤ
far = access_point_at (pos 0) (pos 0) (pos 5)

abbrev pub right : WifiParams ℤ
right = access_point_at (pos 3) (pos 0) (pos 4)

abbrev pub top : WifiParams ℤ
top = access_point_at (pos 0) (pos 4) (pos 3)

-- A node at (3, 4) that measures its distances to three corners of a rectangle, and an access point
-- that it does not hear.
abbrev pub corner_node : InsNode ℤ
corner_node = record (zero_node integers) {
  dev_name = codes "7";
  wifi_access_point_node = far ∷ right ∷ zero_wifi integers ∷ top ∷ [];
}

-- A node whose function pointers are set.
abbrev pub wired_node : InsNode ℤ
wired_node = record (zero_node integers) {
  dev_name = codes "7";
  filter_process = Callback.kalman_process;
  rssi2_power_process = Callback.rssi2_power;
  power2distance_process = Callback.power2distance;
  trilateration_process = Callback.trilateration_process;
}
