-- ===== src/WifiNode.antt =====
-- server/include/WifiNode.h: the constants and structures of the positioning code, and
-- `initKalmanParams`, `InsNodeDefine` and `destroyInsNode` of server/src/WifiNode.c, which set them up
-- and clear them.
pub mod Kalman
pub mod Ordering
pub mod PathLoss
pub mod Trilateration
pub mod Positioning
pub mod Registry
pub mod Config
use indoor_navigation_system.Base.{
  ℕ, ◌+◌, ◌%◌, ◌^◌, Bool, ℤ, pos, negsuc, Text, Option, none, some, List, [], ◌∷◌, map, ltb, length,
  replicate, if◌then◌else◌,
}
use indoor_navigation_system.Machine.{Machine}

abbrev pub number_samples : ℕ
number_samples = 4000

abbrev pub no_floors : ℕ
no_floors = 3

abbrev pub trilaterat_number_nodes : ℕ
trilaterat_number_nodes = 3

abbrev pub maximum_number_nodes : ℕ
maximum_number_nodes = 15

abbrev pub dev_name : ℕ
dev_name = 64

abbrev pub initial_error_estimate : ℤ
initial_error_estimate = pos 20

abbrev pub initial_error_measurement : ℤ
initial_error_measurement = pos 5

abbrev pub initial_estimate : ℤ
initial_estimate = negsuc 49

-- `uint32_t` arithmetic wraps.
abbrev pub u32 : ℕ → ℕ
u32 n = n % 2 ^ 32

-- A `float[3]`.
pub record Coordinates (F : Type 0) : Type 0 where
  pub x : F
  pub y : F
  pub z : F

pub record KalmanParams (F : Type 0) : Type 0 where
  pub initial_error_estimate : F
  pub initial_error_measurement : F
  pub initial_power_estimate : F
  pub estimate : F
  pub kalman_gain : F

pub record PathLossParams (F : Type 0) : Type 0 where
  pub n_factor : F
  pub power_do : F
  pub do_distance : F
  pub power_d : F
  pub d_distance : F

-- `mac_address` is a pointer, and may be null. `rssi_sample_data` holds `number_samples` elements.
pub record WifiParams (F : Type 0) : Type 0 where
  pub position : Coordinates F
  pub mac_address : Option Text
  pub distance : F
  pub est_received_power : F
  pub rssi_sample_data : List F
  pub no_sample_data : ℕ
  pub no_processed_sample_data : ℕ
  pub wifi_init_params : KalmanParams F
  pub path_loss : PathLossParams F

-- What the function pointers of a node can hold.
pub data Callback : Type 0 where
  null kalman_process rssi2_power power2distance trilateration_process : Callback

-- `struct insNode_tag`. Its `next` is the order of the list that the node stands in.
pub record InsNode (F : Type 0) : Type 0 where
  pub device_no : ℕ
  pub dev_name : Text
  pub mac_address : Text
  pub node_cart_position : Coordinates F
  pub wifi_access_point_node : List (WifiParams F)
  pub wifi_no : ℕ
  pub trilateration_process : Callback
  pub rssi2_power_process : Callback
  pub power2distance_process : Callback
  pub filter_process : Callback

module _ {F D : Type 0} (m : Machine F D) where
  open m use {int_to_float}

  abbrev pub float_zero : F
  float_zero = int_to_float (pos 0)

  abbrev pub zero_coordinates : Coordinates F
  zero_coordinates = record { x = float_zero; y = float_zero; z = float_zero }

  unfoldable pub zero_samples : List F
  zero_samples = replicate number_samples float_zero

  -- The memory of an access point after `memset` or `calloc`.
  abbrev pub zero_wifi : WifiParams F
  zero_wifi = record {
    position = zero_coordinates;
    mac_address = none;
    distance = float_zero;
    est_received_power = float_zero;
    rssi_sample_data = zero_samples;
    no_sample_data = 0;
    no_processed_sample_data = 0;
    wifi_init_params = record {
      initial_error_estimate = float_zero;
      initial_error_measurement = float_zero;
      initial_power_estimate = float_zero;
      estimate = float_zero;
      kalman_gain = float_zero;
    };
    path_loss = record {
      n_factor = float_zero;
      power_do = float_zero;
      do_distance = float_zero;
      power_d = float_zero;
      d_distance = float_zero;
    };
  }

  -- A node of zeros, as the root of the list is.
  abbrev pub zero_node : InsNode F
  zero_node = record {
    device_no = 0;
    dev_name = [];
    mac_address = [];
    node_cart_position = zero_coordinates;
    wifi_access_point_node = replicate maximum_number_nodes zero_wifi;
    wifi_no = 0;
    trilateration_process = null;
    rssi2_power_process = null;
    power2distance_process = null;
    filter_process = null;
  }

  unfoldable pub init_kalman_params : WifiParams F → WifiParams F
  init_kalman_params w = record w {
    no_sample_data = number_samples;
    est_received_power = int_to_float initial_estimate;
    wifi_init_params = record (w.wifi_init_params) {
      initial_power_estimate = int_to_float initial_estimate;
      kalman_gain = float_zero;
      initial_error_estimate = int_to_float initial_error_estimate;
    };
    path_loss = record (w.path_loss) { do_distance = int_to_float (pos 1) };
    no_processed_sample_data = 0;
  }

  -- `none` where `strcat` writes past the 64 bytes of a name.
  unfoldable pub ins_node_define : ℕ → Text → Option (InsNode F)
  ins_node_define device_no id =
      if ltb (length id) dev_name
      then some (record zero_node {
        mac_address = id;
        dev_name = id;
        power2distance_process = power2distance;
        filter_process = kalman_process;
        rssi2_power_process = rssi2_power;
        trilateration_process = trilateration_process;
        device_no = device_no;
        wifi_access_point_node = map init_kalman_params zero_node.wifi_access_point_node;
      })
      else none

  abbrev pub clear_wifi : WifiParams F → WifiParams F
  clear_wifi w = record w {
    distance = float_zero;
    est_received_power = float_zero;
    mac_address = none;
    no_sample_data = 0;
    rssi_sample_data = zero_samples;
    no_processed_sample_data = 0;
  }

  unfoldable pub destroy_ins_node : InsNode F → InsNode F
  destroy_ins_node n = record n { wifi_access_point_node = map clear_wifi n.wifi_access_point_node }
