-- ===== src/WifiModule.antt =====
-- ins-node/src/wifi_module/wifi_module.ino: the wireless module of a node, which scans for access
-- points and sends their signal strengths to the server. The radio and the connections to the server
-- are given by what they answer.
pub mod Requests
pub mod Power
pub mod Connection
use indoor_navigation_system.Base.{
  ◌^◌, ℕ, zero, suc, ◌+◌, ◌-◌, ◌*◌, ◌/◌, ◌%◌, ℤ, print_ℤ, Text, codes, text_eq, Bool, true, false,
  ◌||◌, List, [], ◌∷◌, ◌++◌, map, length, take, drop, if◌then◌else◌,
}

-- What the scan knows of a network.
pub record Network : Type 0 where
  pub ssid : Text
  pub bssid : Text
  pub rssi : ℤ

abbrev pub Datapoint : Type 0
Datapoint = Text × ℤ

abbrev pub default_transmission_size : ℕ
default_transmission_size = 10

abbrev pub positioning_networks : List Text
positioning_networks = codes "SSID-a" ∷ codes "SSID-b" ∷ []

abbrev pub is_one_of : Text → List Text → Bool
is_one_of t [] = false
is_one_of t (u ∷ us) = text_eq t u || is_one_of t us

unfoldable pub get_network_context : Network → Datapoint
get_network_context network = (network.bssid, network.rssi)

-- The loop over the networks that were found.
unfoldable pub get_datapoints : List Network → List Datapoint
unfolding get_network_context
get_datapoints [] = []
get_datapoints (network ∷ networks) =
    let datapoints = get_datapoints networks in
    if is_one_of network.ssid positioning_networks
    then get_network_context network ∷ datapoints
    else datapoints

-- Whether the connection is made, and whether an answer comes in time.
pub record Link : Type 0 where
  pub connects : Bool
  pub answers : Bool

-- The loop over the datapoints.
unfoldable pub datapoints_path : List Datapoint → Text
datapoints_path [] = []
datapoints_path ((mac, rssi) ∷ datapoints) =
    mac ++ (codes "/" ++ (print_ℤ rssi ++ (codes "/" ++ datapoints_path datapoints)))

abbrev pub line_end : Text
line_end = 13 ∷ 10 ∷ []

-- What is printed to the server, with the number of the device and the address of the server.
unfoldable pub request_text : List Datapoint → Text
unfolding datapoints_path
request_text datapoints =
    codes "POST "
    ++ (codes "/set_rssi/"
        ++ (codes "1"
            ++ (codes "/"
                ++ (datapoints_path datapoints
                    ++ (codes " HTTP/1.1"
                        ++ (line_end
                            ++ (codes "Host: "
                                ++ (codes "192.168.0.2"
                                    ++ (line_end
                                        ++ (codes "Connection: close"
                                            ++ (line_end ++ line_end)))))))))))

-- `transmitData`: the requests that it sent, and its result.
unfoldable pub transmit_data : Link → List Datapoint → List Text × Bool
unfolding request_text
transmit_data link [] = ([], false)
transmit_data link (datapoint ∷ datapoints) =
    if link.connects
    then (request_text (datapoint ∷ datapoints) ∷ [], link.answers)
    else ([], false)

-- The number of groups, as a `uint8_t`.
unfoldable pub transmissions : ℕ → ℕ
transmissions size = (size + (default_transmission_size - 1)) / default_transmission_size % 2 ^ 8

-- `transmissionData` of round `i`, which nothing reads.
unfoldable pub transmission_data : List Datapoint → ℕ → ℕ → List Datapoint
transmission_data datapoints rounds i =
    let first = i * default_transmission_size in
    let last = length datapoints - (rounds - (i + 1)) * default_transmission_size in
    take (last - first) (drop first datapoints)

-- The loop over the transmissions from `i` on, with the rounds left: the requests that are sent.
unfoldable pub transmit_all : (ℕ → Link) → List Datapoint → ℕ → ℕ → List Text
unfolding transmit_data
transmit_all links datapoints i zero = []
transmit_all links datapoints i (suc rounds) =
    let (sent, transmission_was_success) = transmit_data (links i) datapoints in
    let rest = transmit_all links datapoints (i + 1) rounds in
    if transmission_was_success then sent ++ rest else sent

-- `loop`, up to the sleep.
unfoldable pub loop : (ℕ → Link) → List Network → List Text
unfolding get_datapoints transmissions transmit_all
loop links networks =
    let datapoints = get_datapoints networks in
    transmit_all links datapoints 0 (transmissions (length datapoints))
