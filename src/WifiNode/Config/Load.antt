-- ===== src/WifiNode/Config/Load.antt =====
-- What `loadLCFGParams` (server/src/WifiNode.c) leaves in an access point.
use indoor_navigation_system.WifiNode.Config.{
  leaf, path_or, ConfigReader, find_mac_path, load_lcfg_params, read_leaf,
}
use indoor_navigation_system.Base.{◌≡◌, pos, ◌+ℤ◌, Text, codes, Option, some, ◌++◌, take}
use indoor_navigation_system.WifiNode.{Coordinates, WifiParams}

-- A block of the configuration with all its parameters.
pub record Block (F : Type 0) : Type 0 where
  pub position : Coordinates F
  pub d_distance : F
  pub power_do : F
  pub power_d : F
  pub mac_address : Text

module _ {F : Type 0} (reader : ConfigReader F) where
  -- Every parameter of the block can be read under the path, by the texts that the code puts behind
  -- it: the power at the distance is asked for with "macAddress" at its end.
  pub record IsComplete (path : Text) (b : Block F) : Type 0 where
    pub x : read_leaf reader path (codes "_3DPosition/x") ≡ some (pos 0, b.position.x)
    pub y : read_leaf reader path (codes "_3DPosition/y") ≡ some (pos 0, b.position.y)
    pub z : read_leaf reader path (codes "_3DPosition/z") ≡ some (pos 0, b.position.z)
    pub distance : read_leaf reader path (codes "arbitraryDistance") ≡ some (pos 0, b.d_distance)
    pub transmit : read_leaf reader path (codes "powerTransmit") ≡ some (pos 0, b.power_do)
    pub arbitrary :
        read_leaf reader path (codes "powerAtArbitraryDistancemacAddress") ≡ some (pos 0, b.power_d)
    pub address :
        reader.get_string (take 127 (path ++ codes "macAddress")) ≡ some (some b.mac_address)

  -- The access point with the parameters of a block.
  abbrev pub loaded : WifiParams F → Block F → WifiParams F
  loaded w b = record w {
    position = b.position;
    mac_address = some (b.mac_address);
    path_loss = record (w.path_loss) {
      d_distance = b.d_distance;
      power_do = b.power_do;
      power_d = b.power_d;
    };
  }

  -- Whatever path is in the buffer after `findMacPath`: if the block there is complete, the call
  -- succeeds with code 0, sets the position, the three parameters of the path loss and the address,
  -- and leaves the rest alone.
  pub load_lcfg_params_complete :
      (unwritten mac : Text) (found : Option Text) (w : WifiParams F) (b : Block F)
      → w.mac_address ≡ some mac
      → find_mac_path reader mac ≡ some found
      → IsComplete (path_or reader unwritten found) b
      → load_lcfg_params reader unwritten w ≡ some (0, loaded w b)
  unfolding load_lcfg_params ◌+ℤ◌ leaf
  load_lcfg_params_complete unwritten mac found w b known e c =
      rw (known, e, c.x, c.y, c.z, c.distance, c.transmit, c.arbitrary, c.address)
