-- ===== src/WifiNode/Config/Reader.antt =====
-- The local configuration of server/src/WifiAccessPointLocalConfig.c as what server/src/WifiNode.c
-- reads.
use indoor_navigation_system.Base.{Option}
use indoor_navigation_system.Machine.{Machine}
use indoor_navigation_system.LocalConfig.{Xml, lcfg_get_string_parameter, lcfg_get_float_parameter}
use indoor_navigation_system.WifiNode.Config.{ConfigReader}

abbrev pub lcfg_reader : {N F D : Type 0} → Machine F D → Xml N → Option N → ConfigReader F
lcfg_reader m xml first = record {
  get_string = lcfg_get_string_parameter xml first;
  get_float = lcfg_get_float_parameter m xml first;
}
