-- ===== src/Tests/Race.antt =====
-- The registration of devices in the small steps of server/src/WifiNode.c.
use mathlib.Core.Option
use indoor_navigation_system.Base.{
  ℕ, ℤ, codes, text_eq, List, [], ◌∷◌, ◌≡◌, refl, Bool, false, Option, some, arith,
}
use indoor_navigation_system.Machine.Integers.{integers}
use indoor_navigation_system.WifiNode.{InsNode, zero_node}
use indoor_navigation_system.WifiNode.Registry.{create_ins_node_list_device}
use indoor_navigation_system.WifiNode.Registry.Lookup.{ids, contains_id}
use indoor_navigation_system.WifiNode.Registry.Race.{Call, steps, interleave}
use indoor_navigation_system.WifiNode.Registry.Race.Alone.{steps-create_ins_node_list_device}
use indoor_navigation_system.WifiNode.Registry.Race.Lost.{registrations_race}
use indoor_navigation_system.Tests.{wired_node}

abbrev root : InsNode ℤ
root = zero_node integers

eight_is_new : contains_id (codes "8") (ids (root ∷ wired_node ∷ [])) ≡ false
unfolding text_eq
eight_is_new = refl

nine_is_new : contains_id (codes "9") (ids (root ∷ wired_node ∷ [])) ≡ false
unfolding text_eq
nine_is_new = refl

registrations_race_example :
    (schedule : List Bool) × (node : InsNode ℤ) × (node.dev_name ≡ codes "9")
    × (interleave integers
          (codes "8")
          (codes "9")
          schedule
          (Call.walking 0 0)
          (Call.walking 0 0)
          (root ∷ wired_node ∷ [])
        ≡ some (Call.returned (some 2), Call.returned (some 2), root ∷ wired_node ∷ node ∷ []))
registrations_race_example =
    registrations_race integers (codes "8") (codes "9") root (wired_node ∷ []) (omega arith)
      (omega arith) eight_is_new nine_is_new

steps-create_ins_node_list_device_example :
    steps integers (codes "8") 3 (Call.walking 0 0) (root ∷ wired_node ∷ [])
    ≡ Option.map
        (λ (r : List (InsNode ℤ) × Option ℕ). (Call.returned r.1, r.0))
        (create_ins_node_list_device integers (root ∷ wired_node ∷ []) (codes "8"))
steps-create_ins_node_list_device_example =
    steps-create_ins_node_list_device integers (codes "8") root (wired_node ∷ []) (omega arith)
