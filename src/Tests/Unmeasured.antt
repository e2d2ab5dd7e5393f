-- ===== src/Tests/Unmeasured.antt =====
-- The sort of server/src/WifiNode.c on a node some of whose distances are not numbers.
use indoor_navigation_system.Base.{
  none, some, ℤ, pos, List, [], ◌∷◌, ◌++◌, ◌≡◌, refl, arith, Option, false, ◌*ℤ◌,
}
use indoor_navigation_system.WifiNode.Trilateration.{trilateration_process}
use indoor_navigation_system.WifiNode.Trilateration.Unlocated.{
  IsNowhere, trilateration_process_unlocated,
}
use indoor_navigation_system.Machine.Nan.{with_nan, with_nan-IsContagious, with_nan-IsOrdered}
use indoor_navigation_system.WifiNode.{
  InsNode, WifiParams, zero_wifi, zero_node, maximum_number_nodes,
}
use indoor_navigation_system.WifiNode.Ordering.{order_from, order_rssi_ascend}
use indoor_navigation_system.WifiNode.Ordering.Sorted.{IsAscending}
use indoor_navigation_system.WifiNode.Ordering.Unmeasured.{IsNan, order_rssi_ascend_unmeasured}

abbrev at_distance : Option ℤ → WifiParams (Option ℤ)
at_distance d = record (zero_wifi with_nan) { distance = d }

abbrev heard : List (WifiParams (Option ℤ))
heard = at_distance (some (pos 5)) ∷ at_distance (some (pos 3)) ∷ at_distance (some (pos 4)) ∷ []

abbrev not_heard : List (WifiParams (Option ℤ))
not_heard = at_distance none ∷ at_distance none ∷ []

abbrev node : InsNode (Option ℤ)
node = record (zero_node with_nan) { wifi_access_point_node = heard ++ not_heard }

no_number_above : (a : Option ℤ) → with_nan.gt a none ≡ false
no_number_above none = refl
no_number_above (some a) = refl

not_a_number : IsNan with_nan (at_distance none)
not_a_number = record { above = no_number_above; below = λ a. refl; far = refl; near = refl }

order_rssi_ascend_unmeasured_example :
    let ordered = order_from with_nan maximum_number_nodes heard in
    ((order_rssi_ascend with_nan node).wifi_access_point_node ≡ ordered ++ not_heard)
    × IsAscending with_nan ordered
unfolding ◌*ℤ◌
order_rssi_ascend_unmeasured_example =
    order_rssi_ascend_unmeasured with_nan with_nan-IsOrdered node heard not_heard refl (omega arith)
      (tt, (tt, (tt, tt))) (refl, (refl, (refl, tt))) (not_a_number, (not_a_number, tt))

abbrev two_heard : InsNode (Option ℤ)
two_heard = record (zero_node with_nan) {
  wifi_access_point_node =
      (at_distance (some (pos 5)) ∷ at_distance (some (pos 3)) ∷ []) ++ not_heard;
}

trilateration_process_unlocated_example :
    IsNowhere with_nan with_nan-IsContagious
      (trilateration_process with_nan two_heard).node_cart_position
unfolding ◌*ℤ◌
trilateration_process_unlocated_example =
    trilateration_process_unlocated with_nan with_nan-IsContagious two_heard
      (at_distance (some (pos 5)) ∷ at_distance (some (pos 3)) ∷ []) (at_distance none)
      (at_distance none ∷ []) refl (omega arith) (refl, (refl, tt)) (tt, (tt, tt))
