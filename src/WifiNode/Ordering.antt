-- ===== src/WifiNode/Ordering.antt =====
-- `orderRSSIAscend` of server/src/WifiNode.c: an exchange sort of a node's access points by distance.
-- Its copies to and from a local array are the values here.
-- The comment in server/include/WifiNode.h speaks of an order of estimated power; the code compares
-- the distances.
pub mod Permutation
pub mod Sorted
pub mod Unmeasured
use indoor_navigation_system.Base.{ℕ, zero, suc, Bool, ◌&&◌, ◌||◌, List, [], ◌∷◌, if◌then◌else◌}
use indoor_navigation_system.Machine.{Machine}
use indoor_navigation_system.WifiNode.{WifiParams, InsNode, maximum_number_nodes}

module _ {F D : Type 0} (m : Machine F D) where
  open m use {gt, widen, tenth, double_gt}

  -- The test of the inner loop, for the elements at `i` and at `j`.
  unfoldable pub must_swap : WifiParams F → WifiParams F → Bool
  must_swap a b =
      (gt a.distance b.distance && double_gt (widen b.distance) tenth)
      || double_gt tenth (widen a.distance)

  -- The inner loop: `a` stands at `i`, and the list is the array from `i + 1` on. The result is what
  -- stands at `i` afterwards, with the rest of the array.
  unfoldable pub exchange : WifiParams F → List (WifiParams F) → WifiParams F × List (WifiParams F)
  unfolding must_swap
  exchange a [] = (a, [])
  exchange a (b ∷ bs) =
      let swap = must_swap a b in
      let (first, rest) = exchange (if swap then b else a) bs in
      (first, (if swap then a else b) ∷ rest)

  -- The outer loop over the array from `i` on, with the rounds that are left.
  unfoldable pub order_from : ℕ → List (WifiParams F) → List (WifiParams F)
  unfolding exchange
  order_from zero ws = ws
  order_from (suc rounds) [] = []
  order_from (suc rounds) (a ∷ ws) =
      let (first, rest) = exchange a ws in first ∷ order_from rounds rest

  unfoldable pub order_rssi_ascend : InsNode F → InsNode F
  unfolding order_from
  order_rssi_ascend n = record n {
    wifi_access_point_node = order_from maximum_number_nodes n.wifi_access_point_node;
  }
