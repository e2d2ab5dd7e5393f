-- ===== src/WifiNode/Ordering/Unmeasured.antt =====
-- The exchange sort of server/src/WifiNode.c on a node that was located before: the access points
-- that no request has filled yet then have a distance that is not a number, since `destroyInsNode`
-- clears their power and their path loss is 0.
use indoor_navigation_system.Base.{
  ℕ, zero, suc, ◌≤◌, ◌≡◌, refl, ap, ◌∙◌, false, List, [], ◌∷◌, ◌++◌, All, length, if◌then◌else◌,
  Bool-cases, inl, inr,
}
use indoor_navigation_system.Machine.{Machine}
use indoor_navigation_system.Machine.Laws.{IsOrdered}
use indoor_navigation_system.WifiNode.{WifiParams, InsNode, maximum_number_nodes}
use indoor_navigation_system.WifiNode.Ordering.{must_swap, exchange, order_from, order_rssi_ascend}
use indoor_navigation_system.WifiNode.Ordering.Permutation.{exchange-All}
use indoor_navigation_system.WifiNode.Ordering.Sorted.{
  IsReached, IsAscending, IsMeasured, order_from-IsAscending,
}

module _ {F D : Type 0} (m : Machine F D) where
  open m use {gt, widen, tenth, double_gt}

  -- No comparison with the distance holds, as it is with NaN.
  pub record IsNan (w : WifiParams F) : Type 0 where
    pub above : (a : F) → gt a w.distance ≡ false
    pub below : (a : F) → gt w.distance a ≡ false
    pub far : double_gt (widen w.distance) tenth ≡ false
    pub near : double_gt tenth (widen w.distance) ≡ false

  -- The distance is not below 0.1.
  abbrev pub Stays : WifiParams F → Type 0
  Stays w = double_gt tenth (widen w.distance) ≡ false

  exchange-nan :
      (a : WifiParams F) (ns : List (WifiParams F))
      → Stays a
      → All IsNan ns
      → exchange m a ns ≡ (a, ns)
  unfolding exchange must_swap
  exchange-nan a [] s _ = refl
  exchange-nan a (n ∷ ns) s (nan, nans) =
      rw (nan.above a.distance, s) (ap (λ r. (r.0, n ∷ r.1)) (exchange-nan a ns s nans))

  order_from-nan :
      (rounds : ℕ) (ns : List (WifiParams F)) → All IsNan ns → order_from m rounds ns ≡ ns
  unfolding order_from
  order_from-nan zero ns nans = refl
  order_from-nan (suc rounds) [] nans = refl
  order_from-nan (suc rounds) (n ∷ ns) (nan, nans) =
      let step = exchange-nan n ns nan.near nans in
      ap (λ r. r.0 ∷ order_from m rounds r.1) step ∙ ap (◌∷◌ n) (order_from-nan rounds ns nans)

  exchange-append :
      (a : WifiParams F) (bs ns : List (WifiParams F))
      → Stays a
      → All Stays bs
      → All IsNan ns
      → exchange m a (bs ++ ns) ≡ ((exchange m a bs).0, (exchange m a bs).1 ++ ns)
  unfolding exchange
  exchange-append a [] ns s _ nans = exchange-nan a ns s nans
  exchange-append a (b ∷ bs) ns s (t, ts) nans =
      let swap = must_swap m a b in
      let kept : Stays (if swap then b else a) = elim (Bool-cases swap) [
        | inl e ↦ rw e t
        | inr e ↦ rw e s
      ] in
      ap (λ r. (r.0, (if swap then a else b) ∷ r.1))
        (exchange-append (if swap then b else a) bs ns kept ts nans)

  pub order_from-append :
      (rounds : ℕ) (ws ns : List (WifiParams F))
      → All Stays ws
      → All IsNan ns
      → order_from m rounds (ws ++ ns) ≡ order_from m rounds ws ++ ns
  unfolding order_from
  order_from-append zero ws ns ss nans = refl
  order_from-append (suc rounds) [] ns ss nans = order_from-nan (suc rounds) ns nans
  order_from-append (suc rounds) (a ∷ ws) ns (s, ss) nans =
      ap (λ r. r.0 ∷ order_from m rounds r.1) (exchange-append a ws ns s ss nans)
      ∙ ap (◌∷◌ (exchange m a ws).0)
          (order_from-append rounds (exchange m a ws).1 ns (exchange-All m Stays a ws s ss).1 nans)

  module _ {IsNumber : F → Type 0} (laws : IsOrdered m IsNumber) where
    All-Stays : (ws : List (WifiParams F)) → All (IsReached m) ws → All Stays ws
    All-Stays [] rs = tt
    All-Stays (w ∷ ws) (r, rs) = (laws.tenth_asymm w.distance r, All-Stays ws rs)

    -- If the access points with a number for a distance stand in front, and all these are above 0.1,
    -- the sort of at most fifteen access points orders them by rising distance and leaves the
    -- others, whose distance is NaN, behind them as they are.
    pub order_rssi_ascend_unmeasured :
        (n : InsNode F) (ws ns : List (WifiParams F))
        → n.wifi_access_point_node ≡ ws ++ ns
        → length ws ≤ maximum_number_nodes
        → All (IsMeasured m laws) ws
        → All (IsReached m) ws
        → All IsNan ns
        → let ordered = order_from m maximum_number_nodes ws in
          ((order_rssi_ascend m n).wifi_access_point_node ≡ ordered ++ ns) × IsAscending m ordered
    unfolding order_rssi_ascend
    order_rssi_ascend_unmeasured n ws ns e short numbers rs nans = (
      ap (order_from m maximum_number_nodes) e
          ∙ order_from-append maximum_number_nodes ws ns (All-Stays ws rs) nans,
      order_from-IsAscending m laws maximum_number_nodes ws short numbers,
    )
