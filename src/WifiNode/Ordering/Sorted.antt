-- ===== src/WifiNode/Ordering/Sorted.antt =====
-- What the exchange sort of server/src/WifiNode.c achieves: the reached access points come first, by
-- rising distance.
use indoor_navigation_system.Base.{
  zero, suc, ◌≤◌, length, ℕ, ◌≡◌, true, false, Bool-cases, inl, inr, List, [], ◌∷◌, All,
  if◌then◌else◌, arith, subst,
}
use indoor_navigation_system.WifiNode.{maximum_number_nodes, InsNode, WifiParams}
use indoor_navigation_system.WifiNode.Ordering.Permutation.{
  exchange-All, order_from-All, length-exchange,
}
use indoor_navigation_system.WifiNode.Ordering.{exchange, order_from, order_rssi_ascend, must_swap}
use indoor_navigation_system.Machine.{Machine}
use indoor_navigation_system.Machine.Laws.{IsOrdered}

module _ {F D : Type 0} (m : Machine F D) where
  -- A distance above 0.1: blocks with no readings stay below.
  abbrev pub IsReached : WifiParams F → Type 0
  IsReached w = m.double_gt (m.widen w.distance) m.tenth ≡ true

  -- `a` may stand before `b`: if `b` is reached, so is `a`, and `a` is not farther.
  abbrev pub Precedes : WifiParams F → WifiParams F → Type 0
  Precedes a b = IsReached b → IsReached a × (m.gt a.distance b.distance ≡ false)

  abbrev pub IsAscending : List (WifiParams F) → Type 0
  IsAscending [] = Unit
  IsAscending (w ∷ ws) = All (Precedes w) ws × IsAscending ws

  module _ {IsNumber : F → Type 0} (laws : IsOrdered m IsNumber) where
    open laws use {gt_asymm, le_trans, tenth_one_side, tenth_asymm}

    -- The distance is a number.
    abbrev pub IsMeasured : WifiParams F → Type 0
    IsMeasured w = IsNumber w.distance

    Precedes-refl : (a : WifiParams F) → Precedes a a
    Precedes-refl a r = (r, ground (arith, gt_asymm a.distance a.distance))

    Precedes-trans :
        (a b c : WifiParams F)
        → IsMeasured a
        → IsMeasured b
        → IsMeasured c
        → Precedes a b
        → Precedes b c
        → Precedes a c
    Precedes-trans a b c na nb nc p q r =
        let (rb, bc) = q r in let (ra, ab) = p rb in (ra, le_trans _ _ _ na nb nc ab bc)

    -- Whichever element the inner loop keeps at `i` precedes the one that it puts at `j`.
    kept-Precedes :
        (a b : WifiParams F)
        → IsMeasured a
        → let swap = must_swap m a b in Precedes (if swap then b else a) (if swap then a else b)
    unfolding must_swap
    kept-Precedes a b na = ground (
      arith,
      gt_asymm a.distance b.distance,
      tenth_one_side a.distance na,
      tenth_asymm a.distance,
    )

    kept-IsMeasured :
        (a b : WifiParams F)
        → IsMeasured a
        → IsMeasured b
        → let swap = must_swap m a b in
          IsMeasured (if swap then b else a) × IsMeasured (if swap then a else b)
    kept-IsMeasured a b na nb = elim (Bool-cases (must_swap m a b)) [
      | inl e ↦ rw e (nb, na)
      | inr e ↦ rw e (na, nb)
    ]

    kept-Precedes_old :
        (a b : WifiParams F) → IsMeasured a → Precedes (if must_swap m a b then b else a) a
    kept-Precedes_old a b na = elim (Bool-cases (must_swap m a b)) [
      | inl e ↦
          rw e (
            subst (λ s. Precedes (if s then b else a) (if s then a else b)) e
              (kept-Precedes a b na))
      | inr e ↦ rw e (Precedes-refl a)
    ]

    -- What the inner loop leaves at `i` precedes what stood there and all that stands behind.
    exchange-Precedes :
        (a : WifiParams F) (bs : List (WifiParams F))
        → IsMeasured a
        → All IsMeasured bs
        → Precedes (exchange m a bs).0 a × All (Precedes (exchange m a bs).0) (exchange m a bs).1
    unfolding exchange
    exchange-Precedes a [] na _ = (Precedes-refl a, tt)
    exchange-Precedes a (b ∷ bs) na (nb, nbs) =
        let swap = must_swap m a b in
        let kept = if swap then b else a in
        let other = if swap then a else b in
        let first = (exchange m kept bs).0 in
        let (nk, no') = kept-IsMeasured a b na nb in
        let nf = (exchange-All m IsMeasured kept bs nk nbs).0 in
        let (before, rest) = exchange-Precedes kept bs nk nbs in
        (
          Precedes-trans first kept a nf nk na before (kept-Precedes_old a b na),
          (Precedes-trans first kept other nf nk no' before (kept-Precedes a b na), rest),
        )

    pub order_from-IsAscending :
        (rounds : ℕ) (ws : List (WifiParams F))
        → length ws ≤ rounds
        → All IsMeasured ws
        → IsAscending (order_from m rounds ws)
    unfolding order_from
    order_from-IsAscending zero [] h ns = tt
    order_from-IsAscending zero (a ∷ ws) h ns = elim h [ ]
    order_from-IsAscending (suc rounds) [] h ns = tt
    order_from-IsAscending (suc rounds) (a ∷ ws) h (na, ns) =
        let rest = (exchange m a ws).1 in
        (
          order_from-All m (Precedes (exchange m a ws).0) rounds rest
              (exchange-Precedes a ws na ns).1,
          order_from-IsAscending rounds rest (omega (arith, length-exchange m a ws))
              (exchange-All m IsMeasured a ws na ns).1,
        )

    -- If the comparisons are an order on values that are not NaN, and no distance is NaN, the sort
    -- of at most fifteen access points puts those whose distance is above 0.1 in front of all
    -- others, and orders them by rising distance.
    pub order_rssi_ascend-IsAscending :
        (n : InsNode F)
        → length n.wifi_access_point_node ≤ maximum_number_nodes
        → All IsMeasured n.wifi_access_point_node
        → IsAscending (order_rssi_ascend m n).wifi_access_point_node
    unfolding order_rssi_ascend
    order_rssi_ascend-IsAscending n h ns =
        order_from-IsAscending maximum_number_nodes n.wifi_access_point_node h ns
