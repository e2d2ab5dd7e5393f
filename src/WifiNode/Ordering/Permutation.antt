-- ===== src/WifiNode/Ordering/Permutation.antt =====
-- The sort of server/src/WifiNode.c only moves access points.
use mathlib.Core.List.{Perm}
use mathlib.Core.List.Perm
use indoor_navigation_system.Base.{
  ℕ, zero, suc, ◌≡◌, refl, ap, ◌∙◌, Bool-cases, inl, inr, List, [], ◌∷◌, length, All, if◌then◌else◌,
  Bool, true, false,
}
use indoor_navigation_system.Machine.{Machine}
use indoor_navigation_system.WifiNode.{WifiParams, InsNode, maximum_number_nodes}
use indoor_navigation_system.WifiNode.Ordering.{must_swap, exchange, order_from, order_rssi_ascend}

-- An element and another one, exchanged or not, in front of a list that was permuted.
Perm-exchanged {ℓ} :
    {A : Type ℓ} (swap : Bool) (a b first : A) (bs rest : List A)
    → Perm (first ∷ rest) ((if swap then b else a) ∷ bs)
    → Perm (first ∷ (if swap then a else b) ∷ rest) (a ∷ b ∷ bs)
Perm-exchanged true a b first bs rest p = Perm.trans (Perm.swap a first rest) (Perm.cons a p)
Perm-exchanged false a b first bs rest p =
    Perm.trans (Perm.swap b first rest) (Perm.trans (Perm.cons b p) (Perm.swap a b bs))

module _ {F D : Type 0} (m : Machine F D) where
  exchange-Perm :
      (a : WifiParams F) (bs : List (WifiParams F))
      → Perm ((exchange m a bs).0 ∷ (exchange m a bs).1) (a ∷ bs)
  unfolding exchange
  exchange-Perm a [] = Perm.refl (a ∷ [])
  exchange-Perm a (b ∷ bs) =
      Perm-exchanged (must_swap m a b) a b _ bs _
        (exchange-Perm (if must_swap m a b then b else a) bs)

  pub order_from-Perm : (rounds : ℕ) (ws : List (WifiParams F)) → Perm (order_from m rounds ws) ws
  unfolding order_from
  order_from-Perm zero ws = Perm.refl ws
  order_from-Perm (suc rounds) [] = Perm.refl []
  order_from-Perm (suc rounds) (a ∷ ws) =
      Perm.trans (Perm.cons _ (order_from-Perm rounds (exchange m a ws).1)) (exchange-Perm a ws)

  -- The sort permutes the access points of a node: none is lost, doubled or altered.
  pub order_rssi_ascend-Perm :
      (n : InsNode F) → Perm (order_rssi_ascend m n).wifi_access_point_node n.wifi_access_point_node
  unfolding order_rssi_ascend
  order_rssi_ascend-Perm n = order_from-Perm maximum_number_nodes n.wifi_access_point_node

  module _ {κ} (P : WifiParams F → Type κ) where
    pub exchange-All :
        (a : WifiParams F) (bs : List (WifiParams F))
        → P a
        → All P bs
        → P (exchange m a bs).0 × All P (exchange m a bs).1
    unfolding exchange
    exchange-All a [] p ps = (p, tt)
    exchange-All a (b ∷ bs) p (q, ps) = elim (Bool-cases (must_swap m a b)) [
      | inl e ↦ rw e (let (r, rs) = exchange-All b bs q ps in (r, (p, rs)))
      | inr e ↦ rw e (let (r, rs) = exchange-All a bs p ps in (r, (q, rs)))
    ]

    pub order_from-All :
        (rounds : ℕ) (ws : List (WifiParams F)) → All P ws → All P (order_from m rounds ws)
    unfolding order_from
    order_from-All zero ws ps = ps
    order_from-All (suc rounds) [] ps = tt
    order_from-All (suc rounds) (a ∷ ws) (p, ps) =
        let (q, qs) = exchange-All a ws p ps in (q, order_from-All rounds (exchange m a ws).1 qs)

  pub length-exchange :
      (a : WifiParams F) (bs : List (WifiParams F)) → length (exchange m a bs).1 ≡ length bs
  unfolding exchange
  length-exchange a [] = refl
  length-exchange a (b ∷ bs) = ap suc (length-exchange (if must_swap m a b then b else a) bs)

  pub length-order_from :
      (rounds : ℕ) (ws : List (WifiParams F)) → length (order_from m rounds ws) ≡ length ws
  unfolding order_from
  length-order_from zero ws = refl
  length-order_from (suc rounds) [] = refl
  length-order_from (suc rounds) (a ∷ ws) =
      ap suc (length-order_from rounds (exchange m a ws).1 ∙ length-exchange a ws)
