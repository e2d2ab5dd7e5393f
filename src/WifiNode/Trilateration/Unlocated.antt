-- ===== src/WifiNode/Trilateration/Unlocated.antt =====
-- `trilateration_process` of server/src/WifiNode.c with fewer than three distances.
use indoor_navigation_system.Base.{
  ◌≡◌, ap, ◌∙◌, sym, subst, ◌≤◌, ◌⊎◌, inl, inr, List, [], ◌∷◌, ◌++◌, All, length, get_or, arith,
}
use indoor_navigation_system.Machine.{Machine}
use indoor_navigation_system.Machine.Laws.{IsContagious}
use indoor_navigation_system.WifiNode.{
  Coordinates, WifiParams, InsNode, zero_wifi, maximum_number_nodes,
}
use indoor_navigation_system.WifiNode.Ordering.{exchange, order_from, order_rssi_ascend}
use indoor_navigation_system.WifiNode.Ordering.Unmeasured.{IsNan, Stays, order_from-append}
use indoor_navigation_system.WifiNode.Trilateration.{three_circles, trilateration_process}

module _ {F D : Type 0} (m : Machine F D) {IsNotNumber : F → Type 0}
    (laws : IsContagious m IsNotNumber) where
  open m use {◌⊕◌, ◌⊖◌, ◌⊗◌, ◌⊘◌}

  infixl 65 ◌⊕◌ ◌⊖◌
  infixl 70 ◌⊗◌ ◌⊘◌
  abbrev OneOf : F → F → F → Type 0
  OneOf a b c = IsNotNumber a ⊎ (IsNotNumber b ⊎ IsNotNumber c)

  -- A quotient of a sum of three products.
  quotient_nan : (a b c u v w t : F) → OneOf a b c → IsNotNumber ((a ⊗ u ⊕ b ⊗ v ⊕ c ⊗ w) ⊘ t)
  quotient_nan a b c u v w t (inl h) =
      laws.div_left _ t (laws.add_left _ _ (laws.add_left _ _ (laws.mul_left a u h)))
  quotient_nan a b c u v w t (inr (inl h)) =
      laws.div_left _ t (laws.add_left _ _ (laws.add_right _ _ (laws.mul_left b v h)))
  quotient_nan a b c u v w t (inr (inr h)) =
      laws.div_left _ t (laws.add_right _ _ (laws.mul_left c w h))

  square_nan : (a d : F) → IsNotNumber d → IsNotNumber (a ⊖ (d ⊗ d))
  square_nan a d h = laws.sub_right a (d ⊗ d) (laws.mul_left d d h)

  squares_nan : (a b c d e f : F) → OneOf d e f → OneOf (a ⊖ (d ⊗ d)) (b ⊖ (e ⊗ e)) (c ⊖ (f ⊗ f))
  squares_nan a b c d e f (inl h) = inl (square_nan a d h)
  squares_nan a b c d e f (inr (inl h)) = inr (inl (square_nan b e h))
  squares_nan a b c d e f (inr (inr h)) = inr (inr (square_nan c f h))

  abbrev pub IsNowhere : Coordinates F → Type 0
  IsNowhere p = IsNotNumber p.x × IsNotNumber p.y

  three_circles-IsNowhere :
      (w_1 w_2 w_3 : WifiParams F)
      → OneOf w_1.distance w_2.distance w_3.distance
      → IsNowhere (three_circles m w_1 w_2 w_3)
  unfolding three_circles
  three_circles-IsNowhere w_1 w_2 w_3 h =
      let squares = squares_nan _ _ _ w_1.distance w_2.distance w_3.distance h in
      (quotient_nan _ _ _ _ _ _ _ squares, quotient_nan _ _ _ _ _ _ _ squares)

  abbrev pub IsUnmeasured : WifiParams F → Type 0
  IsUnmeasured w = IsNotNumber w.distance

  unmeasured-IsNan : (ns : List (WifiParams F)) → All IsUnmeasured ns → All (IsNan m) ns
  unmeasured-IsNan [] hs = tt
  unmeasured-IsNan (n ∷ ns) (h, hs) = (
    record {
      above = λ a. laws.not_above a n.distance h;
      below = λ a. laws.not_below a n.distance h;
      far = laws.not_far n.distance h;
      near = laws.not_near n.distance h;
    },
    unmeasured-IsNan ns hs,
  )

  first_three-IsNowhere :
      (ws : List (WifiParams F)) (w : WifiParams F) (ns : List (WifiParams F))
      → length ws ≤ 2
      → IsUnmeasured w
      → let all = order_from m maximum_number_nodes ws ++ (w ∷ ns) in
        IsNowhere (
          three_circles m
            (get_or all 0 (zero_wifi m))
            (get_or all 1 (zero_wifi m))
            (get_or all 2 (zero_wifi m)))
  unfolding order_from exchange
  first_three-IsNowhere [] w ns few h = three_circles-IsNowhere _ _ _ (inl h)
  first_three-IsNowhere (a ∷ []) w ns few h = three_circles-IsNowhere _ _ _ (inr (inl h))
  first_three-IsNowhere (a ∷ b ∷ []) w ns few h = three_circles-IsNowhere _ _ _ (inr (inr h))
  first_three-IsNowhere (a ∷ b ∷ c ∷ ws) w ns few h = absurd (omega arith)

  -- If at most two access points, none of them below 0.1, stand in front of others whose distances are
  -- all not numbers, then the x and the y that trilateration_process stores are not numbers.
  pub trilateration_process_unlocated :
      (n : InsNode F) (ws : List (WifiParams F)) (w : WifiParams F) (ns : List (WifiParams F))
      → n.wifi_access_point_node ≡ ws ++ (w ∷ ns)
      → length ws ≤ 2
      → All (Stays m) ws
      → All IsUnmeasured (w ∷ ns)
      → IsNowhere (trilateration_process m n).node_cart_position
  unfolding trilateration_process order_rssi_ascend
  trilateration_process_unlocated n ws w ns e few near (h, hs) =
      subst
        (λ l. IsNowhere (
          three_circles m (get_or l 0 (zero_wifi m)) (get_or l 1 (zero_wifi m))
            (get_or l 2 (zero_wifi m))))
        (sym (
          ap (order_from m maximum_number_nodes) e
          ∙ order_from-append m maximum_number_nodes ws (w ∷ ns) near
              (unmeasured-IsNan (w ∷ ns) (h, hs))))
        (first_three-IsNowhere ws w ns few h)
