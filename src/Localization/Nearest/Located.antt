-- ===== src/Localization/Nearest/Located.antt =====
-- `ProcessRSSIDataSet` of server/src/localization.cpp on a device with enough access points: which
-- position it computes.
use indoor_navigation_system.Localization.Nearest.{
  get_cartesian_position-front, fill_access_points-reference, widened, measured_node-measured,
  reference_spot, measured_node, spot, IsHeard, Spot, Heard,
}
use indoor_navigation_system.Base.{
  All-map, All-implies, ℕ, ◌≤◌, ◌≡◌, refl, ap, ◌∙◌, sym, subst, true, Text, some, List, [], ◌∷◌,
  ◌++◌, map, length, drop, All, set, get_elem?, length-Perm, length-map, arith,
}
use indoor_navigation_system.WifiNode.Positioning.Run.{IsWired, IsReady}
use indoor_navigation_system.WifiNode.Ordering.Permutation.{order_from-Perm}
use indoor_navigation_system.Localization.{fill_nodes_data_points, locate_device}
use mathlib.Core.List.{map-append, Perm}
use indoor_navigation_system.WifiNode.{WifiParams, InsNode, maximum_number_nodes}
use indoor_navigation_system.WifiNode.Ordering.{order_rssi_ascend, order_from}
use mathlib.Core.List.Perm
use indoor_navigation_system.Machine.{Machine}
use indoor_navigation_system.Machine.Laws.{IsOrdered}
use indoor_navigation_system.WifiNode.Trilateration.{three_circles}
use indoor_navigation_system.WifiNode.Ordering.Sorted.{IsAscending}
use indoor_navigation_system.WifiNode.Ordering.Unmeasured.{IsNan, order_rssi_ascend_unmeasured}
use indoor_navigation_system.WifiNode.Config.{ConfigReader}
use indoor_navigation_system.WifiNode.Registry.{find_wifi_node}
use indoor_navigation_system.Localization.Distances.{measured}

first_three :
    {A : Type 0} (xs : List A)
    → 3 ≤ length xs
    → (a : A) × (b : A) × (c : A) × (rest : List A) × (xs ≡ a ∷ b ∷ c ∷ rest)
first_three [] h = elim h [ ]
first_three (a ∷ []) h = absurd (omega (arith, h))
first_three (a ∷ b ∷ []) h = absurd (omega (arith, h))
first_three (a ∷ b ∷ c ∷ rest) h = (a, b, c, rest, refl)

All-of_map :
    {A B : Type 0} (Q : B → Type 0) (f : A → B) (xs : List A)
    → All Q (map f xs)
    → All (λ x. Q (f x)) xs
All-of_map Q f [] qs = tt
All-of_map Q f (x ∷ xs) (q, qs) = (q, All-of_map Q f xs qs)

module _ {F D : Type 0} (m : Machine F D) (reader : ConfigReader F) (unwritten : Text)
    {IsNumber : F → Type 0} (laws : IsOrdered m IsNumber) where
  open m use {widen, tenth, double_gt}

  -- The distance is a number above 0.1.
  abbrev pub IsNear : Spot m reader unwritten → Type 0
  IsNear s = IsNumber s.1 × (double_gt (widen s.1) tenth ≡ true)

  -- The sorted array: the heard access points by rising distance, in front.
  abbrev IsFront : List (Heard m reader unwritten) → InsNode F → Type 0
  IsFront heard n =
      (w_1 : WifiParams F) × (w_2 : WifiParams F) × (w_3 : WifiParams F) × (rest : List
        (WifiParams F))
      × (ns : List (WifiParams F)) × ((order_rssi_ascend m
            (measured_node m n)).wifi_access_point_node
          ≡ w_1 ∷ w_2 ∷ w_3 ∷ (rest ++ ns))
      × Perm (map (spot m reader unwritten) (w_1 ∷ w_2 ∷ w_3 ∷ rest))
          (map (reference_spot m reader unwritten) heard)
      × IsAscending m (w_1 ∷ w_2 ∷ w_3 ∷ rest)

  measured_node-IsFront :
      (n : InsNode F) (heard : List (Heard m reader unwritten))
      (filled others : List (WifiParams F))
      → n.wifi_access_point_node ≡ filled ++ others
      → map (spot m reader unwritten) (map (measured m) filled)
        ≡ map (reference_spot m reader unwritten) heard
      → 3 ≤ length heard
      → length heard ≤ maximum_number_nodes
      → All IsNear (map (reference_spot m reader unwritten) heard)
      → All (λ w. IsNan m (measured m w)) others
      → IsFront heard n
  measured_node-IsFront n heard filled others is same enough fits near nans =
      let spots =
        All-of_map IsNear (spot m reader unwritten) (map (measured m) filled)
          (subst (All IsNear) (sym same) near) in
      let long : length (map (measured m) filled) ≡ length heard =
        sym (length-map (spot m reader unwritten) (map (measured m) filled))
        ∙ ap length same
        ∙ length-map (reference_spot m reader unwritten) heard in
      let ordered = order_from m maximum_number_nodes (map (measured m) filled) in
      let (sorted, ascending) =
        order_rssi_ascend_unmeasured m laws (measured_node m n) (map (measured m) filled)
          (map (measured m) others)
          (measured_node-measured m n
            ∙ ap (map (measured m)) is
            ∙ map-append (measured m) filled others)
          (omega (arith, long, fits)) (All-implies (λ w s. s.0) _ spots)
          (All-implies (λ w s. s.1) _ spots)
          (All-map (IsNan m) (measured m) (λ w nan. nan) others nans) in
      let moved : Perm ordered (map (measured m) filled) =
        order_from-Perm m maximum_number_nodes (map (measured m) filled) in
      let (w_1, w_2, w_3, rest, front) =
        first_three ordered (omega (arith, enough, long, length-Perm moved)) in
      (
        w_1,
        w_2,
        w_3,
        rest,
        map (measured m) others,
        sorted ∙ ap (λ l. l ++ map (measured m) others) front,
        subst
            (λ l.
              Perm (map (spot m reader unwritten) l)
                (map (reference_spot m reader unwritten) heard))
            front
            (subst (Perm (map (spot m reader unwritten) ordered)) same
              (Perm.map (spot m reader unwritten) moved)),
        subst (IsAscending m) front ascending,
      )

  -- A known and ready device with three to fifteen access points in the database, each of which has
  -- at most 4000 readings and a found and complete block, is located. If the distances that the
  -- path-loss model gives for their filtered readings are numbers above 0.1, and those of the other
  -- elements of the array are not numbers, then the position is that of the three circles around the
  -- nearest access points: the first three of the places of the blocks and these distances, in an
  -- order of rising distance.
  pub locate_device-IsAscending :
      (nodes : List (InsNode F)) (id : Text) (place : ℕ) (node : InsNode F)
      (heard : List (Heard m reader unwritten))
      → find_wifi_node nodes id ≡ some place
      → get_elem? nodes place ≡ some node
      → IsReady node
      → 3 ≤ length heard
      → length heard ≤ maximum_number_nodes
      → All (IsHeard m reader unwritten) heard
      → All IsNear (map (reference_spot m reader unwritten) heard)
      → All (λ w. IsNan m (measured m w)) (drop (length heard) node.wifi_access_point_node)
      → (nodes' : List (InsNode F)) × (w_1 : WifiParams F) × (w_2 : WifiParams F)
        × (w_3 : WifiParams F) × (rest : List (WifiParams F)) × Perm
            (map (spot m reader unwritten) (w_1 ∷ w_2 ∷ w_3 ∷ rest))
            (map (reference_spot m reader unwritten) heard)
        × IsAscending m (w_1 ∷ w_2 ∷ w_3 ∷ rest)
        × (locate_device m reader unwritten nodes id (map (λ h. h.0) heard)
            ≡ some (nodes', widened m (three_circles m w_1 w_2 w_3)))
  unfolding locate_device fill_nodes_data_points
  locate_device-IsAscending nodes id place node [] found at ready enough _ _ _ _ = elim enough [ ]
  locate_device-IsAscending nodes id place node (h ∷ heard) found at ready enough fits known near
        nans =
      let ws = node.wifi_access_point_node in
      let (filled, fills, same) =
        fill_access_points-reference m reader unwritten ws (h ∷ heard)
          (omega (arith, fits, ready.fifteen)) ready.sampled known in
      let others = drop (length (h ∷ heard)) ws in
      let filled_node = record node { wifi_access_point_node = filled ++ others } in
      let wired : IsWired filled_node = record {
        filters = ready.wired.filters;
        shifts = ready.wired.shifts;
        measures = ready.wired.measures;
        locates = ready.wired.locates;
      } in
      let (w_1, w_2, w_3, rest, ns, front, spots, ascending) =
        measured_node-IsFront filled_node (h ∷ heard) filled others refl same enough fits near
          nans in
      let (n', run, position) =
        get_cartesian_position-front m filled_node w_1 w_2 w_3 wired front in
      let after = set (set nodes place filled_node) place n' in
      (
        after,
        w_1,
        w_2,
        w_3,
        rest,
        spots,
        ascending,
        rw (found, at, fills, run) (ap (λ p. some (after, widened m p)) position),
      )
