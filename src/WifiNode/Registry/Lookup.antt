-- ===== src/WifiNode/Registry/Lookup.antt =====
-- What the two list functions of server/src/WifiNode.c promise one another: the list is a set of device
-- ids in the order of their arrival.
use indoor_navigation_system.Base.{
  not, ℕ, ◌+◌, ◌≡◌, refl, ap, ◌∙◌, Bool, true, false, Text, text_eq, Option, none, some, List, [],
  ◌∷◌, map, length, if◌then◌else◌, ◌<◌, Bool-cases, inl, inr,
}
use indoor_navigation_system.WifiNode.Positioning.Run.{ins_node_define-IsReady}
use indoor_navigation_system.Machine.{Machine}
use indoor_navigation_system.WifiNode.{InsNode, u32, ins_node_define, dev_name}
use indoor_navigation_system.WifiNode.Registry.{
  Created, keep_node, create_from, create_ins_node_list_device,
}

-- The abstract view: the ids of the nodes, the root's empty name first.
abbrev pub ids : {F : Type 0} → List (InsNode F) → List Text
ids = map (λ n. n.dev_name)

-- The list of ids with one more, unless it is there.
abbrev pub insert_id : Text → List Text → List Text
insert_id id [] = id ∷ []
insert_id id (t ∷ ts) = if text_eq id t then t ∷ ts else t ∷ insert_id id ts

abbrev pub contains_id : Text → List Text → Bool
contains_id id [] = false
contains_id id (t ∷ ts) = if text_eq id t then true else contains_id id ts

module _ {F D : Type 0} (m : Machine F D) where
  pub ins_node_define-name :
      (k : ℕ) (id : Text)
      → length id < dev_name
      → (n : InsNode F) × (ins_node_define m k id ≡ some n) × (n.dev_name ≡ id) × (n.device_no ≡ k)
  ins_node_define-name k id h =
      let (n, e, _, name, no') = ins_node_define-IsReady m k id h in (n, e, name, no')

  -- What the walk leaves: an id that is there changes nothing; another one is added in a node of
  -- its own, at the end.
  abbrev pub IsInserted : Text → List (InsNode F) → Option (Created F) → Type 0
  IsInserted id before none = ⊥
  IsInserted id before (some (after, created)) =
      (ids after ≡ insert_id id (ids before))
      × (created ≡ not (contains_id id (ids before)))
      × (created ≡ false → after ≡ before)

  keep_node-IsInserted :
      (id : Text) (looper : InsNode F) (before : List (InsNode F)) (r : Option (Created F))
      → text_eq id looper.dev_name ≡ false
      → IsInserted id before r
      → IsInserted id (looper ∷ before) (keep_node m looper r)
  keep_node-IsInserted id looper before (some (after, created)) e (same, added, kept) =
      rw e (ap (◌∷◌ looper.dev_name) same, added, λ h. ap (◌∷◌ looper) (kept h))
  keep_node-IsInserted id looper before none e h = elim h [ ]

  pub create_from-IsInserted :
      (id : Text) (count : ℕ) (looper : InsNode F) (nodes : List (InsNode F))
      → length id < dev_name
      → IsInserted id (looper ∷ nodes) (create_from m id count looper nodes)
  unfolding create_from
  create_from-IsInserted id count looper [] h = elim (Bool-cases (text_eq id looper.dev_name)) [
    | inl e ↦ rw e (rw e, rw e, λ _. refl)
    | inr e ↦
        let (n, made, name, _) = ins_node_define-name count id h in
        rw (e, made) (rw e (ap (λ t. looper.dev_name ∷ t ∷ []) name), rw e, λ f. cc)
  ]
  create_from-IsInserted id count looper (next ∷ nodes) h =
      elim (Bool-cases (text_eq id looper.dev_name)) [
        | inl e ↦ rw e (rw e, rw e, λ _. refl)
        | inr e ↦ rw e (
            keep_node-IsInserted id looper (next ∷ nodes) _ e
              (create_from-IsInserted id (u32 (count + 1)) next nodes h))
      ]

  -- A call on a list with its root: it does not fail, the ids afterwards are those before with the
  -- new one inserted, a pointer is returned exactly if the id was not there, and it is the place
  -- behind the old nodes; if the id was there the list is as before.
  pub create_ins_node_list_device-insert :
      (root : InsNode F) (nodes : List (InsNode F)) (id : Text)
      → length id < dev_name
      → let before = root ∷ nodes in
        (after : List (InsNode F)) × (create_ins_node_list_device m before id
          ≡ some (after, if contains_id id (ids before) then none else some (length before)))
        × (ids after ≡ insert_id id (ids before))
        × (contains_id id (ids before) ≡ true → after ≡ before)
  unfolding create_ins_node_list_device
  create_ins_node_list_device-insert root nodes id h =
      split (create_from m id 0 root nodes) refl (create_from-IsInserted id 0 root nodes h)
    where
      split :
          (r : Option (Created F))
          → create_from m id 0 root nodes ≡ r
          → IsInserted id (root ∷ nodes) r
          → let before = root ∷ nodes in
            (after : List (InsNode F)) × (create_ins_node_list_device m before id
              ≡ some (after, if contains_id id (ids before) then none else some (length before)))
            × (ids after ≡ insert_id id (ids before))
            × (contains_id id (ids before) ≡ true → after ≡ before)
      split none e i = elim i [ ]
      split (some (after, created)) e (same, added, kept) =
          elim (Bool-cases (contains_id id (ids (root ∷ nodes)))) [
            | inl there ↦
                (after, rw e (rw added (rw there refl)), same, λ _. kept (added ∙ ap not there))
            | inr new ↦ (after, rw e (rw added (rw new refl)), same, λ old. cc)
          ]
