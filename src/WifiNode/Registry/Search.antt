-- ===== src/WifiNode/Registry/Search.antt =====
-- `findWifiNode` of server/src/WifiNode.c finds exactly the ids of the list, also after
-- `createInsNodeListDevice`.
use indoor_navigation_system.Base.{
  ℕ, suc, ◌+◌, ◌≡◌, refl, ap, ◌∙◌, true, false, Text, text_eq, text_eq_iff, text_eq_refl,
  text_eq_comm, Option, none, some, List, [], ◌∷◌, length, ◌<◌, arith, Bool-cases, inl, inr,
  get_elem?,
}
use indoor_navigation_system.Machine.{Machine}
use indoor_navigation_system.WifiNode.{InsNode, dev_name}
use indoor_navigation_system.WifiNode.Registry.{
  create_ins_node_list_device, find_from, find_wifi_node,
}
use indoor_navigation_system.WifiNode.Registry.Lookup.{
  ids, insert_id, contains_id, create_ins_node_list_device-insert,
}

-- What a search that counts from `place` answers: the place of a node with the id, or that there is
-- none.
abbrev pub IsAnswer : {F : Type 0} → Text → ℕ → List (InsNode F) → Option ℕ → Type 0
IsAnswer id place nodes none = contains_id id (ids nodes) ≡ false
IsAnswer {F} id place nodes (some i) =
    (n : InsNode F) × (k : ℕ) × (i ≡ place + k)
    × (get_elem? nodes k ≡ some n)
    × (n.dev_name ≡ id)
    × (contains_id id (ids nodes) ≡ true)

module _ {F : Type 0} where
  IsAnswer-cons :
      (id : Text) (place : ℕ) (looper : InsNode F) (nodes : List (InsNode F)) (r : Option ℕ)
      → text_eq id looper.dev_name ≡ false
      → IsAnswer id (place + 1) nodes r
      → IsAnswer id place (looper ∷ nodes) r
  IsAnswer-cons id place looper nodes none e absent = rw e absent
  IsAnswer-cons id place looper nodes (some i) e (n, k, at, found, name, there) =
      (n, suc k, omega arith, found, name, rw e there)

  find_from-IsAnswer :
      (id : Text) (place : ℕ) (nodes : List (InsNode F))
      → IsAnswer id place nodes (find_from id place nodes)
  unfolding find_from
  find_from-IsAnswer id place [] = refl
  find_from-IsAnswer id place (looper ∷ nodes) = elim (Bool-cases (text_eq looper.dev_name id)) [
    | inl e ↦ rw e (
      looper,
      0,
      omega arith,
      refl,
      (text_eq_iff _ _).0 e,
      rw (text_eq_comm id looper.dev_name) (rw e),
    )
    | inr e ↦ rw e (
        IsAnswer-cons id place looper nodes _ (text_eq_comm id looper.dev_name ∙ e)
          (find_from-IsAnswer id (place + 1) nodes))
  ]

  -- A returned pointer leads to a node with the id, and null means that no node has it.
  pub find_wifi_node-IsAnswer :
      (nodes : List (InsNode F)) (id : Text) → IsAnswer id 0 nodes (find_wifi_node nodes id)
  unfolding find_wifi_node
  find_wifi_node-IsAnswer nodes id = find_from-IsAnswer id 0 nodes

contains_id-insert_id : (id : Text) (ts : List Text) → contains_id id (insert_id id ts) ≡ true
contains_id-insert_id id [] = rw (text_eq_refl id)
contains_id-insert_id id (t ∷ ts) = elim (Bool-cases (text_eq id t)) [
  | inl e ↦ rw e (rw e)
  | inr e ↦ rw e (rw e (contains_id-insert_id id ts))
]

module _ {F D : Type 0} (m : Machine F D) where
  pub found_of_contains :
      (id : Text) (nodes : List (InsNode F)) (r : Option ℕ)
      → contains_id id (ids nodes) ≡ true
      → IsAnswer id 0 nodes r
      → (n : InsNode F) × (k : ℕ) × (r ≡ some k) × (get_elem? nodes k ≡ some n) × (n.dev_name ≡ id)
  found_of_contains id nodes none there absent = cc
  found_of_contains id nodes (some i) there (n, k, at, found, name, _) =
      (n, k, ap some (omega arith), found, name)

  -- After a successful call of `createInsNodeListDevice` on a list with its root, `findWifiNode`
  -- finds a node with that id.
  pub find_wifi_node-create :
      (root : InsNode F) (nodes : List (InsNode F)) (id : Text)
      → length id < dev_name
      → (after : List (InsNode F)) × (p : Option ℕ) × (create_ins_node_list_device m
            (root ∷ nodes)
            id
          ≡ some (after, p))
        × (n : InsNode F) × (k : ℕ) × (find_wifi_node after id ≡ some k)
        × (get_elem? after k ≡ some n)
        × (n.dev_name ≡ id)
  find_wifi_node-create root nodes id h =
      let (after, made, same, _) = create_ins_node_list_device-insert m root nodes id h in
      let (n, k, found, at, name) =
        found_of_contains id after (find_wifi_node after id)
          (ap (contains_id id) same ∙ contains_id-insert_id id (ids (root ∷ nodes)))
          (find_wifi_node-IsAnswer after id) in
      (after, _, made, n, k, found, at, name)
