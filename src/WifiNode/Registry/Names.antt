-- ===== src/WifiNode/Registry/Names.antt =====
-- What `createInsNodeListDevice` and `findWifiNode` of server/src/WifiNode.c leave of the ids of the
-- nodes, whenever they end.
use indoor_navigation_system.WifiNode.Registry.Ready.{
  IsNodeList, ins_node_define-fits, create_from_of,
}
use indoor_navigation_system.Base.{
  ℕ, ◌+◌, ◌≡◌, refl, ap, ◌∙◌, subst, false, Text, text_eq, text_eq_comm, Option, none, some, List,
  [], ◌∷◌, Bool-cases, Option-cases, inl, inr,
}
use indoor_navigation_system.Machine.{Machine}
use indoor_navigation_system.WifiNode.{InsNode, u32, ins_node_define}
use indoor_navigation_system.WifiNode.Registry.{
  Created, keep_node, create_from, create_ins_node_list_device, find_from, find_wifi_node,
}
use indoor_navigation_system.WifiNode.Registry.Lookup.{ids, insert_id, ins_node_define-name}

module _ {F D : Type 0} (m : Machine F D) where
  -- A walk that ends has inserted the id.
  abbrev Inserts : Text → List (InsNode F) → Option (Created F) → Type 0
  Inserts id before none = Unit
  Inserts id before (some (after, b)) = ids after ≡ insert_id id (ids before)

  keep_node-Inserts :
      (id : Text) (looper : InsNode F) (before : List (InsNode F)) (r : Option (Created F))
      → text_eq id looper.dev_name ≡ false
      → Inserts id before r
      → Inserts id (looper ∷ before) (keep_node m looper r)
  keep_node-Inserts id looper before none e h = tt
  keep_node-Inserts id looper before (some (after, b)) e h = rw e (ap (◌∷◌ looper.dev_name) h)

  defined-name :
      (k : ℕ) (id : Text) {n : InsNode F} → ins_node_define m k id ≡ some n → n.dev_name ≡ id
  defined-name k id e =
      let (n', made, name, _) = ins_node_define-name m k id (ins_node_define-fits m k id e) in
      cc (e, made, name)

  create_from-Inserts :
      (id : Text) (count : ℕ) (looper : InsNode F) (nodes : List (InsNode F))
      → Inserts id (looper ∷ nodes) (create_from m id count looper nodes)
  unfolding create_from
  create_from-Inserts id count looper [] = elim (Bool-cases (text_eq id looper.dev_name)) [
    | inl old ↦ rw old (rw old refl)
    | inr new ↦ elim (Option-cases (ins_node_define m count id)) [
      | inl e ↦ rw (new, e) tt
      | inr (n, e) ↦
          rw (new, e) (rw new (ap (λ t. looper.dev_name ∷ t ∷ []) (defined-name count id e)))
    ]
  ]
  create_from-Inserts id count looper (next ∷ nodes) =
      elim (Bool-cases (text_eq id looper.dev_name)) [
        | inl old ↦ rw old (rw old refl)
        | inr new ↦ rw new (
            keep_node-Inserts id looper (next ∷ nodes) _ new
              (create_from-Inserts id (u32 (count + 1)) next nodes))
      ]

  -- A call that ends has inserted its id, whatever its length.
  pub create_ins_node_list_device-ids :
      (root : InsNode F) (nodes : List (InsNode F)) (id : Text) {after : List (InsNode F)}
      {p : Option ℕ}
      → create_ins_node_list_device m (root ∷ nodes) id ≡ some (after, p)
      → ids after ≡ insert_id id (ids (root ∷ nodes))
  create_ins_node_list_device-ids root nodes id e =
      let (b, made) = create_from_of m root nodes id e in
      subst (Inserts id (root ∷ nodes)) made (create_from-Inserts id 0 root nodes)

  pub create_ins_node_list_device-insert_id :
      (before : List (InsNode F)) (id : Text) {after : List (InsNode F)} {p : Option ℕ}
      → create_ins_node_list_device m before id ≡ some (after, p)
      → IsNodeList m before
      → ids after ≡ insert_id id (ids before)
  create_ins_node_list_device-insert_id [] id e l = elim l [ ]
  create_ins_node_list_device-insert_id (root ∷ nodes) id e l =
      create_ins_node_list_device-ids root nodes id e

-- An id that is found need not be inserted.
insert_id-find_from :
    {F : Type 0} (id : Text) (k : ℕ) (nodes : List (InsNode F)) {place : ℕ}
    → find_from id k nodes ≡ some place
    → insert_id id (ids nodes) ≡ ids nodes
unfolding find_from
insert_id-find_from id k [] e = cc
insert_id-find_from id k (n ∷ nodes) e = elim (Bool-cases (text_eq n.dev_name id)) [
  | inl here ↦ rw (text_eq_comm id n.dev_name ∙ here) refl
  | inr other ↦
      rw (text_eq_comm id n.dev_name ∙ other)
        (ap (◌∷◌ n.dev_name) (insert_id-find_from id (k + 1) nodes (rw other at e)))
]

pub insert_id-find_wifi_node :
    {F : Type 0} (nodes : List (InsNode F)) (id : Text) {place : ℕ}
    → find_wifi_node nodes id ≡ some place
    → insert_id id (ids nodes) ≡ ids nodes
unfolding find_wifi_node
insert_id-find_wifi_node nodes id e = insert_id-find_from id 0 nodes e
