-- ===== src/WifiNode/Registry/Numbers.antt =====
-- The ids of the list of server/src/WifiNode.c are distinct, and its nodes are numbered as they came.
use indoor_navigation_system.Base.{
  sym, subst, text_eq_comm, ℕ, suc, ◌+◌, ◌≡◌, refl, ◌∙◌, Bool, false, Text, text_eq, Option, none,
  some, List, [], ◌∷◌, length, if◌then◌else◌, ◌<◌, arith, Bool-cases, inl, inr,
}
use indoor_navigation_system.WifiNode.Registry.Lookup.{
  create_from-IsInserted, IsInserted, ids, insert_id, contains_id, ins_node_define-name,
}
use indoor_navigation_system.Machine.{Machine}
use indoor_navigation_system.WifiNode.{InsNode, u32, dev_name}
use indoor_navigation_system.WifiNode.Registry.{
  Created, keep_node, create_from, create_ins_node_list_device,
}

abbrev pub Distinct : List Text → Type 0
Distinct [] = Unit
Distinct (t ∷ ts) = (contains_id t ts ≡ false) × Distinct ts

contains_id-insert_ne :
    (t id : Text) (ts : List Text)
    → text_eq id t ≡ false
    → contains_id t ts ≡ false
    → contains_id t (insert_id id ts) ≡ false
contains_id-insert_ne t id [] e absent = rw (text_eq_comm t id) (rw e)
contains_id-insert_ne t id (s ∷ ts) e absent = ground (arith, contains_id-insert_ne t id ts e)

pub insert_id-Distinct : (id : Text) (ts : List Text) → Distinct ts → Distinct (insert_id id ts)
insert_id-Distinct id [] d = (refl, tt)
insert_id-Distinct id (t ∷ ts) (absent, d) = elim (Bool-cases (text_eq id t)) [
  | inl e ↦ rw e (absent, d)
  | inr e ↦ rw e (contains_id-insert_ne t id ts e absent, insert_id-Distinct id ts d)
]

-- The numbers of the nodes behind the root.
abbrev pub NumberedFrom : {F : Type 0} → ℕ → List (InsNode F) → Type 0
NumberedFrom k [] = Unit
NumberedFrom k (n ∷ nodes) = (n.device_no ≡ u32 k) × NumberedFrom (suc k) nodes

-- The list behind `insNoderoot`: its root is there, no id is twice in it, and the device numbers
-- count the devices in the order in which they came.
abbrev pub IsRegistry : {F : Type 0} → List (InsNode F) → Type 0
IsRegistry [] = ⊥
IsRegistry (root ∷ nodes) = Distinct (ids (root ∷ nodes)) × NumberedFrom 0 nodes

-- What a walk from `looper` leaves: a node with its number, and the numbered nodes behind it.
abbrev NumberedBehind : {F : Type 0} → ℕ → InsNode F → Option (Created F) → Type 0
NumberedBehind k looper (some (first ∷ nodes, _)) =
    (first.device_no ≡ looper.device_no) × NumberedFrom k nodes
NumberedBehind k looper (some ([], _)) = ⊥
NumberedBehind k looper none = ⊥

module _ {F D : Type 0} (m : Machine F D) where
  keep_node-numbers :
      (k : ℕ) (looper next : InsNode F) (r : Option (Created F))
      → next.device_no ≡ u32 k
      → NumberedBehind (suc k) next r
      → NumberedBehind k looper (keep_node m looper r)
  keep_node-numbers k looper next (some (root ∷ nodes, b)) e (same, h) = (refl, (same ∙ e, h))
  keep_node-numbers k looper next (some ([], b)) e h = elim h [ ]
  keep_node-numbers k looper next none e h = elim h [ ]

  create_from-numbers :
      (id : Text) (k count : ℕ) (looper : InsNode F) (nodes : List (InsNode F))
      → length id < dev_name
      → count ≡ u32 k
      → NumberedFrom k nodes
      → NumberedBehind k looper (create_from m id count looper nodes)
  unfolding create_from
  create_from-numbers id k count looper [] h e _ = elim (Bool-cases (text_eq id looper.dev_name)) [
    | inl old ↦ rw old (refl, tt)
    | inr new ↦
        let (n, made, _, number) = ins_node_define-name m count id h in
        rw (new, made) (refl, (number ∙ e, tt))
  ]
  create_from-numbers id k count looper (next ∷ nodes) h e (number, rest) =
      elim (Bool-cases (text_eq id looper.dev_name)) [
        | inl old ↦ rw old (refl, (number, rest))
        | inr new ↦ rw new (
            keep_node-numbers k looper next _ number
              (create_from-numbers id (suc k) (u32 (count + 1)) next nodes h (omega arith) rest))
      ]

  IsRegistry-of :
      (id : Text) (root : InsNode F) (nodes after : List (InsNode F)) (b : Bool)
      → IsRegistry (root ∷ nodes)
      → ids after ≡ insert_id id (ids (root ∷ nodes))
      → NumberedBehind 0 root (some (after, b))
      → IsRegistry after
  IsRegistry-of id root nodes [] b r same n = elim n [ ]
  IsRegistry-of id root nodes (first ∷ rest) b r same n =
      (subst Distinct (sym same) (insert_id-Distinct id (ids (root ∷ nodes)) r.0), n.1)

  -- `createInsNodeListDevice` keeps the list well formed, for any id that fits its 64 bytes.
  pub create_ins_node_list_device-IsRegistry :
      (before : List (InsNode F)) (id : Text)
      → length id < dev_name
      → IsRegistry before
      → (after : List (InsNode F)) × (p : Option ℕ) × (create_ins_node_list_device m before id
          ≡ some (after, p))
        × IsRegistry after
  unfolding create_ins_node_list_device
  create_ins_node_list_device-IsRegistry [] id h r = elim r [ ]
  create_ins_node_list_device-IsRegistry (root ∷ nodes) id h r =
      split (create_from m id 0 root nodes) refl (create_from-IsInserted m id 0 root nodes h)
        (create_from-numbers id 0 0 root nodes h refl r.1)
    where
      split :
          (c : Option (Created F))
          → create_from m id 0 root nodes ≡ c
          → IsInserted m id (root ∷ nodes) c
          → NumberedBehind 0 root c
          → (after : List (InsNode F)) × (p : Option ℕ) × (create_ins_node_list_device m
                (root ∷ nodes)
                id
              ≡ some (after, p))
            × IsRegistry after
      split none e i n = elim i [ ]
      split (some (after, b)) e i n = (
        after,
        if b then some (length (root ∷ nodes)) else none,
        rw e refl,
        IsRegistry-of id root nodes after b r i.0 n,
      )
