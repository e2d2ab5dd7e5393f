-- ===== src/WifiNode/Registry/Ready.antt =====
-- The list of nodes of server/src/WifiNode.c between two requests: a root that is never used as a
-- device, and behind it the devices, each ready to be located.
use native.Mathlib.Decide.{dec_lt}
use indoor_navigation_system.WifiNode.Registry.Numbers.{
  Distinct, NumberedFrom, IsRegistry, create_ins_node_list_device-IsRegistry,
}
use indoor_navigation_system.Base.{
  get_elem?, set, >>=-eq-some, map-set, All-set, subst, ℕ, zero, suc, ◌+◌, ◌≤◌, ◌<◌, ◌≡◌, refl, ap,
  ◌∙◌, sym, Bool, Text, text_eq, Option, none, some, List, [], ◌∷◌, length, All, arith, Bool-cases,
  Option-cases, inl, inr,
}
use indoor_navigation_system.Machine.{Machine}
use indoor_navigation_system.WifiNode.{InsNode, u32, dev_name, ins_node_define, zero_node}
use indoor_navigation_system.WifiNode.Positioning.Run.{IsReady, ins_node_define-IsReady}
use indoor_navigation_system.WifiNode.Registry.{
  Created, keep_node, create_from, create_ins_node_list_device,
}

module _ {F D : Type 0} (m : Machine F D) where
  -- The list behind `insNoderoot` as every request finds it.
  abbrev pub IsNodeList : List (InsNode F) → Type 0
  IsNodeList [] = ⊥
  IsNodeList (root ∷ nodes) = (root ≡ zero_node m) × IsRegistry (root ∷ nodes) × All IsReady nodes

  pub ins_node_define-fits :
      (k : ℕ) (id : Text) {n : InsNode F} → ins_node_define m k id ≡ some n → length id < dev_name
  unfolding ins_node_define
  ins_node_define-fits k id e = ground arith

  defined-IsReady :
      (k : ℕ) (id : Text) {n : InsNode F} → ins_node_define m k id ≡ some n → IsReady n
  defined-IsReady k id e =
      let (n', made, ready, _, _) = ins_node_define-IsReady m k id (ins_node_define-fits k id e) in
      subst IsReady (cc (e, made)) ready

  -- What a walk from `looper` leaves: `looper` itself, and ready nodes behind it.
  abbrev ReadyBehind : InsNode F → Option (Created F) → Type 0
  ReadyBehind looper none = Unit
  ReadyBehind looper (some ([], b)) = ⊥
  ReadyBehind looper (some (first ∷ nodes, b)) = (first ≡ looper) × All IsReady nodes

  keep_node-ReadyBehind :
      (looper next : InsNode F) (r : Option (Created F))
      → IsReady next
      → ReadyBehind next r
      → ReadyBehind looper (keep_node m looper r)
  keep_node-ReadyBehind looper next none ready h = tt
  keep_node-ReadyBehind looper next (some ([], b)) ready h = elim h [ ]
  keep_node-ReadyBehind looper next (some (first ∷ nodes, b)) ready (same, h) =
      (refl, (subst IsReady (sym same) ready, h))

  create_from-ReadyBehind :
      (id : Text) (count : ℕ) (looper : InsNode F) (nodes : List (InsNode F))
      → All IsReady nodes
      → ReadyBehind looper (create_from m id count looper nodes)
  unfolding create_from
  create_from-ReadyBehind id count looper [] rs = elim (Bool-cases (text_eq id looper.dev_name)) [
    | inl old ↦ rw old (refl, tt)
    | inr new ↦ elim (Option-cases (ins_node_define m count id)) [
      | inl e ↦ rw (new, e) tt
      | inr (n, e) ↦ rw (new, e) (refl, (defined-IsReady count id e, tt))
    ]
  ]
  create_from-ReadyBehind id count looper (next ∷ nodes) (r, rs) =
      elim (Bool-cases (text_eq id looper.dev_name)) [
        | inl old ↦ rw old (refl, (r, rs))
        | inr new ↦ rw new (
            keep_node-ReadyBehind looper next _ r
              (create_from-ReadyBehind id (u32 (count + 1)) next nodes rs))
      ]

  -- An id that does not fit leaves the list as it was, or overflows.
  abbrev KeepsAll : List (InsNode F) → Option (Created F) → Type 0
  KeepsAll before none = Unit
  KeepsAll before (some (after, b)) = after ≡ before

  keep_node-KeepsAll :
      (looper : InsNode F) (before : List (InsNode F)) (r : Option (Created F))
      → KeepsAll before r
      → KeepsAll (looper ∷ before) (keep_node m looper r)
  keep_node-KeepsAll looper before none h = tt
  keep_node-KeepsAll looper before (some (after, b)) h = ap (◌∷◌ looper) h

  create_from-KeepsAll :
      (id : Text) (count : ℕ) (looper : InsNode F) (nodes : List (InsNode F))
      → dev_name ≤ length id
      → KeepsAll (looper ∷ nodes) (create_from m id count looper nodes)
  unfolding create_from
  create_from-KeepsAll id count looper [] long = elim (Bool-cases (text_eq id looper.dev_name)) [
    | inl old ↦ rw old refl
    | inr new ↦ elim (Option-cases (ins_node_define m count id)) [
      | inl e ↦ rw (new, e) tt
      | inr (n, e) ↦ absurd (omega (arith, ins_node_define-fits count id e))
    ]
  ]
  create_from-KeepsAll id count looper (next ∷ nodes) long =
      elim (Bool-cases (text_eq id looper.dev_name)) [
        | inl old ↦ rw old refl
        | inr new ↦ rw new (
            keep_node-KeepsAll looper (next ∷ nodes) _
              (create_from-KeepsAll id (u32 (count + 1)) next nodes long))
      ]

  pub create_from_of :
      (root : InsNode F) (nodes : List (InsNode F)) (id : Text) {after : List (InsNode F)}
      {p : Option ℕ}
      → create_ins_node_list_device m (root ∷ nodes) id ≡ some (after, p)
      → (b : Bool) × (create_from m id 0 root nodes ≡ some (after, b))
  unfolding create_ins_node_list_device
  create_from_of root nodes id e =
      let ((after', b), made, same) = >>=-eq-some (create_from m id 0 root nodes) _ e in
      (b, made ∙ ap (λ l. some (l, b)) (cc (same)))

  kept-IsRegistry :
      (root : InsNode F) (nodes : List (InsNode F)) (id : Text) {after : List (InsNode F)}
      {p : Option ℕ} {b : Bool}
      → create_ins_node_list_device m (root ∷ nodes) id ≡ some (after, p)
      → create_from m id 0 root nodes ≡ some (after, b)
      → IsRegistry (root ∷ nodes)
      → IsRegistry after
  kept-IsRegistry root nodes id {after} {b = b} e made reg = elim (dec_lt (length id) dev_name) [
    | yes short ↦
        let (after', p', e', reg') =
          create_ins_node_list_device-IsRegistry m (root ∷ nodes) id short reg in
        let same : after' ≡ after = cc (e, e') in subst IsRegistry same reg'
    | no long ↦
        let kept : KeepsAll (root ∷ nodes) (some (after, b)) =
          subst (KeepsAll (root ∷ nodes)) made
            (create_from-KeepsAll id 0 root nodes (omega arith)) in
        subst IsRegistry (sym kept) reg
  ]

  ready_list :
      (root : InsNode F) (after : List (InsNode F)) (b : Bool)
      → root ≡ zero_node m
      → IsRegistry after
      → ReadyBehind root (some (after, b))
      → IsNodeList after
  ready_list root [] b z reg h = elim h [ ]
  ready_list root (first ∷ rest) b z reg (same, ready) = (same ∙ z, reg, ready)

  -- A call that does not overflow keeps the list as requests need it.
  pub create_ins_node_list_device-IsNodeList :
      (before : List (InsNode F)) (id : Text) {after : List (InsNode F)} {p : Option ℕ}
      → create_ins_node_list_device m before id ≡ some (after, p)
      → IsNodeList before
      → IsNodeList after
  create_ins_node_list_device-IsNodeList [] id e l = elim l [ ]
  create_ins_node_list_device-IsNodeList (root ∷ nodes) id {after} e (z, reg, rs) =
      let (b, made) = create_from_of root nodes id e in
      ready_list root after b z (kept-IsRegistry root nodes id e made reg)
        (subst (ReadyBehind root) made (create_from-ReadyBehind id 0 root nodes rs))

NumberedFrom-set :
    {F : Type 0} (k : ℕ) (nodes : List (InsNode F)) (i : ℕ) (n n' : InsNode F)
    → get_elem? nodes i ≡ some n
    → n'.device_no ≡ n.device_no
    → NumberedFrom k nodes
    → NumberedFrom k (set nodes i n')
NumberedFrom-set {F} k [] i n n' e same h = tt
NumberedFrom-set {F} k (x ∷ xs) zero n n' e same (number, h) =
    let is : n ≡ x = cc (e) in (same ∙ ap (λ (d : InsNode F). d.device_no) is ∙ number, h)
NumberedFrom-set {F} k (x ∷ xs) (suc i) n n' e same (number, h) =
    (number, NumberedFrom-set (suc k) xs i n n' e same h)

module _ {F D : Type 0} (m : Machine F D) where
  -- So does a device that is replaced by a ready one with its id and its number.
  pub set-IsNodeList :
      (nodes : List (InsNode F)) (i : ℕ) {n n' : InsNode F}
      → IsNodeList m nodes
      → get_elem? nodes (suc i) ≡ some n
      → n'.dev_name ≡ n.dev_name
      → n'.device_no ≡ n.device_no
      → IsReady n'
      → IsNodeList m (set nodes (suc i) n')
  set-IsNodeList [] i l e name number ready = elim l [ ]
  set-IsNodeList (root ∷ nodes) i {n} {n'} (z, (distinct, numbered), rs) e name number ready = (
    z,
    (
      subst Distinct (sym (map-set (λ d. d.dev_name) (root ∷ nodes) (suc i) e name)) distinct,
      NumberedFrom-set 0 nodes i n n' e number numbered,
    ),
    All-set IsReady nodes i rs ready,
  )
