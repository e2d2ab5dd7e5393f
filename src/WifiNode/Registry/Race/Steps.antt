-- ===== src/WifiNode/Registry/Race/Steps.antt =====
-- The steps of `createInsNodeListDevice` of server/src/WifiNode.c: a look at a node, and the write
-- behind the last.
use indoor_navigation_system.Base.{
  ℕ, ◌+◌, ◌≡◌, ◌<◌, refl, ap, subst, Bool, false, Text, text_eq, some, List, [], ◌∷◌, ◌++◌, length,
  get_elem?, take, ltb, if◌then◌else◌,
}
use mathlib.Core.List.{append-nil}
use indoor_navigation_system.Machine.{Machine}
use indoor_navigation_system.WifiNode.{InsNode, u32, ins_node_define, dev_name}
use indoor_navigation_system.WifiNode.Registry.Lookup.{ins_node_define-name}
use indoor_navigation_system.WifiNode.Registry.Race.{Call, step}

module _ {F D : Type 0} (m : Machine F D) where
  pub get_elem?-append :
      (pre rest : List (InsNode F)) (looper : InsNode F)
      → get_elem? (pre ++ (looper ∷ rest)) (length pre) ≡ some looper
  get_elem?-append [] rest looper = refl
  get_elem?-append (n ∷ pre) rest looper = get_elem?-append pre rest looper

  pub step-look :
      (id : Text) (pre rest : List (InsNode F)) (looper : InsNode F) (count : ℕ) (has_next : Bool)
      → text_eq id looper.dev_name ≡ false
      → ltb (length pre + 1) (length (pre ++ (looper ∷ rest))) ≡ has_next
      → step m id (Call.walking (length pre) count) (pre ++ (looper ∷ rest))
        ≡ some (
          if has_next
              then Call.walking (length pre + 1) (u32 (count + 1))
              else Call.appending (length pre) count,
          pre ++ (looper ∷ rest),
        )
  unfolding step
  step-look id pre rest looper count has_next other e =
      rw (get_elem?-append pre rest looper, e, other) refl

  take-all : (xs ys : List (InsNode F)) → take (length xs) (xs ++ ys) ≡ xs
  take-all [] ys = take-zero ys
    where
      take-zero : (ys : List (InsNode F)) → ◌≡◌ {A = List (InsNode F)} (take 0 ys) []
      take-zero [] = refl
      take-zero (y ∷ ys) = refl
  take-all (x ∷ xs) ys = ap (◌∷◌ x) (take-all xs ys)

  -- An append behind the last of some nodes, whatever another call has put there.
  pub step-append :
      (id : Text) (nodes others : List (InsNode F)) (place count : ℕ)
      → length id < dev_name
      → place + 1 ≡ length nodes
      → (node : InsNode F) × (ins_node_define m count id ≡ some node)
        × (node.dev_name ≡ id)
        × (step m id (Call.appending place count) (nodes ++ others)
            ≡ some (Call.returned (some (length nodes)), nodes ++ (node ∷ [])))
  unfolding step
  step-append id nodes others place count fits e =
      let (node, made, name, number) = ins_node_define-name m count id fits in
      (node, made, name, rw (made, e, take-all nodes others) refl)

  -- The same where nothing was put there.
  pub step-append_last :
      (id : Text) (nodes : List (InsNode F)) (place count : ℕ)
      → length id < dev_name
      → place + 1 ≡ length nodes
      → (node : InsNode F) × (ins_node_define m count id ≡ some node)
        × (node.dev_name ≡ id)
        × (step m id (Call.appending place count) nodes
            ≡ some (Call.returned (some (length nodes)), nodes ++ (node ∷ [])))
  step-append_last id nodes place count fits e =
      let (node, made, name, appended) = step-append id nodes [] place count fits e in
      (
        node,
        made,
        name,
        subst
            (λ l.
              step m id (Call.appending place count) l
              ≡ some (Call.returned (some (length nodes)), nodes ++ (node ∷ [])))
            (append-nil nodes) appended,
      )
