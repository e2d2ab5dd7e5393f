-- ===== src/WifiNode/Registry/Race/Alone.antt =====
-- A call of `createInsNodeListDevice` of server/src/WifiNode.c that nothing interrupts.
use indoor_navigation_system.Base.{
  ℕ, zero, suc, ◌+◌, ◌≡◌, ◌<◌, refl, ap, ◌∙◌, sym, subst, true, false, Text, text_eq, Option, none,
  some, ◌>>=◌, List, [], ◌∷◌, ◌++◌, length, length-append, ltb, if◌then◌else◌, arith, Bool-cases,
  inl, inr,
}
use mathlib.Core.Option
use mathlib.Core.List.{append_assoc}
use indoor_navigation_system.Machine.{Machine}
use indoor_navigation_system.WifiNode.{InsNode, u32, dev_name}
use indoor_navigation_system.WifiNode.Registry.{
  Created, keep_node, create_from, create_ins_node_list_device,
}
use indoor_navigation_system.WifiNode.Registry.Race.{Call, step, steps}
use indoor_navigation_system.WifiNode.Registry.Race.Steps.{
  get_elem?-append, step-look, step-append_last,
}

module _ {F D : Type 0} (m : Machine F D) where
  steps-returned :
      (id : Text) (k : ℕ) (pointer : Option ℕ) (nodes : List (InsNode F))
      → steps m id k (Call.returned pointer) nodes ≡ some (Call.returned pointer, nodes)
  unfolding step
  steps-returned id zero pointer nodes = refl
  steps-returned id (suc k) pointer nodes = steps-returned id k pointer nodes

  step-known :
      (id : Text) (pre rest : List (InsNode F)) (looper : InsNode F) (count : ℕ)
      → text_eq id looper.dev_name ≡ true
      → step m id (Call.walking (length pre) count) (pre ++ (looper ∷ rest))
        ≡ some (Call.returned none, pre ++ (looper ∷ rest))
  unfolding step
  step-known id pre rest looper count known = rw (get_elem?-append m pre rest looper, known) refl

  -- How a call alone ends, by what the function does from a node on.
  abbrev ended : List (InsNode F) → ℕ → Option (Created F) → Option (Call × List (InsNode F))
  ended pre size none = none
  ended pre size (some (after, created)) =
      some (Call.returned (if created then some size else none), pre ++ after)

  ended-keep_node :
      (pre : List (InsNode F)) (looper : InsNode F) (size : ℕ) (r : Option (Created F))
      → ended (pre ++ (looper ∷ [])) size r ≡ ended pre size (keep_node m looper r)
  ended-keep_node pre looper size none = refl
  ended-keep_node pre looper size (some (after, created)) =
      ap (λ l. some (Call.returned (if created then some size else none), l))
        (append_assoc pre (looper ∷ []) after)

  steps-create_from :
      (id : Text) (pre rest : List (InsNode F)) (looper : InsNode F) (count : ℕ)
      → length id < dev_name
      → steps m id
          (suc (suc (length rest)))
          (Call.walking (length pre) count)
          (pre ++ (looper ∷ rest))
        ≡ ended pre (length (pre ++ (looper ∷ rest))) (create_from m id count looper rest)
  unfolding create_from
  steps-create_from id pre [] looper count fits = elim (Bool-cases (text_eq id looper.dev_name)) [
    | inl known ↦
        rw (step-known id pre [] looper count known, known)
          (steps-returned id 1 none (pre ++ (looper ∷ [])))
    | inr other ↦
        let all = pre ++ (looper ∷ []) in
        let size : length all ≡ length pre + 1 = length-append pre (looper ∷ []) in
        let alone : ltb (length pre + 1) (length all) ≡ false = ground (arith, size) in
        let (node, made, name, appended) =
          step-append_last m id all (length pre) count fits (sym size) in
        rw (step-look m id pre [] looper count false other alone, other, appended, made)
          (ap (λ l. some (Call.returned (some (length all)), l))
            (append_assoc pre (looper ∷ []) (node ∷ [])))
  ]
  steps-create_from id pre (next ∷ rest) looper count fits =
      elim (Bool-cases (text_eq id looper.dev_name)) [
        | inl known ↦
            let all = pre ++ (looper ∷ next ∷ rest) in
            rw (step-known id pre (next ∷ rest) looper count known, known)
              (steps-returned id (suc (suc (length rest))) none all)
        | inr other ↦
            let all = pre ++ (looper ∷ next ∷ rest) in
            let front = pre ++ (looper ∷ []) in
            let counted = u32 (count + 1) in
            let r = create_from m id counted next rest in
            let rounds = suc (suc (length rest)) in
            let more : ltb (length pre + 1) (length all) ≡ true =
              ground (arith, length-append pre (looper ∷ next ∷ rest)) in
            let here =
              subst
                (λ n.
                  steps m id rounds (Call.walking n counted) (front ++ (next ∷ rest))
                  ≡ ended front (length (front ++ (next ∷ rest))) r)
                (length-append pre (looper ∷ []))
                (steps-create_from id front rest next counted fits) in
            let whole =
              subst
                (λ l.
                  steps m id rounds (Call.walking (length pre + 1) counted) l
                  ≡ ended front (length l) r)
                (append_assoc pre (looper ∷ []) (next ∷ rest)) here in
            rw (step-look m id pre (next ∷ rest) looper count true other more, other)
              (whole ∙ ended-keep_node pre looper (length all) r)
      ]

  -- For an id that fits 64 bytes and a list with its root, the small steps of a call without
  -- another thread in between end, after at most two more than there are devices, with the list
  -- and the pointer of the function.
  pub steps-create_ins_node_list_device :
      (id : Text) (root : InsNode F) (nodes : List (InsNode F))
      → length id < dev_name
      → steps m id (suc (suc (length nodes))) (Call.walking 0 0) (root ∷ nodes)
        ≡ Option.map
            (λ (r : List (InsNode F) × Option ℕ). (Call.returned r.1, r.0))
            (create_ins_node_list_device m (root ∷ nodes) id)
  unfolding create_ins_node_list_device
  steps-create_ins_node_list_device id root nodes fits =
      steps-create_from id [] nodes root 0 fits ∙ ended-map (create_from m id 0 root nodes)
    where
      ended-map :
          (r : Option (Created F))
          → ended [] (length (root ∷ nodes)) r
            ≡ Option.map
                (λ (r : List (InsNode F) × Option ℕ). (Call.returned r.1, r.0))
                (r >>= λ c. some (c.0, if c.1 then some (length (root ∷ nodes)) else none))
      ended-map none = refl
      ended-map (some (after, created)) = refl
