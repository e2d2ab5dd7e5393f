-- ===== src/WifiNode/Registry/Race/Lost.antt =====
-- Two calls of `createInsNodeListDevice` of server/src/WifiNode.c at the same time.
use indoor_navigation_system.Base.{
  ℕ, zero, suc, ◌+◌, ◌≡◌, ◌<◌, refl, ap, ◌∙◌, subst, Bool, true, false, Text, text_eq, some, List,
  [], ◌∷◌, ◌++◌, length, length-append, replicate, ltb, arith, >>=-eq-some, some_injective,
}
use mathlib.Core.List.{append_assoc}
use indoor_navigation_system.Machine.{Machine}
use indoor_navigation_system.WifiNode.{InsNode, u32, dev_name}
use indoor_navigation_system.WifiNode.Registry.Lookup.{ids, contains_id}
use indoor_navigation_system.WifiNode.Registry.Race.{Call, step, steps, interleave}
use indoor_navigation_system.WifiNode.Registry.Race.Steps.{step-look, step-append, step-append_last}

module _ {F D : Type 0} (m : Machine F D) where
  interleave-first :
      (a b : Text) (k : ℕ) (schedule : List Bool) (c d : Call) (nodes : List (InsNode F))
      {c' : Call} {nodes' : List (InsNode F)}
      → steps m a k c nodes ≡ some (c', nodes')
      → interleave m a b (replicate k true ++ schedule) c d nodes
        ≡ interleave m a b schedule c' d nodes'
  unfolding replicate
  interleave-first a b zero schedule c d nodes e =
      ap (λ r. interleave m a b schedule r.0 d r.1) (some_injective e)
  interleave-first a b (suc k) schedule c d nodes e =
      let (r, stepped, others) = >>=-eq-some (step m a c nodes) _ e in
      rw stepped (interleave-first a b k schedule r.0 d r.1 others)

  interleave-second :
      (a b : Text) (k : ℕ) (schedule : List Bool) (c d : Call) (nodes : List (InsNode F))
      {d' : Call} {nodes' : List (InsNode F)}
      → steps m b k d nodes ≡ some (d', nodes')
      → interleave m a b (replicate k false ++ schedule) c d nodes
        ≡ interleave m a b schedule c d' nodes'
  unfolding replicate
  interleave-second a b zero schedule c d nodes e =
      ap (λ r. interleave m a b schedule c r.0 r.1) (some_injective e)
  interleave-second a b (suc k) schedule c d nodes e =
      let (r, stepped, others) = >>=-eq-some (step m b d nodes) _ e in
      rw stepped (interleave-second a b k schedule c r.0 r.1 others)

  -- A call whose id is not in the list comes to its end.
  steps-appending :
      (id : Text) (pre rest : List (InsNode F)) (looper : InsNode F) (count : ℕ)
      → contains_id id (ids (looper ∷ rest)) ≡ false
      → (last : ℕ) × (steps m id
            (suc (length rest))
            (Call.walking (length pre) count)
            (pre ++ (looper ∷ rest))
          ≡ some (Call.appending (length pre + length rest) last, pre ++ (looper ∷ rest)))
  steps-appending id pre [] looper count absent =
      let other : text_eq id looper.dev_name ≡ false = ground arith in
      let alone : ltb (length pre + 1) (length (pre ++ (looper ∷ []))) ≡ false =
        ground (arith, length-append pre (looper ∷ [])) in
      let same : length pre ≡ length pre + 0 = omega arith in
      (
        count,
        rw (step-look m id pre [] looper count false other alone)
            (ap (λ p. some (Call.appending p count, pre ++ (looper ∷ []))) same),
      )
  steps-appending id pre (next ∷ rest) looper count absent =
      let other : text_eq id looper.dev_name ≡ false = ground arith in
      let absent' : contains_id id (ids (next ∷ rest)) ≡ false = ground arith in
      let more : ltb (length pre + 1) (length (pre ++ (looper ∷ next ∷ rest))) ≡ true =
        ground (arith, length-append pre (looper ∷ next ∷ rest)) in
      let front = pre ++ (looper ∷ []) in
      let counted = u32 (count + 1) in
      let (last, moved) = steps-appending id front rest next counted absent' in
      let place : length front ≡ length pre + 1 = length-append pre (looper ∷ []) in
      let end : length front + length rest ≡ length pre + suc (length rest) =
        omega (arith, place) in
      let here =
        subst
          (λ n.
            steps m id (suc (length rest)) (Call.walking n counted) (front ++ (next ∷ rest))
            ≡ some (Call.appending (length front + length rest) last, front ++ (next ∷ rest)))
          place moved in
      let there =
        subst
          (λ n.
            steps m id (suc (length rest)) (Call.walking (length pre + 1) counted)
              (front ++ (next ∷ rest))
            ≡ some (Call.appending n last, front ++ (next ∷ rest)))
          end here in
      let whole =
        subst
          (λ l.
            steps m id (suc (length rest)) (Call.walking (length pre + 1) counted) l
            ≡ some (Call.appending (length pre + suc (length rest)) last, l))
          (append_assoc pre (looper ∷ []) (next ∷ rest)) there in
      (last, rw (step-look m id pre (next ∷ rest) looper count true other more) whole)

  -- Two calls for ids that fit 64 bytes and are not in the list, on any list with its root, can be
  -- interleaved so that both return a pointer to a node of their own at the same place, while the
  -- list holds only the node of one: the device of the other is lost.
  pub registrations_race :
      (a b : Text) (root : InsNode F) (nodes : List (InsNode F))
      → length a < dev_name
      → length b < dev_name
      → contains_id a (ids (root ∷ nodes)) ≡ false
      → contains_id b (ids (root ∷ nodes)) ≡ false
      → (schedule : List Bool) × (node : InsNode F) × (node.dev_name ≡ b)
        × (interleave m a b schedule (Call.walking 0 0) (Call.walking 0 0) (root ∷ nodes)
            ≡ some (
              Call.returned (some (suc (length nodes))),
              Call.returned (some (suc (length nodes))),
              root ∷ nodes ++ (node ∷ []),
            ))
  registrations_race a b root nodes fits_a fits_b new_a new_b =
      let moves = suc (length nodes) in
      let (count_a, walked_a) = steps-appending a [] nodes root 0 new_a in
      let (count_b, walked_b) = steps-appending b [] nodes root 0 new_b in
      let all = root ∷ nodes in
      let place = 0 + length nodes in
      let behind : place + 1 ≡ length all = omega arith in
      let (node_a, made_a, name_a, appended_a) =
        step-append_last m a all place count_a fits_a behind in
      let (node_b, made_b, name_b, appended_b) =
        step-append m b all (node_a ∷ []) place count_b fits_b behind in
      let writes = true ∷ false ∷ [] in
      (
        replicate moves true ++ (replicate moves false ++ writes),
        node_b,
        name_b,
        interleave-first a b moves (replicate moves false ++ writes) (Call.walking 0 0)
              (Call.walking 0 0) all walked_a
            ∙ interleave-second a b moves writes (Call.appending place count_a) (Call.walking 0 0)
                all walked_b
            ∙ rw (appended_a, appended_b) refl,
      )
