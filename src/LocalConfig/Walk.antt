-- ===== src/LocalConfig/Walk.antt =====
-- The walk of `findNode` (server/src/WifiAccessPointLocalConfig.c): it ends on every tree, and goes
-- by the first sibling whose name begins the path.
use indoor_navigation_system.Base.{
  subst, ℕ, zero, suc, ◌≤◌, ◌≡◌, refl, sym, ap, ◌∙◌, Bool, true, false, Text, starts_with, strstr,
  Option, none, some, drop, length, if◌then◌else◌, arith, Bool-cases, Option-cases, inl, inr,
}
use indoor_navigation_system.LocalConfig.{
  Xml, IsTree, root_prefix, next_component, find_step, find_loop, fuel_of, find_node, enter,
  find_below_root,
}

module _ {N : Type 0} (xml : Xml N) where
  -- The walk with all the rounds that it needs.
  abbrev pub walk : Option N → Option Text → Option (Option N)
  walk curr path = find_loop xml (fuel_of xml curr) curr path

  -- `s` is the first element behind `c` whose name begins the path.
  pub data FirstMatch (path : Text) : N → N → Type 0 where
    found :
        {c s : N}
        → xml.next_element_sibling c ≡ some s
        → starts_with path (xml.element_name s) ≡ true
        → FirstMatch path c s
    passed :
        {c s t : N}
        → xml.next_element_sibling c ≡ some s
        → starts_with path (xml.element_name s) ≡ false
        → FirstMatch path s t
        → FirstMatch path c t

  -- Behind `c` no element has a name that begins the path: the walk ends in null.
  pub data NoMatch (path : Text) : N → Type 0 where
    last : {c : N} → xml.next_element_sibling c ≡ none → NoMatch path c
    passed :
        {c s : N}
        → xml.next_element_sibling c ≡ some s
        → starts_with path (xml.element_name s) ≡ false
        → NoMatch path s
        → NoMatch path c

module _ {N : Type 0} (xml : Xml N) (tree : IsTree xml) where
  fuel_of-children-le : (s : N) → fuel_of xml (xml.children s) ≤ xml.size s
  fuel_of-children-le s = elim (Option-cases (xml.children s)) [
    | inl e ↦ rw e (omega arith)
    | inr (c, e) ↦ rw e (tree.children_lt s c e)
  ]

  -- A round leaves fewer nodes to visit.
  find_step-le : (c : N) (path : Text) → fuel_of xml (find_step xml c path).0 ≤ xml.size c
  unfolding find_step
  find_step-le c path = elim (Option-cases (xml.next_element_sibling c)) [
    | inl e ↦ subst (λ o. fuel_of xml (enter xml path o).0 ≤ xml.size c) (sym e) (omega arith)
    | inr (s, e) ↦
        subst (λ o. fuel_of xml (enter xml path o).0 ≤ xml.size c) (sym e)
          (elim (Bool-cases (starts_with path (xml.element_name s))) [
            | inl b ↦ rw b (omega (arith, fuel_of-children-le s, tree.sibling_lt c s e))
            | inr b ↦ rw b (tree.sibling_lt c s e)
          ])
  ]

  -- A round for each node is enough, and more rounds change nothing.
  pub find_loop_ends :
      (fuel : ℕ) (curr : Option N) (path : Option Text)
      → fuel_of xml curr ≤ fuel
      → (r : Option N) × (find_loop xml fuel curr path ≡ some r)
  unfolding find_loop
  find_loop_ends fuel none path h = (none, refl)
  find_loop_ends fuel (some c) none h = (some c, refl)
  find_loop_ends zero (some c) (some path) h = elim h [ ]
  find_loop_ends (suc fuel) (some c) (some path) h =
      let (curr', path') = find_step xml c path in
      find_loop_ends fuel curr' path' (omega (arith, find_step-le c path))

  pub find_loop-fuel :
      (f g : ℕ) (curr : Option N) (path : Option Text)
      → fuel_of xml curr ≤ f
      → fuel_of xml curr ≤ g
      → find_loop xml f curr path ≡ find_loop xml g curr path
  unfolding find_loop
  find_loop-fuel f g none path h k = refl
  find_loop-fuel f g (some c) none h k = refl
  find_loop-fuel zero g (some c) (some path) h k = elim h [ ]
  find_loop-fuel (suc f) zero (some c) (some path) h k = elim k [ ]
  find_loop-fuel (suc f) (suc g) (some c) (some path) h k =
      let (curr', path') = find_step xml c path in
      find_loop-fuel f g curr' path' (omega (arith, find_step-le c path))
        (omega (arith, find_step-le c path))

  -- `findNode` returns a node or null on every path.
  pub find_node_ends :
      (first : Option N) (path : Text) → (r : Option N) × (find_node xml first path ≡ some r)
  unfolding find_node
  find_node_ends first path = elim (Option-cases (strstr path root_prefix)) [
    | inl e ↦ (none, ap (find_below_root xml first) e)
    | inr (below, e) ↦
        let (r, run) =
          find_loop_ends (fuel_of xml first) first (some (drop (length root_prefix) below))
            (omega arith) in
        (r, ap (find_below_root xml first) e ∙ run)
  ]

  walk_step :
      (c : N) (path : Text)
      → walk xml (some c) (some path) ≡ walk xml (find_step xml c path).0 (find_step xml c path).1
  unfolding find_loop
  walk_step c path =
      let (curr', path') = find_step xml c path in
      find_loop-fuel (xml.size c) (fuel_of xml curr') curr' path' (find_step-le c path)
        (omega arith)

  -- Rounds by what the next sibling is.
  abbrev walk_after : Text → Option N × Option Text → Option (Option N)
  walk_after path (curr, rest) = walk xml curr rest

  walk_enter :
      (c s : N) (path : Text) {b : Bool}
      → xml.next_element_sibling c ≡ some s
      → starts_with path (xml.element_name s) ≡ b
      → walk xml (some c) (some path)
        ≡ walk_after path
            (if b then (xml.children s, next_component xml path) else (some s, some path))
  unfolding find_step
  walk_enter c s path e b =
      walk_step c path
      ∙ ap (λ o. walk_after path (enter xml path o)) e
      ∙ ap
          (λ t.
            walk_after path
              (if t then (xml.children s, next_component xml path) else (some s, some path)))
          b

  walk_last :
      (c : N) (path : Text)
      → xml.next_element_sibling c ≡ none
      → walk xml (some c) (some path) ≡ some none
  unfolding find_step find_loop
  walk_last c path e = walk_step c path ∙ ap (λ o. walk_after path (enter xml path o)) e

  -- From `c` the walk goes down into the first sibling behind it whose name begins the path, and on
  -- with what stands in the path behind the next slash.
  pub walk-FirstMatch :
      (path : Text) (c s : N)
      → FirstMatch xml path c s
      → walk xml (some c) (some path) ≡ walk xml (xml.children s) (next_component xml path)
  walk-FirstMatch path c s (found e b) = walk_enter c s path e b
  walk-FirstMatch path c t (passed {s = s} e b more) =
      walk_enter c s path e b ∙ walk-FirstMatch path s t more

  -- If no sibling behind `c` has a name that begins the path, the walk ends in null.
  pub walk-NoMatch :
      (path : Text) (c : N) → NoMatch xml path c → walk xml (some c) (some path) ≡ some none
  walk-NoMatch path c (last e) = walk_last c path e
  walk-NoMatch path c (passed {s = s} e b more) = walk_enter c s path e b ∙ walk-NoMatch path s more
