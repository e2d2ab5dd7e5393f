-- ===== src/WifiNode/Config/Shadow.antt =====
-- Where `findNode` (server/src/WifiAccessPointLocalConfig.c) compares only as many characters as the
-- name of the element has, "wifiNodeBlock1" stands for the blocks 10 to 15 as well, and
-- `findMacPath` (server/src/WifiNode.c) never gets to them.
use indoor_navigation_system.Base.{
  subst, text_eq_refl, text_eq, ◌-◌, ℕ, zero, suc, ◌+◌, ◌≤◌, ◌<◌, ◌≡◌, refl, sym, ap, ◌∙◌, ◌++◌,
  true, false, Text, codes, decimal, starts_with, strstr, some, arith,
}
use native.Mathlib.Decide.{dec_lt}
use mathlib.Core.List.{append_assoc}
use indoor_navigation_system.Machine.{Machine}
use indoor_navigation_system.LocalConfig.{
  Xml, IsTree, next_component, find_node, lcfg_get_string_parameter,
}
use indoor_navigation_system.LocalConfig.Walk.{FirstMatch, walk, walk-FirstMatch}
use indoor_navigation_system.WifiNode.{no_floors, maximum_number_nodes}
use indoor_navigation_system.WifiNode.Config.{ConfigReader, lcfg_leaf_str, mac_leaf, find_mac_path}
use indoor_navigation_system.WifiNode.Config.Reader.{lcfg_reader}
use indoor_navigation_system.WifiNode.Config.MacPath.{find_mac_path-IsMacPath, IsMacPath}

-- What `findNode` walks by: the path below "/WifiNodes/".
abbrev pub floor_path : ℕ → ℕ → Text → Text
floor_path i j leaf =
    codes "wifiFloor"
    ++ (decimal i ++ (codes "/wifiNodeBlock" ++ (decimal j ++ (codes "/" ++ leaf))))

abbrev pub block_path : ℕ → Text → Text
block_path j leaf = codes "wifiNodeBlock" ++ (decimal j ++ (codes "/" ++ leaf))

abbrev pub first_block : Text
first_block = codes "wifiNodeBlock1"

-- Block 1, and the blocks whose number begins with its digit.
pub data BeginsWithOne : ℕ → Type 0 where
  one : BeginsWithOne 1
  ten : BeginsWithOne 10
  eleven : BeginsWithOne 11
  twelve : BeginsWithOne 12
  thirteen : BeginsWithOne 13
  fourteen : BeginsWithOne 14
  fifteen : BeginsWithOne 15

module _ {N : Type 0} (xml : Xml N) where
  block_step :
      (j : ℕ) (leaf : Text)
      → BeginsWithOne j
      → (starts_with (block_path j leaf) first_block ≡ true)
        × (next_component xml (block_path j leaf) ≡ some leaf)
  unfolding starts_with next_component strstr decimal
  block_step j leaf one = (refl, refl)
  block_step j leaf ten = (refl, refl)
  block_step j leaf eleven = (refl, refl)
  block_step j leaf twelve = (refl, refl)
  block_step j leaf thirteen = (refl, refl)
  block_step j leaf fourteen = (refl, refl)
  block_step j leaf fifteen = (refl, refl)

-- The three floors.
pub data IsFloor : ℕ → Type 0 where
  one : IsFloor 1
  two : IsFloor 2
  three : IsFloor 3

IsFloor_of : (i : ℕ) → 1 ≤ i → i < 1 + no_floors → IsFloor i
IsFloor_of zero l u = absurd (omega arith)
IsFloor_of (suc zero) l u = IsFloor.one
IsFloor_of (suc (suc zero)) l u = IsFloor.two
IsFloor_of (suc (suc (suc zero))) l u = IsFloor.three
IsFloor_of (suc (suc (suc (suc n)))) l u = absurd (omega arith)

BeginsWithOne-of : (j : ℕ) → 10 ≤ j → j ≤ maximum_number_nodes → BeginsWithOne j
BeginsWithOne-of j l u = begins (j - 10) (omega arith) (omega arith)
  where
    begins : (k : ℕ) → k ≤ 5 → j ≡ 10 + k → BeginsWithOne j
    begins zero h e = rw e BeginsWithOne.ten
    begins (suc zero) h e = rw e BeginsWithOne.eleven
    begins (suc (suc zero)) h e = rw e BeginsWithOne.twelve
    begins (suc (suc (suc zero))) h e = rw e BeginsWithOne.thirteen
    begins (suc (suc (suc (suc zero)))) h e = rw e BeginsWithOne.fourteen
    begins (suc (suc (suc (suc (suc zero))))) h e = rw e BeginsWithOne.fifteen
    begins (suc (suc (suc (suc (suc (suc k)))))) h e = absurd (omega arith)

-- The layout of the shipped file: below the root the path of a floor comes first upon the floor's
-- element, whatever follows in the path, and behind the element's first child stands block 1.
pub record HasLayout {N : Type 0} (xml : Xml N) (child : N) : Type 0 where
  pub floor : ℕ → N
  pub floor_child : ℕ → N
  pub block : ℕ → N
  pub floor_first :
      (i j : ℕ) (leaf : Text) → IsFloor i → FirstMatch xml (floor_path i j leaf) child (floor i)
  pub floor_children : (i : ℕ) → IsFloor i → xml.children (floor i) ≡ some (floor_child i)
  pub block_next : (i : ℕ) → IsFloor i → xml.next_element_sibling (floor_child i) ≡ some (block i)
  pub block_name : (i : ℕ) → IsFloor i → xml.element_name (block i) ≡ first_block

module _ {N : Type 0} (xml : Xml N) (tree : IsTree xml) (child : N)
    (layout : HasLayout xml child) where
  open layout use {floor, floor_child, block, floor_first, floor_children, block_next, block_name}

  floor_step :
      (i j : ℕ) (leaf : Text)
      → IsFloor i
      → next_component xml (floor_path i j leaf) ≡ some (block_path j leaf)
  unfolding next_component strstr starts_with decimal
  floor_step i j leaf IsFloor.one = refl
  floor_step i j leaf IsFloor.two = refl
  floor_step i j leaf IsFloor.three = refl

  below_root :
      (i j : ℕ) (leaf : Text)
      → find_node xml (some child) (lcfg_leaf_str i j ++ leaf)
        ≡ walk xml (some child) (some (floor_path i j leaf))
  unfolding find_node strstr starts_with lcfg_leaf_str
  below_root i j leaf = simp append_assoc

  -- A path to one of those blocks ends below block 1.
  find_node_shadowed :
      (i j : ℕ) (leaf : Text)
      → IsFloor i
      → BeginsWithOne j
      → find_node xml (some child) (lcfg_leaf_str i j ++ leaf)
        ≡ walk xml (xml.children (block i)) (some leaf)
  find_node_shadowed i j leaf f b =
      let (begins, next) = block_step xml j leaf b in
      below_root i j leaf
      ∙ walk-FirstMatch xml tree (floor_path i j leaf) child (floor i) (floor_first i j leaf f)
      ∙ cc (floor_children i f, floor_step i j leaf f)
      ∙ walk-FirstMatch xml tree (block_path j leaf) (floor_child i) (block i)
          (FirstMatch.found (block_next i f) (rw (block_name i f) begins))
      ∙ ap (walk xml (xml.children (block i))) next

  -- In this layout `findNode` answers for the blocks 10 to 15 of a floor as for its block 1.
  pub find_node-eq-first :
      (i j : ℕ) (leaf : Text)
      → 1 ≤ i
      → i < 1 + no_floors
      → 10 ≤ j
      → j ≤ maximum_number_nodes
      → find_node xml (some child) (lcfg_leaf_str i j ++ leaf)
        ≡ find_node xml (some child) (lcfg_leaf_str i 1 ++ leaf)
  find_node-eq-first i j leaf l u l' u' =
      let f = IsFloor_of i l u in
      find_node_shadowed i j leaf f (BeginsWithOne-of j l' u')
      ∙ sym (find_node_shadowed i 1 leaf f BeginsWithOne.one)

  string-eq-first :
      (i j : ℕ)
      → 1 ≤ i
      → i < 1 + no_floors
      → 10 ≤ j
      → j ≤ maximum_number_nodes
      → lcfg_get_string_parameter xml (some child) (mac_leaf i j)
        ≡ lcfg_get_string_parameter xml (some child) (mac_leaf i 1)
  unfolding lcfg_get_string_parameter
  string-eq-first i j l u l' u' = rw (find_node-eq-first i j (codes "macAddress") l u l' u')

  module _ {F D : Type 0} (m : Machine F D) (mac : Text) where
    -- In this layout a path that `findMacPath` finds is always that of a block below 10.
    pub find_mac_path_below_ten :
        (path : Text)
        → find_mac_path (lcfg_reader m xml (some child)) mac ≡ some (some path)
        → (i j : ℕ) × (path ≡ lcfg_leaf_str i j) × (j < 10)
    find_mac_path_below_ten path e =
        below
          (subst (IsMacPath reader mac 1 (1 + no_floors)) e (find_mac_path-IsMacPath reader mac))
      where
        reader : ConfigReader F
        reader = lcfg_reader m xml (some child)

        below :
            IsMacPath reader mac 1 (1 + no_floors) (some (some path))
            → (i j : ℕ) × (path ≡ lcfg_leaf_str i j) × (j < 10)
        below (i, j, l, u, l', u', is, holds, others, floors) = elim (dec_lt j 10) [
          | yes small ↦ (i, j, is, small)
          | no large ↦
              let (a, reads, differs) = others 1 (omega arith) (omega arith) in
              let same = string-eq-first i j l u (omega arith) u' in
              absurd (clash a (cc (same, holds, reads)) differs)
        ]
          where
            clash : (a : Text) → a ≡ mac → text_eq a mac ≡ false → ⊥
            clash a same differs = cc (text_eq_refl mac)
