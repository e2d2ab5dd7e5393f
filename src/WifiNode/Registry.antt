-- ===== src/WifiNode/Registry.antt =====
-- `createInsNodeListDevice` and `findWifiNode` of server/src/WifiNode.c: the linked list of the
-- nodes, from the static root `insNoderoot` on. A pointer to a node is its place in the list, and
-- nodes are only ever added at the end. `calloc` is taken to succeed.
pub mod Lookup
pub mod Search
pub mod Numbers
pub mod Ready
pub mod Names
pub mod Race
use indoor_navigation_system.Base.{
  ℕ, ◌+◌, Bool, true, false, Text, text_eq, Option, none, some, ◌>>=◌, List, [], ◌∷◌, length,
  if◌then◌else◌,
}
use mathlib.Core.Option
use indoor_navigation_system.Machine.{Machine}
use indoor_navigation_system.WifiNode.{InsNode, u32, ins_node_define}

-- The nodes from some place on, and whether the call added one.
abbrev pub Created : Type 0 → Type 0
Created F = List (InsNode F) × Bool

module _ {F D : Type 0} (m : Machine F D) where
  -- What stands in front of the rest is kept.
  abbrev pub keep_node : InsNode F → Option (Created F) → Option (Created F)
  keep_node looper none = none
  keep_node looper (some (nodes, created)) = some (looper ∷ nodes, created)

  -- The loop, `looper` with the nodes behind it and the count, and what follows the loop. `none` is
  -- the overflow of a name.
  unfoldable pub create_from : Text → ℕ → InsNode F → List (InsNode F) → Option (Created F)
  create_from id count looper [] =
      if text_eq id looper.dev_name
      then some (looper ∷ [], false)
      else (do node ← ins_node_define m count id; some (looper ∷ node ∷ [], true))
  create_from id count looper (next ∷ nodes) =
      if text_eq id looper.dev_name
      then some (looper ∷ next ∷ nodes, false)
      else keep_node looper (create_from id (u32 (count + 1)) next nodes)

  -- The list as it is left, and the returned pointer: the new node stands behind all that were
  -- there. A list without its root is a root that is null.
  unfoldable pub create_ins_node_list_device :
      List (InsNode F) → Text → Option (List (InsNode F) × Option ℕ)
  unfolding create_from
  create_ins_node_list_device [] id = some ([], none)
  create_ins_node_list_device (root ∷ nodes) id = do
    (nodes', created) ← create_from id 0 root nodes
    some (nodes', if created then some (length (root ∷ nodes)) else none)

-- The walk counts on from `place`.
unfoldable pub find_from : {F : Type 0} → Text → ℕ → List (InsNode F) → Option ℕ
find_from id place [] = none
find_from id place (looper ∷ nodes) =
    let rest = find_from id (place + 1) nodes in
    if text_eq looper.dev_name id then some place else rest

unfoldable pub find_wifi_node : {F : Type 0} → List (InsNode F) → Text → Option ℕ
unfolding find_from
find_wifi_node nodes id = find_from id 0 nodes
