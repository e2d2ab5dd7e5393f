-- ===== src/WifiNode/Registry/Race.antt =====
-- `createInsNodeListDevice` of server/src/WifiNode.c in small steps, on the list that the threads of
-- the server share without a lock. A step is a look at one node, or the write of `looper->next`,
-- which drops what another thread has put there.
pub mod Steps
pub mod Alone
pub mod Lost
use indoor_navigation_system.Base.{
  ℕ, zero, suc, ◌+◌, ◌≡◌, ◌<◌, refl, ap, ◌∙◌, sym, subst, Bool, true, false, not, ◌&&◌, Text,
  text_eq, Option, none, some, ◌>>=◌, List, [], ◌∷◌, ◌++◌, length, length-append, get_elem?, take,
  replicate, ltb, if◌then◌else◌, arith, Bool-cases, >>=-eq-some, some_injective, inl, inr,
}
use mathlib.Core.Option
use mathlib.Core.List.{append_assoc, append-nil}
use indoor_navigation_system.Machine.{Machine}
use indoor_navigation_system.WifiNode.{InsNode, u32, ins_node_define, dev_name}
use indoor_navigation_system.WifiNode.Registry.{
  Created, keep_node, create_from, create_ins_node_list_device,
}
use indoor_navigation_system.WifiNode.Registry.Lookup.{ids, contains_id, ins_node_define-name}

-- Where a call stands: in its loop at a place, with its count; behind it, about to append to the
-- node at a place; or returned, with its pointer.
pub data Call : Type 0 where
  walking appending : (place count : ℕ) → Call
  returned : Option ℕ → Call

module _ {F D : Type 0} (m : Machine F D) where
  -- What follows a look at a node, which may have a node behind it.
  abbrev pub look : Text → ℕ → ℕ → Bool → InsNode F → Call
  look id place count has_next looper =
      if text_eq id looper.dev_name
      then returned none
      else if has_next
      then walking (place + 1) (u32 (count + 1))
      else appending place count

  -- The write and the filling of the new node are one step.
  unfoldable pub step : Text → Call → List (InsNode F) → Option (Call × List (InsNode F))
  step id (walking place count) nodes = do
    looper ← get_elem? nodes place
    some (look id place count (ltb (place + 1) (length nodes)) looper, nodes)
  step id (appending place count) nodes = do
    node ← ins_node_define m count id
    some (returned (some (place + 1)), take (place + 1) nodes ++ (node ∷ []))
  step id (returned pointer) nodes = some (returned pointer, nodes)

  -- One call alone.
  abbrev pub steps : Text → ℕ → Call → List (InsNode F) → Option (Call × List (InsNode F))
  steps id zero call nodes = some (call, nodes)
  steps id (suc k) call nodes = do (call', nodes') ← step id call nodes; steps id k call' nodes'

  -- Two calls: the list says which of them moves.
  abbrev pub interleave :
      Text
      → Text
      → List Bool
      → Call
      → Call
      → List (InsNode F)
      → Option (Call × Call × List (InsNode F))
  interleave a b [] c d nodes = some (c, d, nodes)
  interleave a b (true ∷ schedule) c d nodes = do
    (c', nodes') ← step a c nodes
    interleave a b schedule c' d nodes'
  interleave a b (false ∷ schedule) c d nodes = do
    (d', nodes') ← step b d nodes
    interleave a b schedule c d' nodes'
