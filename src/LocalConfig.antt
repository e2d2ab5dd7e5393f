-- ===== src/LocalConfig.antt =====
-- server/src/WifiAccessPointLocalConfig.c: parameters of the access points in an XML file, over the
-- functions and structures of libxml2, which are a parameter. A result `none` is an undefined
-- behaviour, such as a null text handed to `strtof`, or a walk that did not end.
pub mod Walk
pub mod Initialize
pub mod Loaded
use indoor_navigation_system.Base.{
  ◌<◌, ◌≡◌, ℕ, zero, suc, ◌+◌, ℤ, pos, negsuc, Text, codes, starts_with, strstr, Option, none, some,
  ◌>>=◌, drop, length, if◌then◌else◌,
}
use mathlib.Core.Option
use indoor_navigation_system.Machine.{Machine}

-- What the code uses of an `xmlNode`. `element_name` is the name of an element, `content` the field of
-- that name, which only text nodes have. `size` bounds the nodes that `children` and
-- `xmlNextElementSibling` can still lead to.
pub record Xml (N : Type 0) : Type 0 where
  pub element_name : N → Text
  pub children : N → Option N
  pub next_element_sibling : N → Option N
  pub content : N → Option Text
  pub get_content : N → Option Text
  pub size : N → ℕ

-- The document is a finite tree: both links lead to fewer nodes.
pub record IsTree {N : Type 0} (xml : Xml N) : Type 0 where
  pub children_lt : (n c : N) → xml.children n ≡ some c → xml.size c < xml.size n
  pub sibling_lt : (n s : N) → xml.next_element_sibling n ≡ some s → xml.size s < xml.size n

abbrev pub root_prefix : Text
root_prefix = codes "/WifiNodes/"

module _ {N : Type 0} (xml : Xml N) where
  -- The rest of a path behind its next "/", if it has one.
  unfoldable pub next_component : Text → Option Text
  next_component path = Option.map (drop 1) (strstr path (codes "/"))

  -- What a round does once `xmlNextElementSibling` has answered.
  abbrev pub enter : Text → Option N → Option N × Option Text
  enter path none = (none, some path)
  enter path (some sibling) =
      if starts_with path (xml.element_name sibling)
      then (xml.children sibling, next_component path)
      else (some sibling, some path)

  -- One round of the loop of `findNode`: the new `curr` and `pathName`, either of them maybe null.
  unfoldable pub find_step : N → Text → Option N × Option Text
  unfolding next_component
  find_step curr path = enter path (xml.next_element_sibling curr)

  -- The loop, on fuel.
  unfoldable pub find_loop : ℕ → Option N → Option Text → Option (Option N)
  unfolding find_step
  find_loop fuel none path = some none
  find_loop fuel (some curr) none = some (some curr)
  find_loop zero (some curr) (some path) = none
  find_loop (suc fuel) (some curr) (some path) =
      let (curr', path') = find_step curr path in find_loop fuel curr' path'

  -- A round for each node is enough.
  abbrev pub fuel_of : Option N → ℕ
  fuel_of none = 0
  fuel_of (some n) = suc (xml.size n)

  -- What follows `strstr`.
  abbrev pub find_below_root : Option N → Option Text → Option (Option N)
  find_below_root first none = some none
  find_below_root first (some found) =
      find_loop (fuel_of first) first (some (drop (length root_prefix) found))

  -- `findNode`, from `firstRootChild`.
  unfoldable pub find_node : Option N → Text → Option (Option N)
  unfolding find_loop
  find_node first path = find_below_root first (strstr path root_prefix)

  -- `lcfg_getStringParameter`: the inner option is the returned pointer.
  unfoldable pub lcfg_get_string_parameter : Option N → Text → Option (Option Text)
  unfolding find_node
  lcfg_get_string_parameter first path = do
    node ← find_node first path
    some (Option.bind node xml.get_content)

  -- `lcfg_getInt32Parameter`: the returned code and the value. `strtol` is that of the C library,
  -- with the conversion to `int32_t`.
  unfoldable pub lcfg_get_int32_parameter : (Text → ℤ) → Option N → Text → Option (ℤ × ℤ)
  unfolding find_node
  lcfg_get_int32_parameter strtol first path = do
    node ← find_node first path
    elim node [
      | none ↦ some (negsuc 0, pos 0)
      | some n ↦ Option.map (λ t. (pos 0, strtol t)) (xml.content n)
    ]

  -- `lcfg_setStringParameter`, on a document that `set_content` changes. The arguments are pointers.
  unfoldable pub lcfg_set_string_parameter :
      {S : Type 0} → (N → Text → S → S) → Option N → Option Text → Option Text → S → Option (ℤ × S)
  unfolding find_node
  lcfg_set_string_parameter set_content first (some path) (some content) doc = do
    node ← find_node first path
    elim node [ none ↦ some (negsuc 0, doc) | some n ↦ some (pos 0, set_content n content doc) ]
  lcfg_set_string_parameter set_content first _ _ doc = some (negsuc 0, doc)

-- `lcfg_getFloatParameter`: the returned code and the value.
unfoldable pub lcfg_get_float_parameter :
    {N F D : Type 0} → Machine F D → Xml N → Option N → Text → Option (ℤ × F)
unfolding find_node
lcfg_get_float_parameter m xml first path = do
  node ← find_node xml first path
  elim node [
    | none ↦ some (negsuc 0, m.int_to_float (pos 0))
    | some n ↦ Option.map (λ t. (pos 0, m.strtof t)) (xml.content n)
  ]
