-- ===== src/WifiNode/Config.antt =====
-- `findMacPath` and `loadLCFGParams` of server/src/WifiNode.c: the parameters of an access point
-- from the local configuration, which is read through an interface.
pub mod Reader
pub mod MacPath
pub mod Load
pub mod Shadow
pub mod Unterminated
use indoor_navigation_system.Base.{
  ◌*◌, ◌∷◌, replicate, List, [], drop, ℕ, zero, suc, ◌+◌, ◌-◌, ◌%◌, ◌^◌, ℤ, pos, negsuc, ◌+ℤ◌, Text,
  codes, decimal, text_eq, Bool, true, false, Option, none, some, ◌>>=◌, ◌++◌, take, if◌then◌else◌,
}
use indoor_navigation_system.WifiNode.{
  Coordinates, PathLossParams, WifiParams, no_floors, maximum_number_nodes,
}

-- The two calls of the local configuration: the text, which may be null, or the code and the value.
pub record ConfigReader (F : Type 0) : Type 0 where
  pub get_string : Text → Option (Option Text)
  pub get_float : Text → Option (ℤ × F)

-- `LCFG_LEAF_STR`
unfoldable pub lcfg_leaf_str : ℕ → ℕ → Text
lcfg_leaf_str i j =
    codes "/WifiNodes/wifiFloor"
    ++ (decimal i ++ (codes "/wifiNodeBlock" ++ (decimal j ++ codes "/")))

abbrev pub mac_leaf : ℕ → ℕ → Text
mac_leaf i j = lcfg_leaf_str i j ++ codes "macAddress"

-- `uint32_t` of an `int32_t`
abbrev pub to_u32 : ℤ → ℕ
to_u32 (pos n) = n % 2 ^ 32
to_u32 (negsuc n) = 2 ^ 32 - 1 - n % 2 ^ 32

abbrev is_minus_one : ℤ → Bool
is_minus_one (negsuc zero) = true
is_minus_one _ = false

-- A `char[24]` with a text at its front: the rest is zeros.
abbrev row : Text → Text
row text = take 24 (text ++ replicate 24 0)

abbrev rows : List Text → Text
rows [] = []
rows (text ∷ texts) = row text ++ rows texts

-- `leaves`, the bytes of the whole array. "powerAtArbitraryDistance" has 24 characters and leaves no
-- room for a zero.
unfoldable leaves : Text
unfolding replicate
leaves = rows (
    codes "_3DPosition/x"
    ∷ codes "_3DPosition/y"
    ∷ codes "_3DPosition/z"
    ∷ codes "arbitraryDistance"
    ∷ codes "powerTransmit"
    ∷ codes "powerAtArbitraryDistance"
    ∷ codes "macAddress"
    ∷ []
    ∷ [])

-- A C string: the bytes up to the first zero.
abbrev c_string : Text → Text
c_string [] = []
c_string (zero ∷ text) = []
c_string (suc c ∷ text) = suc c ∷ c_string text

-- What "%s" reads from `leaves[k]`: up to the first zero in the array, also if that is in a row
-- behind. The standard leaves this undefined; it is what lies in memory.
unfoldable pub leaf : ℕ → Text
unfolding leaves
leaf k = c_string (drop (24 * k) leaves)

module _ {F : Type 0} (reader : ConfigReader F) where
  open reader use {get_string, get_float}

  -- The loop over the blocks of floor `i` from `j` on, with the rounds left. `strcmp` of a null text is
  -- undefined.
  unfoldable pub search_blocks : Text → ℕ → ℕ → ℕ → Option (Option Text)
  search_blocks mac i j zero = some none
  search_blocks mac i j (suc rounds) = do
    temp ← get_string (mac_leaf i j)
    address ← temp
    if text_eq address mac
        then some (some (lcfg_leaf_str i j))
        else search_blocks mac i (j + 1) rounds

  -- A path that was found ends the function.
  abbrev pub or_next_floor : Option Text → Option (Option Text) → Option (Option Text)
  or_next_floor (some path) rest = some (some path)
  or_next_floor none rest = rest

  unfoldable pub search_floors : Text → ℕ → ℕ → Option (Option Text)
  unfolding search_blocks
  search_floors mac i zero = some none
  search_floors mac i (suc rounds) = do
    path ← search_blocks mac i 1 maximum_number_nodes
    or_next_floor path (search_floors mac (i + 1) rounds)

  -- The path that is written to the buffer, or none if the buffer is left as it was.
  unfoldable pub find_mac_path : Text → Option (Option Text)
  unfolding search_floors
  find_mac_path mac = search_floors mac 1 no_floors

  -- `snprintf` into 128 bytes, and the read.
  unfoldable pub read_leaf : Text → Text → Option (ℤ × F)
  read_leaf path leaf = get_float (take 127 (path ++ leaf))

  load_mac_address : Text → ℤ → WifiParams F → Option (ℤ × WifiParams F)
  load_mac_address path ret w = do
    address ← get_string (take 127 (path ++ leaf 6))
    some (ret, record w { mac_address = address })

  load_power_d : Text → ℤ → WifiParams F → Option (ℤ × WifiParams F)
  unfolding read_leaf load_mac_address
  load_power_d path ret w = do
    (r, v) ← read_leaf path (leaf 5)
    let ret' = ret +ℤ r
    let w' = record w { path_loss = record (w.path_loss) { power_d = v } }
    if is_minus_one ret' then some (ret', w') else load_mac_address path ret' w'

  load_power_do : Text → ℤ → WifiParams F → Option (ℤ × WifiParams F)
  unfolding read_leaf load_power_d
  load_power_do path ret w = do
    (r, v) ← read_leaf path (leaf 4)
    let ret' = ret +ℤ r
    let w' = record w { path_loss = record (w.path_loss) { power_do = v } }
    if is_minus_one ret' then some (ret', w') else load_power_d path ret' w'

  load_d_distance : Text → ℤ → WifiParams F → Option (ℤ × WifiParams F)
  unfolding read_leaf load_power_do
  load_d_distance path ret w = do
    (r, v) ← read_leaf path (leaf 3)
    let ret' = ret +ℤ r
    let w' = record w { path_loss = record (w.path_loss) { d_distance = v } }
    if is_minus_one ret' then some (ret', w') else load_power_do path ret' w'

  load_position : Text → WifiParams F → Option (ℤ × WifiParams F)
  unfolding read_leaf
  load_position path w = do
    (r_x, x) ← read_leaf path (leaf 0)
    (r_y, y) ← read_leaf path (leaf 1)
    (r_z, z) ← read_leaf path (leaf 2)
    some (pos 0 +ℤ r_x +ℤ r_y +ℤ r_z, record w { position = record { x = x; y = y; z = z } })

  -- The path to read under: `buffParams`, which nothing has written if there is no path.
  abbrev pub path_or : Text → Option Text → Text
  path_or unwritten none = unwritten
  path_or unwritten (some path) = path

  -- `unwritten` is what stands in the buffer before. The access point's address must not be null.
  unfoldable pub load_lcfg_params : Text → WifiParams F → Option (ℕ × WifiParams F)
  unfolding find_mac_path load_position load_d_distance
  load_lcfg_params unwritten w = do
    mac ← w.mac_address
    found ← find_mac_path mac
    let path = path_or unwritten found
    (ret, placed) ← load_position path w
    (ret', loaded) ← load_d_distance path ret placed
    some (to_u32 ret', loaded)
