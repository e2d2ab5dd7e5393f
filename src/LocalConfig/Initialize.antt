-- ===== src/LocalConfig/Initialize.antt =====
-- `lcfg_initialize` of server/src/WifiAccessPointLocalConfig.c. The calls of the operating system
-- and of libxml2 are given by their results; the reads fill the buffer.
use indoor_navigation_system.Base.{
  ◌&&◌, ℤ, pos, negsuc, codes, text_eq, Bool, Option, none, some, if◌then◌else◌,
}
use indoor_navigation_system.LocalConfig.{Xml}

-- The results of `open`, `fstat`, `malloc` and `xmlReadMemory`, the last as the document's root.
pub record FileCalls (N : Type 0) : Type 0 where
  pub open_ok : Bool
  pub fstat_ok : Bool
  pub malloc_ok : Bool
  pub parsed : Option (Option N)

-- The static variables: `doc`, as its root element, and `firstRootChild`.
pub record Config (N : Type 0) : Type 0 where
  pub doc : Option (Option N)
  pub first_root_child : Option N

module _ {N : Type 0} (xml : Xml N) where
  -- What follows once the document is read, or was not: `xmlDocGetRootElement` of a null document
  -- is null.
  unfoldable pub check_root : Option N → Config N → ℤ × Config N
  check_root none c = (negsuc 0, c)
  check_root (some root) c =
      if text_eq (xml.element_name root) (codes "WifiNodes")
      then elim (xml.children root) [
        | none ↦ (negsuc 0, record c { first_root_child = none })
        | some child ↦ (pos 0, record c { first_root_child = some child })
      ]
      else (negsuc 0, c)

  abbrev pub root_of : Option (Option N) → Option N
  root_of none = none
  root_of (some root) = root

  -- A file that cannot be opened leaves the document of an earlier call.
  unfoldable pub lcfg_initialize : FileCalls N → Config N → ℤ × Config N
  unfolding check_root
  lcfg_initialize calls c =
      if calls.open_ok
      then (if calls.fstat_ok && calls.malloc_ok
          then check_root (root_of calls.parsed) (record c { doc = calls.parsed })
          else (negsuc 0, c))
      else check_root (root_of c.doc) c
