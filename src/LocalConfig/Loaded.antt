-- ===== src/LocalConfig/Loaded.antt =====
-- What `lcfg_initialize` of server/src/WifiAccessPointLocalConfig.c leaves behind, by the results of
-- its calls.
use indoor_navigation_system.Base.{
  ℤ, pos, negsuc, codes, Option, none, some, ◌≡◌, ◌≢◌, true, false, ◌&&◌,
}
use indoor_navigation_system.LocalConfig.{Xml}
use indoor_navigation_system.LocalConfig.Initialize.{FileCalls, Config, root_of}

module _ {N : Type 0} (xml : Xml N) where
  -- The document that is looked at: the one that is read from the file, or that of an earlier call
  -- if the file cannot be opened.
  pub data IsDocument (calls : FileCalls N) (before : Config N) : Option (Option N) → Type 0 where
    read :
        calls.open_ok ≡ true
        → calls.fstat_ok && calls.malloc_ok ≡ true
        → IsDocument calls before calls.parsed
    kept : calls.open_ok ≡ false → IsDocument calls before before.doc

  -- The call fails on a file that cannot be read, on a document without a root or with a root of
  -- another name, and on a root without a child; else it has found what `findNode` starts from.
  pub data IsLoaded (calls : FileCalls N) (before : Config N) : ℤ × Config N → Type 0 where
    unread :
        calls.open_ok ≡ true
        → calls.fstat_ok && calls.malloc_ok ≡ false
        → IsLoaded calls before (negsuc 0, before)
    rootless :
        (doc : Option (Option N))
        → IsDocument calls before doc
        → root_of xml doc ≡ none
        → IsLoaded calls before (negsuc 0, record before { doc = doc })
    misnamed :
        (doc : Option (Option N)) (root : N)
        → IsDocument calls before doc
        → root_of xml doc ≡ some root
        → xml.element_name root ≢ codes "WifiNodes"
        → IsLoaded calls before (negsuc 0, record before { doc = doc })
    childless :
        (doc : Option (Option N)) (root : N)
        → IsDocument calls before doc
        → root_of xml doc ≡ some root
        → xml.element_name root ≡ codes "WifiNodes"
        → xml.children root ≡ none
        → IsLoaded calls before (negsuc 0, record { doc = doc; first_root_child = none })
    loaded :
        (doc : Option (Option N)) (root child : N)
        → IsDocument calls before doc
        → root_of xml doc ≡ some root
        → xml.element_name root ≡ codes "WifiNodes"
        → xml.children root ≡ some child
        → IsLoaded calls before (pos 0, record { doc = doc; first_root_child = some child })
