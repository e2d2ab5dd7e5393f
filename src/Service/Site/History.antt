-- ===== src/Service/Site/History.antt =====
-- The server of server/src/ins_service.cpp from its start on, with the requests that it handled and
-- what it answered to them.
use indoor_navigation_system.Base.{
  All, subst, Option-cases, eq_of_text_eq, map, ◌≡◌, refl, ap, ◌∙◌, sym, Bool, true, false, ◌&&◌,
  Text, codes, text_eq, Option, none, some, List, [], ◌∷◌, if◌then◌else◌, Bool-cases, inl, inr,
}
use indoor_navigation_system.Service.Site.{
  IsHeard, Distinct, all_rows, Site, Step, IsServing, IsClean, IsSeries, IsLocated,
}
pub mod Agreement
use mathlib.Mathlib.Data.Multiset.Defs.{Multiset, of_list}
use mathlib.Mathlib.Data.Multiset.AddSub.{add}
use indoor_navigation_system.Machine.{Machine}
use indoor_navigation_system.LocalConfig.{Xml}
use indoor_navigation_system.LocalConfig.Initialize.{Config, FileCalls, lcfg_initialize}
use indoor_navigation_system.DataStore.{Position, Sqlite, AccessPointRssi}
use indoor_navigation_system.DataStore.Operations.{AccessPointRssiList}
use indoor_navigation_system.DataStore.Contents.{Contents}
use indoor_navigation_system.DataStore.Contents.Contract.{Contract, init-Represents}
use indoor_navigation_system.Service.{Code, Server, Request, Response, init_server, all_readings}
use indoor_navigation_system.Service.Routes.{Handler, serve}
use indoor_navigation_system.Service.Site.Refinement.{serve-Step}

-- A request, the handler that it went to and the responses.
pub record Event : Type 0 where
  pub handler : Handler
  pub request : Request
  pub sent : List Response

-- The first response is a success.
abbrev pub succeeded : List Response → Bool
succeeded [] = false
succeeded (response ∷ sent) = elim response.code [
  | Code.ok ↦ true
  | Code.internal_server_error ↦ false
]

abbrev pub concerns : Text → Option Text → Bool
concerns t none = false
concerns t (some id) = text_eq t id

-- The request named the device and succeeded.
abbrev pub applies : Text → Event → Bool
applies t e = concerns t (e.request.param (codes ":device_id")) && succeeded e.sent

-- What a request makes of the readings of a device, if it applies to it.
abbrev change :
    Handler
    → Bool
    → Option (List AccessPointRssi)
    → Multiset AccessPointRssi
    → Multiset AccessPointRssi
change Handler.set_rssi applied none before = before
change Handler.set_rssi applied (some readings) before =
    if applied then add (of_list readings) before else before
change Handler.reset_pos applied readings before = if applied then of_list [] else before
change Handler.resolve_pos applied readings before = before
change Handler.get_device_pos applied readings before = before
change Handler.get_employee_pos applied readings before = before
change Handler.ready applied readings before = before
change Handler.authorise applied readings before = before

abbrev is_resolve : Handler → Bool
is_resolve Handler.resolve_pos = true
is_resolve Handler.set_rssi = false
is_resolve Handler.reset_pos = false
is_resolve Handler.get_device_pos = false
is_resolve Handler.get_employee_pos = false
is_resolve Handler.ready = false
is_resolve Handler.authorise = false

-- The readings of a device that were uploaded since its last reset, by the events alone, the last of
-- them first, and by what the database held at the start.
abbrev pub recorded : {D : Type 0} → Contents D → Text → List Event → Multiset AccessPointRssi
recorded c t [] = c.readings t
recorded c t (e ∷ log) =
    let before = recorded c t log in change e.handler (applies t e) (all_readings e.request) before

module _ {H B R N F D : Type 0} (m : Machine F D) (sqlite : Sqlite H B R D) (xml : Xml N)
    (unwritten : Text) (unset : Position D) (contract : Contract m sqlite) (config : Config N) where
  -- A position that some nodes give for the readings recorded so far, as the database returns it.
  pub record IsResolved (c : Contents D) (t : Text) (log : List Event) (o : Option (Position D))
      : Type 0 where
    pub names : List Text
    pub list : List AccessPointRssiList
    pub position : Position D
    pub used : of_list (all_rows list) ≡ recorded c t log
    pub once : Distinct (map (λ (e : AccessPointRssiList). e.0.mac_addr) list)
    pub heard : All IsHeard list
    pub located : IsLocated m sqlite xml unwritten unset contract config names t list position
    pub is : o ≡ some (contract.stored position)

  -- The position of a device after some events: that of its last successful `/resolve_pos`, and what
  -- the database held at the start if there was none.
  abbrev pub IsPlaced : Contents D → Text → List Event → Option (Position D) → Type 0
  IsPlaced c t [] o = o ≡ c.positions t
  IsPlaced c t (e ∷ log) o =
      let before = IsPlaced c t log o in
      if is_resolve e.handler && applies t e then IsResolved c t log o else before

  -- A state that the server reaches, with the events that led to it, from a database with some
  -- contents.
  pub data Run (c : Contents D) : Server H B N F → List Event → Type 0 where
    start :
        (db : B) (calls : FileCalls N) (before : Config N)
        → contract.Represents db c
        → (lcfg_initialize xml calls before).1 ≡ config
        → Run c (init_server m sqlite xml db calls before) []
    after :
        {s s' : Server H B N F} {log : List Event} (h : Handler) (request : Request)
        (sent : List Response)
        → Run c s log
        → IsClean m sqlite xml unwritten unset contract config request
        → serve m sqlite xml unwritten unset h s request ≡ some (s', sent)
        → Run c s' (record { handler = h; request = request; sent = sent } ∷ log)

  -- What the events say of a site.
  pub record Agrees (c : Contents D) (log : List Event) (site : Site D) : Type 0 where
    pub readings : (t : Text) → site.contents.readings t ≡ recorded c t log
    pub positions : (t : Text) → IsPlaced c t log (site.contents.positions t)
