-- ===== src/Service/Site/Refinement.antt =====
-- The handlers of server/src/ins_service.cpp implement the steps of a site.
use indoor_navigation_system.Service.Site.Serving.{
  get_employee_pos-Leads, get_device_pos-Leads, reset_pos-Leads, set_rssi-Leads, Leads, Serving,
}
use indoor_navigation_system.Service.Site.Resolve.{resolve_pos-Leads}
use indoor_navigation_system.Service.Site.{Site, Step, IsClean}
use indoor_navigation_system.Service.{auth, handle_ready, Server, Request, Response}
use indoor_navigation_system.DataStore.Contents.Contract.{Contract}
use indoor_navigation_system.Base.{IfSome, ◌≡◌, subst, Text, some, List}
use indoor_navigation_system.Machine.{Machine}
use indoor_navigation_system.LocalConfig.{Xml}
use indoor_navigation_system.LocalConfig.Initialize.{Config}
use indoor_navigation_system.DataStore.{Position, Sqlite}
use indoor_navigation_system.Service.Routes.{Handler, serve}

module _ {H B R N F D : Type 0} (m : Machine F D) (sqlite : Sqlite H B R D) (xml : Xml N)
    (unwritten : Text) (unset : Position D) (contract : Contract m sqlite) (config : Config N) where
  serve-Leads :
      (h : Handler) (s : Server H B N F) (site : Site D) (request : Request)
      → Serving m sqlite xml unwritten unset contract config s site
      → IsClean m sqlite xml unwritten unset contract config request
      → IfSome
          (Leads m sqlite xml unwritten unset contract config request site h)
          (serve m sqlite xml unwritten unset h s request)
  unfolding serve handle_ready auth
  serve-Leads Handler.set_rssi s site request v clean =
      set_rssi-Leads m sqlite xml unwritten unset contract config s site request v clean
  serve-Leads Handler.resolve_pos s site request v clean =
      resolve_pos-Leads m sqlite xml unwritten unset contract config s site request v clean
  serve-Leads Handler.reset_pos s site request v clean =
      reset_pos-Leads m sqlite xml unwritten unset contract config s site request v clean
  serve-Leads Handler.get_device_pos s site request v clean =
      get_device_pos-Leads m sqlite xml unwritten unset contract config s site request v clean
  serve-Leads Handler.get_employee_pos s site request v clean =
      get_employee_pos-Leads m sqlite xml unwritten unset contract config s site request v clean
  serve-Leads Handler.ready s site request v clean = (site, Step.ready_told, v)
  serve-Leads Handler.authorise s site request v clean = (site, Step.authorised, v)

  -- Whenever a server that serves a site, by the contract with SQLite, ends a request with clean
  -- texts, the site has made one of the steps of that handler, with the responses that were sent,
  -- and the server serves the site afterwards.
  pub serve-Step :
      (h : Handler) (server : Server H B N F) (site : Site D) (request : Request)
      {after : Server H B N F} {sent : List Response}
      → Serving m sqlite xml unwritten unset contract config server site
      → IsClean m sqlite xml unwritten unset contract config request
      → serve m sqlite xml unwritten unset h server request ≡ some (after, sent)
      → (site' : Site D) × Step m sqlite xml unwritten unset contract config request site h site'
          sent
        × Serving m sqlite xml unwritten unset contract config after site'
  serve-Step h server site request v clean e =
      subst (IfSome (Leads m sqlite xml unwritten unset contract config request site h)) e
        (serve-Leads h server site request v clean)
