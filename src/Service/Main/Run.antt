-- ===== src/Service/Main/Run.antt =====
-- How the program of server/src/main.cpp ends.
use indoor_navigation_system.Base.{
  ap, ◌∙◌, ◌>>=◌, ℕ, ◌≡◌, refl, Bool, true, false, ℤ, Text, Option, none, some, List, [], ◌∷◌, ◌++◌,
  All, if◌then◌else◌,
}
use indoor_navigation_system.Machine.{Machine}
use indoor_navigation_system.LocalConfig.{Xml}
use indoor_navigation_system.LocalConfig.Initialize.{FileCalls, Config}
use indoor_navigation_system.DataStore.{Position, Sqlite}
use indoor_navigation_system.DataStore.Operations.{close_store}
use indoor_navigation_system.WifiNode.Registry.Ready.{IsNodeList}
use indoor_navigation_system.Service
use indoor_navigation_system.Service.{Server, Request, Response, init_server}
use indoor_navigation_system.Service.Routes.{setup_routes, serve}
use indoor_navigation_system.Service.Reachable.{Reachable, Reachable-IsNodeList}
use indoor_navigation_system.Service.Main.{
  EndpointCall, arguments, http_endpoint_init, http_endpoint_set_handler, http_endpoint_serve,
  http_endpoint_shutdown, Event, Program, kill_server, start, init_program, main, shut_down, happen,
  run,
}

-- Whether `main` returns: it is awoken behind a signal.
abbrev pub ends : Bool → List Event → Bool
ends running [] = false
ends running (Event.requested h request ∷ events) = ends running events
ends running (Event.signalled ∷ events) = ends false events
ends true (Event.awoken ∷ events) = ends true events
ends false (Event.awoken ∷ events) = true

module _ {H B R N F D : Type 0} (m : Machine F D) (sqlite : Sqlite H B R D) (xml : Xml N)
    (unwritten : Text) (unset : Position D) where
  -- A request whose handler ends, in any state that the server reaches.
  abbrev pub IsHandled : Event → Type 0
  IsHandled (Event.requested h request) =
      (s : Server H B N F)
      → Reachable m sqlite xml unwritten unset s
      → (s' : Server H B N F) × (sent : List Response) × (serve m sqlite xml unwritten unset h s
            request
          ≡ some (s', sent))
  IsHandled Event.signalled = Unit
  IsHandled Event.awoken = Unit

  -- The server once it has answered the requests that come before the end.
  abbrev pub answered : Bool → List Event → Server H B N F → Option (Server H B N F)
  answered running [] s = some s
  answered running (Event.requested h request ∷ events) s =
      serve m sqlite xml unwritten unset h s request >>= λ r. answered running events r.0
  answered running (Event.signalled ∷ events) s = answered false events s
  answered true (Event.awoken ∷ events) s = answered true events s
  answered false (Event.awoken ∷ events) s = some s

  -- `sqlite3_close` was called on the handle, which is null afterwards.
  abbrev pub closed : Server H B N F → Server H B N F
  closed s = record s { database = none; db = sqlite.close s.database s.db }

  -- The list of nodes is well formed; and the endpoint was shut down and the database closed if
  -- `main` has returned, and neither if not.
  abbrev pub IsEnd : List EndpointCall → Bool → Server H B N F → Program H B N F → Type 0
  IsEnd calls returned last p =
      (p.has_returned ≡ returned)
      × IsNodeList m p.server.nodes
      × (p.endpoint ≡ (if returned then calls ++ (EndpointCall.shutdown ∷ []) else calls))
      × (p.server ≡ (if returned then closed last else last))

  abbrev IsRun : Program H B N F → Bool → List Event → Type 0
  IsRun p running events =
      (last : Server H B N F) × (p' : Program H B N F) × (answered running events p.server
        ≡ some last)
      × (run m sqlite xml unwritten unset events p ≡ some p')
      × IsEnd p.endpoint (ends running events) last p'

  run-returned :
      (events : List Event) (p : Program H B N F)
      → p.has_returned ≡ true
      → run m sqlite xml unwritten unset events p ≡ some p
  unfolding run
  run-returned [] p e = refl
  run-returned (event ∷ events) p e = rw e refl

  run-cons :
      (event : Event) (events : List Event) (p p' : Program H B N F)
      → p.has_returned ≡ false
      → happen m sqlite xml unwritten unset event p ≡ some p'
      → run m sqlite xml unwritten unset (event ∷ events) p
        ≡ run m sqlite xml unwritten unset events p'
  unfolding run
  run-cons event events p p' e f = rw (f, e) refl

  shut_down_ends :
      (events : List Event) (p : Program H B N F)
      → Reachable m sqlite xml unwritten unset p.server
      → p.has_returned ≡ false
      → p.is_server_running ≡ false
      → IsRun p false (Event.awoken ∷ events)
  unfolding happen http_endpoint_shutdown Service.shutdown close_store
  shut_down_ends events p r e off =
      let p' = shut_down m sqlite xml unwritten unset p in
      (
        p.server,
        p',
        refl,
        run-cons Event.awoken events p p' e (rw off refl) ∙ run-returned events p' refl,
        (refl, Reachable-IsNodeList m sqlite xml unwritten unset r, refl, refl),
      )

  program_ends :
      (events : List Event) (p : Program H B N F) (running : Bool)
      → All IsHandled events
      → Reachable m sqlite xml unwritten unset p.server
      → p.has_returned ≡ false
      → p.is_server_running ≡ running
      → IsRun p running events
  unfolding happen kill_server run
  program_ends [] p running handled r e is = (
    p.server,
    p,
    refl,
    refl,
    (e, Reachable-IsNodeList m sqlite xml unwritten unset r, refl, refl),
  )
  program_ends (Event.requested h request ∷ events) p running (can, handled) r e is =
      let (s, sent, served) = can p.server r in
      let (last, p', all, ran, ended) =
        program_ends events (record p { server = s }) running handled
          (Reachable.after h request sent r served) e is in
      (
        last,
        p',
        ap (λ o. o >>= λ (r : Server H B N F × List Response). answered running events r.0) served
            ∙ all,
        run-cons (Event.requested h request) events p (record p { server = s }) e (rw served refl)
            ∙ ran,
        ended,
      )
  program_ends (Event.signalled ∷ events) p running (can, handled) r e is =
      let (last, p', all, ran, ended) =
        program_ends events (kill_server p) false handled r e refl in
      (last, p', all, run-cons Event.signalled events p (kill_server p) e refl ∙ ran, ended)
  program_ends (Event.awoken ∷ events) p true (can, handled) r e on =
      let (last, p', all, ran, ended) = program_ends events p true handled r e on in
      (last, p', all, run-cons Event.awoken events p p e (rw on refl) ∙ ran, ended)
  program_ends (Event.awoken ∷ events) p false (can, handled) r e off =
      shut_down_ends events p r e off

  -- With arguments that can be converted, and requests whose handlers end in every state that the
  -- server reaches, the program makes its end point, serves, and returns exactly if its main
  -- thread looks at its flag behind a signal. Its server is then the one that `Init` made, after the
  -- requests up to the end; if `main` has returned, the end point was shut down, once, and the
  -- database of that server was closed, by its handle, which is null afterwards. The list of nodes is
  -- well formed in any case.
  pub main-IsEnd :
      (stol : Text → Option ℤ) (db : B) (calls : FileCalls N) (config : Config N) (argv : List Text)
      (events : List Event) {port : ℕ} {threads : ℤ}
      → arguments stol argv ≡ some (port, threads)
      → All IsHandled events
      → (begun : Program H B N F) × (last : Server H B N F) × (p : Program H B N F) × (main m sqlite
            xml unwritten unset stol db calls config argv
          ≡ some begun)
        × (answered true events (init_server m sqlite xml db calls config) ≡ some last)
        × (run m sqlite xml unwritten unset events begun ≡ some p)
        × IsEnd
            (EndpointCall.create port
              ∷ EndpointCall.init threads
              ∷ EndpointCall.set_handler setup_routes
              ∷ EndpointCall.serve_threaded
              ∷ [])
            (ends true events)
            last
            p
  unfolding main start init_program http_endpoint_init http_endpoint_set_handler http_endpoint_serve
  main-IsEnd stol db calls config argv events {port} {threads} given handled =
      let begun =
        start m sqlite xml unwritten unset
          (init_program m sqlite xml unwritten unset db calls config (port, threads)) in
      let (last, p, all, ran, ended) =
        program_ends events begun true handled (Reachable.start db calls config) refl refl in
      (begun, last, p, rw given refl, all, ran, ended)
