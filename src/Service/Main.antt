-- ===== src/Service/Main.antt =====
-- server/src/main.cpp, with `Start` of server/src/ins_service.cpp and the wrapper of Pistache in
-- server/src/lib_wrapper.cpp: the program from its arguments to its end. The end point of Pistache
-- is given by the calls on it, in order. Between `Start` and `Shutdown` events come: requests,
-- signals of the system, and the looks of the main thread at its flag, at first and behind each nap.
-- `none` is an exception.
pub mod Run
use mathlib.Core.Option
use indoor_navigation_system.Base.{
  ℕ, ◌+◌, ◌-◌, ◌%◌, ◌^◌, Bool, true, false, ℤ, pos, negsuc, Text, Option, none, some, ◌>>=◌, List,
  [], ◌∷◌, ◌++◌, ltb, if◌then◌else◌,
}
use indoor_navigation_system.Machine.{Machine}
use indoor_navigation_system.LocalConfig.{Xml}
use indoor_navigation_system.LocalConfig.Initialize.{FileCalls, Config}
use indoor_navigation_system.DataStore.{Position, Sqlite}
use indoor_navigation_system.Service.{Server, Request, init_server}
use indoor_navigation_system.Service.Routes.{Handler, Route, setup_routes, serve}
use indoor_navigation_system.Service as Service

-- The port is that of the address with any host.
pub data EndpointCall : Type 0 where
  create : (port : ℕ) → EndpointCall
  init : (threads : ℤ) → EndpointCall
  set_handler : List Route → EndpointCall
  serve_threaded shutdown : EndpointCall

-- The functions of the wrapper.
unfoldable pub http_endpoint_init : ℤ → List EndpointCall → List EndpointCall
http_endpoint_init threads calls = calls ++ (EndpointCall.init threads ∷ [])

unfoldable pub http_endpoint_set_handler : List Route → List EndpointCall → List EndpointCall
http_endpoint_set_handler router calls = calls ++ (EndpointCall.set_handler router ∷ [])

unfoldable pub http_endpoint_serve : List EndpointCall → List EndpointCall
http_endpoint_serve calls = calls ++ (EndpointCall.serve_threaded ∷ [])

unfoldable pub http_endpoint_shutdown : List EndpointCall → List EndpointCall
http_endpoint_shutdown calls = calls ++ (EndpointCall.shutdown ∷ [])

-- `static_cast<uint16_t>` and `static_cast<int>` of a `long`.
unfoldable pub to_uint16 : ℤ → ℕ
to_uint16 (pos n) = n % 2 ^ 16
to_uint16 (negsuc n) = 2 ^ 16 - 1 - n % 2 ^ 16

abbrev signed : ℕ → ℤ
signed n = if ltb n (2 ^ 31) then pos n else negsuc (2 ^ 32 - 1 - n)

unfoldable pub to_int : ℤ → ℤ
to_int (pos n) = signed (n % 2 ^ 32)
to_int (negsuc n) = signed (2 ^ 32 - 1 - n % 2 ^ 32)

-- The port and the number of threads, by the arguments with the program's name in front; `stol`
-- throws on a text that is no number.
unfoldable pub arguments : (Text → Option ℤ) → List Text → Option (ℕ × ℤ)
unfolding to_uint16 to_int
arguments stol (program ∷ port ∷ threads ∷ []) = do
  p ← stol port
  t ← stol threads
  some (to_uint16 p, to_int t)
arguments stol (program ∷ port ∷ more) = do p ← stol port; some (to_uint16 p, pos 2)
arguments stol _ = some (9080, pos 2)

pub data Event : Type 0 where
  requested : Handler → Request → Event
  signalled awoken : Event

-- `is_server_running`, whether `main` has returned, the server, and the calls on the endpoint.
pub record Program (H B N F : Type 0) : Type 0 where
  pub is_server_running : Bool
  pub has_returned : Bool
  pub server : Server H B N F
  pub endpoint : List EndpointCall

unfoldable pub kill_server : {H B N F : Type 0} → Program H B N F → Program H B N F
kill_server p = record p { is_server_running = false }

module _ {H B R N F D : Type 0} (m : Machine F D) (sqlite : Sqlite H B R D) (xml : Xml N)
    (unwritten : Text) (unset : Position D) where
  -- `Start`
  unfoldable pub start : Program H B N F → Program H B N F
  unfolding http_endpoint_set_handler http_endpoint_serve
  start p = record p {
    endpoint = http_endpoint_serve (http_endpoint_set_handler setup_routes p.endpoint);
  }

  -- `Init` with its endpoint, up to the routes.
  unfoldable pub init_program : B → FileCalls N → Config N → ℕ × ℤ → Program H B N F
  unfolding http_endpoint_init
  init_program db calls config (port, threads) = record {
    is_server_running = true;
    has_returned = false;
    server = init_server m sqlite xml db calls config;
    endpoint = http_endpoint_init threads (EndpointCall.create port ∷ []);
  }

  -- `main` up to its loop.
  unfoldable pub main :
      (Text → Option ℤ) → B → FileCalls N → Config N → List Text → Option (Program H B N F)
  unfolding arguments init_program start
  main stol db calls config argv =
      Option.map (λ a. start (init_program db calls config a)) (arguments stol argv)

  -- `Shutdown`, after which `main` returns.
  abbrev pub shut_down : Program H B N F → Program H B N F
  shut_down p = record p {
    has_returned = true;
    server = Service.shutdown m sqlite xml p.server;
    endpoint = http_endpoint_shutdown p.endpoint;
  }

  -- An event, for a program whose `main` has not returned.
  unfoldable pub happen : Event → Program H B N F → Option (Program H B N F)
  unfolding kill_server http_endpoint_shutdown
  happen (requested h request) p = do
    (server, sent) ← serve m sqlite xml unwritten unset h p.server request
    some (record p { server = server })
  happen signalled p = some (kill_server p)
  happen awoken p = if p.is_server_running then some p else some (shut_down p)

  -- Events until `main` returns.
  unfoldable pub run : List Event → Program H B N F → Option (Program H B N F)
  unfolding happen
  run [] p = some p
  run (e ∷ es) p = if p.has_returned then some p else (do p' ← happen e p; run es p')
