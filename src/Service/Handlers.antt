-- ===== src/Service/Handlers.antt =====
-- How the handlers of server/src/ins_service.cpp answer.
use indoor_navigation_system.Base.{
  ℕ, zero, suc, ◌+◌, ◌≤◌, ◌≡◌, ◌≢◌, refl, Bool, true, false, Text, codes, Option, none, some, ◌>>=◌,
  List, [], ◌∷◌, length, if◌then◌else◌, arith,
}
use indoor_navigation_system.Machine.{Machine}
use indoor_navigation_system.LocalConfig.{Xml}
use indoor_navigation_system.DataStore.{Position, Sqlite, AccessPointRssi}
use indoor_navigation_system.DataStore.Operations.{clear_device_table}
use indoor_navigation_system.Service.{
  Server, Request, Response, success, failure, read_reading, read_readings, all_readings,
  set_received_signal_strengths, resolve_device_position, reset_device_position,
  get_device_position, get_employee_position, handle_ready, auth,
}
use indoor_navigation_system.Service.Routes.{Handler, serve}

abbrev IsShort : ℕ → Option (List AccessPointRssi) → Type 0
IsShort n none = Unit
IsShort n (some rs) = length rs ≤ n

IsShort-cons :
    (n : ℕ) (reading : AccessPointRssi) (rest : Option (List AccessPointRssi))
    → IsShort n rest
    → IsShort (suc n) (rest >>= (λ rs. some (reading ∷ rs)))
IsShort-cons n reading none short = short
IsShort-cons n reading (some rs) short = omega arith

IsShort-reading :
    (n : ℕ) (reading : Option AccessPointRssi) (rest : Option (List AccessPointRssi))
    → IsShort n rest
    → IsShort (suc n) (reading >>= (λ r. rest >>= (λ rs. some (r ∷ rs))))
IsShort-reading n none rest short = tt
IsShort-reading n (some r) rest short = IsShort-cons n r rest short

IsShort-if :
    (b : Bool) (n : ℕ) (rest : Option (List AccessPointRssi))
    → IsShort n rest
    → IsShort n (if b then rest else some [])
IsShort-if true n rest short = short
IsShort-if false n rest short = omega arith

read_readings-IsShort :
    (request : Request) (i rounds : ℕ) → IsShort rounds (read_readings request i rounds)
unfolding read_readings
read_readings-IsShort request i zero = omega arith
read_readings-IsShort request i (suc rounds) = IsShort-if _ (suc rounds) _ (
    IsShort-reading rounds (read_reading request i) (read_readings request (i + 1) rounds)
      (read_readings-IsShort request (i + 1) rounds))

length-cons :
    (n : ℕ) (reading : Option AccessPointRssi) (rest : Option (List AccessPointRssi))
    {rs : List AccessPointRssi}
    → IsShort n rest
    → (reading >>= (λ r. rest >>= (λ others. some (r ∷ others)))) ≡ some rs
    → (1 ≤ length rs) × (length rs ≤ suc n)
length-cons n none rest short e = ground arith
length-cons n (some r) none short e = ground arith
length-cons n (some r) (some others) short e = ground arith

-- A request is read into one to ten readings.
pub length-all_readings :
    (request : Request) {rs : List AccessPointRssi}
    → all_readings request ≡ some rs
    → (1 ≤ length rs) × (length rs ≤ 10)
unfolding all_readings
length-all_readings request e =
    length-cons 9 (read_reading request 1) (read_readings request 2 9)
      (read_readings-IsShort request 2 9) e

module _ {H B R N F D : Type 0} (m : Machine F D) (sqlite : Sqlite H B R D) (xml : Xml N)
    (unwritten : Text) (unset : Position D) where
  -- A handler that ends has sent exactly one response, but for that of `/reset_pos`.
  pub serve_once :
      (h : Handler) (server : Server H B N F) (request : Request) {after : Server H B N F}
      {sent : List Response}
      → h ≢ Handler.reset_pos
      → serve m sqlite xml unwritten unset h server request ≡ some (after, sent)
      → length sent ≡ 1
  unfolding serve set_received_signal_strengths resolve_device_position get_device_position
      get_employee_position handle_ready auth
  serve_once Handler.reset_pos server request h e = absurd (h refl)
  serve_once Handler.set_rssi server request h e = ground arith
  serve_once Handler.resolve_pos server request h e = ground arith
  serve_once Handler.get_device_pos server request h e = ground arith
  serve_once Handler.get_employee_pos server request h e = ground arith
  serve_once Handler.ready server request h e = ground arith
  serve_once Handler.authorise server request h e = ground arith

module _ {H B R N F D : Type 0} (m : Machine F D) (sqlite : Sqlite H B R D) (xml : Xml N) where
  -- Resetting a device always sends a success, after a failure when the statement failed.
  pub reset_device_position_responses :
      (server : Server H B N F) (request : Request) (id : Text)
      → request.param (codes ":device_id") ≡ some id
      → let (db, cleared) = clear_device_table sqlite server.database server.db id in
        reset_device_position m sqlite xml server request
        ≡ some (record server { db = db }, if cleared then success ∷ [] else failure ∷ success ∷ [])
  unfolding reset_device_position
  reset_device_position_responses server request id e = ground arith
