-- ===== src/Service/Site/History/Agreement.antt =====
-- What the server of server/src/ins_service.cpp serves is what the requests say that it handled.
use indoor_navigation_system.DataStore.Contents.Contract.{
  get_position-answer_for, answer_for, Contract, init-Represents,
}
use indoor_navigation_system.Service.{
  position_response, get_device_position, Server, Request, Response, init_server, all_readings,
}
use indoor_navigation_system.Base.{
  subst, Option-cases, eq_of_text_eq, ◌≡◌, refl, ap, ◌∙◌, sym, Text, codes, text_eq, Option, some,
  List, [], ◌∷◌, Bool-cases, inl, inr,
}
use indoor_navigation_system.Service.Site.{Site, Step, IsServing, IsClean, IsLocated}
use mathlib.Mathlib.Data.Multiset.Defs.{of_list}
use mathlib.Mathlib.Data.Multiset.AddSub.{add}
use indoor_navigation_system.Machine.{Machine}
use indoor_navigation_system.LocalConfig.{Xml}
use indoor_navigation_system.LocalConfig.Initialize.{Config}
use indoor_navigation_system.DataStore.{Position, Sqlite}
use indoor_navigation_system.DataStore.Contents.{Contents}
use indoor_navigation_system.Service.Routes.{Handler}
use indoor_navigation_system.Service.Site.Refinement.{serve-Step}
use indoor_navigation_system.Service.Site.History.{Event, recorded, Run, IsPlaced, Agrees}

module _ {H B R N F D : Type 0} (m : Machine F D) (sqlite : Sqlite H B R D) (xml : Xml N)
    (unwritten : Text) (unset : Position D) (contract : Contract m sqlite) (config : Config N) where
  Step-readings :
      (c : Contents D) (log : List Event) {site site' : Site D} (h : Handler) (request : Request)
      {sent : List Response} (t : Text)
      → Step m sqlite xml unwritten unset contract config request site h site' sent
      → site.contents.readings t ≡ recorded c t log
      → site'.contents.readings t
        ≡ recorded c t (record { handler = h; request = request; sent = sent } ∷ log)
  Step-readings c log h request t (Step.uploaded id rs named read) e =
      elim (Bool-cases (text_eq t id)) [
        | inl this ↦ rw (named, read, this) (ap (add (of_list rs)) e)
        | inr other ↦ rw (named, read, other) e
      ]
  Step-readings c log h request t (Step.upload_refused id named) e =
      elim (Option-cases (all_readings request)) [
        | inl unread ↦ rw unread e
        | inr (rs, read) ↦ elim (Bool-cases (text_eq t id)) [
          | inl this ↦ rw (named, read, this) e
          | inr other ↦ rw (named, read, other) e
        ]
      ]
  Step-readings c log h request t (Step.resolved id list p named series located) e = e
  Step-readings c log h request t (Step.resolve_refused id list p named series located) e = e
  Step-readings c log h request t (Step.cleared id named) e = elim (Bool-cases (text_eq t id)) [
    | inl this ↦ rw (named, this) refl
    | inr other ↦ rw (named, other) e
  ]
  Step-readings c log h request t (Step.clear_refused id named) e =
      elim (Bool-cases (text_eq t id)) [
        | inl this ↦ rw (named, this) e
        | inr other ↦ rw (named, other) e
      ]
  Step-readings c log h request t (Step.device_told id named) e = e
  Step-readings c log h request t (Step.employee_told u answer named told) e = e
  Step-readings c log h request t Step.ready_told e = e
  Step-readings c log h request t Step.authorised e = e

  Step-IsPlaced :
      (c : Contents D) (log : List Event) {site site' : Site D} (h : Handler) (request : Request)
      {sent : List Response} (t : Text)
      → Step m sqlite xml unwritten unset contract config request site h site' sent
      → Agrees m sqlite xml unwritten unset contract config c log site
      → IsPlaced m sqlite xml unwritten unset contract config c t
          (record { handler = h; request = request; sent = sent } ∷ log)
          (site'.contents.positions t)
  Step-IsPlaced c log h request t (Step.uploaded id rs named read) a = a.positions t
  Step-IsPlaced c log h request t (Step.upload_refused id named) a = a.positions t
  Step-IsPlaced c log {site} h request t (Step.resolved id list p named series located) a =
      elim (Bool-cases (text_eq t id)) [
        | inl this ↦
            let same : id ≡ t = sym (eq_of_text_eq t id this) in
            rw (named, this)
              (record {
                names = site.names;
                list = list;
                position = p;
                used = series.0 ∙ ap site.contents.readings same ∙ a.readings t;
                once = series.1;
                heard = series.2;
                located =
                    subst
                      (λ u.
                        IsLocated m sqlite xml unwritten unset contract config site.names u list p)
                      same located;
                is = refl;
              })
        | inr other ↦ rw (named, other) (a.positions t)
      ]
  Step-IsPlaced c log h request t (Step.resolve_refused id list p named series located) a =
      elim (Bool-cases (text_eq t id)) [
        | inl this ↦ rw (named, this) (a.positions t)
        | inr other ↦ rw (named, other) (a.positions t)
      ]
  Step-IsPlaced c log h request t (Step.cleared id named) a = a.positions t
  Step-IsPlaced c log h request t (Step.clear_refused id named) a = a.positions t
  Step-IsPlaced c log h request t (Step.device_told id named) a = a.positions t
  Step-IsPlaced c log h request t (Step.employee_told u answer named told) a = a.positions t
  Step-IsPlaced c log h request t Step.ready_told a = a.positions t
  Step-IsPlaced c log h request t Step.authorised a = a.positions t

  -- Every state that the server reaches serves a site whose readings and positions are what the events
  -- say.
  pub Run-Agrees :
      (c : Contents D) {server : Server H B N F} {log : List Event}
      → Run m sqlite xml unwritten unset contract config c server log
      → (site : Site D) × IsServing m sqlite xml unwritten unset contract config server site
        × Agrees m sqlite xml unwritten unset contract config c log site
  unfolding init_server
  Run-Agrees c (Run.start db calls before r is) =
      let (opened, kept) = init-Represents m sqlite contract db c r in
      (
        record { names = [] ∷ []; contents = c },
        record {
          opened = opened;
          represents = kept;
          named = refl;
          well = (refl, ((refl, tt), tt), tt);
          configured = is;
        },
        record { readings = λ t. refl; positions = λ t. refl },
      )
  Run-Agrees c (Run.after {log = log} h request sent r clean e) =
      let (site, v, a) = Run-Agrees c r in
      let (site', step, v') =
        serve-Step m sqlite xml unwritten unset contract config h _ site request v clean e in
      (
        site',
        v',
        record {
          readings = λ t. Step-readings c log h request t step (a.readings t);
          positions = λ t. Step-IsPlaced c log h request t step a;
        },
      )

  -- In every state that the server reaches by clean requests, a clean `/get_device_pos` for a device
  -- is answered, and changes nothing: with the position of the last successful `/resolve_pos` of the
  -- device, as the database returns it, which some nodes gave for exactly the readings that were
  -- uploaded since the device's last successful reset before that, or that the database held at the
  -- start. A device that was never resolved has the position that the database held at the start, or
  -- is not found.
  pub get_device_position-IsPlaced :
      (c : Contents D) {server : Server H B N F} {log : List Event} (request : Request) (id : Text)
      → Run m sqlite xml unwritten unset contract config c server log
      → IsClean m sqlite xml unwritten unset contract config request
      → request.param (codes ":device_id") ≡ some id
      → (o : Option (Position D)) × IsPlaced m sqlite xml unwritten unset contract config c id log o
        × (get_device_position m sqlite xml unset server request
            ≡ some (
              server,
              position_response m sqlite xml (codes "device_id") id (answer_for unset o) ∷ [],
            ))
  unfolding get_device_position
  get_device_position-IsPlaced c {server} request id r clean named =
      let (site, v, a) = Run-Agrees c r in
      (
        site.contents.positions id,
        a.positions id,
        rw named (
            ap
              (λ answer.
                some (server, position_response m sqlite xml (codes "device_id") id answer ∷ []))
              (get_position-answer_for m sqlite contract server.database server.db site.contents id
                unset v.opened (clean.name id named) v.represents)),
      )
