-- ===== src/App/Release.antt =====
-- The resources of a process, from its launch to its end.
use mathlib.Core.List.{reverse, reverse-cons}
use chrono_flow.Common.{
  Option-cases, keep, String, ◌≡◌, refl, sym, ◌↔◌, ◌⊎◌, inl, inr, Bool, true, false, not, Option,
  none, some, List, [], ◌∷◌, ◌++◌, str_eq,
}
use chrono_flow.Effect.{◌>>=◌, ◌>>◌, try, continue, run as act, Error, Result, ok, err}
use chrono_flow.App.Roles.{components, Role, api, scheduler, dispatcher, worker, all}
use chrono_flow.App.Builders.{
  Setup, open_resource, close_with_context, or_fail, new_application, connect_stream,
  configure_api_http, configure_dispatcher, configure_worker, new_api, new_scheduler,
  new_dispatcher, new_worker, new_all, build, Process, Application, Startup, mysql,
}
use chrono_flow.App.Running.{run_error, result_of, run, passed_on, launch, Ending}

abbrev pub fresh : Process
fresh = record { opened = []; closed = []; close_once = false }

-- The components of a role that run in the background.
abbrev pub services : Role → List String
services role = keep (λ c. not (str_eq c "api")) (components role)

-- All that is open has a closer, MySQL apart, and the role is complete; or all that was opened is
-- closed again, the last one first.
abbrev pub Builds : Role → Result Application → Process → Type 0
Builds role (ok a) p =
    (p.opened ≡ mysql ∷ a.closers)
    × (p.closed ≡ [])
    × (p.close_once ≡ false)
    × (a.server ≡ true)
    × (a.background ≡ services role)
Builds role (err e) p = p.closed ≡ reverse p.opened

abbrev startup : Bool → Bool → Bool → Bool → Bool → Bool → Startup
startup d r g w p t = record {
  database = d;
  redis = r;
  consumer_group = g;
  worker_group = w;
  worker_pool = p;
  routes = t;
}

abbrev Built : Startup → Role → Type 0
Built up role = Builds role (build up role fresh).0 (build up role fresh).1

built : (role : Role) (d r g w p t : Bool) → Built (startup d r g w p t) role
unfolding new_application connect_stream configure_api_http configure_dispatcher configure_worker
    new_api new_scheduler new_dispatcher new_worker new_all or_fail close_with_context open_resource
    act
built api false r g w p t = refl
built api true r g w p false = refl
built api true r g w p true = (refl, refl, refl, refl, refl)
built scheduler false r g w p t = refl
built scheduler true r g w p t = (refl, refl, refl, refl, refl)
built dispatcher false r g w p t = refl
built dispatcher true false g w p t = refl
built dispatcher true true false w p t = refl
built dispatcher true true true w p t = (refl, refl, refl, refl, refl)
built worker false r g w p t = refl
built worker true false g w p t = refl
built worker true true g false p t = refl
built worker true true g true false t = refl
built worker true true g true true t = (refl, refl, refl, refl, refl)
built all false r g w p t = refl
built all true false g w p t = refl
built all true true g w p false = refl
built all true true false w p true = refl
built all true true true false p true = refl
built all true true true true false true = refl
built all true true true true true true = (refl, refl, refl, refl, refl)

-- For every role, whichever steps of its start fail: either the process has its HTTP server and the
-- background services that the role names, and everything that it has opened is registered to be
-- closed; or everything that it has opened is closed already, once each and the last one first.
pub build_complete :
    (up : Startup) (role : Role) → Builds role (build up role fresh).0 (build up role fresh).1
build_complete up role =
    built role up.database up.redis up.consumer_group up.worker_group up.worker_pool up.routes

-- What is left of a process whose resources are closed.
abbrev Released : Process → Type 0
Released p = p.closed ≡ reverse p.opened

-- The run of an application that has been built, with the deferred Close.
abbrev served : Ending → Application → Setup (Unit {0})
served ending a = do outcome ← try (run ending a); close_with_context a; passed_on outcome

module _ (role : Role) (ending : Ending) (a : Application) (p : Process)
    (b : Builds role (ok a) p) where
  closed_once :
      (close_with_context a p).1
      ≡ record p { closed = reverse a.closers ++ mysql ∷ []; close_once = true }
  unfolding close_with_context
  closed_once = rw (b.2, b.1, b.0) refl

  served_lem : served ending a p ≡ (
    (result_of (run_error ending) p).0,
    record p { closed = reverse a.closers ++ mysql ∷ []; close_once = true },
  )
  unfolding run close_with_context act run_error
  served_lem = elim (Option-cases (run_error ending)) [
    | inl e ↦ rw (b.3, b.2, b.1, b.0, e) refl
    | inr (x, e) ↦ rw (b.3, b.2, b.1, b.0, e) refl
  ]

-- An end without an error: the server has not returned before the signal, or with ErrServerClosed;
-- it has been shut down without an error; and the services have stopped in time.
abbrev pub IsClean : Ending → Type 0
IsClean ending =
    ((ending.server_result ≡ none) ⊎ (ending.server_result ≡ some none))
    × (ending.shutdown_error ≡ none)
    × (ending.stopped_in_time ≡ true)

abbrev CleanAt : Option (Option Error) → Option Error → Bool → Type 0
CleanAt server shutdown stopped =
    let ending : Ending = record {
      server_result = server;
      shutdown_error = shutdown;
      stopped_in_time = stopped;
    } in
    (run_error ending ≡ none) ↔ IsClean ending

run_error_at :
    (server : Option (Option Error)) (shutdown : Option Error) (stopped : Bool)
    → CleanAt server shutdown stopped
unfolding run_error
run_error_at none none true = ((λ h. (inl refl, refl, refl)), (λ h. refl))
run_error_at (some none) none true = ((λ h. (inr refl, refl, refl)), (λ h. refl))
run_error_at (some (some e)) shutdown stopped =
    ((λ h. cc), (λ h. elim h.0 [ inl e ↦ cc | inr e ↦ cc ]))
run_error_at none (some e) stopped = ((λ h. cc), (λ h. let c = h.1 in cc))
run_error_at (some none) (some e) stopped = ((λ h. cc), (λ h. let c = h.1 in cc))
run_error_at none none false = ((λ h. cc), (λ h. let c = h.2 in cc))
run_error_at (some none) none false = ((λ h. cc), (λ h. let c = h.2 in cc))

run_error_iff : (ending : Ending) → (run_error ending ≡ none) ↔ IsClean ending
run_error_iff ending =
    run_error_at ending.server_result ending.shutdown_error ending.stopped_in_time

-- Everything that was opened is closed, and the run is a success exactly if `Success` holds.
abbrev Ends : Type 0 → Result (Unit {0}) × Process → Type 0
Ends Success r = (r.1.closed ≡ reverse r.1.opened) × ((r.0 ≡ ok tt) ↔ Success)

module _ (role : Role) (ending : Ending) where
  result_of_iff : (p : Process) → ((result_of (run_error ending) p).0 ≡ ok tt) ↔ IsClean ending
  unfolding act
  result_of_iff p =
      let (clean, back) = run_error_iff ending in
      elim (Option-cases (run_error ending)) [
        | inl e ↦ rw e ((λ h. clean e), (λ h. refl))
        | inr (x, e) ↦ rw e ((λ h. cc), (λ h. let n = back h in cc))
      ]

  served-Ends :
      (a : Application) (p : Process)
      → Builds role (ok a) p
      → Ends (IsClean ending) (served ending a p)
  served-Ends a p b =
      rw (served_lem role ending a p b)
        (rw (b.0) (sym (reverse-cons mysql a.closers)), result_of_iff p)

  after_build :
      (r : Result Application × Process)
      → Builds role r.0 r.1
      → Ends
          (((a : Application) × (r.0 ≡ ok a)) × IsClean ending)
          (continue r (served ending) (λ e p. (err e, p)))
  after_build (ok a, p) b =
      let (closed, success) = served-Ends a p b in
      (closed, ((λ h. ((a, refl), success.0 h)), (λ h. success.1 h.1)))
  after_build (err e, p) b = (b, ((λ h. cc), (λ ((a, h), k). cc)))

-- However a process is launched and ends: everything that it has opened is closed, once each and the
-- last one first, although Run and the deferred Close both close. The launch returns no error exactly
-- if the configuration is loaded, the role can be built, the server has not returned an error other
-- than ErrServerClosed, its shutdown has returned none, and the services have stopped in time.
pub launch_releases :
    (config : Bool) (up : Startup) (role : Role) (ending : Ending)
    → ((launch config up role ending fresh).1.closed
        ≡ reverse (launch config up role ending fresh).1.opened)
      × (((launch config up role ending fresh).0 ≡ ok tt) ↔ (
          (config ≡ true)
          × ((a : Application) × ((build up role fresh).0 ≡ ok a))
          × IsClean ending))
unfolding launch act
launch_releases false up role ending = (refl, ((λ h. cc), (λ h. cc)))
launch_releases true up role ending =
    let (closed, success) =
      after_build role ending (build up role fresh) (build_complete up role) in
    (closed, ((λ h. (refl, (success.0 h).0, (success.0 h).1)), (λ h. success.1 (h.1, h.2))))
