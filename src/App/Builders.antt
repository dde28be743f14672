-- ===== src/App/Builders.antt =====
-- internal/app/application.go and the constructors of the roles: api.go, scheduler.go, dispatcher.go,
-- worker.go, all.go, stream.go. Whether MySQL, Redis and the pool answer is a parameter.
use mathlib.Core.List.{reverse}
use chrono_flow.Common.{if◌then◌else◌, String, Bool, true, false, List, [], ◌∷◌, ◌++◌}
use chrono_flow.Effect.{Action, continue, ◌>>=◌, ◌>>◌, pure, raise, require, Error, message, ok}
use chrono_flow.App.Roles.{Role, api, scheduler, dispatcher, worker, all}

pub data Resource : Type 0 where
  mysql redis worker_pool : Resource

-- The resources that the process has opened and closed, each in order, and closeOnce.
pub record Process : Type 0 where
  pub opened : List Resource
  pub closed : List Resource
  pub close_once : Bool

abbrev pub Setup : Type 0 → Type 0
Setup = Action Process

-- `server` is whether setHTTPServer has been called; the services are kept by their names, and the
-- closers by what they close.
pub record Application : Type 0 where
  pub role : Role
  pub server : Bool
  pub background : List String
  pub closers : List Resource

-- Which of the steps that may fail succeed: InitDatabase, InitRedis, the calls of
-- EnsureConsumerGroup for the dispatcher and for the worker, NewGoWorkerPool, and newAPIHTTPHandler,
-- which parses the URL of Grafana.
pub record Startup : Type 0 where
  pub database : Bool
  pub redis : Bool
  pub consumer_group : Bool
  pub worker_group : Bool
  pub worker_pool : Bool
  pub routes : Bool

unfoldable pub open_resource : Resource → Setup (Unit {0})
open_resource r p = (ok tt, record p { opened = p.opened ++ r ∷ [] })

-- CloseDatabase: nothing happens while DB is nil, that is before MySQL, which is opened first, is open.
abbrev pub close_database : List Resource → List Resource
close_database [] = []
close_database (r ∷ rs) = mysql ∷ []

unfoldable pub close_with_context : Application → Setup (Unit {0})
close_with_context a p = if p.close_once then (ok tt, p) else (
  ok tt,
  record p {
    closed = p.closed ++ (reverse a.closers ++ close_database p.opened);
    close_once = true;
  },
)

unfoldable pub fail : {A : Type 0} → Application → Error → Setup A
fail a e = do close_with_context a; raise e

-- `if err != nil { return application.fail(err) }`
unfoldable pub or_fail : {A : Type 0} → Application → Setup A → Setup A
unfolding fail
or_fail a m p = continue (m p) (λ b p'. (ok b, p')) (λ e p'. fail a e p')

abbrev pub add_closer : Resource → Application → Application
add_closer r a = record a { closers = a.closers ++ r ∷ [] }

abbrev pub set_http_server : Application → Application
set_http_server a = record a { server = true }

abbrev pub with_background : List String → Application → Application
with_background names a = record a { background = a.background ++ names }

abbrev pub bare : Role → Application
bare role = record { role = role; server = false; background = []; closers = [] }

module _ (up : Startup) where
  unfoldable pub new_application : Role → Setup Application
  new_application role = or_fail (bare role) (do
    require up.database (message "initialize database")
    open_resource mysql
    pure (bare role))

  unfoldable pub connect_stream : Application → Setup Application
  connect_stream a = do
    require up.redis (message "initialize Redis")
    open_resource redis
    pure (add_closer redis a)

  unfoldable pub configure_api_http : Application → Setup Application
  configure_api_http a = do
    require up.routes (message "initialize API HTTP routes")
    pure (set_http_server a)

  abbrev pub configure_scheduler : Application → Application
  configure_scheduler = with_background ("scheduler" ∷ "execution-reconciler" ∷ [])

  unfoldable pub configure_dispatcher : Application → Setup Application
  configure_dispatcher a = do
    require up.consumer_group (message "initialize Redis Stream consumer group")
    pure (with_background ("outbox-dispatcher" ∷ []) a)

  unfoldable pub configure_worker : Application → Setup Application
  configure_worker a = do
    require up.worker_group (message "initialize Redis Stream consumer group")
    require up.worker_pool (message "create worker ants pool")
    open_resource worker_pool
    pure (
        with_background ("stream-worker" ∷ "stream-retention-cleaner" ∷ [])
          (add_closer worker_pool a))

  unfoldable pub new_api : Setup Application
  new_api = do a ← new_application api; or_fail a (configure_api_http a)

  unfoldable pub new_scheduler : Setup Application
  new_scheduler = do a ← new_application scheduler; pure (set_http_server (configure_scheduler a))

  unfoldable pub new_dispatcher : Setup Application
  new_dispatcher = do
    a ← new_application dispatcher
    b ← or_fail a (connect_stream a)
    c ← or_fail b (configure_dispatcher b)
    pure (set_http_server c)

  unfoldable pub new_worker : Setup Application
  new_worker = do
    a ← new_application worker
    b ← or_fail a (connect_stream a)
    c ← or_fail b (configure_worker b)
    pure (set_http_server c)

  unfoldable pub new_all : Setup Application
  new_all = do
    a ← new_application all
    b ← or_fail a (connect_stream a)
    c ← or_fail b (configure_api_http b)
    let d = configure_scheduler c
    e ← or_fail d (configure_dispatcher d)
    or_fail e (configure_worker e)

  abbrev pub build : Role → Setup Application
  build api = new_api
  build scheduler = new_scheduler
  build dispatcher = new_dispatcher
  build worker = new_worker
  build all = new_all
