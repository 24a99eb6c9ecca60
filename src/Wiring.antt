-- ===== src/Wiring.antt =====
-- The wiring of the server, `SetupFX` of internal/gophermart/app/app.go with `ToHook` of
-- internal/common/utils/fxadapter.go: what the invoked functions set and which hooks they append, and
-- what the `Start` and `Stop` of each part do. The fx library, which runs the hooks, is a parameter.
pub mod Phases
pub mod Stack
pub mod Changes
pub mod Ordered
pub mod Order
use gomart.Prelude.{
  ℕ, zero, suc, ◌≡◌, Bool, true, false, Option, none, some, List, [], ◌∷◌, ◌++◌, Bytes, codes,
  if◌then◌else◌,
}
use gomart.Prelude.Int.{ℤ, pos, negsuc}
use gomart.Config.{Config}

-- The parts whose `Start` and `Stop` are hooks.
pub data Component : Type 0 where
  zap_logger pg_store accrual_client http_server : Component

-- What fills `store.Store`.
pub data Store : Type 0 where
  postgres mock : Store

pub record PoolConfig : Type 0 where
  pub rate_limit : ℕ
  pub address : Bytes

pub record ClientInstance : Type 0 where
  pub cfg : PoolConfig

-- `PoolHandler` of internal/common/httpclientpool/httpclientpool.go
pub record PoolHandler : Type 0 where
  pub worker_count : ℕ
  pub clients : List ClientInstance
  pub cfg : PoolConfig

-- The HTTP server: a `Shutdown` that meets its timeout leaves the handlers that run behind.
pub data Serving : Type 0 where
  closed listening left_behind : Serving

pub record App : Type 0 where
  pub database_uri : Bytes
  pub store_open : Bool
  pub pool : PoolHandler
  pub accruing : Bool
  pub serving : Serving
  pub level : Bytes
  pub hooks : List Component

abbrev pub new_client_instance : PoolConfig → ClientInstance
new_client_instance cfg = record { cfg = cfg }

unfoldable pub new_clients : ℕ → PoolConfig → List ClientInstance
new_clients zero cfg = []
new_clients (suc n) cfg = new_client_instance cfg ∷ new_clients n cfg

-- `none` is the panic of `make` for a negative length.
unfoldable pub set_cfg_init : ℤ → Bytes → Option PoolHandler
set_cfg_init (pos r) address =
    let cfg : PoolConfig = record { rate_limit = r; address = address } in
    some (record { worker_count = r; clients = new_clients r cfg; cfg = cfg })
set_cfg_init (negsuc r) address = none

-- What `fx.Provide` makes, before anything is invoked.
abbrev pub provided : App
provided = record {
  database_uri = [];
  store_open = false;
  pool = record { worker_count = 0; clients = []; cfg = record { rate_limit = 0; address = [] } };
  accruing = false;
  serving = closed;
  level = codes "debug";
  hooks = [];
}

-- `lc.Append(utils.ToHook(c))`
abbrev pub append_hook : Component → App → App
append_hook c app = record app { hooks = app.hooks ++ c ∷ [] }

-- `ZapLogger.SetLevel`, where `is_level` is whether zap reads the text as a level. The error is dropped.
abbrev set_level : (Bytes → Bool) → Bytes → App → App
set_level is_level text app = record app { level = if is_level text then text else app.level }

unfoldable pub register_set_logger_level : (Bytes → Bool) → Config → App → App
register_set_logger_level is_level cfg app =
    append_hook zap_logger (set_level is_level cfg.level app)

-- `none` is `Logger.Fatal`.
abbrev pub goose_up : Bool → App → Option App
goose_up migrated app = if migrated then some app else none

unfoldable pub register_store_pg : Store → Config → App → App
register_store_pg postgres cfg app =
    append_hook pg_store (record app { database_uri = cfg.database_uri })
register_store_pg mock cfg app = app

unfoldable pub register_http_client_pool : Config → App → Option App
register_http_client_pool cfg app = elim (set_cfg_init cfg.rate_limit cfg.accrual_system_address) [
  | none ↦ none
  | some pool ↦ some (record app { pool = pool })
]

unfoldable pub register_accrual_client : App → App
register_accrual_client app = append_hook accrual_client app

unfoldable pub register_http_server : App → App
register_http_server app = append_hook http_server app

infixl 5 ◌>>=◌
abbrev ◌>>=◌ : Option App → (App → Option App) → Option App
none >>= f = none
(some app) >>= f = f app

-- The functions of `fx.Invoke`, one after the other.
unfoldable pub setup_fx : (Bytes → Bool) → Bool → Config → Option App
setup_fx is_level migrated cfg = do
  let app = register_set_logger_level is_level cfg provided
  app₁ ← goose_up migrated app
  app₂ ← register_http_client_pool cfg (register_store_pg postgres cfg app₁)
  some (register_http_server (register_accrual_client app₂))

-- What became of the attempts of `PgStore.Start`.
pub data Attempts : Type 0 where
  not_opened not_pinged connected : Attempts

-- The `Start` and `Stop` of the parts, and whether a `Start` returns no error: of `ZapLogger` in internal/common/logger/logger.go,
abbrev start_logger : App → Bool × App
start_logger app = (true, app)

abbrev stop_logger : App → App
stop_logger app = app

-- of `PgStore` in internal/common/store/pg/pg.go, which after all attempts has the pool open or not, and
-- if it is open may have failed to ping the database,
abbrev start_store : Attempts → App → Bool × App
start_store not_opened app = (false, app)
start_store not_pinged app = (false, record app { store_open = true })
start_store connected app = (true, record app { store_open = true })

abbrev stop_store : App → App
stop_store app = record app { store_open = false }

-- of `HandlersAccrual` in internal/gophermart/accrual/accrual.go, where the end waits until
-- `mainAccrual` has returned,
abbrev start_accrual : App → Bool × App
start_accrual app = (true, record app { accruing = true })

abbrev stop_accrual : App → App
stop_accrual app = record app { accruing = false }

-- and of `HandlersServer` in internal/gophermart/handlers/handlers.go, where `drains` is whether the
-- handlers that run end before the timeout of `Shutdown`.
abbrev start_server : App → Bool × App
start_server app = (true, record app { serving = listening })

abbrev stop_server : Bool → App → App
stop_server drains app = record app { serving = if drains then closed else left_behind }

-- The hooks of `ToHook`.
unfoldable pub on_start : Attempts → Component → App → Bool × App
on_start attempts zap_logger app = start_logger app
on_start attempts pg_store app = start_store attempts app
on_start attempts accrual_client app = start_accrual app
on_start attempts http_server app = start_server app

unfoldable pub on_stop : Bool → Component → App → App
on_stop drains zap_logger app = stop_logger app
on_stop drains pg_store app = stop_store app
on_stop drains accrual_client app = stop_accrual app
on_stop drains http_server app = stop_server drains app
