-- ===== src/Examples/Startup.antt =====
-- A start of the server, and its end while a handler runs.
use gomart.Prelude.{◌≡◌, refl, Bool, true, false, none, some, [], ◌∷◌, codes, Bytes, bytes_eq}
use gomart.Prelude.Int.{pos}
use gomart.Config.{Config}
use gomart.Wiring.{
  zap_logger, pg_store, accrual_client, http_server, App, setup_fx, connected, on_start, on_stop,
  register_set_logger_level, register_store_pg, register_http_client_pool, register_accrual_client,
  register_http_server, set_cfg_init, new_clients, listening, left_behind,
}
use gomart.Wiring.Phases.{Phase, installed, Documented, starts, stops, Runs, here, next}
use gomart.Wiring.Ordered.{IsWired}
use gomart.Wiring.Order.{IsUp, assembled, Runs-IsUp}

abbrev cfg : Config
cfg = record {
  address = codes ":8090";
  database_uri = codes "postgres://localhost/gomart";
  accrual_system_address = codes "localhost:8100";
  key = codes "00";
  key_signature = codes "00";
  level = codes "debug";
  poll_interval = pos 2;
  rate_limit = pos 2;
}

-- The only level that is known.
abbrev is_level : Bytes → Bool
is_level text = bytes_eq text (codes "debug")

abbrev app : App
app = assembled is_level cfg 2

set_up : setup_fx is_level true cfg ≡ some app
unfolding setup_fx register_set_logger_level register_store_pg register_http_client_pool
    register_accrual_client register_http_server set_cfg_init new_clients
set_up = refl

abbrev running : App
running = record app { store_open = true; accruing = true; serving = listening }

-- The server has met its timeout, and the others have still to stop.
abbrev stopping : Phase
stopping = record {
  to_start = [];
  started = accrual_client ∷ pg_store ∷ zap_logger ∷ [];
  failed = none;
  app = record running { serving = left_behind };
}

run : Runs Documented (installed app) stopping
unfolding on_start on_stop
run =
    next
      (next
        (next
          (next (next here (starts connected zap_logger _ refl refl))
            (starts connected pg_store _ refl refl))
          (starts connected accrual_client _ refl refl))
        (starts connected http_server _ refl refl))
      (stops false http_server _ refl refl)

Runs-IsUp_example : IsUp stopping × IsWired is_level cfg stopping.app
Runs-IsUp_example = Runs-IsUp is_level cfg Documented (λ p q m. m) true app stopping set_up run
