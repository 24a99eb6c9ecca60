-- ===== src/Wiring/Order.antt =====
-- The order in which the parts of the server start and stop.
use gomart.Prelude.{
  ℕ, zero, suc, ◌≡◌, ◌≢◌, refl, sym, ap, ◌∙◌, Bool, true, false, Option, none, some, List, [], ◌∷◌,
  Bytes, codes, inl, inr, ◌⊎◌, length, if◌then◌else◌, arith,
}
use gomart.Prelude.Int.{ℤ, pos, negsuc}
use gomart.Config.{Config}
use gomart.Wiring.{
  Component, zap_logger, pg_store, accrual_client, http_server, closed, listening, App, PoolConfig,
  new_clients, set_cfg_init, register_set_logger_level, register_store_pg,
  register_http_client_pool, register_accrual_client, register_http_server, setup_fx,
}
use gomart.Wiring.Stack.{IsStack, contains}
use gomart.Wiring.Ordered.{
  IsWired, IsOrdered, on_start-IsOrdered, on_start-IsOrdered_failed, on_stop-IsOrdered,
}
use gomart.Wiring.Phases.{
  Phase, installed, Documented, starts, fails, gives_up, stops, Runs, here, next,
}

length-new_clients : (n : ℕ) (c : PoolConfig) → length (new_clients n c) ≡ n
unfolding new_clients
length-new_clients zero c = refl
length-new_clients (suc n) c = omega (arith, length-new_clients n c)

-- What a part needs.
accrual-needs :
    (started : List Component)
    → IsStack started
    → contains accrual_client started ≡ true
    → contains pg_store started ≡ true
accrual-needs [] s e = absurd (ground (arith, e))
accrual-needs (zap_logger ∷ rest) s e =
    absurd (let none_such = rw s at e in ground (arith, none_such))
accrual-needs (pg_store ∷ rest) s e = refl
accrual-needs (accrual_client ∷ rest) s e = rw s refl
accrual-needs (http_server ∷ rest) s e = rw s refl

server-needs :
    (started : List Component)
    → IsStack started
    → contains http_server started ≡ true
    → (contains pg_store started ≡ true) × (contains accrual_client started ≡ true)
server-needs [] s e = absurd (ground (arith, e))
server-needs (zap_logger ∷ rest) s e =
    absurd (let none_such = rw s at e in ground (arith, none_such))
server-needs (pg_store ∷ rest) s e = absurd (let none_such = rw s at e in ground (arith, none_such))
server-needs (accrual_client ∷ rest) s e =
    absurd (let none_such = rw s at e in ground (arith, none_such))
server-needs (http_server ∷ rest) s e = rw s (refl, refl)

pub record IsUp (p : Phase) : Type 0 where
  accrual : p.app.accruing ≡ true → p.app.store_open ≡ true
  server : p.app.serving ≡ listening → (p.app.store_open ≡ true) × (p.app.accruing ≡ true)
  over :
      p.started ≡ []
      → ((p.app.store_open ≡ false) ⊎ (p.failed ≡ some pg_store))
        × (p.app.accruing ≡ false)
        × (p.app.serving ≢ listening)

-- The server as `SetupFX` leaves it.
abbrev pub assembled : (Bytes → Bool) → Config → ℕ → App
assembled is_level cfg r =
    let pool_cfg : PoolConfig = record { rate_limit = r; address = cfg.accrual_system_address } in
    record {
      database_uri = cfg.database_uri;
      store_open = false;
      pool = record { worker_count = r; clients = new_clients r pool_cfg; cfg = pool_cfg };
      accruing = false;
      serving = closed;
      level = if is_level cfg.level then cfg.level else codes "debug";
      hooks = zap_logger ∷ pg_store ∷ accrual_client ∷ http_server ∷ [];
    }

ℤ-cases : (n : ℤ) → ((r : ℕ) × (n ≡ pos r)) ⊎ ((r : ℕ) × (n ≡ negsuc r))
ℤ-cases (pos r) = inl (r, refl)
ℤ-cases (negsuc r) = inr (r, refl)

setup_fx-app :
    (is_level : Bytes → Bool) (migrated : Bool) (cfg : Config) (app : App)
    → setup_fx is_level migrated cfg ≡ some app
    → (r : ℕ) × (cfg.rate_limit ≡ pos r) × (app ≡ assembled is_level cfg r)
unfolding setup_fx register_set_logger_level register_store_pg register_http_client_pool
    register_accrual_client register_http_server set_cfg_init
setup_fx-app is_level false cfg app e = absurd (ground (arith, e))
setup_fx-app is_level true cfg app e = elim (ℤ-cases cfg.rate_limit) [
  | inl (r, rate) ↦
      let made : some (assembled is_level cfg r) ≡ some app = rw rate at e in (r, rate, cc)
  | inr (r, rate) ↦
      let failed : ◌≡◌ {A = Option App} none (some app) = rw rate at e in
      absurd (ground (arith, failed))
]

module _ (is_level : Bytes → Bool) (cfg : Config) where
  installed-IsOrdered :
      (migrated : Bool) (app : App)
      → setup_fx is_level migrated cfg ≡ some app
      → IsOrdered is_level cfg (installed app)
  installed-IsOrdered migrated app e =
      let (r, rate, is) = setup_fx-app is_level migrated cfg app e in
      rw is (record {
        stack = tt;
        following = (refl, refl);
        store = inl refl;
        accrual = refl;
        server = λ l. absurd (ground (arith, l));
        wired = record {
          uri = refl;
          workers = sym rate;
          clients =
              length-new_clients r
                (record { rate_limit = r; address = cfg.accrual_system_address });
          address = refl;
          level = refl;
        };
      })

  module _ (Move : Phase → Phase → Type 0)
      (documented : (p q : Phase) → Move p q → Documented p q) where
    Documented-IsOrdered :
        (p q : Phase) → Documented p q → IsOrdered is_level cfg p → IsOrdered is_level cfg q
    Documented-IsOrdered p _ (starts attempts c later t e) h =
        on_start-IsOrdered is_level cfg attempts c later p t e h
    Documented-IsOrdered p _ (fails attempts c later t e) h =
        on_start-IsOrdered_failed is_level cfg attempts c later p t e h
    Documented-IsOrdered p _ gives_up h = record {
      stack = h.stack;
      following = tt;
      store = elim (h.store) [
        | inl open_ ↦ inl open_
        | inr stuck ↦ inr (record {
          failed = stuck.failed;
          over = refl;
          store = stuck.store;
          accrual = stuck.accrual;
          server = stuck.server;
        })
      ];
      accrual = h.accrual;
      server = h.server;
      wired = h.wired;
    }
    Documented-IsOrdered p _ (stops drains c rest t e) h =
        on_stop-IsOrdered is_level cfg drains c rest p e h

    Runs-IsOrdered :
        (start p : Phase)
        → Runs Move start p
        → IsOrdered is_level cfg start
        → IsOrdered is_level cfg p
    Runs-IsOrdered start _ here h = h
    Runs-IsOrdered start _ (next {p = before_it} {q = after_it} r m) h =
        Documented-IsOrdered before_it after_it (documented before_it after_it m)
          (Runs-IsOrdered start before_it r h)

    -- If fx runs the hooks as it documents, whichever of them fail and wherever the application is
    -- stopped, then whenever the accrual client runs the store is open, whenever the server takes
    -- requests the store is open and the accrual client runs, when all that had started has stopped
    -- neither of the two runs and the store is closed, unless it was the start of the store that has
    -- failed, which can leave it open; and at all times the store has the address of the settings and the client
    -- pool its workers, with their address, as many as the settings say, and the logger the level of
    -- the settings or, where zap does not read it, "debug".
    pub Runs-IsUp :
        (migrated : Bool) (app : App) (p : Phase)
        → setup_fx is_level migrated cfg ≡ some app
        → Runs Move (installed app) p
        → IsUp p × IsWired is_level cfg p.app
    Runs-IsUp migrated app p e r =
        let h = Runs-IsOrdered (installed app) p r (installed-IsOrdered migrated app e) in
        (
          record {
            accrual = λ a. elim (h.store) [
              | inl open_ ↦ open_ ∙ accrual-needs p.started h.stack (sym h.accrual ∙ a)
              | inr stuck ↦
                  (let none_such = sym stuck.accrual ∙ sym h.accrual ∙ a in
                    absurd (ground (arith, none_such)))
            ];
            server = λ l. elim (h.store) [
              | inl open_ ↦
                  (let (store, accrual) = server-needs p.started h.stack (h.server l) in
                    (open_ ∙ store, h.accrual ∙ accrual))
              | inr stuck ↦
                  (let none_such = sym stuck.server ∙ h.server l in
                    absurd (ground (arith, none_such)))
            ];
            over = λ n. (
              elim (h.store) [
                | inl open_ ↦ inl (open_ ∙ ap (contains pg_store) n)
                | inr stuck ↦ inr stuck.failed
              ],
              h.accrual ∙ ap (contains accrual_client) n,
              (λ l.
                  (let held : false ≡ true = sym (ap (contains http_server) n) ∙ h.server l in
                    ground (arith, held))),
            );
          },
          h.wired,
        )
