-- ===== src/Wiring/Changes.antt =====
-- What the `Start` and the `Stop` of a part change.
use gomart.Prelude.{◌≡◌, refl, Bool, true, false, inl, inr, ◌⊎◌, if◌then◌else◌, arith, ◌||◌}
use gomart.Wiring.{
  Component, zap_logger, pg_store, accrual_client, http_server, listening, App, Attempts,
  not_opened, not_pinged, connected, on_start, on_stop,
}
use gomart.Wiring.Stack.{same_component}

-- What a `Start` changes.
pub record Begun (c : Component) (app app' : App) : Type 0 where
  pub uri : app'.database_uri ≡ app.database_uri
  pub pool : app'.pool ≡ app.pool
  pub level : app'.level ≡ app.level
  pub store : app'.store_open ≡ (same_component pg_store c || app.store_open)
  pub accrual : app'.accruing ≡ (same_component accrual_client c || app.accruing)
  pub server :
      app'.serving ≡ listening → (same_component http_server c ≡ true) ⊎ (app.serving ≡ listening)

pub on_start-Begun :
    (attempts : Attempts) (c : Component) (app : App)
    → (on_start attempts c app).0 ≡ true
    → Begun c app (on_start attempts c app).1
unfolding on_start
on_start-Begun attempts zap_logger app e = record {
  uri = refl;
  pool = refl;
  level = refl;
  store = refl;
  accrual = refl;
  server = λ l. inr l;
}
on_start-Begun not_opened pg_store app e = absurd (ground (arith, e))
on_start-Begun not_pinged pg_store app e = absurd (ground (arith, e))
on_start-Begun connected pg_store app e = record {
  uri = refl;
  pool = refl;
  level = refl;
  store = refl;
  accrual = refl;
  server = λ l. inr l;
}
on_start-Begun attempts accrual_client app e = record {
  uri = refl;
  pool = refl;
  level = refl;
  store = refl;
  accrual = refl;
  server = λ l. inr l;
}
on_start-Begun attempts http_server app e = record {
  uri = refl;
  pool = refl;
  level = refl;
  store = refl;
  accrual = refl;
  server = λ l. inl refl;
}

-- A `Start` that fails is that of the store, and may leave it open.
pub record Failed (c : Component) (app app' : App) : Type 0 where
  pub is_store : c ≡ pg_store
  pub uri : app'.database_uri ≡ app.database_uri
  pub pool : app'.pool ≡ app.pool
  pub level : app'.level ≡ app.level
  pub accrual : app'.accruing ≡ app.accruing
  pub server : app'.serving ≡ app.serving

pub on_start-Failed :
    (attempts : Attempts) (c : Component) (app : App)
    → (on_start attempts c app).0 ≡ false
    → Failed c app (on_start attempts c app).1
unfolding on_start
on_start-Failed attempts zap_logger app e = absurd (ground (arith, e))
on_start-Failed not_opened pg_store app e = record {
  is_store = refl;
  uri = refl;
  pool = refl;
  level = refl;
  accrual = refl;
  server = refl;
}
on_start-Failed not_pinged pg_store app e = record {
  is_store = refl;
  uri = refl;
  pool = refl;
  level = refl;
  accrual = refl;
  server = refl;
}
on_start-Failed connected pg_store app e = absurd (ground (arith, e))
on_start-Failed attempts accrual_client app e = absurd (ground (arith, e))
on_start-Failed attempts http_server app e = absurd (ground (arith, e))

-- What a `Stop` changes.
pub record Ended (c : Component) (app app' : App) : Type 0 where
  pub uri : app'.database_uri ≡ app.database_uri
  pub pool : app'.pool ≡ app.pool
  pub level : app'.level ≡ app.level
  pub store : app'.store_open ≡ (if same_component pg_store c then false else app.store_open)
  pub accrual : app'.accruing ≡ (if same_component accrual_client c then false else app.accruing)
  pub server :
      app'.serving ≡ listening → (same_component http_server c ≡ false) × (app.serving ≡ listening)

pub on_stop-Ended : (drains : Bool) (c : Component) (app : App) → Ended c app (on_stop drains c app)
unfolding on_stop
on_stop-Ended drains zap_logger app = record {
  uri = refl;
  pool = refl;
  level = refl;
  store = refl;
  accrual = refl;
  server = λ l. (refl, l);
}
on_stop-Ended drains pg_store app = record {
  uri = refl;
  pool = refl;
  level = refl;
  store = refl;
  accrual = refl;
  server = λ l. (refl, l);
}
on_stop-Ended drains accrual_client app = record {
  uri = refl;
  pool = refl;
  level = refl;
  store = refl;
  accrual = refl;
  server = λ l. (refl, l);
}
on_stop-Ended true http_server app = record {
  uri = refl;
  pool = refl;
  level = refl;
  store = refl;
  accrual = refl;
  server = λ l. absurd (ground (arith, l));
}
on_stop-Ended false http_server app = record {
  uri = refl;
  pool = refl;
  level = refl;
  store = refl;
  accrual = refl;
  server = λ l. absurd (ground (arith, l));
}
