-- ===== src/Wiring/Ordered.antt =====
-- Which parts have started at a time, kept by each move.
use gomart.Prelude.{
  Bool-cases, ◌≡◌, refl, sym, ap, ◌∙◌, Bool, true, false, some, List, [], ◌∷◌, Bytes, codes, inl,
  inr, ◌⊎◌, length, if◌then◌else◌, arith, ◌||◌,
}
use gomart.Prelude.Int.{pos}
use gomart.Config.{Config}
use gomart.Wiring.{
  Component, pg_store, accrual_client, http_server, listening, App, Attempts, on_start, on_stop,
}
use gomart.Wiring.Stack.{
  before, IsStack, IsNext, same_component, contains, IsNext-start, IsStack-stop, contains-stop,
}
use gomart.Wiring.Changes.{on_start-Begun, on_start-Failed, on_stop-Ended}
use gomart.Wiring.Phases.{Phase}

-- What the functions of `fx.Invoke` have set stays.
pub record IsWired (is_level : Bytes → Bool) (cfg : Config) (app : App) : Type 0 where
  pub uri : app.database_uri ≡ cfg.database_uri
  pub workers : pos app.pool.worker_count ≡ cfg.rate_limit
  pub clients : length app.pool.clients ≡ app.pool.worker_count
  pub address : app.pool.cfg.address ≡ cfg.accrual_system_address
  pub level : app.level ≡ (if is_level cfg.level then cfg.level else codes "debug")

-- The store has failed to start, and nothing that needs it has started.
pub record IsStuck (p : Phase) : Type 0 where
  pub failed : p.failed ≡ some pg_store
  pub over : p.to_start ≡ []
  pub store : contains pg_store p.started ≡ false
  pub accrual : contains accrual_client p.started ≡ false
  pub server : contains http_server p.started ≡ false

pub record IsOrdered (is_level : Bytes → Bool) (cfg : Config) (p : Phase) : Type 0 where
  pub stack : IsStack p.started
  pub following : IsNext p.to_start p.started
  pub store : (p.app.store_open ≡ contains pg_store p.started) ⊎ IsStuck p
  pub accrual : p.app.accruing ≡ contains accrual_client p.started
  pub server : p.app.serving ≡ listening → contains http_server p.started ≡ true
  pub wired : IsWired is_level cfg p.app

IsWired-same :
    (is_level : Bytes → Bool) (cfg : Config) (app app' : App)
    → app'.database_uri ≡ app.database_uri
    → app'.pool ≡ app.pool
    → app'.level ≡ app.level
    → IsWired is_level cfg app
    → IsWired is_level cfg app'
IsWired-same is_level cfg app app' u p l h = record {
  uri = u ∙ h.uri;
  workers = rw p h.workers;
  clients = rw p h.clients;
  address = rw p h.address;
  level = l ∙ h.level;
}

module _ (is_level : Bytes → Bool) (cfg : Config) where
  pub on_start-IsOrdered :
      (attempts : Attempts) (c : Component) (later : List Component) (p : Phase)
      → p.to_start ≡ c ∷ later
      → (on_start attempts c p.app).0 ≡ true
      → IsOrdered is_level cfg p
      → IsOrdered is_level cfg (record p {
        to_start = later;
        started = c ∷ p.started;
        app = (on_start attempts c p.app).1;
      })
  on_start-IsOrdered attempts c later p t e h =
      let b = on_start-Begun attempts c p.app e in
      let (now, rest) : IsNext (c ∷ later) p.started = rw t at h.following in
      record {
        stack = now;
        following = IsNext-start c later p.started now rest;
        store = elim (h.store) [
          | inl open_ ↦ inl (b.store ∙ ap (λ x. same_component pg_store c || x) open_)
          | inr stuck ↦ (let none_such = sym t ∙ stuck.over in absurd (ground (arith, none_such)))
        ];
        accrual = b.accrual ∙ ap (λ x. same_component accrual_client c || x) h.accrual;
        server = λ l. elim (b.server l) [
          | inl own ↦ rw own refl
          | inr was ↦ ground (arith, h.server was)
        ];
        wired =
            IsWired-same is_level cfg p.app (on_start attempts c p.app).1 b.uri b.pool b.level
              h.wired;
      }

  pub on_start-IsOrdered_failed :
      (attempts : Attempts) (c : Component) (later : List Component) (p : Phase)
      → p.to_start ≡ c ∷ later
      → (on_start attempts c p.app).0 ≡ false
      → IsOrdered is_level cfg p
      → IsOrdered is_level cfg
          (record p { to_start = []; failed = some c; app = (on_start attempts c p.app).1 })
  on_start-IsOrdered_failed attempts c later p t e h =
      let b = on_start-Failed attempts c p.app e in
      let (now, rest) : IsNext (c ∷ later) p.started = rw t at h.following in
      let below : p.started ≡ before pg_store = now ∙ ap before b.is_store in
      record {
        stack = h.stack;
        following = tt;
        store = inr (record {
          failed = ap some b.is_store;
          over = refl;
          store = ap (contains pg_store) below;
          accrual = ap (contains accrual_client) below;
          server = ap (contains http_server) below;
        });
        accrual = b.accrual ∙ h.accrual;
        server = λ l. h.server (sym b.server ∙ l);
        wired =
            IsWired-same is_level cfg p.app (on_start attempts c p.app).1 b.uri b.pool b.level
              h.wired;
      }

  -- What has not started has not after another has stopped.
  contains-rest :
      (d c : Component) (rest started : List Component)
      → started ≡ c ∷ rest
      → contains d started ≡ false
      → contains d rest ≡ false
  contains-rest d c rest started e f =
      let all : (same_component d c || contains d rest) ≡ false = rw e at f in
      elim (Bool-cases (same_component d c)) [
        | inl own ↦ absurd (let none_such = rw own at all in ground (arith, none_such))
        | inr other ↦ rw other at all
      ]

  pub on_stop-IsOrdered :
      (drains : Bool) (c : Component) (rest : List Component) (p : Phase)
      → p.started ≡ c ∷ rest
      → IsOrdered is_level cfg p
      → IsOrdered is_level cfg
          (record p { to_start = []; started = rest; app = on_stop drains c p.app })
  on_stop-IsOrdered drains c rest p e h =
      let k = on_stop-Ended drains c p.app in
      let below : rest ≡ before c = rw e at h.stack in
      record {
        stack = IsStack-stop c rest below;
        following = tt;
        store = elim (h.store) [
          | inl open_ ↦ inl (
              k.store
              ∙ ap (λ x. if same_component pg_store c then false else x)
                  (open_ ∙ ap (contains pg_store) e)
              ∙ contains-stop pg_store c rest below)
          | inr stuck ↦ inr (record {
            failed = stuck.failed;
            over = refl;
            store = contains-rest pg_store c rest p.started e stuck.store;
            accrual = contains-rest accrual_client c rest p.started e stuck.accrual;
            server = contains-rest http_server c rest p.started e stuck.server;
          })
        ];
        accrual =
            k.accrual
            ∙ ap (λ x. if same_component accrual_client c then false else x)
                (h.accrual ∙ ap (contains accrual_client) e)
            ∙ contains-stop accrual_client c rest below;
        server = λ l.
            let (other, was) = k.server l in
            let held : (same_component http_server c || contains http_server rest) ≡ true =
              sym (ap (contains http_server) e) ∙ h.server was in
            rw other at held;
        wired =
            IsWired-same is_level cfg p.app (on_stop drains c p.app) k.uri k.pool k.level h.wired;
      }
