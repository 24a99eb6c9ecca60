-- ===== src/Wiring/Phases.antt =====
-- What fx documents of the hooks that `SetupFX` appends.
use gomart.Prelude.{◌≡◌, Bool, true, false, Option, none, some, List, [], ◌∷◌}
use gomart.Wiring.{Component, App, Attempts, on_start, on_stop}

-- The hooks that are still to start, those that have, the last first, the one that has failed, and the
-- parts.
pub record Phase : Type 0 where
  pub to_start : List Component
  pub started : List Component
  pub failed : Option Component
  pub app : App

abbrev pub installed : App → Phase
installed app = record { to_start = app.hooks; started = []; failed = none; app = app }

-- Hooks start in the order in which they were appended. When one fails, or the application is to stop,
-- no other starts, and those that have started, not the one that has failed, stop in the opposite order.
pub data Documented (p : Phase) : Phase → Type 0 where
  starts :
      (attempts : Attempts) (c : Component) (later : List Component)
      → p.to_start ≡ c ∷ later
      → (on_start attempts c p.app).0 ≡ true
      → Documented p (record p {
        to_start = later;
        started = c ∷ p.started;
        app = (on_start attempts c p.app).1;
      })
  fails :
      (attempts : Attempts) (c : Component) (later : List Component)
      → p.to_start ≡ c ∷ later
      → (on_start attempts c p.app).0 ≡ false
      → Documented p
          (record p { to_start = []; failed = some c; app = (on_start attempts c p.app).1 })
  gives_up : Documented p (record p { to_start = [] })
  stops :
      (drains : Bool) (c : Component) (before : List Component)
      → p.to_start ≡ []
      → p.started ≡ c ∷ before
      → Documented p (record p { to_start = []; started = before; app = on_stop drains c p.app })

module _ (Move : Phase → Phase → Type 0) where
  pub data Runs (start : Phase) : Phase → Type 0 where
    here : Runs start start
    next : {p q : Phase} → Runs start p → Move p q → Runs start q
