-- ===== src/Wiring/Stack.antt =====
-- The parts of the server that have started at a time, the last first.
use gomart.Prelude.{
  ◌≡◌, refl, sym, ap, Bool-cases, Bool, true, false, List, [], ◌∷◌, inl, inr, if◌then◌else◌, ◌||◌,
  arith,
}
use gomart.Wiring.{Component, zap_logger, pg_store, accrual_client, http_server}

-- What has started before a part, and what starts after it.
abbrev pub before : Component → List Component
before zap_logger = []
before pg_store = zap_logger ∷ []
before accrual_client = pg_store ∷ zap_logger ∷ []
before http_server = accrual_client ∷ pg_store ∷ zap_logger ∷ []

abbrev pub after : Component → List Component
after zap_logger = pg_store ∷ accrual_client ∷ http_server ∷ []
after pg_store = accrual_client ∷ http_server ∷ []
after accrual_client = http_server ∷ []
after http_server = []

abbrev pub IsStack : List Component → Type 0
IsStack [] = Unit
IsStack (c ∷ rest) = rest ≡ before c

abbrev pub IsNext : List Component → List Component → Type 0
IsNext [] started = Unit
IsNext (c ∷ later) started = (started ≡ before c) × (later ≡ after c)

abbrev pub same_component : Component → Component → Bool
same_component zap_logger zap_logger = true
same_component pg_store pg_store = true
same_component accrual_client accrual_client = true
same_component http_server http_server = true
same_component _ _ = false

abbrev pub contains : Component → List Component → Bool
contains c [] = false
contains c (d ∷ ds) = same_component c d || contains c ds

-- The next part may start.
pub IsNext-start :
    (c : Component) (later started : List Component)
    → started ≡ before c
    → later ≡ after c
    → IsNext later (c ∷ started)
IsNext-start zap_logger later started s l = rw l (ap (λ x. zap_logger ∷ x) s, refl)
IsNext-start pg_store later started s l = rw l (ap (λ x. pg_store ∷ x) s, refl)
IsNext-start accrual_client later started s l = rw l (ap (λ x. accrual_client ∷ x) s, refl)
IsNext-start http_server later started s l = rw l tt

pub IsStack-stop : (c : Component) (rest : List Component) → rest ≡ before c → IsStack rest
IsStack-stop zap_logger rest e = rw e tt
IsStack-stop pg_store rest e = rw e refl
IsStack-stop accrual_client rest e = rw e refl
IsStack-stop http_server rest e = rw e refl

-- A part starts once.
contains-before : (d c : Component) → same_component d c ≡ true → contains d (before c) ≡ false
contains-before zap_logger zap_logger e = refl
contains-before pg_store pg_store e = refl
contains-before accrual_client accrual_client e = refl
contains-before http_server http_server e = refl
contains-before zap_logger pg_store e = absurd (ground (arith, e))
contains-before zap_logger accrual_client e = absurd (ground (arith, e))
contains-before zap_logger http_server e = absurd (ground (arith, e))
contains-before pg_store zap_logger e = absurd (ground (arith, e))
contains-before pg_store accrual_client e = absurd (ground (arith, e))
contains-before pg_store http_server e = absurd (ground (arith, e))
contains-before accrual_client zap_logger e = absurd (ground (arith, e))
contains-before accrual_client pg_store e = absurd (ground (arith, e))
contains-before accrual_client http_server e = absurd (ground (arith, e))
contains-before http_server zap_logger e = absurd (ground (arith, e))
contains-before http_server pg_store e = absurd (ground (arith, e))
contains-before http_server accrual_client e = absurd (ground (arith, e))

pub contains-stop :
    (d c : Component) (rest : List Component)
    → rest ≡ before c
    → (if same_component d c then false else contains d (c ∷ rest)) ≡ contains d rest
contains-stop d c rest r = elim (Bool-cases (same_component d c)) [
  | inl own ↦ rw (own, r) (sym (contains-before d c own))
  | inr other ↦ rw other refl
]
