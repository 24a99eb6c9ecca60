-- ===== src/Conn.antt =====
-- The connection of internal/common/store/pg/pg.go to the database: what a round trip can do, a
-- statement on the pool, and a transaction that commits, or rolls back on an error.
pub mod Laws
use gomart.Prelude.{
  Bool, true, false, Option, none, some, List, [], ◌∷◌, Result, ok, err, if◌then◌else◌,
}
use gomart.Tables.{PgError, connection, aborted, no_rows, Sql}
use gomart.Tables.Rows.{Tables}

-- A round trip is served, or the connection breaks before the server has it, or after that and
-- before the answer is back. A list says what becomes of the round trips to come; past its end all
-- are served.
pub data Fault : Type 0 where
  served dropped unanswered : Fault

abbrev pub first_fault : List Fault → Fault
first_fault [] = served
first_fault (f ∷ fs) = f

abbrev pub later_faults : List Fault → List Fault
later_faults [] = []
later_faults (f ∷ fs) = fs

pub record World : Type 0 where
  pub tables : Tables
  pub net : List Fault

-- A call on the pool.
abbrev pub Call : Type 0 → Type 0
Call A = World → Result PgError A × World

-- The error, if any, of a round trip that changes nothing: `pool.Acquire`, `conn.Begin`.
abbrev reached : Fault → Result PgError (Unit {0})
reached served = ok tt
reached dropped = err connection
reached unanswered = err connection

unfoldable pub round_trip : Call (Unit {0})
round_trip w = (reached (first_fault w.net), record w { net = later_faults w.net })

-- A statement outside a transaction, which commits by itself.
unfoldable pub query : {A : Type 0} → Sql A → Call A
query sql w = elim (first_fault w.net) [
  | served ↦ let (r, t) = sql w.tables in (r, record { tables = t; net = later_faults w.net })
  | dropped ↦ (err connection, record w { net = later_faults w.net })
  | unanswered ↦
      let (_, t) = sql w.tables in (err connection, record { tables = t; net = later_faults w.net })
]

-- `row.Scan` reports that there is no row.
abbrev pub scan : {A : Type 0} → Result PgError (Option A) → Result PgError A
scan (ok (some a)) = ok a
scan (ok none) = err no_rows
scan (err e) = err e

-- The tables as the transaction sees them, and whether a statement of it has failed.
pub record Tx : Type 0 where
  pub view : Tables
  pub net : List Fault
  pub failed : Bool

abbrev pub InTx : Type 0 → Type 0
InTx A = Tx → Result PgError A × Tx

abbrev broken : Tx → Tx
broken tx = record tx { net = later_faults tx.net; failed = true }

-- What a statement's answer makes of the transaction: an error aborts it.
abbrev answered : {A : Type 0} → Tx → Result PgError A × Tables → Result PgError A × Tx
answered tx (ok a, t) = (ok a, record tx { view = t; net = later_faults tx.net })
answered tx (err e, t) = (err e, broken tx)

-- A statement in a transaction. Once one has failed, the others are refused.
unfoldable pub tx_query : {A : Type 0} → Sql A → InTx A
tx_query sql tx = elim tx.failed [
  | true ↦ (err aborted, tx)
  | false ↦ elim (first_fault tx.net) [
    | served ↦ answered tx (sql tx.view)
    | dropped ↦ (err connection, broken tx)
    | unanswered ↦ (err connection, broken tx)
  ]
]

infixl 5 ◌>>=◌ ◌>>◌
abbrev pub ◌>>=◌ : {A B : Type 0} → InTx A → (A → InTx B) → InTx B
◌>>=◌ m f tx = let (r, tx') = m tx in elim r [ ok a ↦ f a tx' | err e ↦ (err e, tx') ]

abbrev pub ◌>>◌ : {A B : Type 0} → InTx A → InTx B → InTx B
m >> k = m >>= λ _. k

abbrev pub pure : {A : Type 0} → A → InTx A
pure a tx = (ok a, tx)

abbrev pub raise : {A : Type 0} → PgError → InTx A
raise e tx = (err e, tx)

-- `tx.Commit`; a commit that is not answered has taken place.
abbrev pub commit_sound : Fault → Tables → Tx → Result PgError (Unit {0}) × World
commit_sound served old tx = (ok tt, record { tables = tx.view; net = later_faults tx.net })
commit_sound dropped old tx = (err connection, record { tables = old; net = later_faults tx.net })
commit_sound unanswered old tx =
    (err connection, record { tables = tx.view; net = later_faults tx.net })

unfoldable pub commit : Tables → Tx → Result PgError (Unit {0}) × World
commit old tx =
    if tx.failed
    then (err aborted, record { tables = old; net = tx.net })
    else commit_sound (first_fault tx.net) old tx

-- How a transaction ends: `return tx.Commit(ctx)`, or the deferred `tx.Rollback`.
unfoldable pub finish : Tables → Result PgError (Unit {0}) × Tx → Result PgError (Unit {0}) × World
unfolding commit
finish old (ok _, tx) = commit old tx
finish old (err e, tx) = (err e, record { tables = old; net = tx.net })

abbrev pub begun : World → Tx
begun w = record { view = w.tables; net = w.net; failed = false }

-- `if err != nil { return … }` behind a call.
abbrev pub and_then :
    {A B : Type 0}
    → Result PgError A × World
    → (World → Result PgError B × World)
    → Result PgError B × World
and_then (ok _, w) next = next w
and_then (err e, w) next = (err e, w)

-- `pool.Acquire`, `conn.Begin`, the body, and the end of the transaction.
unfoldable pub transaction : InTx (Unit {0}) → Call (Unit {0})
unfolding round_trip finish
transaction body w =
    and_then (round_trip w) λ w₁. and_then (round_trip w₁) λ w₂. finish w₂.tables (body (begun w₂))
