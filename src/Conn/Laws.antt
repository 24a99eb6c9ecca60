-- ===== src/Conn/Laws.antt =====
-- What a statement and a transaction do, by how they end.
use gomart.Prelude.{
  ◌≡◌, refl, Bool, if◌then◌else◌, ◌⊎◌, inl, inr, true, false, [], Result, ok, err, arith,
}
use gomart.Tables.{PgError, aborted, connection, Sql}
use gomart.Tables.Rows.{Tables}
use gomart.Conn.{
  Fault, served, dropped, unanswered, first_fault, later_faults, World, Tx, InTx, tx_query,
  commit_sound, commit, finish, transaction, ◌>>=◌,
}

-- A statement that returns a value was served, in a transaction that had not failed.
pub record Answered {A : Type 0} (sql : Sql A) (tx : Tx) (a : A) (tx' : Tx) : Type 0 where
  pub was_sound : tx.failed ≡ false
  pub is_sound : tx'.failed ≡ false
  pub ran : sql tx.view ≡ (ok a, tx'.view)

pub tx_query-Answered :
    {A : Type 0} (sql : Sql A) (tx : Tx) (a : A) (tx' : Tx)
    → tx_query sql tx ≡ (ok a, tx')
    → Answered sql tx a tx'
unfolding tx_query
tx_query-Answered sql tx a tx' e = ground arith

pub tx_query-served :
    {A : Type 0} (sql : Sql A) (tx : Tx)
    → tx.failed ≡ false
    → tx.net ≡ []
    → (a : A) (t : Tables) → sql tx.view ≡ (ok a, t)
    → tx_query sql tx ≡ (ok a, record { view = t; net = []; failed = false })
unfolding tx_query
tx_query-served sql tx s n a t e = ground arith

-- The inversion of a sequence in a transaction that succeeds.
pub >>=-eq-ok :
    {A B : Type 0} (m : InTx A) (f : A → InTx B) (tx : Tx) (b : B) (tx' : Tx)
    → (m >>= f) tx ≡ (ok b, tx')
    → (a : A) × (tx₁ : Tx) × (m tx ≡ (ok a, tx₁)) × (f a tx₁ ≡ (ok b, tx'))
>>=-eq-ok {A} {B} m f tx b tx' e = go (m tx) refl e
  where
    go :
        (p : Result PgError A × Tx)
        → m tx ≡ p
        → elim p.0 [ ok a ↦ f a p.1 | err x ↦ (err x, p.1) ] ≡ (ok b, tx')
        → (a : A) × (tx₁ : Tx) × (m tx ≡ (ok a, tx₁)) × (f a tx₁ ≡ (ok b, tx'))
    go (ok a, tx₁) q h = (a, tx₁, q, h)
    go (err x, tx₁) q h = cc

-- The body ran to its end on the tables as they were, and what it left is what is stored.
pub record Committed (body : InTx (Unit {0})) (w w' : World) : Type 0 where
  pub tx : Tx
  pub tx' : Tx
  pub same_view : tx.view ≡ w.tables
  pub sound : tx.failed ≡ false
  pub ran : body tx ≡ (ok tt, tx')
  pub stored : w'.tables ≡ tx'.view

Fault-cases : (f : Fault) → (f ≡ served) ⊎ ((f ≡ dropped) ⊎ (f ≡ unanswered))
Fault-cases served = inl refl
Fault-cases dropped = inr (inl refl)
Fault-cases unanswered = inr (inr refl)

abbrev pub Kept : Tables → Result PgError (Unit {0}) × World → Type 0
Kept old (r, w') = (e : PgError) × (r ≡ err e) × (w'.tables ≡ old)

commit-cases :
    (old : Tables) (tx : Tx) → Kept old (commit old tx) ⊎ ((commit old tx).1.tables ≡ tx.view)
unfolding commit
commit-cases old tx = go tx.failed (first_fault tx.net)
  where
    go :
        (b : Bool) (f : Fault)
        → let out =
            if b
            then (err aborted, record { tables = old; net = tx.net })
            else commit_sound f old tx in
          Kept old out ⊎ (out.1.tables ≡ tx.view)
    go true f = inl (aborted, refl, refl)
    go false served = inr refl
    go false dropped = inl (connection, refl, refl)
    go false unanswered = inr refl

finish-atomic :
    (body : InTx (Unit {0})) (w : World) (tx : Tx)
    → tx.view ≡ w.tables
    → tx.failed ≡ false
    → let out = finish w.tables (body tx) in Kept w.tables out ⊎ Committed body w out.1
unfolding finish
finish-atomic body w tx v s = go (body tx) refl
  where
    go :
        (p : Result PgError (Unit {0}) × Tx)
        → body tx ≡ p
        → let out = finish w.tables p in Kept w.tables out ⊎ Committed body w out.1
    go (err e, tx') q = inl (e, refl, refl)
    go (ok _, tx') q = elim (commit-cases w.tables tx') [
      | inl kept ↦ inl kept
      | inr stored ↦
          inr (record { tx = tx; tx' = tx'; same_view = v; sound = s; ran = q; stored = stored })
    ]

-- A transaction keeps the tables and returns an error, or all that its body did is stored: whatever
-- breaks on the way, nothing in between.
pub transaction-atomic :
    (body : InTx (Unit {0})) (w : World)
    → let out = transaction body w in Kept w.tables out ⊎ Committed body w out.1
unfolding transaction
transaction-atomic body w = elim (Fault-cases (first_fault w.net)) [
  | inl f ↦ rw f (elim (Fault-cases (first_fault (later_faults w.net))) [
    | inl g ↦ rw g (
        finish-atomic body w
          (record { view = w.tables; net = later_faults (later_faults w.net); failed = false }) refl
          refl)
    | inr (inl g) ↦ rw g (inl (connection, refl, refl))
    | inr (inr g) ↦ rw g (inl (connection, refl, refl))
  ])
  | inr (inl f) ↦ rw f (inl (connection, refl, refl))
  | inr (inr f) ↦ rw f (inl (connection, refl, refl))
]
