-- ===== src/Concurrent/Sequence.antt =====
-- A call of `InsertWithdraw` as one step, statement by statement.
use mathlib.Core.List.{append-nil}
use gomart.Prelude.{ℕ, ◌≡◌, refl, sym, ap, ◌∙◌, inl, inr, List, [], ◌∷◌, ◌++◌, Bytes, Bool, arith}
use gomart.Password.{Hmac}
use gomart.Store.{Withdraw, is_less}
use gomart.Tables.{select_balance, balance_dec, insert_withdrawal}
use gomart.Tables.Rows.{BalanceRow, WithdrawalRow, Tables, put_balance}
use gomart.Conn.{Fault, World}
use gomart.Conn.Laws.{transaction-atomic}
use gomart.PgStore.{scanned_or_zero, withdraw_body, insert_withdraw}
use gomart.PgStore.Statements.{
  Statements, withdraw_body-Statements, balance_dec-stores, insert_withdrawal-stores,
}
use gomart.Handlers.Pages.{Codec}
use gomart.Pool.{OrderAccrual}
use gomart.Concurrent.{
  Session, idle, reading, debiting, recording, ending, view, put_balances, Db, Reach, quiet,
  update_at, at_start, read, debit, record_withdrawal, commit, roll_back, here, next,
}

-- The call has begun, and nothing else runs.
abbrev pub calling : ℕ → Withdraw → Tables → Db
calling i w t = record (quiet t) { sessions = update_at i (reading w) (λ j. idle) }

update_at-same : (i : ℕ) (s : Session) (sessions : ℕ → Session) → update_at i s sessions i ≡ s
update_at-same i s sessions = ground arith

view-reading : (w : Withdraw) (t : Tables) → view (reading w) t ≡ t
unfolding put_balances
view-reading w t = rw (append-nil t.withdrawals) refl

view-debiting : (w : Withdraw) (t : Tables) → view (debiting w) (at_start t.now t) ≡ t
unfolding put_balances
view-debiting w t = rw (append-nil t.withdrawals) refl

view-recording :
    (w : Withdraw) (row : BalanceRow) (t : Tables)
    → view (recording w row) (at_start t.now t) ≡ record t { balances = put_balance row t.balances }
unfolding put_balances
view-recording w row t = rw (append-nil t.withdrawals) refl

view-ending :
    (w : Withdraw) (row : BalanceRow) (drawn : WithdrawalRow) (t : Tables)
    → view (ending w row drawn) t ≡ record t {
      balances = put_balance row t.balances;
      withdrawals = t.withdrawals ++ drawn ∷ [];
    }
unfolding put_balances
view-ending w row drawn t = refl

abbrev set : ℕ → Session → Db → Db
set i s db = record db { sessions = update_at i s db.sessions }

module _ (codec : Codec) (hmac : Hmac) (key_sig : Bytes) (decode : Bytes → OrderAccrual × Bool)
    (Allowed : Db → Withdraw → Type 0) where
  statements :
      (i : ℕ) (w : Withdraw) (t t' : Tables)
      → Statements w t t'
      → (db : Db) × Reach codec hmac key_sig decode Allowed (calling i w t) db
        × (db.tables ≡ t')
        × (db.sessions i ≡ idle)
  statements i w t t' s =
      let db₁ = set i (debiting w) (calling i w t) in
      let db₂ = set i (recording w s.row) db₁ in
      let db₃ = set i (ending w s.row s.drawn) db₂ in
      let db₄ : Db = record {
        tables = view (db₃.sessions i) db₃.tables;
        sessions = update_at i idle db₃.sessions;
        batch = db₃.batch;
        sent = db₃.sent;
      } in
      let at₀ = update_at-same i (reading w) (λ j. idle) in
      let at₁ = update_at-same i (debiting w) (calling i w t).sessions in
      let at₂ = update_at-same i (recording w s.row) db₁.sessions in
      let at₃ = update_at-same i (ending w s.row s.drawn) db₂.sessions in
      let stored = balance_dec-stores w t s.between s.row s.decreases in
      (
        db₄,
        next
            (next
              (next
                (next here (
                  read i w at₀ (
                    ap (λ v. is_less (scanned_or_zero (select_balance w.user_id v).0).accrual w.sum)
                      (ap (λ x. view x t) at₀ ∙ view-reading w t)
                    ∙ s.covered)))
                (debit i t.now w s.row at₁ (λ j ne. ground arith) refl
                  (ap (λ v. (balance_dec w.user_id w.sum w.sum v).0)
                      (ap (λ x. view x (at_start t.now t)) at₁ ∙ view-debiting w t)
                    ∙ ap (λ p. p.0) s.decreases)))
              (record_withdrawal i t.now w s.row s.drawn at₂ (λ j ne. ground arith)
                (ap (λ v. (insert_withdrawal w.user_id w.order_id w.sum v).0)
                    (ap (λ x. view x (at_start t.now t)) at₂
                      ∙ view-recording w s.row t
                      ∙ sym stored)
                  ∙ ap (λ p. p.0) s.inserts)))
            (commit i w s.row s.drawn at₃),
        ap (λ x. view x t) at₃
            ∙ view-ending w s.row s.drawn t
            ∙ ap {A = Tables} {B = Tables}
                (λ v. record v { withdrawals = v.withdrawals ++ s.drawn ∷ [] }) (sym stored)
            ∙ sym (insert_withdrawal-stores w s.between t' s.drawn s.inserts),
        update_at-same i idle db₃.sessions,
      )

  -- Whatever a call of `InsertWithdraw` does as one step, on whatever faults of the connection, its
  -- statements do one after the other, where nothing else runs: they end with the same tables.
  pub insert_withdraw-Reach :
      (i : ℕ) (w : Withdraw) (t : Tables) (net : List Fault)
      → (db : Db) × Reach codec hmac key_sig decode Allowed (calling i w t) db
        × (db.tables ≡ (insert_withdraw w (record { tables = t; net = net })).1.tables)
        × (db.sessions i ≡ idle)
  unfolding insert_withdraw
  insert_withdraw-Reach i w t net =
      let world : World = record { tables = t; net = net } in
      elim (transaction-atomic (withdraw_body w) world) [
        | inl (e, failed, kept) ↦ (
          record (calling i w t) { sessions = update_at i idle (calling i w t).sessions },
          next here (roll_back i),
          sym kept,
          update_at-same i idle (calling i w t).sessions,
        )
        | inr c ↦
            let s = withdraw_body-Statements w c.tx c.tx' c.ran in
            let (db, r, e, over) = statements i w t c.tx'.view (rw c.same_view at s) in
            (db, r, e ∙ sym c.stored, over)
      ]
