-- ===== src/Examples/Starts.antt =====
-- A second start of the server on the sample rows.
use mathlib.Core.List.{reverse}
use gomart.Prelude.{◌+◌, arith, ◌≡◌, refl, [], ok, take, drop}
use gomart.Migrations.{Goose, all_up, all_down, migrate}
use gomart.Migrations.Erasure.{set_up, emptied, migrate-set_up}
use gomart.Migrations.{tables_of}
use gomart.Migrations.Origin.{used, migrate-Reach}
use gomart.Ledger.Sound.{IsSound}
use gomart.Concurrent.{Db, Reach, quiet, here, next, serve, passes}
use gomart.System.{post_orders, page}
use gomart.Handlers.{text_plain_content, subject}
use gomart.Tables.Rows.{Tables}
use gomart.Concurrent.Funds.{Alone}
use gomart.Examples.{hmac, tables}
use gomart.Examples.Http.{codec, request, first_user}
use gomart.Examples.Round.{decode, decode-IsHonest}

goose : Goose
goose = record {
  down_to_zero = λ ms db. all_down (reverse (take db.version ms)) db;
  up = λ ms db. all_up (drop db.version ms) db;
  down_to_zero_lem = λ ms db. refl;
  up_lem = λ ms db. refl;
}

migrate-set_up_example :
    (migrate goose (set_up 3 [] tables.orders tables.balances []) ≡ ok (set_up 1 [] [] [] []))
    × (migrate goose (emptied 3) ≡ ok (set_up 1 [] [] [] []))
migrate-set_up_example = migrate-set_up goose 3 [] tables.orders tables.balances []

-- The first user uploads an order, and an hour passes.
abbrev installed : Tables
installed = tables_of 9 (set_up 1 [] [] [] [])

abbrev uploaded : Tables
uploaded =
    (page codec hmac [] post_orders (request text_plain_content (subject first_user))
      (record { tables = installed; net = [] })).1.tables

abbrev later : Db
later = record (quiet installed) { tables = record uploaded { now = uploaded.now + 3600 } }

passed : Reach codec hmac [] decode Alone (quiet installed) later
passed =
    next
      (next here (serve post_orders (request text_plain_content (subject first_user)) [] (λ e. cc)))
      (passes (uploaded.now + 3600) (omega arith))

migrate-Reach_example :
    (migrate goose (set_up 3 [] tables.orders tables.balances []) ≡ ok (set_up 1 [] [] [] []))
    × IsSound later.tables
migrate-Reach_example =
    migrate-Reach codec hmac [] decode goose (set_up 3 [] tables.orders tables.balances []) 9 later
      (λ body x e. ground arith) decode-IsHonest (used 3 [] tables.orders tables.balances []) passed
