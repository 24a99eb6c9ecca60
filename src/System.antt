-- ===== src/System.antt =====
-- The routes of internal/gophermart/handlers/handlers.go and their handlers.
pub mod Pages
pub mod Sent
pub mod Invariant
pub mod Overdraw
pub mod Race
use gomart.Prelude.{ℕ, ◌≡◌, ◌≤◌, Option, none, some, List, [], Bytes, Bool, All}
use gomart.Password.{Hmac}
use gomart.Store.{Order}
use gomart.Tables.Rows.{Tables}
use gomart.Conn.{Fault, World}
use gomart.Handlers.{Request, Page, main_page_post_order}
use gomart.Handlers.Pages.{
  Codec, main_page_post_withdraw, main_page_get_balance, main_page_get_withdrawals,
  main_page_get_orders, main_page_register, main_page_login,
}
use gomart.Pool.{OrderAccrual, JobResult}
use gomart.Service.{get_orders_for_process}
use gomart.Accrual.{sent_orders, stored_results}
use gomart.Pool.Workers.Replies.{Finished, delivered}

-- The routes that `newRouter` gives the handlers, and `main_page`, which does not use the store.
pub data Route : Type 0 where
  post_orders get_orders get_withdrawals get_balance post_withdraw : Route
  register login : Route

module _ (codec : Codec) (hmac : Hmac) (key_sig : Bytes) where
  abbrev pub page : Route → Request → Page
  page post_orders = main_page_post_order
  page get_orders = main_page_get_orders codec
  page get_withdrawals = main_page_get_withdrawals codec
  page get_balance = main_page_get_balance codec
  page post_withdraw = main_page_post_withdraw codec
  page register = main_page_register codec hmac key_sig
  page login = main_page_login codec hmac key_sig
