-- ===== src/Commerce/Listing/Examples.antt =====
-- Tests of the listing of orders on a sorted list of rows.
use tec_core_backend.Base.{ℕ, ◌≡◌, refl, false, none, some, List, [], ◌∷◌, arith}
use tec_core_backend.Base.Lists.{take, drop}
use tec_core_backend.Base.Action.{err}
use tec_core_backend.Base.Int.{pos, negsuc, ◌-ℤ◌, ◌*ℤ◌}
use tec_core_backend.Base.Pages.{read_on}
use tec_core_backend.Base.Table.{Table}
use tec_core_backend.Base.Table.Rows.{rows}
use tec_core_backend.Base.Table.Listing.{desc, Lists}
use tec_core_backend.Base.Table.Sorted.{sorted_rows}
use tec_core_backend.Commerce.Types.{Order, OrderStatus, Product, pending, paid, db, Env, Tables}
use tec_core_backend.Commerce.Listing.{
  OrdersQuery, list_orders, request_page, is_asked, list_orders_read_all,
}

abbrev orders : Table Order
orders = rows

abbrev products : Table Product
products = rows

abbrev env : Env (Tables orders products)
env = record { now = 50; has_fault = λ site. false; meanwhile = λ t. t }

abbrev an_order : ℕ → OrderStatus → ℕ → Order
an_order buyer status time = record {
  buyer_id = buyer;
  created_at = time;
  status = status;
  total = pos 5;
  currency = "PI";
  payment_id = none;
  pi_payment_id = none;
  paid_at = none;
  cancelled_at = none;
  cancel_reason = none;
  items = [];
  timeline = status ∷ [];
}

abbrev kept : Tables orders products
kept = record {
  orders =
      (3, an_order 8 paid 10)
      ∷ (2, an_order 8 paid 30)
      ∷ (1, an_order 9 paid 20)
      ∷ (0, an_order 8 pending 40)
      ∷ [];
  products = [];
}

abbrev query : OrdersQuery
query = record { buyer_id = some 8; page = none; limit = some (pos 1); status = some (some paid) }

read_two_pages :
    read_on (request_page orders products (sorted_rows Order.created_at) env query kept) 3 1
    ≡ some ((2, an_order 8 paid 30) ∷ (3, an_order 8 paid 10) ∷ [])
unfolding read_on list_orders take drop ◌-ℤ◌ ◌*ℤ◌
read_two_pages = refl

list_orders_read_all_example :
    (found : List (ℕ × Order)) × Lists orders Order.created_at
      (is_asked 8 (some paid))
      desc
      kept.orders
      found
    × (read_on (request_page orders products (sorted_rows Order.created_at) env query kept) 3 1
        ≡ some found)
list_orders_read_all_example =
    list_orders_read_all orders products (sorted_rows Order.created_at) env query kept 8 0
      (some paid) refl refl refl refl 3 (omega arith)

-- The page -1 of a limit of 1.
negative_page :
    (list_orders orders products
      (sorted_rows Order.created_at)
      env
      (record query { page = some (negsuc 0) })
      kept).0
    ≡ err db
unfolding list_orders ◌-ℤ◌ ◌*ℤ◌
negative_page = refl
