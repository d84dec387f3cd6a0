-- ===== src/Commerce/Examples.antt =====
-- Tests of the orders on one product, and the theorems at those inputs.
use tec_core_backend.Base.{ℕ, Bool, true, false, none, some, [], ◌∷◌, ◌≡◌, refl}
use tec_core_backend.Base.Action.{err}
use tec_core_backend.Base.Int.{pos, negsuc, ◌+ℤ◌, ◌-ℤ◌, ◌*ℤ◌}
use tec_core_backend.Base.Table.{Table}
use tec_core_backend.Base.Table.Rows.{rows}
use tec_core_backend.Commerce.Types.{
  Product, Order, pending, paid, Site, conflict, Env, CreateOrderDto, CheckoutDto, Tables,
}
use tec_core_backend.Commerce.Items.{is_listed, find_product, find_active, order_total, order_items}
use tec_core_backend.Commerce.Orders.{
  check_stock, change_stock, place_order, create_order, pay_order, checkout, undo_order,
  cancel_order, handle_payment_completed,
}
use tec_core_backend.Commerce.States.{
  create_request, checkout_request, cancel_request, is_unpaid, undisturbed, run_requests,
  consumer_never_pays,
}
use tec_core_backend.Commerce.Closed.{run_requests-closed}
use tec_core_backend.Commerce.Stock.{stock_of, cancel_restores_stock}

abbrev orders : Table Order
orders = rows

abbrev products : Table Product
products = rows

abbrev start : Tables orders products
start = record {
  orders = [];
  products =
      (
        0,
        record { seller_id = 3; price = pos 250; currency = "PI"; stock = pos 5; is_active = true },
      )
      ∷ [];
}

abbrev dto : CreateOrderDto
dto = record { buyer_id = 8; items = (record { product_id = 0; quantity = pos 2 }) ∷ [] }

abbrev greedy : CreateOrderDto
greedy = record { buyer_id = 9; items = (record { product_id = 0; quantity = pos 4 }) ∷ [] }

abbrev fine : Site → Bool
fine site = false

abbrev calm : Env (Tables orders products)
calm = undisturbed orders products 100 fine

abbrev payment : CheckoutDto
payment = record { order_id = 0; payment_id = some 77; pi_payment_id = none }

abbrev placed : Tables orders products
placed = (create_order orders products calm dto start).1

abbrev first_order : Order
first_order = record {
  buyer_id = 8;
  created_at = 100;
  status = pending;
  total = pos 500;
  currency = "PI";
  payment_id = none;
  pi_payment_id = none;
  paid_at = none;
  cancelled_at = none;
  cancel_reason = none;
  items = (record { product_id = 0; quantity = pos 2; price = pos 250; currency = "PI" }) ∷ [];
  timeline = pending ∷ [];
}

abbrev paid_up : Tables orders products
paid_up = (checkout orders products calm payment placed).1

order_placed : placed.orders ≡ (0, first_order) ∷ []
unfolding create_order check_stock place_order change_stock find_active is_listed find_product
    order_total order_items checkout pay_order cancel_order undo_order ◌+ℤ◌ ◌-ℤ◌ ◌*ℤ◌
order_placed = refl

stock_taken : stock_of (Table.find products 0 placed.products) ≡ pos 3
unfolding create_order check_stock place_order change_stock find_active is_listed find_product
    order_total order_items checkout pay_order cancel_order undo_order ◌+ℤ◌ ◌-ℤ◌ ◌*ℤ◌
stock_taken = refl

cancelled_too_late : (cancel_order orders products calm 0 8 none paid_up).0 ≡ err conflict
unfolding create_order check_stock place_order change_stock find_active is_listed find_product
    order_total order_items checkout pay_order cancel_order undo_order ◌+ℤ◌ ◌-ℤ◌ ◌*ℤ◌
cancelled_too_late = refl

-- Another order takes the stock between the test and the transaction.
abbrev raced : Env (Tables orders products)
raced = record calm { meanwhile = λ s. (create_order orders products calm greedy s).1 }

oversold :
    stock_of (Table.find products 0 (create_order orders products raced dto start).1.products)
    ≡ negsuc 0
unfolding create_order check_stock place_order change_stock find_active is_listed find_product
    order_total order_items checkout pay_order cancel_order undo_order ◌+ℤ◌ ◌-ℤ◌ ◌*ℤ◌
oversold = refl

start-unpaid : (j : ℕ) → is_unpaid orders products (Table.find orders j start.orders) ≡ true
start-unpaid j = refl

consumer_never_pays_example :
    (handle_payment_completed orders products calm 77 8 none
      (run_requests orders products (create_request 100 fine dto ∷ []) start)).1
    ≡ run_requests orders products (create_request 100 fine dto ∷ []) start
consumer_never_pays_example =
    consumer_never_pays orders products (create_request 100 fine dto ∷ []) calm 77 8 none start
      start-unpaid

abbrev paid_first : Order
paid_first = record first_order {
  status = paid;
  payment_id = some 77;
  paid_at = some 100;
  timeline = paid ∷ pending ∷ [];
}

run_requests-closed_example :
    Table.find orders 0
      (run_requests orders products
        (cancel_request 200 fine 0 8 none ∷ checkout_request 300 fine payment ∷ [])
        paid_up).orders
    ≡ some paid_first
unfolding create_order check_stock place_order change_stock find_active is_listed find_product
    order_total order_items checkout pay_order cancel_order undo_order ◌+ℤ◌ ◌-ℤ◌ ◌*ℤ◌
run_requests-closed_example =
    run_requests-closed orders products
      (cancel_request 200 fine 0 8 none ∷ checkout_request 300 fine payment ∷ []) 0 paid_first
      paid_up refl refl

cancel_restores_stock_example :
    stock_of (Table.find products 0 (cancel_order orders products calm 0 8 none placed).1.products)
    ≡ pos 5
unfolding create_order check_stock place_order change_stock find_active is_listed find_product
    order_total order_items checkout pay_order cancel_order undo_order ◌+ℤ◌ ◌-ℤ◌ ◌*ℤ◌
cancel_restores_stock_example =
    cancel_restores_stock orders products 100 100 fine fine dto 0 8 first_order none 0 start placed
      (cancel_order orders products calm 0 8 none placed).1 refl refl
