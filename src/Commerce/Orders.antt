-- ===== src/Commerce/Orders.antt =====
-- The operations of tec-commerce-service/src/modules/order/order.service.ts, and the handler of
-- payment events of order.consumer.ts. A transaction runs with nothing else between its steps.
use tec_core_backend.Base.{
  ℕ, Bool, false, not, Option, none, some, List, [], ◌∷◌, String, ◌==◌, length,
}
use tec_core_backend.Base.Action.{
  ok, ◌>>=◌, ◌>>◌, pure, or_throw, throw_if, transaction, modify, get,
}
use tec_core_backend.Base.Int.{ℤ, ltb_ℤ}
use tec_core_backend.Base.Table.{Table}
use tec_core_backend.Commerce.Types.{
  paid, cancelled, Product, OrderItem, Order, at_products, at_create, at_order, at_payment,
  at_stock, bad_request, not_found, conflict, db, Env, ItemDto, CreateOrderDto, CheckoutDto, Tables,
  Act, attempt, interleave, find_order, update_order, log_timeline,
}
use tec_core_backend.Commerce.Items.{
  is_pending, product_ids, find_product, find_active, new_order, paid_order, cancelled_order,
  has_payment, is_awaiting, take_stock, return_stock,
}

module _ (O : Table Order) (P : Table Product) where
  -- The loop that tests the stock.
  unfoldable pub check_stock : List (ℕ × Product) → List ItemDto → Act O P (Unit {0})
  check_stock ps [] = pure tt
  check_stock ps (i ∷ is) = do
    p ← or_throw (find_product i.product_id ps) db
    throw_if (ltb_ℤ p.stock i.quantity) bad_request
    check_stock ps is

  -- `tx.product.update`
  abbrev pub update_product : Env (Tables O P) → ℕ → (Product → Product) → Act O P (Unit {0})
  update_product env id change s =
      (do
        attempt O P env (at_stock id)
        or_throw (Table.find P id s.products) db
        modify (λ (t : Tables O P). record t { products = Table.update P id change t.products }))
        s

  -- The loops that change the stock of the products of an order.
  unfoldable pub change_stock :
      Env (Tables O P) → (ℤ → Product → Product) → List (ℕ × ℤ) → Act O P (Unit {0})
  change_stock env change [] = pure tt
  change_stock env change ((id, quantity) ∷ rest) = do
    update_product env id (change quantity)
    change_stock env change rest

  abbrev pub dto_lines : List ItemDto → List (ℕ × ℤ)
  dto_lines [] = []
  dto_lines (i ∷ is) = (i.product_id, i.quantity) ∷ dto_lines is

  abbrev pub order_lines : List OrderItem → List (ℕ × ℤ)
  order_lines [] = []
  order_lines (i ∷ is) = (i.product_id, i.quantity) ∷ order_lines is

  -- The transaction of `createOrder`.
  unfoldable pub place_order :
      Env (Tables O P) → CreateOrderDto → List (ℕ × Product) → Act O P (ℕ × Order)
  place_order env dto ps = transaction do
    attempt O P env at_create
    s ← get
    let (id, rows) = Table.create O (new_order env.now dto ps) s.orders
    modify (λ (t : Tables O P). record t { orders = rows })
    change_stock env take_stock (dto_lines dto.items)
    pure (id, new_order env.now dto ps)

  -- `createOrder`
  unfoldable pub create_order : Env (Tables O P) → CreateOrderDto → Act O P (ℕ × Order)
  create_order env dto = do
    throw_if (length dto.items == 0) bad_request
    attempt O P env at_products
    s ← get
    throw_if (not (length (find_active P (product_ids dto.items) s.products) == length dto.items))
        bad_request
    check_stock (find_active P (product_ids dto.items) s.products) dto.items
    interleave O P env
    place_order env dto (find_active P (product_ids dto.items) s.products)

  -- `existing && existing.id !== dto.order_id`
  abbrev is_taken : ℕ → Option (ℕ × Order) → Bool
  is_taken id none = false
  is_taken id (some e) = not (e.0 == id)

  -- The test of the payment, which is left out for an empty id.
  abbrev check_payment : Env (Tables O P) → CheckoutDto → Act O P (Unit {0})
  check_payment env dto s = elim dto.payment_id [
    | none ↦ (ok tt, s)
    | some k ↦
        (attempt O P env at_payment
            >> throw_if (is_taken dto.order_id (Table.find_first O (has_payment (some k)) s.orders))
                conflict)
          s
  ]

  -- The transaction of `checkout`.
  unfoldable pub pay_order : Env (Tables O P) → CheckoutDto → Act O P Order
  pay_order env dto = transaction do
    o ← update_order O P env dto.order_id (paid_order env.now dto)
    log_timeline O P env dto.order_id paid
    pure o

  -- `checkout`
  unfoldable pub checkout : Env (Tables O P) → CheckoutDto → Act O P Order
  checkout env dto = do
    o ← or_throw (← find_order O P env dto.order_id) not_found
    throw_if (not (is_pending o.status)) conflict
    check_payment env dto
    interleave O P env
    pay_order env dto

  -- `getOrder`
  unfoldable pub get_order : Env (Tables O P) → ℕ → Option ℕ → Act O P Order
  get_order env id buyer = do
    o ← or_throw (← find_order O P env id) not_found
    throw_if (elim buyer [ none ↦ false | some b ↦ not (o.buyer_id == b) ]) not_found
    pure o

  -- The transaction of `cancelOrder`; `items` are those that were read.
  unfoldable pub undo_order :
      Env (Tables O P) → ℕ → Option String → List OrderItem → Act O P (Unit {0})
  undo_order env id reason items = transaction do
    update_order O P env id (cancelled_order env.now reason)
    log_timeline O P env id cancelled
    change_stock env return_stock (order_lines items)

  -- `cancelOrder`
  unfoldable pub cancel_order : Env (Tables O P) → ℕ → ℕ → Option String → Act O P (Unit {0})
  cancel_order env id buyer reason = do
    o ← or_throw (← find_order O P env id) not_found
    throw_if (not (o.buyer_id == buyer)) not_found
    throw_if (not (is_pending o.status)) conflict
    interleave O P env
    undo_order env id reason o.items

  -- The order that was found is paid.
  unfoldable pub pay_awaiting :
      Env (Tables O P) → ℕ → Option ℕ → Option (ℕ × Order) → Act O P (Unit {0})
  pay_awaiting env payment pi_payment none = pure tt
  pay_awaiting env payment pi_payment (some e) = do
    checkout env (record { order_id = e.0; payment_id = some payment; pi_payment_id = pi_payment })
    pure tt

  -- `handlePaymentCompleted` of the consumer.
  unfoldable pub handle_payment_completed : Env (Tables O P) → ℕ → ℕ → Option ℕ → Act O P (Unit {0})
  handle_payment_completed env payment user pi_payment = do
    attempt O P env at_order
    s ← get
    pay_awaiting env payment pi_payment (Table.find_first O (is_awaiting user payment) s.orders)
