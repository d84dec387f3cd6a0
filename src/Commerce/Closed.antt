-- ===== src/Commerce/Closed.antt =====
-- Orders that are no longer pending, over any sequence of the operations of
-- tec-commerce-service/src/modules/order.
use tec_core_backend.Base.{
  ℕ, Bool, false, Option, none, some, List, [], ◌∷◌, String, ◌==◌, ◌≡◌, arith,
}
use tec_core_backend.Base.Table.{Table}
use tec_core_backend.Commerce.Types.{
  Product, OrderItem, Order, Env, Site, CreateOrderDto, CheckoutDto, Tables,
}
use tec_core_backend.Commerce.Items.{is_pending, is_awaiting, new_order, find_active, product_ids}
use tec_core_backend.Commerce.Orders.{
  place_order, create_order, pay_order, checkout, undo_order, cancel_order, pay_awaiting,
  handle_payment_completed,
}
use tec_core_backend.Commerce.States.{
  Request, create_request, checkout_request, cancel_request, event_request, undisturbed,
  run_request, run_requests, check_stock-same, change_stock-orders,
}

module _ (O : Table Order) (P : Table Product) where
  open O use {find, update, create, find-update, find-create, create_fresh, find_first}

  place_order-keeps :
      (env : Env (Tables O P)) (dto : CreateOrderDto) (ps : List (ℕ × Product)) (j : ℕ) (o : Order)
      (s : Tables O P)
      → find j s.orders ≡ some o
      → find j (place_order O P env dto ps s).1.orders ≡ some o
  unfolding place_order
  place_order-keeps env dto ps j o s h = grind (
    arith,
    find-create j (new_order env.now dto ps) s.orders,
    create_fresh (new_order env.now dto ps) s.orders,
    change_stock-orders O P env,
  )

  pay_order-other :
      (env : Env (Tables O P)) (dto : CheckoutDto) (j : ℕ) (s : Tables O P)
      → (j == dto.order_id) ≡ false
      → find j (pay_order O P env dto s).1.orders ≡ find j s.orders
  unfolding pay_order
  pay_order-other env dto j s ne = grind (arith, find-update j dto.order_id)

  undo_order-other :
      (env : Env (Tables O P)) (id : ℕ) (reason : Option String) (items : List OrderItem) (j : ℕ)
      (s : Tables O P)
      → (j == id) ≡ false
      → find j (undo_order O P env id reason items s).1.orders ≡ find j s.orders
  unfolding undo_order
  undo_order-other env id reason items j s ne =
      grind (arith, find-update j id, change_stock-orders O P env)

  module _ (now : ℕ) (has_fault : Site → Bool) (j : ℕ) (o : Order) (s : Tables O P) where
    create_order-closed :
        (dto : CreateOrderDto)
        → find j s.orders ≡ some o
        → find j (create_order O P (undisturbed O P now has_fault) dto s).1.orders ≡ some o
    unfolding create_order
    create_order-closed dto h = ground (
      arith,
      check_stock-same O P (find_active P (product_ids dto.items) s.products) dto.items s,
      place_order-keeps (undisturbed O P now has_fault) dto
          (find_active P (product_ids dto.items) s.products) j o s h,
      h,
    )

    checkout-closed :
        (dto : CheckoutDto)
        → find j s.orders ≡ some o
        → is_pending o.status ≡ false
        → find j (checkout O P (undisturbed O P now has_fault) dto s).1.orders ≡ some o
    unfolding checkout
    checkout-closed dto h c =
        ground (arith, pay_order-other (undisturbed O P now has_fault) dto j s, h, c)

    cancel_order-closed :
        (id buyer : ℕ) (reason : Option String)
        → find j s.orders ≡ some o
        → is_pending o.status ≡ false
        → find j (cancel_order O P (undisturbed O P now has_fault) id buyer reason s).1.orders
          ≡ some o
    unfolding cancel_order
    cancel_order-closed id buyer reason h c = grind (
      arith,
      (λ (items : List OrderItem).
          undo_order-other (undisturbed O P now has_fault) id reason items j s),
      h,
      c,
    )

    pay_awaiting-closed :
        (payment : ℕ) (pi_payment : Option ℕ) (e : Option (ℕ × Order))
        → find j s.orders ≡ some o
        → is_pending o.status ≡ false
        → find j (pay_awaiting O P (undisturbed O P now has_fault) payment pi_payment e s).1.orders
          ≡ some o
    unfolding pay_awaiting
    pay_awaiting-closed payment pi_payment none h c = h
    pay_awaiting-closed payment pi_payment (some e) h c = ground (
      arith,
      checkout-closed
          (record { order_id = e.0; payment_id = some payment; pi_payment_id = pi_payment }) h c,
    )

    event-closed :
        (payment user : ℕ) (pi_payment : Option ℕ)
        → find j s.orders ≡ some o
        → is_pending o.status ≡ false
        → find j
            (handle_payment_completed O P
              (undisturbed O P now has_fault)
              payment
              user
              pi_payment
              s).1.orders
          ≡ some o
    unfolding handle_payment_completed
    event-closed payment user pi_payment h c = ground (
      arith,
      h,
      pay_awaiting-closed payment pi_payment (find_first (is_awaiting user payment) s.orders) h c,
    )

  request-closed :
      (q : Request) (j : ℕ) (o : Order) (s : Tables O P)
      → find j s.orders ≡ some o
      → is_pending o.status ≡ false
      → find j (run_request O P q s).orders ≡ some o
  unfolding run_request
  request-closed (create_request now f dto) j o s h c = create_order-closed now f j o s dto h
  request-closed (checkout_request now f dto) j o s h c = checkout-closed now f j o s dto h c
  request-closed (cancel_request now f id buyer reason) j o s h c =
      cancel_order-closed now f j o s id buyer reason h c
  request-closed (event_request now f payment user pi_payment) j o s h c =
      event-closed now f j o s payment user pi_payment h c

  -- Creations, checkouts, cancellations and events that run one after the other, with any inputs and
  -- whatever database calls fail, leave an order that is not pending exactly as it is: it is not
  -- paid twice, not cancelled after it was paid and not paid after it was cancelled.
  pub run_requests-closed :
      (qs : List Request) (j : ℕ) (o : Order) (s : Tables O P)
      → find j s.orders ≡ some o
      → is_pending o.status ≡ false
      → find j (run_requests O P qs s).orders ≡ some o
  unfolding run_requests
  run_requests-closed [] j o s h c = h
  run_requests-closed (q ∷ qs) j o s h c =
      run_requests-closed qs j o (run_request O P q s) (request-closed q j o s h c) c
