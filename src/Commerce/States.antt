-- ===== src/Commerce/States.antt =====
-- The states of orders, over any sequence of the operations of
-- tec-commerce-service/src/modules/order.
use tec_core_backend.Base.{
  ℕ, Bool, true, false, not, ◌||◌, Option, none, some, List, [], ◌∷◌, String, is_some, ◌≡◌, refl,
  ◌⊎◌, inl, inr, Bool-cases, Option-cases, arith,
}
use tec_core_backend.Base.Action.{Result}
use tec_core_backend.Base.Int.{ℤ}
use tec_core_backend.Base.Table.{Table}
use tec_core_backend.Commerce.Types.{
  Product, OrderItem, Order, Thrown, Env, Site, at_order, ItemDto, CreateOrderDto, CheckoutDto,
  Tables,
}
use tec_core_backend.Commerce.Items.{is_pending, is_awaiting, new_order, find_active, product_ids}
use tec_core_backend.Commerce.Orders.{
  change_stock, check_stock, place_order, create_order, pay_order, checkout, undo_order,
  cancel_order, pay_awaiting, handle_payment_completed,
}

-- A call of an operation, with the clock and the calls of the database that throw.
pub data Request : Type 0 where
  create_request : ℕ → (Site → Bool) → CreateOrderDto → Request
  checkout_request : ℕ → (Site → Bool) → CheckoutDto → Request
  cancel_request : ℕ → (Site → Bool) → ℕ → ℕ → Option String → Request
  -- An event: the payment, the user and the payment at Pi.
  event_request : ℕ → (Site → Bool) → ℕ → ℕ → Option ℕ → Request

module _ (O : Table Order) (P : Table Product) where
  open O use {
    find, update, create, find-update, find-create, create_fresh, find_first, find_first_sound,
  }

  -- A pending order has no payment.
  abbrev pub is_unpaid : Option Order → Bool
  is_unpaid none = true
  is_unpaid (some o) = not (is_pending o.status) || not (is_some o.payment_id)

  abbrev pub is_closed : Option Order → Bool
  is_closed none = false
  is_closed (some o) = not (is_pending o.status)

  -- The orders that the call leaves.
  abbrev pub SameOrders : Tables O P → Result Thrown (Unit {0}) × Tables O P → Type 0
  SameOrders s (r, s') = s'.orders ≡ s.orders

  pub change_stock-orders :
      (env : Env (Tables O P)) (change : ℤ → Product → Product) (lines : List (ℕ × ℤ))
      (s : Tables O P)
      → SameOrders s (change_stock O P env change lines s)
  unfolding change_stock
  change_stock-orders env change [] s = refl
  change_stock-orders env change ((id, quantity) ∷ rest) s =
      grind (arith, change_stock-orders env change rest)

  place_order-unpaid :
      (env : Env (Tables O P)) (dto : CreateOrderDto) (ps : List (ℕ × Product)) (j : ℕ)
      (s : Tables O P)
      → is_unpaid (find j s.orders) ≡ true
      → is_unpaid (find j (place_order O P env dto ps s).1.orders) ≡ true
  unfolding place_order
  place_order-unpaid env dto ps j s h =
      grind (arith, find-create j (new_order env.now dto ps) s.orders, change_stock-orders env)

  pay_order-unpaid :
      (env : Env (Tables O P)) (dto : CheckoutDto) (j : ℕ) (s : Tables O P)
      → is_unpaid (find j s.orders) ≡ true
      → is_unpaid (find j (pay_order O P env dto s).1.orders) ≡ true
  unfolding pay_order
  pay_order-unpaid env dto j s h = grind (arith, find-update j dto.order_id)

  undo_order-unpaid :
      (env : Env (Tables O P)) (id : ℕ) (reason : Option String) (items : List OrderItem) (j : ℕ)
      (s : Tables O P)
      → is_unpaid (find j s.orders) ≡ true
      → is_unpaid (find j (undo_order O P env id reason items s).1.orders) ≡ true
  unfolding undo_order
  undo_order-unpaid env id reason items j s h =
      grind (arith, find-update j id, change_stock-orders env)

  -- No other request runs in between.
  abbrev pub undisturbed : ℕ → (Site → Bool) → Env (Tables O P)
  undisturbed now has_fault = record {
    now = now;
    has_fault = has_fault;
    meanwhile = λ (s : Tables O P). s;
  }

  pub check_stock-same :
      (ps : List (ℕ × Product)) (is : List ItemDto) (s : Tables O P)
      → (check_stock O P ps is s).1 ≡ s
  unfolding check_stock
  check_stock-same ps [] s = refl
  check_stock-same ps (i ∷ is) s = ground (arith, check_stock-same ps is s)

  create_order-unpaid :
      (now : ℕ) (has_fault : Site → Bool) (dto : CreateOrderDto) (j : ℕ) (s : Tables O P)
      → is_unpaid (find j s.orders) ≡ true
      → is_unpaid (find j (create_order O P (undisturbed now has_fault) dto s).1.orders) ≡ true
  unfolding create_order
  create_order-unpaid now has_fault dto j s h = ground (
    arith,
    check_stock-same (find_active P (product_ids dto.items) s.products) dto.items s,
    place_order-unpaid (undisturbed now has_fault) dto
        (find_active P (product_ids dto.items) s.products) j s h,
    h,
  )

  checkout-unpaid :
      (now : ℕ) (has_fault : Site → Bool) (dto : CheckoutDto) (j : ℕ) (s : Tables O P)
      → is_unpaid (find j s.orders) ≡ true
      → is_unpaid (find j (checkout O P (undisturbed now has_fault) dto s).1.orders) ≡ true
  unfolding checkout
  checkout-unpaid now has_fault dto j s h =
      ground (arith, pay_order-unpaid (undisturbed now has_fault) dto j s h, h)

  cancel_order-unpaid :
      (now : ℕ) (has_fault : Site → Bool) (id buyer : ℕ) (reason : Option String) (j : ℕ)
      (s : Tables O P)
      → is_unpaid (find j s.orders) ≡ true
      → is_unpaid (find j (cancel_order O P (undisturbed now has_fault) id buyer reason s).1.orders)
        ≡ true
  unfolding cancel_order
  cancel_order-unpaid now has_fault id buyer reason j s h = grind (
    arith,
    (λ (items : List OrderItem).
        undo_order-unpaid (undisturbed now has_fault) id reason items j s h),
    h,
  )

  -- Where no pending order has a payment, an event finds none to pay.
  consumer_idle :
      (env : Env (Tables O P)) (payment user : ℕ) (pi_payment : Option ℕ) (s : Tables O P)
      → ((j : ℕ) → is_unpaid (find j s.orders) ≡ true)
      → (handle_payment_completed O P env payment user pi_payment s).1 ≡ s
  unfolding handle_payment_completed pay_awaiting
  consumer_idle env payment user pi_payment s h = elim (Bool-cases (env.has_fault at_order)) [
    | inl e ↦ rw e refl
    | inr e ↦ rw e (found (Option-cases (find_first (is_awaiting user payment) s.orders)))
  ]
    where
      awaiting : (x : ℕ × Order) → find_first (is_awaiting user payment) s.orders ≡ some x → ⊥
      awaiting x e' =
          ground (arith, find_first_sound (is_awaiting user payment) s.orders x.0 x.1 e', h x.0)

      found :
          (find_first (is_awaiting user payment) s.orders ≡ none)
            ⊎ ((x : ℕ × Order) × (find_first (is_awaiting user payment) s.orders ≡ some x))
          → (pay_awaiting O P env payment pi_payment
              (find_first (is_awaiting user payment) s.orders)
              s).1
            ≡ s
      found (inl e') = rw (e', pay_awaiting) refl
      found (inr (x, e')) = absurd (awaiting x e')

  -- An operation of the service, with nothing else running in between.
  unfoldable pub run_request : Request → Tables O P → Tables O P
  run_request (create_request now has_fault dto) s =
      (create_order O P (undisturbed now has_fault) dto s).1
  run_request (checkout_request now has_fault dto) s =
      (checkout O P (undisturbed now has_fault) dto s).1
  run_request (cancel_request now has_fault id buyer reason) s =
      (cancel_order O P (undisturbed now has_fault) id buyer reason s).1
  run_request (event_request now has_fault payment user pi_payment) s =
      (handle_payment_completed O P (undisturbed now has_fault) payment user pi_payment s).1

  unfoldable pub run_requests : List Request → Tables O P → Tables O P
  run_requests [] s = s
  run_requests (q ∷ qs) s = run_requests qs (run_request q s)

  request-unpaid :
      (q : Request) (s : Tables O P)
      → ((j : ℕ) → is_unpaid (find j s.orders) ≡ true)
      → (j : ℕ) → is_unpaid (find j (run_request q s).orders) ≡ true
  unfolding run_request
  request-unpaid (create_request now has_fault dto) s h j =
      create_order-unpaid now has_fault dto j s (h j)
  request-unpaid (checkout_request now has_fault dto) s h j =
      checkout-unpaid now has_fault dto j s (h j)
  request-unpaid (cancel_request now has_fault id buyer reason) s h j =
      cancel_order-unpaid now has_fault id buyer reason j s (h j)
  request-unpaid (event_request now has_fault payment user pi_payment) s h j =
      rw (consumer_idle (undisturbed now has_fault) payment user pi_payment s h) (h j)

  requests-unpaid :
      (qs : List Request) (s : Tables O P)
      → ((j : ℕ) → is_unpaid (find j s.orders) ≡ true)
      → (j : ℕ) → is_unpaid (find j (run_requests qs s).orders) ≡ true
  unfolding run_requests
  requests-unpaid [] s h j = h j
  requests-unpaid (q ∷ qs) s h j = requests-unpaid qs (run_request q s) (request-unpaid q s h) j

  -- Where no pending order has a payment (as in an empty table), and after any sequence of creations,
  -- checkouts, cancellations and events, whatever database calls fail, an event of a completed
  -- payment changes nothing: the consumer never pays an order.
  pub consumer_never_pays :
      (qs : List Request) (env : Env (Tables O P)) (payment user : ℕ) (pi_payment : Option ℕ)
      (s : Tables O P)
      → ((j : ℕ) → is_unpaid (find j s.orders) ≡ true)
      → (handle_payment_completed O P env payment user pi_payment (run_requests qs s)).1
        ≡ run_requests qs s
  consumer_never_pays qs env payment user pi_payment s h =
      consumer_idle env payment user pi_payment (run_requests qs s) (requests-unpaid qs s h)
