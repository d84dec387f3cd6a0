-- ===== src/Commerce/Stock.antt =====
-- The stock of the products, when an order is created and when it is cancelled
-- (tec-commerce-service/src/modules/order/order.service.ts).
use tec_core_backend.Base.{
  ℕ, Bool, Option, none, some, List, [], ◌∷◌, String, ◌==◌, ◌≡◌, refl, sym, subst, if◌then◌else◌,
  arith,
}
use tec_core_backend.Base.Action.{Result, ok, err}
use tec_core_backend.Base.Int.{
  ℤ, pos, ◌+ℤ◌, ◌-ℤ◌, minus_both, plus_both, minus_zero, plus_zero, minus_plus,
}
use tec_core_backend.Base.Table.{Table}
use tec_core_backend.Commerce.Types.{
  Product, OrderItem, Order, Thrown, Env, Site, ItemDto, CreateOrderDto, Tables,
}
use tec_core_backend.Commerce.Items.{
  new_order, find_active, product_ids, take_stock, return_stock, order_items,
}
use tec_core_backend.Commerce.Orders.{
  change_stock, place_order, create_order, order_lines, dto_lines, undo_order, cancel_order,
}
use tec_core_backend.Commerce.States.{undisturbed, check_stock-same}

-- How much of the product the lines of an order ask for.
unfoldable pub asked : ℕ → List (ℕ × ℤ) → ℤ
asked j [] = pos 0
asked j (x ∷ xs) = if j == x.0 then asked j xs +ℤ x.1 else asked j xs

abbrev pub stock_of : Option Product → ℤ
stock_of none = pos 0
stock_of (some p) = p.stock

-- The quantities of an order are those that were asked for.
order_lines_lem :
    (O : Table Order) (P : Table Product) (ps : List (ℕ × Product)) (is : List ItemDto)
    → order_lines O P (order_items ps is) ≡ dto_lines O P is
unfolding order_items
order_lines_lem O P ps [] = refl
order_lines_lem O P ps (i ∷ is) = ground (arith, order_lines_lem O P ps is)

module _ (O : Table Order) (P : Table Product) where
  open P use {find, update, find-update}

  -- Where the loop returns, the stock has less.
  abbrev HasTaken : ℕ → List (ℕ × ℤ) → Tables O P → Result Thrown (Unit {0}) × Tables O P → Type 0
  HasTaken j lines s (ok a, s') =
      (stock_of (find j s'.products) ≡ stock_of (find j s.products) -ℤ asked j lines)
      × (s'.orders ≡ s.orders)
  HasTaken j lines s (err e, s') = Unit {0}

  take_stock_lem :
      (env : Env (Tables O P)) (lines : List (ℕ × ℤ)) (j : ℕ) (s : Tables O P)
      → HasTaken j lines s (change_stock O P env take_stock lines s)
  unfolding change_stock asked
  take_stock_lem env [] j s = (sym (minus_zero _), refl)
  take_stock_lem env ((id, q) ∷ rest) j s = grind (
    arith,
    minus_both (stock_of (find j s.products)) q (asked j rest),
    find-update j id (take_stock q) s.products,
    take_stock_lem env rest j,
  )

  -- Where the loop returns, the stock has more.
  abbrev HasReturned :
      ℕ → List (ℕ × ℤ) → Tables O P → Result Thrown (Unit {0}) × Tables O P → Type 0
  HasReturned j lines s (ok a, s') =
      stock_of (find j s'.products) ≡ stock_of (find j s.products) +ℤ asked j lines
  HasReturned j lines s (err e, s') = Unit {0}

  return_stock_lem :
      (env : Env (Tables O P)) (lines : List (ℕ × ℤ)) (j : ℕ) (s : Tables O P)
      → HasReturned j lines s (change_stock O P env return_stock lines s)
  unfolding change_stock asked
  return_stock_lem env [] j s = sym (plus_zero _)
  return_stock_lem env ((id, q) ∷ rest) j s = grind (
    arith,
    plus_both (stock_of (find j s.products)) q (asked j rest),
    find-update j id (return_stock q) s.products,
    return_stock_lem env rest j,
  )

  -- What creating an order does, for the product `j`: the order is there with what was asked for,
  -- and the stock has that less; or nothing has changed.
  abbrev pub IsPlaced :
      CreateOrderDto → ℕ → Tables O P → Result Thrown (ℕ × Order) × Tables O P → Type 0
  IsPlaced dto j s (ok (id, o), s') =
      (Table.find O id s'.orders ≡ some o)
      × (order_lines O P o.items ≡ dto_lines O P dto.items)
      × (stock_of (find j s'.products)
          ≡ stock_of (find j s.products) -ℤ asked j (dto_lines O P dto.items))
  IsPlaced dto j s (err e, s') = s' ≡ s

  place_order-IsPlaced :
      (env : Env (Tables O P)) (dto : CreateOrderDto) (ps : List (ℕ × Product)) (j : ℕ)
      (s : Tables O P)
      → IsPlaced dto j s (place_order O P env dto ps s)
  unfolding place_order
  place_order-IsPlaced env dto ps j s = grind (
    arith,
    O.find-create (O.create (new_order env.now dto ps) s.orders).0 (new_order env.now dto ps)
        s.orders,
    order_lines_lem O P ps dto.items,
    take_stock_lem env (dto_lines O P dto.items) j,
  )

  -- `createOrder` that returns has written the order with the quantities that were asked for, and the
  -- stock of every product has exactly these less; a throw of any test or call has changed nothing.
  pub create_order_exact :
      (now : ℕ) (has_fault : Site → Bool) (dto : CreateOrderDto) (j : ℕ) (s : Tables O P)
      → IsPlaced dto j s (create_order O P (undisturbed O P now has_fault) dto s)
  unfolding create_order
  create_order_exact now has_fault dto j s = ground (
    arith,
    check_stock-same O P (find_active P (product_ids dto.items) s.products) dto.items s,
    place_order-IsPlaced (undisturbed O P now has_fault) dto
        (find_active P (product_ids dto.items) s.products) j s,
  )

  undo_order-returns :
      (env : Env (Tables O P)) (id : ℕ) (reason : Option String) (items : List OrderItem) (j : ℕ)
      (s : Tables O P)
      → HasReturned j (order_lines O P items) s (undo_order O P env id reason items s)
  unfolding undo_order
  undo_order-returns env id reason items j s =
      grind (arith, return_stock_lem env (order_lines O P items) j)

  cancel_order-returns :
      (now : ℕ) (has_fault : Site → Bool) (id buyer : ℕ) (reason : Option String) (o : Order)
      (j : ℕ) (s : Tables O P)
      → Table.find O id s.orders ≡ some o
      → HasReturned j
          (order_lines O P o.items)
          s
          (cancel_order O P (undisturbed O P now has_fault) id buyer reason s)
  unfolding cancel_order
  cancel_order-returns now has_fault id buyer reason o j s here =
      ground (arith, here, undo_order-returns (undisturbed O P now has_fault) id reason o.items j s)

  -- An order that is created and then cancelled leaves the stock of every product as it was.
  pub cancel_restores_stock :
      (now later : ℕ) (f g : Site → Bool) (dto : CreateOrderDto) (id buyer : ℕ) (o : Order)
      (reason : Option String) (j : ℕ) (s s' s'' : Tables O P)
      → create_order O P (undisturbed O P now f) dto s ≡ (ok (id, o), s')
      → cancel_order O P (undisturbed O P later g) id buyer reason s' ≡ (ok tt, s'')
      → stock_of (find j s''.products) ≡ stock_of (find j s.products)
  cancel_restores_stock now later f g dto id buyer o reason j s s' s'' placed undone =
      let h : IsPlaced dto j s (ok (id, o), s') =
        subst (IsPlaced dto j s) placed (create_order_exact now f dto j s) in
      let k : HasReturned j (order_lines O P o.items) s' (ok tt, s'') =
        subst (HasReturned j (order_lines O P o.items) s') undone
          (cancel_order-returns later g id buyer reason o j s' h.0) in
      ground
        (arith, h, k, minus_plus (stock_of (find j s.products)) (asked j (dto_lines O P dto.items)))
