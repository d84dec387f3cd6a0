-- ===== src/Commerce/Items.antt =====
-- The parts of tec-commerce-service/src/modules/order/order.service.ts that read and write no table:
-- what an order is made of, and the tests on rows.
use tec_core_backend.Base.{
  ℕ, Bool, true, false, ◌&&◌, ◌||◌, Option, none, some, List, [], ◌∷◌, String, ◌==◌, if◌then◌else◌,
}
use tec_core_backend.Base.Int.{ℤ, pos, ◌+ℤ◌, ◌-ℤ◌, ◌*ℤ◌}
use tec_core_backend.Base.Table.{Table}
use tec_core_backend.Commerce.Types.{
  OrderStatus, pending, paid, cancelled, Product, OrderItem, Order, ItemDto, CreateOrderDto,
  CheckoutDto,
}

abbrev pub is_pending : OrderStatus → Bool
is_pending pending = true
is_pending s = false

abbrev pub product_ids : List ItemDto → List ℕ
product_ids [] = []
product_ids (i ∷ is) = i.product_id ∷ product_ids is

unfoldable pub is_listed : ℕ → List ℕ → Bool
is_listed k [] = false
is_listed k (x ∷ xs) = k == x || is_listed k xs

-- `products.find(p => p.id === item.product_id)`
unfoldable pub find_product : ℕ → List (ℕ × Product) → Option Product
find_product k [] = none
find_product k ((j, p) ∷ ps) = if k == j then some p else find_product k ps

-- What a query of the active products with these ids returns: each once, however often its id is
-- in the list.
unfoldable pub find_active : (P : Table Product) → List ℕ → Table.Rows P → List (ℕ × Product)
find_active P [] t = []
find_active P (k ∷ ks) t =
    let rest = find_active P ks t in
    if is_listed k ks then rest else elim (Table.find P k t) [
      | none ↦ rest
      | some p ↦ if p.is_active then (k, p) ∷ rest else rest
    ]

-- A product that is missing would be a `TypeError`; the test before this one excludes that.
abbrev line_total : Option Product → ItemDto → ℤ
line_total none i = pos 0
line_total (some p) i = p.price *ℤ i.quantity

-- `dto.items.reduce(...)`
unfoldable pub order_total : List (ℕ × Product) → ℤ → List ItemDto → ℤ
order_total ps sum [] = sum
order_total ps sum (i ∷ is) = order_total ps (sum +ℤ line_total (find_product i.product_id ps) i) is

abbrev order_item : Option Product → ItemDto → OrderItem
order_item none i = record {
  product_id = i.product_id;
  quantity = i.quantity;
  price = pos 0;
  currency = "";
}
order_item (some p) i = record {
  product_id = i.product_id;
  quantity = i.quantity;
  price = p.price;
  currency = p.currency;
}

unfoldable pub order_items : List (ℕ × Product) → List ItemDto → List OrderItem
order_items ps [] = []
order_items ps (i ∷ is) = order_item (find_product i.product_id ps) i ∷ order_items ps is

abbrev first_currency : List (ℕ × Product) → String
first_currency [] = ""
first_currency ((k, p) ∷ ps) = p.currency

abbrev pub new_order : ℕ → CreateOrderDto → List (ℕ × Product) → Order
new_order now dto ps = record {
  buyer_id = dto.buyer_id;
  created_at = now;
  status = pending;
  total = order_total ps (pos 0) dto.items;
  currency = first_currency ps;
  payment_id = none;
  pi_payment_id = none;
  paid_at = none;
  cancelled_at = none;
  cancel_reason = none;
  items = order_items ps dto.items;
  timeline = pending ∷ [];
}

abbrev pub paid_order : ℕ → CheckoutDto → Order → Order
paid_order now dto o = record o {
  status = paid;
  payment_id = dto.payment_id;
  pi_payment_id = dto.pi_payment_id;
  paid_at = some now;
}

abbrev pub cancelled_order : ℕ → Option String → Order → Order
cancelled_order now reason o = record o {
  status = cancelled;
  cancelled_at = some now;
  cancel_reason = reason;
}

abbrev pub has_payment : Option ℕ → Order → Bool
has_payment none o = false
has_payment (some k) o = elim o.payment_id [ none ↦ false | some j ↦ j == k ]

abbrev pub is_awaiting : ℕ → ℕ → Order → Bool
is_awaiting user payment o =
    is_pending o.status && (o.buyer_id == user && has_payment (some payment) o)

-- `{ stock: { decrement: quantity } }` and `{ stock: { increment: quantity } }`
abbrev pub take_stock : ℤ → Product → Product
take_stock quantity p = record p { stock = p.stock -ℤ quantity }

abbrev pub return_stock : ℤ → Product → Product
return_stock quantity p = record p { stock = p.stock +ℤ quantity }
