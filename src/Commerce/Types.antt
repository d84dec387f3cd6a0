-- ===== src/Commerce/Types.antt =====
-- The data of the commerce service's orders (tec-commerce-service/prisma/schema.prisma). Prices are
-- exact integers where the code has floats; titles, images, addresses and notes are left out. The
-- items and the timeline of an order are kept in its row.
use tec_core_backend.Base.{ℕ, Bool, Option, List, ◌∷◌, String}
use tec_core_backend.Base.Action.{Action, ◌>>=◌, ◌>>◌, pure, or_throw, throw_if, modify}
use tec_core_backend.Base.Int.{ℤ}
use tec_core_backend.Base.Table.{Table}

pub data OrderStatus : Type 0 where
  pending paid processing shipped delivered cancelled refunded : OrderStatus

pub record Product : Type 0 where
  pub seller_id : ℕ
  pub price : ℤ
  pub currency : String
  pub stock : ℤ
  -- `status: 'ACTIVE'`
  pub is_active : Bool

pub record OrderItem : Type 0 where
  pub product_id : ℕ
  pub quantity : ℤ
  pub price : ℤ
  pub currency : String

-- A row of the `orders` table, with its items and the statuses of its timeline, the newest first.
pub record Order : Type 0 where
  pub buyer_id : ℕ
  pub created_at : ℕ
  pub status : OrderStatus
  pub total : ℤ
  pub currency : String
  pub payment_id : Option ℕ
  pub pi_payment_id : Option ℕ
  pub paid_at : Option ℕ
  pub cancelled_at : Option ℕ
  pub cancel_reason : Option String
  pub items : List OrderItem
  pub timeline : List OrderStatus

pub record State (O P : Type 0) : Type 0 where
  pub orders : O
  pub products : P

-- The places where a handler calls the database; the loops over the items name the product.
pub data Site : Type 0 where
  at_products at_create at_order at_payment at_update at_timeline : Site
  at_stock : ℕ → Site

pub data Thrown : Type 0 where
  bad_request : Thrown
  not_found : Thrown
  conflict : Thrown
  -- A database call that throws.
  db : Thrown

-- What a handler meets; `meanwhile` is what other requests do between the tests of a handler and
-- its transaction.
pub record Env (S : Type 0) : Type 0 where
  pub now : ℕ
  pub has_fault : Site → Bool
  pub meanwhile : S → S

pub record ItemDto : Type 0 where
  pub product_id : ℕ
  pub quantity : ℤ

pub record CreateOrderDto : Type 0 where
  pub buyer_id : ℕ
  pub items : List ItemDto

-- An empty or missing id is none.
pub record CheckoutDto : Type 0 where
  pub order_id : ℕ
  pub payment_id : Option ℕ
  pub pi_payment_id : Option ℕ

module _ (O : Table Order) (P : Table Product) where
  abbrev pub Tables : Type 0
  Tables = State (Table.Rows O) (Table.Rows P)

  abbrev pub Act : Type 0 → Type 0
  Act A = Action Tables Thrown A

  abbrev pub attempt : Env Tables → Site → Act (Unit {0})
  attempt env site = throw_if (env.has_fault site) db

  abbrev pub interleave : Env Tables → Act (Unit {0})
  interleave env = modify env.meanwhile

  -- `order.findUnique` by the primary key.
  abbrev pub find_order : Env Tables → ℕ → Act (Option Order)
  find_order env id s = (attempt env at_order >> pure (Table.find O id s.orders)) s

  -- `tx.order.update`
  abbrev pub update_order : Env Tables → ℕ → (Order → Order) → Act Order
  update_order env id change s =
      (do
        attempt env at_update
        o ← or_throw (Table.find O id s.orders) db
        modify (λ (t : Tables). record t { orders = Table.update O id change t.orders })
        pure (change o))
        s

  -- `tx.orderTimeline.create`
  abbrev pub log_timeline : Env Tables → ℕ → OrderStatus → Act (Unit {0})
  log_timeline env id status = do
    attempt env at_timeline
    modify (λ (t : Tables). record t {
      orders =
          Table.update O id (λ (o : Order). record o { timeline = status ∷ o.timeline }) t.orders;
    })
