-- ===== src/Commerce/Listing.antt =====
-- `listOrders` of tec-commerce-service/src/modules/order/order.controller.ts and order.service.ts.
-- No validator stands in front of it: the page and the limit are any integers, and the buyer is
-- whom the query names.
use mathlib.Core.Option
use mathlib.Core.Path.{fun_ext}
mod Examples
use tec_core_backend.Base.{
  ℕ, zero, suc, ◌+◌, ◌-◌, ◌*◌, ◌/◌, ◌≤◌, ◌<◌, ◌≡◌, refl, ap, ◌∙◌, Bool, true, false, ◌&&◌, Option,
  none, some, List, arith, ltb, ◌==◌, length,
}
use tec_core_backend.Base.Lists.{take, drop}
use tec_core_backend.Base.Action.{
  ok, err, ◌>>=◌, ◌>>◌, Action, pure, or_throw, throw, throw_if, get,
}
use tec_core_backend.Base.Int.{ℤ, pos, negsuc, ◌-ℤ◌, ◌*ℤ◌, sub_ℕ, ltb_ℤ, eq_of_parts, int_laws}
use tec_core_backend.Base.Pages.{total_pages, lt-total_pages, page_of, read_on, read_on_all}
use tec_core_backend.Base.Table.{Table}
use tec_core_backend.Base.Table.Listing.{desc, Lists, Listing}
use tec_core_backend.Commerce.Types.{
  OrderStatus, pending, paid, processing, shipped, delivered, cancelled, refunded, Order, Product,
  at_order, Thrown, bad_request, db, Env, Tables, Act, attempt,
}

-- The query; a status is none where the text is the name of no status.
pub record OrdersQuery : Type 0 where
  pub buyer_id : Option ℕ
  pub page : Option ℤ
  pub limit : Option ℤ
  pub status : Option (Option OrderStatus)

pub record OrdersPage : Type 0 where
  pub orders : List (ℕ × Order)
  pub total : ℕ
  pub page : ℤ
  pub total_pages : ℤ
  pub has_more : Bool

-- `parseInt(text) || d`
abbrev pub integer_or : ℤ → Option ℤ → ℤ
integer_or d none = d
integer_or d (some (pos zero)) = d
integer_or d (some n) = n

abbrev has_status : OrderStatus → OrderStatus → Bool
has_status pending pending = true
has_status paid paid = true
has_status processing processing = true
has_status shipped shipped = true
has_status delivered delivered = true
has_status cancelled cancelled = true
has_status refunded refunded = true
has_status a b = false

-- The `where` clause.
unfoldable pub is_wanted : ℕ → Option OrderStatus → Order → Bool
is_wanted buyer none o = o.buyer_id == buyer
is_wanted buyer (some status) o = o.buyer_id == buyer && has_status o.status status

-- What a query asks for: an order of the buyer and, if a status is named, with that status.
abbrev place : OrderStatus → ℕ
place pending = 0
place paid = 1
place processing = 2
place shipped = 3
place delivered = 4
place cancelled = 5
place refunded = 6

abbrev pub is_asked : ℕ → Option OrderStatus → Order → Bool
is_asked buyer status o = elim status [
  | none ↦ o.buyer_id == buyer
  | some st ↦ o.buyer_id == buyer && place o.status == place st
]

has_status-place : (a b : OrderStatus) → has_status a b ≡ (place a == place b)
has_status-place a b = ground arith

is_wanted-is_asked :
    (buyer : ℕ) (status : Option OrderStatus) → is_wanted buyer status ≡ is_asked buyer status
unfolding is_wanted
is_wanted-is_asked buyer none = refl
is_wanted-is_asked buyer (some st) =
    ap (λ (t : Order → Bool). λ o. o.buyer_id == buyer && t o)
      (fun_ext (λ (o : Order). has_status-place o.status st))

-- `Math.ceil(total / limit)` for an integer.
unfoldable ceil_div : ℕ → ℤ → ℤ
ceil_div total (pos limit) = pos (total_pages total limit)
ceil_div total (negsuc n) = sub_ℕ 0 (total / suc n)

pos-mul : (a b : ℕ) → pos a *ℤ pos b ≡ pos (a * b)
unfolding ◌*ℤ◌
pos-mul a b = grind arith

skip_of : (p l : ℕ) → (pos (suc p) -ℤ pos 1) *ℤ pos l ≡ pos ((suc p - 1) * l)
skip_of p l =
    let before : pos (suc p) -ℤ pos 1 ≡ pos (suc p - 1) = eq_of_parts _ _ (omega int_laws) in
    rw before (pos-mul (suc p - 1) l)

module _ (O : Table Order) (P : Table Product) (L : Listing O Order.created_at) where
  open L use {in_order, find_page, find_back, count, in_order-Lists, find_page_law, count_law}

  -- Prisma throws on a negative `skip`.
  abbrev find_orders : (Order → Bool) → ℤ → ℤ → Act O P (List (ℕ × Order))
  find_orders p (negsuc n) limit s = throw db s
  find_orders p (pos skip) (pos limit) s = pure (find_page p desc skip limit s.orders) s
  find_orders p (pos skip) (negsuc n) s = pure (find_back p desc skip (suc n) s.orders) s

  abbrev pub asked_status : Option (Option OrderStatus) → Act O P (Option OrderStatus)
  asked_status none = pure none
  asked_status (some none) = throw db
  asked_status (some (some status)) = pure (some status)

  named_status :
      (status : Option OrderStatus) (s : Tables O P)
      → asked_status (Option.map some status) s ≡ (ok status, s)
  named_status none s = refl
  named_status (some st) s = refl

  -- `listOrders` of the service, and the test of the controller before it.
  unfoldable pub list_orders : Env (Tables O P) → OrdersQuery → Act O P OrdersPage
  unfolding is_wanted ceil_div
  list_orders env q = do
    buyer ← or_throw q.buyer_id bad_request
    let page = integer_or (pos 1) q.page
    let limit = integer_or (pos 10) q.limit
    status ← asked_status q.status
    attempt O P env at_order
    orders ← find_orders (is_wanted buyer status) ((page -ℤ pos 1) *ℤ limit) limit
    s ← get
    let total = count (is_wanted buyer status) s.orders
    pure (record {
      orders = orders;
      total = total;
      page = page;
      total_pages = ceil_div total limit;
      has_more = ltb_ℤ (page *ℤ limit) (pos total);
    })

  -- What a client makes of a reply: the orders, and whether another page follows.
  abbrev pub request_page :
      Env (Tables O P) → OrdersQuery → Tables O P → ℕ → Option (List (ℕ × Order) × Bool)
  request_page env q s page = elim (list_orders env (record q { page = some (pos page) }) s).0 [
    | ok r ↦ some (r.orders, r.has_more)
    | err e ↦ none
  ]

  module _ (env : Env (Tables O P)) (q : OrdersQuery) (s : Tables O P) (buyer n : ℕ)
      (status : Option OrderStatus) (named : q.buyer_id ≡ some buyer)
      (limited : integer_or (pos 10) q.limit ≡ pos (suc n))
      (filtered : q.status ≡ Option.map some status)
      (no_fault : env.has_fault at_order ≡ false) where
    asked : asked_status q.status s ≡ (ok status, s)
    asked = rw filtered (named_status status s)

    abbrev wanted : List (ℕ × Order)
    wanted = in_order (is_wanted buyer status) desc s.orders

    reply_of_page :
        (p : ℕ)
        → request_page env q s (suc p)
          ≡ some (
            find_page (is_wanted buyer status) desc ((suc p - 1) * suc n) (suc n) s.orders,
            ltb (suc p * suc n) (count (is_wanted buyer status) s.orders),
          )
    unfolding list_orders
    reply_of_page p =
        ground (arith, skip_of p (suc n), pos-mul (suc p) (suc n), named, limited, asked, no_fault)

    request_page-IsPaged :
        (page : ℕ)
        → 1 ≤ page
        → request_page env q s page
          ≡ some (page_of page (suc n) wanted, ltb (page * suc n) (length wanted))
    unfolding page_of
    request_page-IsPaged zero h = absurd (omega arith)
    request_page-IsPaged (suc p) h =
        reply_of_page p
        ∙ rw (
          find_page_law (is_wanted buyer status) desc ((suc p - 1) * suc n) (suc n) s.orders,
          count_law (is_wanted buyer status) desc s.orders,
        )

    -- For a query that names a buyer, and a status or none, with a limit that is missing, 0 or
    -- positive: a client that reads the pages from the first, for as long as the reply says that
    -- there are more, ends, and has read exactly the orders of the buyer (with the status), each
    -- once, the newest first, if the database answers.
    pub list_orders_read_all :
        (fuel : ℕ)
        → count (is_asked buyer status) s.orders < fuel
        → (orders : List (ℕ × Order)) × Lists O Order.created_at
            (is_asked buyer status)
            desc
            s.orders
            orders
          × (read_on (request_page env q s) fuel 1 ≡ some orders)
    list_orders_read_all fuel enough = (
      wanted,
      rw (← is_wanted-is_asked buyer status)
          (in_order-Lists (is_wanted buyer status) desc s.orders),
      read_on_all (request_page env q s) (suc n) wanted request_page-IsPaged fuel (omega arith) (
          rw (← count_law (is_wanted buyer status) desc s.orders, is_wanted-is_asked buyer status)
            enough),
    )
