-- ===== src/Assets/Types.antt =====
-- The tables of tec-asset-service/prisma/schema.prisma and what a request of that service meets. Ids
-- and slugs are numbers, since they are only compared. Titles, metadata and descriptions are left out.
use tec_core_backend.Base.{ℕ, Bool, true, false, Option, none, some, List, ◌==◌}
use tec_core_backend.Base.Action.{Action, throw_if, modify}
use tec_core_backend.Base.Int.{ℤ}
use tec_core_backend.Base.Table.{Table}

pub data AssetStatus : Type 0 where
  active pending locked on_sale : AssetStatus

pub data ListingStatus : Type 0 where
  active_listing sold cancelled expired : ListingStatus

pub record Asset : Type 0 where
  pub transaction_id : ℕ
  pub owner_id : ℕ
  pub slug : ℕ
  pub status : AssetStatus

pub record AssetHistory : Type 0 where
  pub asset_id : ℕ
  pub to_owner_id : ℕ
  pub transaction_id : ℕ

pub record AssetListing : Type 0 where
  pub asset_id : ℕ
  pub seller_id : ℕ
  pub price : ℤ
  pub status : ListingStatus
  pub payment_id : Option ℕ
  pub buyer_id : Option ℕ
  pub sold_at : Option ℕ

-- The history has the newest entry first.
pub record State (A L : Type 0) : Type 0 where
  pub assets : A
  pub listings : L
  pub history : List AssetHistory

pub data Site : Type 0 where
  at_asset at_slug at_listing at_payment at_update_asset at_create at_history at_update_listing :
      Site

pub data Thrown : Type 0 where
  bad_request not_found forbidden conflict internal db : Thrown

-- The clock, the database calls that throw, and what other requests do between the tests of an
-- operation and its transaction.
pub record Env (S : Type 0) : Type 0 where
  pub now : ℕ
  pub has_fault : Site → Bool
  pub meanwhile : S → S

pub record CreateAssetDto : Type 0 where
  pub transaction_id : ℕ
  pub user_id : ℕ
  pub slug : ℕ

pub record CreateListingDto : Type 0 where
  pub asset_id : ℕ
  pub seller_id : ℕ
  pub price : ℤ

pub record BuyListingDto : Type 0 where
  pub listing_id : ℕ
  pub buyer_id : ℕ
  pub payment_id : ℕ

abbrev pub is_on_sale : AssetStatus → Bool
is_on_sale on_sale = true
is_on_sale s = false

abbrev pub is_locked : AssetStatus → Bool
is_locked locked = true
is_locked s = false

abbrev pub is_open : ListingStatus → Bool
is_open active_listing = true
is_open s = false

-- `where: { paymentId }`
abbrev pub has_payment : ℕ → AssetListing → Bool
has_payment payment l = elim l.payment_id [ none ↦ false | some p ↦ p == payment ]

abbrev pub has_transaction : ℕ → Asset → Bool
has_transaction id a = a.transaction_id == id

abbrev pub has_slug : ℕ → Asset → Bool
has_slug slug a = a.slug == slug

abbrev pub new_asset : CreateAssetDto → Asset
new_asset dto = record {
  transaction_id = dto.transaction_id;
  owner_id = dto.user_id;
  slug = dto.slug;
  status = active;
}

abbrev pub new_listing : CreateListingDto → AssetListing
new_listing dto = record {
  asset_id = dto.asset_id;
  seller_id = dto.seller_id;
  price = dto.price;
  status = active_listing;
  payment_id = none;
  buyer_id = none;
  sold_at = none;
}

abbrev pub sold_listing : ℕ → BuyListingDto → AssetListing → AssetListing
sold_listing now dto l = record l {
  status = sold;
  buyer_id = some dto.buyer_id;
  payment_id = some dto.payment_id;
  sold_at = some now;
}

module _ (A : Table Asset) (L : Table AssetListing) where
  abbrev pub Tables : Type 0
  Tables = State (Table.Rows A) (Table.Rows L)

  abbrev pub Act : Type 0 → Type 0
  Act R = Action Tables Thrown R

  abbrev pub attempt : Env Tables → Site → Act (Unit {0})
  attempt env site = throw_if (env.has_fault site) db

  abbrev pub interleave : Env Tables → Act (Unit {0})
  interleave env = modify env.meanwhile
