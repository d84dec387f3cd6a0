-- ===== src/Assets/Race.antt =====
-- Two buyers of one listing in tec-asset-service/src/modules/marketplace/marketplace.service.ts, where
-- one request runs between the tests of the other and its transaction.
use tec_core_backend.Base.{ℕ, Bool, false, some, ◌≡◌}
use tec_core_backend.Base.Action.{Result, ok}
use tec_core_backend.Base.Table.{Table}
use tec_core_backend.Assets.Types.{
  Asset, Thrown, active, AssetListing, Site, Env, BuyListingDto, sold_listing, Tables,
}
use tec_core_backend.Assets.Market.{buy_listing}

module _ (A : Table Asset) (L : Table AssetListing) where
  abbrev pub works : Site → Bool
  works site = false

  -- A request in an environment without faults, with another one in between.
  abbrev pub overtaken : ℕ → (Tables A L → Tables A L) → Env (Tables A L)
  overtaken now other = record { now = now; has_fault = works; meanwhile = other }

  -- What the two buyers are told, and what is left.
  abbrev pub IsSoldTwice : ℕ → ℕ → ℕ → ℕ → ℕ → ℕ → AssetListing → Asset → Tables A L → Type 0
  IsSoldTwice now id b c p q l a s =
      let first : BuyListingDto = record { listing_id = id; buyer_id = b; payment_id = p } in
      let second : BuyListingDto = record { listing_id = id; buyer_id = c; payment_id = q } in
      let between : Tables A L → Result Thrown AssetListing × Tables A L =
        buy_listing A L (overtaken now (λ (x : Tables A L). x)) second in
      let (told, final) =
        buy_listing A L (overtaken now (λ (x : Tables A L). (between x).1)) first s in
      ((between s).0 ≡ ok (sold_listing now second l))
      × (told ≡ ok (sold_listing now first l))
      × (Table.find A l.asset_id final.assets ≡ some (record a { owner_id = b; status = active }))
      × (Table.find L id final.listings ≡ some (sold_listing now first l))
