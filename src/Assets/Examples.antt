-- ===== src/Assets/Examples.antt =====
-- Tests of the marketplace on one asset, and the theorems at those inputs.
use tec_core_backend.Base.{Bool, true, false, some, List, [], ◌∷◌, ◌≡◌, refl}
use tec_core_backend.Base.Action.{err}
use tec_core_backend.Base.Int.{pos}
use tec_core_backend.Base.Table.{Table}
use tec_core_backend.Base.Table.Rows.{rows}
use tec_core_backend.Assets.Types.{
  Asset, AssetListing, conflict, Site, at_create, CreateAssetDto, CreateListingDto, BuyListingDto,
  new_asset, new_listing, Tables, on_sale,
}
use tec_core_backend.Assets.Market.{
  create_asset, provision_asset, list_asset, create_listing, withdraw_listing, cancel_listing,
  transfer_asset, buy_listing,
}
use tec_core_backend.Assets.Effects.{
  Request, provision_request, list_request, cancel_request, buy_request, undisturbed, run_request,
  run_requests,
}
use tec_core_backend.Assets.Listed.{is_backed, are_apart, run_requests-backed}
use tec_core_backend.Assets.Owners.{last_owner, owner_of, run_requests-owner}

abbrev assets : Table Asset
assets = rows

abbrev listings : Table AssetListing
listings = rows

abbrev start : Tables assets listings
start = record { assets = []; listings = []; history = [] }

abbrev works : Site → Bool
works site = false

abbrev creates_nothing : Site → Bool
creates_nothing at_create = true
creates_nothing site = false

abbrev domain : CreateAssetDto
domain = record { transaction_id = 1000; user_id = 5; slug = 42 }

abbrev offer : CreateListingDto
offer = record { asset_id = 0; seller_id = 5; price = pos 900 }

abbrev purchase : BuyListingDto
purchase = record { listing_id = 0; buyer_id = 6; payment_id = 2000 }

-- The first attempt to list the asset fails in its transaction; the second seller is no owner any more.
abbrev requests : List Request
requests =
    provision_request 1 works domain
    ∷ list_request 2 creates_nothing offer
    ∷ list_request 3 works offer
    ∷ cancel_request 4 works 0 7
    ∷ buy_request 5 works purchase
    ∷ list_request 6 works offer
    ∷ []

abbrev final : Tables assets listings
final = run_requests assets listings requests start

new_owner : owner_of (Table.find assets 0 final.assets) ≡ some 6
unfolding run_requests run_request create_asset provision_asset list_asset create_listing
    withdraw_listing cancel_listing transfer_asset buy_listing
new_owner = refl

slug_taken :
    (provision_asset assets listings
      (undisturbed assets listings 9 works)
      (record domain { transaction_id = 1001 })
      final).0
    ≡ err conflict
unfolding run_requests run_request create_asset provision_asset list_asset create_listing
    withdraw_listing cancel_listing transfer_asset buy_listing
slug_taken = refl

run_requests-backed_example :
    (is_backed
        (λ i. Table.find assets i (run_requests assets listings requests start).assets)
        (Table.find listings 0 (run_requests assets listings requests start).listings)
      ≡ true)
    × (are_apart 0 0
          (Table.find listings 0 (run_requests assets listings requests start).listings)
          (Table.find listings 0 (run_requests assets listings requests start).listings)
        ≡ true)
run_requests-backed_example = run_requests-backed assets listings requests 0 0 start (λ i. refl)

run_requests-owner_example :
    last_owner 0 (run_requests assets listings requests start).history
    ≡ owner_of (Table.find assets 0 (run_requests assets listings requests start).assets)
unfolding last_owner
run_requests-owner_example = run_requests-owner assets listings requests start 0 (λ i. refl)

abbrev on_offer : Tables assets listings
on_offer = record {
  assets = (0, record (new_asset domain) { status = on_sale }) ∷ [];
  listings = (0, new_listing offer) ∷ [];
  history = [];
}
