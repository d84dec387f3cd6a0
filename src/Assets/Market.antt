-- ===== src/Assets/Market.antt =====
-- The operations of tec-asset-service/src/modules/marketplace/marketplace.service.ts and
-- `provisionAsset` of asset.service.ts. Each tests the rows first and writes in a transaction afterwards.
use tec_core_backend.Base.{ℕ, Bool, false, not, Option, none, some, ◌∷◌, ◌==◌, is_some}
use tec_core_backend.Base.Action.{
  ok, err, ◌>>=◌, ◌>>◌, pure, or_throw, throw_if, transaction, modify, get,
}
use tec_core_backend.Base.Int.{pos, ltb_ℤ}
use tec_core_backend.Base.Table.{Table}
use tec_core_backend.Assets.Types.{
  Asset, active, on_sale, AssetListing, cancelled, at_asset, at_slug, at_listing, at_payment,
  at_update_asset, at_create, at_history, at_update_listing, Thrown, bad_request, not_found,
  forbidden, conflict, internal, db, Env, CreateAssetDto, CreateListingDto, BuyListingDto,
  is_on_sale, is_locked, is_open, has_payment, has_transaction, has_slug, new_asset, new_listing,
  sold_listing, Tables, Act, attempt, interleave,
}

module _ (A : Table Asset) (L : Table AssetListing) where
  -- `asset.findUnique` and `assetListing.findUnique` by the primary key.
  abbrev find_asset : Env (Tables A L) → ℕ → Act A L (Option Asset)
  find_asset env id s = (attempt A L env at_asset >> pure (Table.find A id s.assets)) s

  abbrev find_listing : Env (Tables A L) → ℕ → Act A L (Option AssetListing)
  find_listing env id s = (attempt A L env at_listing >> pure (Table.find L id s.listings)) s

  -- `tx.asset.update`
  abbrev update_asset : Env (Tables A L) → ℕ → (Asset → Asset) → Act A L (Unit {0})
  update_asset env id change s =
      (do
        attempt A L env at_update_asset
        or_throw (Table.find A id s.assets) db
        modify (λ (t : Tables A L). record t { assets = Table.update A id change t.assets }))
        s

  -- `tx.assetListing.update`
  abbrev update_listing :
      Env (Tables A L) → ℕ → (AssetListing → AssetListing) → Act A L AssetListing
  update_listing env id change s =
      (do
        attempt A L env at_update_listing
        l ← or_throw (Table.find L id s.listings) db
        modify (λ (t : Tables A L). record t { listings = Table.update L id change t.listings })
        pure (change l))
        s

  -- `tx.assetHistory.create`
  abbrev log_owner : ℕ → ℕ → ℕ → Act A L (Unit {0})
  log_owner asset owner paid_by = modify (λ (t : Tables A L). record t {
    history =
        (record { asset_id = asset; to_owner_id = owner; transaction_id = paid_by }) ∷ t.history;
  })

  -- `findUnique` by the transaction, the slug or the payment.
  abbrev has_asset : (Asset → Bool) → Tables A L → Bool
  has_asset p s = is_some (Table.find_first A p s.assets)

  abbrev is_used : ℕ → Tables A L → Bool
  is_used payment s = is_some (Table.find_first L (has_payment payment) s.listings)

  -- The transaction of `provisionAsset`. The history is written by the call that creates the row.
  unfoldable pub create_asset : Env (Tables A L) → CreateAssetDto → Act A L ℕ
  create_asset env dto = transaction do
    attempt A L env at_asset
    s ← get
    throw_if (has_asset (has_transaction dto.transaction_id) s) conflict
    attempt A L env at_slug
    throw_if (has_asset (has_slug dto.slug) s) conflict
    attempt A L env at_create
    let (id, rows) = Table.create A (new_asset dto) s.assets
    modify (λ (t : Tables A L). record t { assets = rows })
    log_owner id dto.user_id dto.transaction_id
    pure id

  -- The `catch` of `provisionAsset`.
  abbrev as_conflict : Thrown → Thrown
  as_conflict conflict = conflict
  as_conflict e = internal

  -- `provisionAsset`
  unfoldable pub provision_asset : Env (Tables A L) → CreateAssetDto → Act A L ℕ
  provision_asset env dto s =
      let (r, s') = create_asset env dto s in
      elim r [ ok id ↦ (ok id, s') | err e ↦ (err (as_conflict e), s') ]

  -- The transaction of `createListing`.
  unfoldable pub list_asset : Env (Tables A L) → CreateListingDto → Act A L ℕ
  list_asset env dto = transaction do
    update_asset env dto.asset_id (λ (a : Asset). record a { status = on_sale })
    attempt A L env at_create
    s ← get
    let (id, rows) = Table.create L (new_listing dto) s.listings
    modify (λ (t : Tables A L). record t { listings = rows })
    pure id

  -- `createListing`
  unfoldable pub create_listing : Env (Tables A L) → CreateListingDto → Act A L ℕ
  create_listing env dto = do
    throw_if (not (ltb_ℤ (pos 0) dto.price)) bad_request
    a ← or_throw (← find_asset env dto.asset_id) not_found
    throw_if (not (a.owner_id == dto.seller_id)) forbidden
    throw_if (is_on_sale a.status) conflict
    throw_if (is_locked a.status) bad_request
    interleave A L env
    list_asset env dto

  -- The transaction of `cancelListing`.
  unfoldable pub withdraw_listing : Env (Tables A L) → ℕ → AssetListing → Act A L AssetListing
  withdraw_listing env id l = transaction do
    update_asset env l.asset_id (λ (a : Asset). record a { status = active })
    update_listing env id (λ (x : AssetListing). record x { status = cancelled })

  -- `cancelListing`
  unfoldable pub cancel_listing : Env (Tables A L) → ℕ → ℕ → Act A L AssetListing
  cancel_listing env id seller = do
    l ← or_throw (← find_listing env id) not_found
    throw_if (not (l.seller_id == seller)) forbidden
    throw_if (not (is_open l.status)) bad_request
    interleave A L env
    withdraw_listing env id l

  -- The payment of a listing is unique in the table.
  abbrev is_taken : ℕ → Option (ℕ × AssetListing) → Bool
  is_taken id none = false
  is_taken id (some e) = not (e.0 == id)

  -- The transaction of `buyListing`; `l` is the listing that was read.
  unfoldable pub transfer_asset :
      Env (Tables A L) → BuyListingDto → AssetListing → Act A L AssetListing
  transfer_asset env dto l = transaction do
    update_asset env l.asset_id
        (λ (a : Asset). record a { owner_id = dto.buyer_id; status = active })
    attempt A L env at_history
    log_owner l.asset_id dto.buyer_id dto.payment_id
    s ← get
    throw_if (is_taken dto.listing_id (Table.find_first L (has_payment dto.payment_id) s.listings))
        db
    update_listing env dto.listing_id (sold_listing env.now dto)

  -- `buyListing`
  unfoldable pub buy_listing : Env (Tables A L) → BuyListingDto → Act A L AssetListing
  buy_listing env dto = do
    l ← or_throw (← find_listing env dto.listing_id) not_found
    throw_if (not (is_open l.status)) bad_request
    throw_if (l.seller_id == dto.buyer_id) bad_request
    attempt A L env at_payment
    s ← get
    throw_if (is_used dto.payment_id s) conflict
    interleave A L env
    transfer_asset env dto l
