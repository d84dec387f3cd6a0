-- ===== src/Assets/Effects.antt =====
-- What the operations of the marketplace in tec-asset-service do to the tables when nothing runs between
-- their tests and their transactions.
use tec_core_backend.Base.{
  ℕ, Bool, true, false, not, ◌&&◌, Option, none, some, List, [], ◌∷◌, ◌==◌, ◌≡◌, sym, subst,
  is_some, ◌⊎◌, inl, inr, Option-cases, arith,
}
use tec_core_backend.Base.Table.{Table}
use tec_core_backend.Assets.Types.{
  Asset, active, on_sale, AssetListing, cancelled, Site, Env, CreateAssetDto, CreateListingDto,
  BuyListingDto, is_on_sale, is_open, new_asset, new_listing, sold_listing, Tables,
}
use tec_core_backend.Assets.Market.{
  provision_asset, create_asset, create_listing, list_asset, cancel_listing, withdraw_listing,
  buy_listing, transfer_asset,
}

pub data Request : Type 0 where
  provision_request : ℕ → (Site → Bool) → CreateAssetDto → Request
  list_request : ℕ → (Site → Bool) → CreateListingDto → Request
  cancel_request : ℕ → (Site → Bool) → ℕ → ℕ → Request
  buy_request : ℕ → (Site → Bool) → BuyListingDto → Request

module _ (A : Table Asset) (L : Table AssetListing) where
  -- The tables after the transactions.
  abbrev pub listed : CreateListingDto → Tables A L → Tables A L
  listed dto s = record s {
    assets = Table.update A dto.asset_id (λ (a : Asset). record a { status = on_sale }) s.assets;
    listings = (Table.create L (new_listing dto) s.listings).1;
  }

  abbrev pub closed :
      ℕ → ℕ → (Asset → Asset) → (AssetListing → AssetListing) → Tables A L → Tables A L
  closed asset id f g s = record s {
    assets = Table.update A asset f s.assets;
    listings = Table.update L id g s.listings;
  }

  abbrev pub provisioned : CreateAssetDto → Tables A L → Tables A L
  provisioned dto s = record s {
    assets = (Table.create A (new_asset dto) s.assets).1;
    history =
        (record {
          asset_id = (Table.create A (new_asset dto) s.assets).0;
          to_owner_id = dto.user_id;
          transaction_id = dto.transaction_id;
        })
        ∷ s.history;
  }

  abbrev pub withdrawn : ℕ → AssetListing → Tables A L → Tables A L
  withdrawn id l s =
      closed l.asset_id id (λ (a : Asset). record a { status = active })
        (λ (x : AssetListing). record x { status = cancelled }) s

  -- No other request runs in between.
  abbrev pub undisturbed : ℕ → (Site → Bool) → Env (Tables A L)
  undisturbed now has_fault = record {
    now = now;
    has_fault = has_fault;
    meanwhile = λ (s : Tables A L). s;
  }

  abbrev pub may_list : CreateListingDto → Option Asset → Bool
  may_list dto none = false
  may_list dto (some a) = a.owner_id == dto.seller_id && not (is_on_sale a.status)

  -- Each operation leaves the tables as they are, or as its transaction makes them.
  pub provision_asset-effect :
      (now : ℕ) (has_fault : Site → Bool) (dto : CreateAssetDto) (s : Tables A L)
      → ((provision_asset A L (undisturbed now has_fault) dto s).1 ≡ s)
        ⊎ ((provision_asset A L (undisturbed now has_fault) dto s).1 ≡ provisioned dto s)
  unfolding provision_asset create_asset
  provision_asset-effect now has_fault dto s = ground arith

  pub create_listing-effect :
      (now : ℕ) (has_fault : Site → Bool) (dto : CreateListingDto) (s : Tables A L)
      → ((create_listing A L (undisturbed now has_fault) dto s).1 ≡ s)
        ⊎ ((may_list dto (Table.find A dto.asset_id s.assets) ≡ true)
            × ((create_listing A L (undisturbed now has_fault) dto s).1 ≡ listed dto s))
  unfolding create_listing list_asset
  create_listing-effect now has_fault dto s = ground arith

  pub cancel_listing-effect :
      (now : ℕ) (has_fault : Site → Bool) (id seller : ℕ) (l : AssetListing) (s : Tables A L)
      → Table.find L id s.listings ≡ some l
      → ((cancel_listing A L (undisturbed now has_fault) id seller s).1 ≡ s)
        ⊎ ((is_open l.status ≡ true)
            × ((cancel_listing A L (undisturbed now has_fault) id seller s).1 ≡ withdrawn id l s))
  unfolding cancel_listing withdraw_listing
  cancel_listing-effect now has_fault id seller l s here = ground arith

  abbrev pub bought : ℕ → BuyListingDto → AssetListing → Tables A L → Tables A L
  bought now dto l s =
      record (closed l.asset_id dto.listing_id
        (λ (a : Asset). record a { owner_id = dto.buyer_id; status = active })
        (sold_listing now dto) s) {
          history =
              (record {
                asset_id = l.asset_id;
                to_owner_id = dto.buyer_id;
                transaction_id = dto.payment_id;
              })
              ∷ s.history;
        }

  pub buy_listing-effect :
      (now : ℕ) (has_fault : Site → Bool) (dto : BuyListingDto) (l : AssetListing) (s : Tables A L)
      → Table.find L dto.listing_id s.listings ≡ some l
      → ((buy_listing A L (undisturbed now has_fault) dto s).1 ≡ s)
        ⊎ ((is_open l.status ≡ true)
            × (is_some (Table.find A l.asset_id s.assets) ≡ true)
            × ((buy_listing A L (undisturbed now has_fault) dto s).1 ≡ bought now dto l s))
  unfolding buy_listing transfer_asset
  buy_listing-effect now has_fault dto l s here = ground arith

  pub cancel_absent :
      (now : ℕ) (has_fault : Site → Bool) (id seller : ℕ) (s : Tables A L)
      → Table.find L id s.listings ≡ none
      → (cancel_listing A L (undisturbed now has_fault) id seller s).1 ≡ s
  unfolding cancel_listing
  cancel_absent now has_fault id seller s here = ground arith

  pub buy_absent :
      (now : ℕ) (has_fault : Site → Bool) (dto : BuyListingDto) (s : Tables A L)
      → Table.find L dto.listing_id s.listings ≡ none
      → (buy_listing A L (undisturbed now has_fault) dto s).1 ≡ s
  unfolding buy_listing
  buy_absent now has_fault dto s here = ground arith

  -- Requests that run one after the other.
  unfoldable pub run_request : Request → Tables A L → Tables A L
  run_request (provision_request now fault dto) s =
      (provision_asset A L (undisturbed now fault) dto s).1
  run_request (list_request now fault dto) s = (create_listing A L (undisturbed now fault) dto s).1
  run_request (cancel_request now fault id seller) s =
      (cancel_listing A L (undisturbed now fault) id seller s).1
  run_request (buy_request now fault dto) s = (buy_listing A L (undisturbed now fault) dto s).1

  unfoldable pub run_requests : List Request → Tables A L → Tables A L
  run_requests [] s = s
  run_requests (q ∷ qs) s = run_requests qs (run_request q s)

  -- A property of the tables that the transactions keep is kept by every request.
  pub run_request-keeps :
      (P : Tables A L → Type 0) (q : Request) (s : Tables A L)
      → P s
      → ((dto : CreateAssetDto) → P (provisioned dto s))
      → ((dto : CreateListingDto) (a : Asset)
          → Table.find A dto.asset_id s.assets ≡ some a
          → may_list dto (some a) ≡ true
          → P (listed dto s))
      → ((id : ℕ) (l : AssetListing)
          → Table.find L id s.listings ≡ some l
          → is_open l.status ≡ true
          → P (withdrawn id l s))
      → ((now : ℕ) (dto : BuyListingDto) (l : AssetListing)
          → Table.find L dto.listing_id s.listings ≡ some l
          → is_open l.status ≡ true
          → is_some (Table.find A l.asset_id s.assets) ≡ true
          → P (bought now dto l s))
      → P (run_request q s)
  unfolding run_request
  run_request-keeps P (provision_request now fault dto) s same if_provisioned if_listed if_withdrawn
        if_bought =
      elim (provision_asset-effect now fault dto s) [
        | inl e ↦ subst P (sym e) same
        | inr e ↦ subst P (sym e) (if_provisioned dto)
      ]
  run_request-keeps P (list_request now fault dto) s same if_provisioned if_listed if_withdrawn
        if_bought =
      elim (create_listing-effect now fault dto s) [
        | inl e ↦ subst P (sym e) same
        | inr (may, e) ↦ elim (Option-cases (Table.find A dto.asset_id s.assets)) [
          | inl gone ↦ absurd (ground arith)
          | inr (a, here) ↦ subst P (sym e) (if_listed dto a here (ground arith))
        ]
      ]
  run_request-keeps P (cancel_request now fault id seller) s same if_provisioned if_listed
        if_withdrawn if_bought =
      elim (Option-cases (Table.find L id s.listings)) [
        | inl gone ↦ subst P (sym (cancel_absent now fault id seller s gone)) same
        | inr (l, here) ↦ elim (cancel_listing-effect now fault id seller l s here) [
          | inl e ↦ subst P (sym e) same
          | inr (live, e) ↦ subst P (sym e) (if_withdrawn id l here live)
        ]
      ]
  run_request-keeps P (buy_request now fault dto) s same if_provisioned if_listed if_withdrawn
        if_bought =
      elim (Option-cases (Table.find L dto.listing_id s.listings)) [
        | inl gone ↦ subst P (sym (buy_absent now fault dto s gone)) same
        | inr (l, here) ↦ elim (buy_listing-effect now fault dto l s here) [
          | inl e ↦ subst P (sym e) same
          | inr (live, there, e) ↦ subst P (sym e) (if_bought now dto l here live there)
        ]
      ]
