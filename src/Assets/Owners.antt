-- ===== src/Assets/Owners.antt =====
-- The owners of assets and their history in the asset service, after any requests that run one after
-- the other.

use tec_core_backend.Base.{
  ℕ, true, Option, none, some, List, [], ◌∷◌, ◌==◌, ◌≡◌, refl, if◌then◌else◌, is_some, arith, sym,
  ◌∙◌,
}
use tec_core_backend.Base.Table.{Table}
use tec_core_backend.Assets.Types.{
  Asset, active, on_sale, AssetHistory, AssetListing, CreateAssetDto, BuyListingDto, new_asset,
  Tables,
}
use tec_core_backend.Assets.Effects.{
  Request, run_request, run_requests, run_request-keeps, provisioned, bought,
}

-- The owner that the last entry of an asset names.
unfoldable pub last_owner : ℕ → List AssetHistory → Option ℕ
last_owner id [] = none
last_owner id (h ∷ hs) = if id == h.asset_id then some h.to_owner_id else last_owner id hs

abbrev pub owner_of : Option Asset → Option ℕ
owner_of none = none
owner_of (some a) = some a.owner_id

module _ (A : Table Asset) (L : Table AssetListing) where
  IsTraced : Tables A L → Type 0
  IsTraced s = (j : ℕ) → last_owner j s.history ≡ owner_of (Table.find A j s.assets)

  provisioned-IsTraced :
      (dto : CreateAssetDto) (s : Tables A L) → IsTraced s → IsTraced (provisioned A L dto s)
  unfolding IsTraced last_owner
  provisioned-IsTraced dto s h j =
      ground (arith, h j, Table.find-create A j (new_asset dto) s.assets)

  update-owner :
      (status_of : Asset → Asset) (j k : ℕ) (t : Table.Rows A)
      → ((a : Asset) → (status_of a).owner_id ≡ a.owner_id)
      → owner_of (Table.find A j (Table.update A k status_of t)) ≡ owner_of (Table.find A j t)
  update-owner status_of j k t h = grind (arith, Table.find-update A j k status_of t, h)

  bought-IsTraced :
      (now : ℕ) (dto : BuyListingDto) (l : AssetListing) (s : Tables A L)
      → is_some (Table.find A l.asset_id s.assets) ≡ true
      → IsTraced s
      → IsTraced (bought A L now dto l s)
  unfolding IsTraced last_owner
  bought-IsTraced now dto l s there h j = grind (
    arith,
    h j,
    Table.find-update A j l.asset_id
        (λ (a : Asset). record a { owner_id = dto.buyer_id; status = active }) s.assets,
  )

  run_request-IsTraced :
      (q : Request) (s : Tables A L) → IsTraced s → IsTraced (run_request A L q s)
  unfolding IsTraced
  run_request-IsTraced q s h =
      run_request-keeps A L IsTraced q s h (λ dto. provisioned-IsTraced dto s h)
        (λ dto a here may j.
          h j
          ∙ sym (
              update-owner (λ (x : Asset). record x { status = on_sale }) j dto.asset_id s.assets
                (λ x. refl)))
        (λ id l here live j.
          h j
          ∙ sym (
              update-owner (λ (x : Asset). record x { status = active }) j l.asset_id s.assets
                (λ x. refl)))
        (λ now dto l here live there. bought-IsTraced now dto l s there h)

  -- After any requests that run one after the other, whatever database calls fail, the last entry of
  -- the history of an asset names its owner, and there is one exactly if there is the asset,
  -- where that was so of all assets before.
  pub run_requests-owner :
      (qs : List Request) (s : Tables A L) (j : ℕ)
      → ((i : ℕ) → last_owner i s.history ≡ owner_of (Table.find A i s.assets))
      → last_owner j (run_requests A L qs s).history
        ≡ owner_of (Table.find A j (run_requests A L qs s).assets)
  unfolding run_requests IsTraced
  run_requests-owner [] s j h = h j
  run_requests-owner (q ∷ qs) s j h =
      run_requests-owner qs (run_request A L q s) j (run_request-IsTraced q s h)
