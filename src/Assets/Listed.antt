-- ===== src/Assets/Listed.antt =====
-- What is listed on the marketplace of the asset service, after any requests that run one after the
-- other.
use tec_core_backend.Base.{
  ℕ, Bool, true, false, not, ◌&&◌, ◌||◌, Option, none, some, List, [], ◌∷◌, ◌==◌, ◌≡◌, refl, arith,
}
use tec_core_backend.Base.Table.{Table}
use tec_core_backend.Assets.Types.{
  Asset, active, on_sale, AssetListing, cancelled, CreateAssetDto, CreateListingDto, is_on_sale,
  is_open, new_asset, new_listing, sold_listing, Tables,
}
use tec_core_backend.Assets.Effects.{
  Request, listed, closed, provisioned, run_request, run_requests, run_request-keeps,
}

abbrev pub is_sold_by : ℕ → Option Asset → Bool
is_sold_by seller none = false
is_sold_by seller (some a) = is_on_sale a.status && a.owner_id == seller

-- An open listing is of an asset on sale, which its seller owns.
abbrev pub is_backed : (ℕ → Option Asset) → Option AssetListing → Bool
is_backed f none = true
is_backed f (some l) = not (is_open l.status) || is_sold_by l.seller_id (f l.asset_id)

-- No two listings are open for one asset.
abbrev pub are_apart : ℕ → ℕ → Option AssetListing → Option AssetListing → Bool
are_apart j k none m = true
are_apart j k (some l) none = true
are_apart j k (some l) (some m) =
    j == k || not (is_open l.status && (is_open m.status && l.asset_id == m.asset_id))

module _ (A : Table Asset) (L : Table AssetListing) where
  abbrev backed : ℕ → Tables A L → Bool
  backed j s = is_backed (λ i. Table.find A i s.assets) (Table.find L j s.listings)

  abbrev apart : ℕ → ℕ → Tables A L → Bool
  apart j k s = are_apart j k (Table.find L j s.listings) (Table.find L k s.listings)

  listed-backed :
      (dto : CreateListingDto) (a : Asset) (j : ℕ) (s : Tables A L)
      → Table.find A dto.asset_id s.assets ≡ some a
      → (a.owner_id == dto.seller_id) ≡ true
      → is_on_sale a.status ≡ false
      → backed j s ≡ true
      → backed j (listed A L dto s) ≡ true
  listed-backed dto a j s here mine off h = grind (
    arith,
    Table.find-create L j (new_listing dto) s.listings,
    (λ (i : ℕ).
        Table.find-update A i dto.asset_id (λ (x : Asset). record x { status = on_sale }) s.assets),
  )

  listed-apart :
      (dto : CreateListingDto) (a : Asset) (j k : ℕ) (s : Tables A L)
      → Table.find A dto.asset_id s.assets ≡ some a
      → is_on_sale a.status ≡ false
      → backed j s ≡ true
      → backed k s ≡ true
      → apart j k s ≡ true
      → apart j k (listed A L dto s) ≡ true
  listed-apart dto a j k s here off hj hk h = grind (
    arith,
    Table.find-create L j (new_listing dto) s.listings,
    Table.find-create L k (new_listing dto) s.listings,
  )

  closed-backed :
      (id : ℕ) (f : Asset → Asset) (g : AssetListing → AssetListing) (l : AssetListing) (j : ℕ)
      (s : Tables A L)
      → Table.find L id s.listings ≡ some l
      → is_open l.status ≡ true
      → is_open (g l).status ≡ false
      → backed j s ≡ true
      → apart id j s ≡ true
      → backed j (closed A L l.asset_id id f g s) ≡ true
  closed-backed id f g l j s here live shut h others = grind (
    arith,
    Table.find-update L j id g s.listings,
    (λ (i : ℕ). Table.find-update A i l.asset_id f s.assets),
  )

  closed-apart :
      (asset id : ℕ) (f : Asset → Asset) (g : AssetListing → AssetListing) (l : AssetListing)
      (j k : ℕ) (s : Tables A L)
      → Table.find L id s.listings ≡ some l
      → is_open (g l).status ≡ false
      → apart j k s ≡ true
      → apart j k (closed A L asset id f g s) ≡ true
  closed-apart asset id f g l j k s here shut h =
      grind (arith, Table.find-update L j id g s.listings, Table.find-update L k id g s.listings)

  provisioned-backed :
      (dto : CreateAssetDto) (j : ℕ) (s : Tables A L)
      → backed j s ≡ true
      → backed j (provisioned A L dto s) ≡ true
  provisioned-backed dto j s h = grind (
    arith,
    Table.create_fresh A (new_asset dto) s.assets,
    (λ (i : ℕ). Table.find-create A i (new_asset dto) s.assets),
  )

  -- The invariant.
  IsConsistent : Tables A L → Type 0
  IsConsistent s = (j k : ℕ) → (backed j s ≡ true) × (apart j k s ≡ true)

  run_request-IsConsistent :
      (q : Request) (s : Tables A L) → IsConsistent s → IsConsistent (run_request A L q s)
  unfolding IsConsistent
  run_request-IsConsistent q s h =
      run_request-keeps A L IsConsistent q s h
        (λ dto j k. (provisioned-backed dto j s (h j k).0, (h j k).1))
        (λ dto a here may j k. (
          listed-backed dto a j s here (ground arith) (ground arith) (h j k).0,
          listed-apart dto a j k s here (ground arith) (h j k).0 (h k k).0 (h j k).1,
        ))
        (λ id l here live j k. (
          closed-backed id (λ (a : Asset). record a { status = active })
              (λ (x : AssetListing). record x { status = cancelled }) l j s here live refl (h j k).0
              (h id j).1,
          closed-apart l.asset_id id (λ (a : Asset). record a { status = active })
              (λ (x : AssetListing). record x { status = cancelled }) l j k s here refl (h j k).1,
        ))
        (λ now dto l here live there j k. (
          closed-backed dto.listing_id
              (λ (a : Asset). record a { owner_id = dto.buyer_id; status = active })
              (sold_listing now dto) l j s here live refl (h j k).0 (h dto.listing_id j).1,
          closed-apart l.asset_id dto.listing_id
              (λ (a : Asset). record a { owner_id = dto.buyer_id; status = active })
              (sold_listing now dto) l j k s here refl (h j k).1,
        ))

  run_requests-IsConsistent :
      (qs : List Request) (s : Tables A L) → IsConsistent s → IsConsistent (run_requests A L qs s)
  unfolding run_requests
  run_requests-IsConsistent [] s h = h
  run_requests-IsConsistent (q ∷ qs) s h =
      run_requests-IsConsistent qs (run_request A L q s) (run_request-IsConsistent q s h)

  -- After any requests that run one after the other, whatever database calls fail, from tables without
  -- listings: the asset of an open listing is on sale and belongs to the seller, and no other
  -- listing of that asset is open.
  pub run_requests-backed :
      (qs : List Request) (j k : ℕ) (s : Tables A L)
      → ((i : ℕ) → Table.find L i s.listings ≡ none)
      → (is_backed
            (λ i. Table.find A i (run_requests A L qs s).assets)
            (Table.find L j (run_requests A L qs s).listings)
          ≡ true)
        × (are_apart j k
              (Table.find L j (run_requests A L qs s).listings)
              (Table.find L k (run_requests A L qs s).listings)
            ≡ true)
  unfolding IsConsistent
  run_requests-backed qs j k s empty =
      run_requests-IsConsistent qs s (λ i m. ground (arith, empty i)) j k
