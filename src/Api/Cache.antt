-- ===== src/Api/Cache.antt =====
-- What was served stays served: the cache of the metadata.
use theword_monorepo.Prelude.{
  ◌+s◌, ◌+◌, ◌≡◌, refl, ◌∙◌, String, Bool, false, Option, none, some, List, [], ◌∷◌, ap, inl, inr,
  Bool-cases, Option-cases, str_eq, eq_iff,
}
use theword_monorepo.Prelude.Table.{load, save, load-save, load-save_self}
use theword_monorepo.Api.{
  TokenMetadata, World, thrown, undefined, metadata, get_metadata_key, cached_text, Services,
  IsJson, outcome_of, substring, store_metadata, fetch_metadata, get_token_metadata, serve,
}

module _ (is_token_id : String → Bool) (v : Services) where
  -- The requests for some tokens, one after the other.
  pub serve_all : List String → World → World
  serve_all [] w = w
  serve_all (id ∷ ids) w = serve_all ids (serve is_token_id v id w).0

  -- The cache has this text, which is not empty, under the key.
  abbrev pub Caches : String → String → World → Type 0
  Caches key text w = cached_text (load w.redis key) ≡ some text

  save-Caches :
      (key k text new : String) (w : World)
      → Caches key text w
      → str_eq k key ≡ false
      → Caches key text (record w { redis = save w.redis k new })
  save-Caches key k text new w h other = rw (load-save w.redis k key new, other) h

  store-Caches :
      (key k text : String) (d : TokenMetadata) (w : World)
      → Caches key text w
      → str_eq k key ≡ false
      → Caches key text (store_metadata v k d w).0
  unfolding store_metadata
  store-Caches key k text d w h other =
      elim (Option-cases (v.to_png (v.from_base64 (substring 26 d.image)))) [
        | inl e ↦ rw (e, store_metadata) h
        | inr (png, e) ↦ elim (Option-cases (v.store_blob w.calls png)) [
          | inl f ↦ rw (e, f, store_metadata) h
          | inr (cid, f) ↦
              rw (e, f, store_metadata)
                (save-Caches key k text _ (record w { stored = png ∷ w.stored }) h other)
        ]
      ]

  fetch-Caches :
      (key id k text : String) (w : World)
      → Caches key text w
      → str_eq k key ≡ false
      → Caches key text (fetch_metadata v id k w).0
  unfolding fetch_metadata
  fetch-Caches key id k text w h other = elim (Option-cases (v.data_uri w.calls id)) [
    | inl e ↦ rw (e, fetch_metadata) h
    | inr (uri, e) ↦ elim (Option-cases (v.parse (v.from_base64 (substring 29 uri)))) [
      | inl f ↦ rw (e, f, fetch_metadata) h
      | inr (d, f) ↦
          rw (e, f, fetch_metadata)
            (store-Caches key k text d (record w { calls = w.calls + 1 }) h other)
    ]
  ]

  get-Caches :
      (key id text : String) (w : World)
      → Caches key text w
      → Caches key text (get_token_metadata v id w).0
  unfolding get_token_metadata
  get-Caches key id text w h =
      let k = get_metadata_key id in
      elim (Option-cases (cached_text (load w.redis k))) [
        | inr (t, e) ↦ rw (e, get_token_metadata) h
        | inl e ↦ elim (Bool-cases (str_eq k key)) [
          | inr other ↦ rw (e, get_token_metadata) (fetch-Caches key id k text w h other)
          | inl same ↦
              let eq : k ≡ key = (eq_iff k key).0 same in
              let none_there : cached_text (load w.redis key) ≡ none = rw eq at e in absurd (cc)
        ]
      ]

  serve-Caches :
      (key id text : String) (w : World)
      → Caches key text w
      → Caches key text (serve is_token_id v id w).0
  unfolding serve
  serve-Caches key id text w h = elim (Bool-cases (is_token_id id)) [
    | inl valid ↦ rw (valid, serve) (get-Caches key id text w h)
    | inr bad ↦ rw (bad, serve) h
  ]

  serve_all-Caches :
      (key text : String) (ids : List String) (w : World)
      → Caches key text w
      → Caches key text (serve_all ids w)
  unfolding serve_all
  serve_all-Caches key text [] w h = h
  serve_all-Caches key text (id ∷ ids) w h =
      serve_all-Caches key text ids (serve is_token_id v id w).0 (serve-Caches key id text w h)

  -- The cache has a text of the metadata.
  abbrev Holds : String → TokenMetadata → World → Type 0
  Holds key m w = (text : String) × (Caches key text w × (v.parse text ≡ some m))

  saved-Caches :
      (json : IsJson v) (key : String) (m : TokenMetadata) (w : World)
      → Caches key (v.stringify m) (record w { redis = save w.redis key (v.stringify m) })
  saved-Caches json key m w = rw (load-save_self w.redis key (v.stringify m), json.nonempty m) refl

  store-Holds :
      (json : IsJson v) (key : String) (d m : TokenMetadata) (w : World)
      → (store_metadata v key d w).1 ≡ metadata m
      → Holds key m (store_metadata v key d w).0
  unfolding store_metadata
  store-Holds json key d m w h =
      elim (Option-cases (v.to_png (v.from_base64 (substring 26 d.image)))) [
        | inl e ↦ let wrong : thrown ≡ metadata m = rw (e, store_metadata) at h in absurd (cc)
        | inr (png, e) ↦ elim (Option-cases (v.store_blob w.calls png)) [
          | inl f ↦ let wrong : thrown ≡ metadata m = rw (e, f, store_metadata) at h in absurd (cc)
          | inr (cid, f) ↦
              let same = rw (e, f, store_metadata) at h in
              let made : TokenMetadata = record d { image = "ipfs://" +s cid } in
              let eq : made ≡ m = cc in
              (
                v.stringify made,
                (
                  rw (e, f, store_metadata)
                      (saved-Caches json key made (record w { stored = png ∷ w.stored })),
                  json.round_trip made ∙ ap some eq,
                ),
              )
        ]
      ]

  fetch-Holds :
      (json : IsJson v) (key id : String) (m : TokenMetadata) (w : World)
      → (fetch_metadata v id key w).1 ≡ metadata m
      → Holds key m (fetch_metadata v id key w).0
  unfolding fetch_metadata
  fetch-Holds json key id m w h = elim (Option-cases (v.data_uri w.calls id)) [
    | inl e ↦ let wrong : undefined ≡ metadata m = rw (e, fetch_metadata) at h in absurd (cc)
    | inr (uri, e) ↦ elim (Option-cases (v.parse (v.from_base64 (substring 29 uri)))) [
      | inl f ↦ let wrong : thrown ≡ metadata m = rw (e, f, fetch_metadata) at h in absurd (cc)
      | inr (d, f) ↦
          let w1 = record w { calls = w.calls + 1 } in
          let made : (store_metadata v key d w1).1 ≡ metadata m = rw (e, f, fetch_metadata) at h in
          let (text, (c, p)) = store-Holds json key d m w1 made in
          (text, (rw (e, f, fetch_metadata) c, p))
    ]
  ]

  outcome_of-metadata :
      (o : Option TokenMetadata) (m : TokenMetadata) → outcome_of v o ≡ metadata m → o ≡ some m
  outcome_of-metadata none m h = cc
  outcome_of-metadata (some d) m h = cc

  get-Holds :
      (json : IsJson v) (id : String) (m : TokenMetadata) (w : World)
      → (get_token_metadata v id w).1 ≡ metadata m
      → Holds (get_metadata_key id) m (get_token_metadata v id w).0
  unfolding get_token_metadata
  get-Holds json id m w h =
      let key = get_metadata_key id in
      elim (Option-cases (cached_text (load w.redis key))) [
        | inr (text, e) ↦
            let there : outcome_of v (v.parse text) ≡ metadata m =
              rw (e, get_token_metadata) at h in
            (text, (rw (e, get_token_metadata) e, outcome_of-metadata (v.parse text) m there))
        | inl e ↦
            let made : (fetch_metadata v id key w).1 ≡ metadata m =
              rw (e, get_token_metadata) at h in
            let (text, (c, p)) = fetch-Holds json key id m w made in
            (text, (rw (e, get_token_metadata) c, p))
      ]

  -- Once a request for a token has given its metadata, then after any requests for any tokens the same
  -- request gives the same metadata, and neither calls the contract nor changes anything else.
  pub get_token_metadata-again :
      (id : String) (m : TokenMetadata) (ids : List String) (w : World)
      → IsJson v
      → (get_token_metadata v id w).1 ≡ metadata m
      → get_token_metadata v id (serve_all ids (get_token_metadata v id w).0)
        ≡ (serve_all ids (get_token_metadata v id w).0, metadata m)
  unfolding get_token_metadata
  get_token_metadata-again id m ids w json h =
      let w1 = (get_token_metadata v id w).0 in
      let (text, (c, p)) = get-Holds json id m w h in
      let later = serve_all-Caches (get_metadata_key id) text ids w1 c in
      rw (later, p, get_token_metadata) refl
