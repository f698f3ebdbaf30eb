-- ===== src/Api.antt =====
-- packages/theword-api/src: the metadata of tokens with their cache (utils.ts), the route that serves
-- them (api.ts), and the connections of the server (server.ts). The contract, the decoding of base64,
-- JSON, the image library and the storage are parameters.
pub mod Cache
pub mod Connections
mod Tests
use theword_monorepo.Prelude.{
  ℕ, zero, suc, ◌+◌, ◌≡◌, String, Bool, true, false, not, Option, none, some, List, [], ◌∷◌, ◌==◌,
  if◌then◌else◌, str_eq, filter, ◌+s◌,
}
use theword_monorepo.Prelude.Table.{Table, load, save}

pub record TokenMetadata : Type 0 where
  pub name : String
  pub description : String
  pub image : String

-- The texts in Redis, the number of calls of the contract, and the images that were handed to the
-- storage, the newest first.
pub record World : Type 0 where
  pub redis : Table String
  pub calls : ℕ
  pub stored : List String

-- What a promise becomes.
pub data Outcome : Type 0 where
  thrown : Outcome
  undefined : Outcome
  metadata : TokenMetadata → Outcome

abbrev pub get_metadata_key : String → String
get_metadata_key token_id = "metadata_" +s token_id

-- `text.substring(n)`
abbrev pub substring : ℕ → String → String
substring n String.[] = ""
substring zero (String.◌∷◌ c s) = String.◌∷◌ c s
substring (suc n) (String.◌∷◌ c s) = substring n s

-- A text that is missing or empty is falsy.
abbrev pub cached_text : Option String → Option String
cached_text none = none
cached_text (some text) = if str_eq text "" then none else some text

-- What the code uses of other libraries: the answer of the contract to its n-th call, which may be an
-- error; `Buffer` for base64; `JSON`; `sharp`, from an SVG to a PNG; and the id that a stored image
-- gets. `none` is an exception.
pub record Services : Type 0 where
  pub data_uri : ℕ → String → Option String
  pub from_base64 : String → String
  pub parse : String → Option TokenMetadata
  pub stringify : TokenMetadata → String
  pub to_png : String → Option String
  pub store_blob : ℕ → String → Option String

-- What is documented of JSON: a value comes back from its text, which is not empty.
pub record IsJson (v : Services) : Type 0 where
  pub round_trip : (m : TokenMetadata) → v.parse (v.stringify m) ≡ some m
  pub nonempty : (m : TokenMetadata) → str_eq (v.stringify m) "" ≡ false

module _ (v : Services) where
  abbrev pub outcome_of : Option TokenMetadata → Outcome
  outcome_of none = thrown
  outcome_of (some m) = metadata m

  -- From the image to the metadata, which are put into the cache.
  unfoldable pub store_metadata : String → TokenMetadata → World → World × Outcome
  store_metadata key d w = elim (v.to_png (v.from_base64 (substring 26 d.image))) [
    | none ↦ (w, thrown)
    | some png ↦
        let w1 = record w { stored = png ∷ w.stored } in
        elim (v.store_blob w.calls png) [
          | none ↦ (w1, thrown)
          | some image_cid ↦
              let m : TokenMetadata = record {
                name = d.name;
                description = d.description;
                image = "ipfs://" +s image_cid;
              } in
              (record w1 { redis = save w1.redis key (v.stringify m) }, metadata m)
        ]
  ]

  unfoldable pub fetch_metadata : String → String → World → World × Outcome
  fetch_metadata token_id key w =
      let w1 = record w { calls = w.calls + 1 } in
      elim (v.data_uri w.calls token_id) [
        | none ↦ (w1, undefined)
        | some uri ↦ elim (v.parse (v.from_base64 (substring 29 uri))) [
          | none ↦ (w1, thrown)
          | some d ↦ store_metadata key d w1
        ]
      ]

  unfoldable pub get_token_metadata : String → World → World × Outcome
  get_token_metadata token_id w =
      let key = get_metadata_key token_id in
      elim (cached_text (load w.redis key)) [
        | some text ↦ (w, outcome_of (v.parse text))
        | none ↦ fetch_metadata token_id key w
      ]

-- A response; `no_response` is the rejected promise of a handler, which Express leaves without one.
pub data Response : Type 0 where
  bad_request : Response
  server_error : Response
  sent : TokenMetadata → Response
  no_response : Response

abbrev pub respond : Outcome → Response
respond thrown = no_response
respond undefined = server_error
respond (metadata m) = sent m

-- The route `/metadata/:tokenId`; the validator, an integer from 0 to 1000, is a parameter.
unfoldable pub serve : (String → Bool) → Services → String → World → World × Response
serve is_token_id v token_id w =
    if is_token_id token_id
    then (let (w', outcome) = get_token_metadata v token_id w in (w', respond outcome))
    else (w, bad_request)

-- The connections of the server, by their identity; the newest is last.
pub data SocketEvent : Type 0 where
  connection : ℕ → SocketEvent
  close : ℕ → SocketEvent

abbrev pub push : List ℕ → ℕ → List ℕ
push [] c = c ∷ []
push (d ∷ connections) c = d ∷ push connections c

unfoldable pub on_event : SocketEvent → List ℕ → List ℕ
on_event (connection c) connections = push connections c
on_event (close c) connections = filter (λ curr. not (curr == c)) connections

unfoldable pub on_events : List SocketEvent → List ℕ → List ℕ
on_events [] connections = connections
on_events (e ∷ events) connections = on_events events (on_event e connections)
