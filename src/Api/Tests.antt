-- ===== src/Api/Tests.antt =====
-- The API with concrete services, and the theorems at it.
use Prim.Native.Char.{code}
use theword_monorepo.Prelude.{
  ◌+s◌, cons-ne-empty, ◌==◌, ◌≡◌, refl, String, Bool, true, false, Option, none, some, [], ◌∷◌,
  str_eq, if◌then◌else◌,
}
use theword_monorepo.Prelude.Table.{load}
use theword_monorepo.Api.{
  TokenMetadata, World, metadata, Services, IsJson, get_token_metadata, fetch_metadata,
  store_metadata, connection, close, on_events,
}
use theword_monorepo.Api.Cache.{serve_all, get_token_metadata-again}
use theword_monorepo.Api.Connections.{contains, is_open_after, on_events-contains}

second_is_open :
    contains 2 (on_events (connection 1 ∷ connection 2 ∷ close 1 ∷ []) [])
    ≡ is_open_after 2 false (connection 1 ∷ connection 2 ∷ close 1 ∷ [])
second_is_open = on_events-contains 2 (connection 1 ∷ connection 2 ∷ close 1 ∷ [])

-- A text for metadata from which they come back: a mark before every character.
abbrev mark : String → String
mark String.[] = "0"
mark (String.◌∷◌ c s) = String.◌∷◌ "1" (String.◌∷◌ c (mark s))

abbrev unmark : String → Option (String × String)
unmark String.[] = none
unmark (String.◌∷◌ m String.[]) = if code m == 48 then some ("", "") else none
unmark (String.◌∷◌ m (String.◌∷◌ c s)) =
    let rest = unmark s in
    if code m == 48
    then some ("", String.◌∷◌ c s)
    else elim rest [ none ↦ none | some (t, r) ↦ some (String.◌∷◌ c t, r) ]

unmark-mark : (s rest : String) → unmark (mark s +s rest) ≡ some (s, rest)
unmark-mark String.[] String.[] = refl
unmark-mark String.[] (String.◌∷◌ c rest) = refl
unmark-mark (String.◌∷◌ c s) rest = rw (unmark-mark s rest) refl

abbrev stringify : TokenMetadata → String
stringify m = mark m.name +s mark m.description +s mark m.image +s ""

abbrev parse : String → Option TokenMetadata
parse text = elim (unmark text) [
  | none ↦ none
  | some (name, t) ↦ elim (unmark t) [
    | none ↦ none
    | some (description, u) ↦ elim (unmark u) [
      | none ↦ none
      | some (image, _) ↦ some (record { name = name; description = description; image = image })
    ]
  ]
]

parse-stringify : (m : TokenMetadata) → parse (stringify m) ≡ some m
parse-stringify m =
    rw
      (
        unmark-mark m.name (mark m.description +s mark m.image +s ""),
        unmark-mark m.description (mark m.image +s ""),
        unmark-mark m.image "",
        parse,
      )
      refl

abbrev a_token : TokenMetadata
a_token = record { name = "Word 7"; description = "A word"; image = "" }

-- The contract answers the first call only.
abbrev services : Services
services = record {
  data_uri = λ n token_id. if n == 0 then some "x" else none;
  from_base64 = λ text. stringify a_token;
  parse = parse;
  stringify = stringify;
  to_png = λ svg. some svg;
  store_blob = λ n png. some "bafy";
}

stringify_nonempty : (m : TokenMetadata) → str_eq (stringify m) "" ≡ false
stringify_nonempty m = named m.name (mark m.description +s mark m.image +s "")
  where
    named : (s t : String) → str_eq (mark s +s t) "" ≡ false
    named String.[] t = cons-ne-empty "0" t
    named (String.◌∷◌ c s) t = cons-ne-empty "1" (String.◌∷◌ c (mark s +s t))

services-IsJson : IsJson services
services-IsJson = record { round_trip = parse-stringify; nonempty = stringify_nonempty }

abbrev empty_world : World
empty_world = record { redis = []; calls = 0; stored = [] }

abbrev sent_token : TokenMetadata
sent_token = record a_token { image = "ipfs://bafy" }

abbrev all_ids : String → Bool
all_ids id = true

get_token_metadata-again_example :
    get_token_metadata services "7"
      (serve_all all_ids services ("8" ∷ "7" ∷ []) (get_token_metadata services "7" empty_world).0)
    ≡ (
      serve_all all_ids services ("8" ∷ "7" ∷ []) (get_token_metadata services "7" empty_world).0,
      metadata sent_token,
    )
unfolding get_token_metadata fetch_metadata store_metadata load
get_token_metadata-again_example =
    get_token_metadata-again all_ids services "7" sent_token ("8" ∷ "7" ∷ []) empty_world
      services-IsJson refl
