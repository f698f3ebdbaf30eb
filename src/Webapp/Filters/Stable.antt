-- ===== src/Webapp/Filters/Stable.antt =====
-- Which keys the updater gives back: it makes a filter of each, and the reducers make a key of that.
use theword_monorepo.Prelude.{
  ◌+s◌, ℕ, suc, ◌+◌, ◌≡◌, ◌≢◌, refl, ap, ◌∙◌, String, Option, none, some, List, [], ◌∷◌, map, arith,
  All,
}
use theword_monorepo.Webapp.Filters.{
  Topic, any, one, one_of, EventFilter, colon, hyphen, null_text, join, topic_key, or_empty,
  topics_key, filter_to_key, address_of, key_to_filter,
}
use theword_monorepo.Webapp.Filters.Keys.{
  Lacks, IsPlainFilter, normal_topic, normal, key_to_filter-filter_to_key,
}

-- The updater gives the key back.
abbrev pub IsStable : String → Type 0
IsStable key = (g : EventFilter) × ((key_to_filter key ≡ some g) × (filter_to_key g ≡ key))

-- Not an array without texts, and not one of an empty text.
abbrev pub IsSteady : Topic → Type 0
IsSteady (one_of []) = ⊥
IsSteady (one_of (String.[] ∷ [])) = ⊥
IsSteady _ = Unit

topic_key-normal : (t : Topic) → IsSteady t → topic_key (normal_topic t) ≡ topic_key t
topic_key-normal any h = refl
topic_key-normal (one String.[]) h = refl
topic_key-normal (one (String.◌∷◌ c s)) h = refl
topic_key-normal (one_of []) h = absurd h
topic_key-normal (one_of (String.[] ∷ [])) h = absurd h
topic_key-normal (one_of (String.◌∷◌ c s ∷ [])) h = refl
topic_key-normal (one_of (s ∷ t ∷ texts)) h = refl

topic_keys-normal :
    (topics : List Topic)
    → All IsSteady topics
    → map topic_key (map normal_topic topics) ≡ map topic_key topics
topic_keys-normal [] h = refl
topic_keys-normal (t ∷ topics) (h, rest) = cc (topic_key-normal t h, topic_keys-normal topics rest)

or_empty-address_of : (s : String) → or_empty (address_of s) ≡ s
or_empty-address_of String.[] = refl
or_empty-address_of (String.◌∷◌ c s) = refl

-- The key of a filter is stable if no text of it has one of the characters `:`, `-` and `;`, and it has
-- a topic, none of them an array without texts or of one empty text.
pub filter_to_key-IsStable :
    (address : Option String) (t : Topic) (topics : List Topic)
    → IsPlainFilter (record { address = address; topics = some (t ∷ topics) })
    → All IsSteady (t ∷ topics)
    → IsStable (filter_to_key (record { address = address; topics = some (t ∷ topics) }))
unfolding filter_to_key
filter_to_key-IsStable address t topics p h =
    let f : EventFilter = record { address = address; topics = some (t ∷ topics) } in
    (
      normal f,
      (
        key_to_filter-filter_to_key f p,
        ap (λ (s : String). s +s String.◌∷◌ colon (topics_key (normal f).topics))
              (or_empty-address_of (or_empty address))
            ∙ ap (λ (texts : List String). or_empty address +s String.◌∷◌ colon (join hyphen texts))
                (topic_keys-normal (t ∷ topics) h),
      ),
    )

abbrev chars : String → ℕ
chars String.[] = 0
chars (String.◌∷◌ c s) = suc (chars s)

chars-append : (s t : String) → chars (s +s t) ≡ chars s + chars t
chars-append String.[] t = omega arith
chars-append (String.◌∷◌ c s) t = omega (arith, chars-append s t)

-- The key of a filter without topics is not stable: the filter that the updater makes of it has
-- another key, if no address has the character `:`.
pub no_topics_other_key :
    (address : Option String)
    → Lacks colon (or_empty address)
    → (g : EventFilter) × ((key_to_filter
            (filter_to_key (record { address = address; topics = none }))
          ≡ some g)
        × (filter_to_key g ≢ filter_to_key (record { address = address; topics = none })))
unfolding filter_to_key
no_topics_other_key address a =
    let f : EventFilter = record { address = address; topics = none } in
    (
      normal f,
      (
        key_to_filter-filter_to_key f (a, tt),
        λ e. omega (
          arith,
          ap chars e,
          chars-append (or_empty (address_of (or_empty address))) (String.◌∷◌ colon null_text),
          chars-append (or_empty address) (String.◌∷◌ colon ""),
          ap chars (or_empty-address_of (or_empty address)),
        ),
      ),
    )
