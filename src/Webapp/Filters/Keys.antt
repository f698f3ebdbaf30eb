-- ===== src/Webapp/Filters/Keys.antt =====
-- The filter that the key of a filter stands for.
use Prim.Native.Char.{Char, code}
use theword_monorepo.Prelude.{
  ◌+s◌, ◌≡◌, refl, ap, ◌∙◌, String, true, false, Option, none, some, List, [], ◌∷◌, map, arith,
  ◌==◌, All,
}
use theword_monorepo.Webapp.Filters.{
  Topic, any, one, one_of, EventFilter, join, split, colon, hyphen, semicolon, null_text, topic_key,
  or_empty, topics_key, filter_to_key, topic_of, address_of, key_to_filter,
}

-- The separator does not stand in the text.
abbrev pub Lacks : Char → String → Type 0
Lacks separator String.[] = Unit
Lacks separator (String.◌∷◌ c s) = ((code c == code separator) ≡ false) × Lacks separator s

split-append :
    (separator : Char) (s t : String)
    → Lacks separator s
    → split separator (s +s String.◌∷◌ separator t) ≡ s ∷ split separator t
split-append separator String.[] t h =
    let same : (code separator == code separator) ≡ true = ground arith in rw same refl
split-append separator (String.◌∷◌ c s) t (h, rest) = rw (h, split-append separator s t rest) refl

split-Lacks : (separator : Char) (s : String) → Lacks separator s → split separator s ≡ s ∷ []
split-Lacks separator String.[] h = refl
split-Lacks separator (String.◌∷◌ c s) (h, rest) = rw (h, split-Lacks separator s rest) refl

-- What the pieces of a joined list are.
abbrev pub pieces : List String → List String
pieces [] = "" ∷ []
pieces (s ∷ texts) = s ∷ texts

pub split-join :
    (separator : Char) (texts : List String)
    → All (Lacks separator) texts
    → split separator (join separator texts) ≡ pieces texts
split-join separator [] h = refl
split-join separator (s ∷ []) (h, rest) = split-Lacks separator s h
split-join separator (s ∷ t ∷ texts) (h, rest) =
    split-append separator s (join separator (t ∷ texts)) h
    ∙ ap (λ (l : List String). s ∷ l) (split-join separator (t ∷ texts) rest)

Lacks-append :
    (separator c : Char) (s t : String)
    → Lacks separator s
    → (code c == code separator) ≡ false
    → Lacks separator t
    → Lacks separator (s +s String.◌∷◌ c t)
Lacks-append separator c String.[] t h e k = (e, k)
Lacks-append separator c (String.◌∷◌ d s) t (h, rest) e k =
    (h, Lacks-append separator c s t rest e k)

Lacks-join :
    (separator c : Char) (texts : List String)
    → (code c == code separator) ≡ false
    → All (Lacks separator) texts
    → Lacks separator (join c texts)
Lacks-join separator c [] e h = tt
Lacks-join separator c (s ∷ []) e (h, rest) = h
Lacks-join separator c (s ∷ t ∷ texts) e (h, rest) =
    Lacks-append separator c s (join c (t ∷ texts)) h e (Lacks-join separator c (t ∷ texts) e rest)

-- A text without the characters that a key is made of.
abbrev pub IsPlain : String → Type 0
IsPlain s = Lacks colon s × Lacks hyphen s × Lacks semicolon s

abbrev pub IsPlainTopic : Topic → Type 0
IsPlainTopic any = Unit
IsPlainTopic (one s) = IsPlain s
IsPlainTopic (one_of topics) = All IsPlain topics

abbrev topics_or_none : Option (List Topic) → List Topic
topics_or_none none = []
topics_or_none (some topics) = topics

abbrev pub IsPlainFilter : EventFilter → Type 0
IsPlainFilter f = Lacks colon (or_empty f.address) × All IsPlainTopic (topics_or_none f.topics)

-- What is left of a topic: no `null`, and no array of fewer than two.
abbrev pub normal_topic : Topic → Topic
normal_topic any = one null_text
normal_topic (one String.[]) = one null_text
normal_topic (one (String.◌∷◌ c s)) = one (String.◌∷◌ c s)
normal_topic (one_of []) = one ""
normal_topic (one_of (s ∷ [])) = one s
normal_topic (one_of (s ∷ t ∷ texts)) = one_of (s ∷ t ∷ texts)

abbrev pub normal_topics : List Topic → List Topic
normal_topics [] = one "" ∷ []
normal_topics (t ∷ topics) = map normal_topic (t ∷ topics)

abbrev pub normal : EventFilter → EventFilter
normal f = record {
  address = address_of (or_empty f.address);
  topics = some (normal_topics (topics_or_none f.topics));
}

-- A part of what holds of every text.
All-part :
    {P Q : String → Type 0} (f : (s : String) → P s → Q s) (texts : List String)
    → All P texts
    → All Q texts
All-part f [] h = tt
All-part f (s ∷ texts) (h, rest) = (f s h, All-part f texts rest)

topic_of-pieces : (texts : List String) → topic_of (pieces texts) ≡ normal_topic (one_of texts)
topic_of-pieces [] = refl
topic_of-pieces (s ∷ []) = refl
topic_of-pieces (s ∷ t ∷ texts) = refl

topic_key-split :
    (t : Topic) → IsPlainTopic t → topic_of (split semicolon (topic_key t)) ≡ normal_topic t
topic_key-split any h = refl
topic_key-split (one String.[]) h = refl
topic_key-split (one (String.◌∷◌ c s)) (a, b, d) =
    ap topic_of (split-Lacks semicolon (String.◌∷◌ c s) d)
topic_key-split (one_of texts) h =
    ap topic_of (split-join semicolon texts (All-part (λ s p. p.2) texts h)) ∙ topic_of-pieces texts

topic_key-Lacks-colon : (t : Topic) → IsPlainTopic t → Lacks colon (topic_key t)
topic_key-Lacks-colon any h = (refl, tt)
topic_key-Lacks-colon (one String.[]) h = (refl, tt)
topic_key-Lacks-colon (one (String.◌∷◌ c s)) h = h.0
topic_key-Lacks-colon (one_of texts) h =
    Lacks-join colon semicolon texts refl (All-part (λ s p. p.0) texts h)

topic_key-Lacks-hyphen : (t : Topic) → IsPlainTopic t → Lacks hyphen (topic_key t)
topic_key-Lacks-hyphen any h = (refl, tt)
topic_key-Lacks-hyphen (one String.[]) h = (refl, tt)
topic_key-Lacks-hyphen (one (String.◌∷◌ c s)) h = h.1
topic_key-Lacks-hyphen (one_of texts) h =
    Lacks-join hyphen semicolon texts refl (All-part (λ s p. p.1) texts h)

keys-Lack :
    (topics : List Topic)
    → All IsPlainTopic topics
    → All (Lacks colon) (map topic_key topics) × All (Lacks hyphen) (map topic_key topics)
keys-Lack [] h = (tt, tt)
keys-Lack (t ∷ topics) (h, rest) =
    let (a, b) = keys-Lack topics rest in
    ((topic_key-Lacks-colon t h, a), (topic_key-Lacks-hyphen t h, b))

abbrev topic_from : String → Topic
topic_from s = topic_of (split semicolon s)

topics_from :
    (topics : List Topic)
    → All IsPlainTopic topics
    → map topic_from (map topic_key topics) ≡ map normal_topic topics
topics_from [] h = refl
topics_from (t ∷ topics) (h, rest) = cc (topic_key-split t h, topics_from topics rest)

topics_from_pieces :
    (topics : List Topic)
    → All IsPlainTopic topics
    → map topic_from (pieces (map topic_key topics)) ≡ normal_topics topics
topics_from_pieces [] h = refl
topics_from_pieces (t ∷ topics) h = topics_from (t ∷ topics) h

topics_key-join :
    (o : Option (List Topic)) → topics_key o ≡ join hyphen (map topic_key (topics_or_none o))
topics_key-join none = refl
topics_key-join (some topics) = refl

-- If no text of a filter has one of the characters `:`, `-` and `;`, the filter of its key is the
-- filter with its address, if that is not empty, and its topics, where `null` and the empty text have
-- become the text of the null character, an array of one text that text, the empty array the empty
-- text, and no topics one empty topic.
pub key_to_filter-filter_to_key :
    (f : EventFilter) → IsPlainFilter f → key_to_filter (filter_to_key f) ≡ some (normal f)
unfolding key_to_filter filter_to_key
key_to_filter-filter_to_key f (a, h) =
    let topics = topics_or_none f.topics in
    let (c, d) = keys-Lack topics h in
    let after : Lacks colon (topics_key f.topics) =
      rw (topics_key-join f.topics) (Lacks-join colon hyphen (map topic_key topics) refl c) in
    let cut : split hyphen (topics_key f.topics) ≡ pieces (map topic_key topics) =
      rw (topics_key-join f.topics) (split-join hyphen (map topic_key topics) d) in
    rw
      (
        split-append colon (or_empty f.address) (topics_key f.topics) a,
        split-Lacks colon (topics_key f.topics) after,
        cut,
        topics_from_pieces topics h,
      )
      refl
