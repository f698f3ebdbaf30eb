-- ===== src/Webapp/Filters.antt =====
-- utils/logParsing.ts, state/updaters/logs.ts and hooks/useLogs.ts: the keys of log filters, the
-- updater that fetches the logs of each block, and what a component sees of them.
pub mod Keys
pub mod Stable
pub mod Updates
pub mod Answers
mod Tests
use Prim.Native.Char.{Char, code}
use theword_monorepo.Prelude.{
  ℕ, String, Bool, true, false, not, ◌&&◌, Option, none, some, List, [], ◌∷◌, map, leb, ◌==◌,
  if◌then◌else◌, str_eq, filter, ◌+s◌,
}
use theword_monorepo.Prelude.Int.{ℤ}
use theword_monorepo.Prelude.Table.{load}
use theword_monorepo.Webapp.Logs.{Log, Results, FetchState, results_of, LogsState, fetching_logs}

-- A topic of a filter: `null`, a text, or an array of texts.
pub data Topic : Type 0 where
  any : Topic
  one : String → Topic
  one_of : List String → Topic

pub record EventFilter : Type 0 where
  pub address : Option String
  pub topics : Option (List Topic)

-- `texts.join(separator)`, the separator a character.
abbrev pub join : Char → List String → String
join separator [] = ""
join separator (s ∷ []) = s
join separator (s ∷ t ∷ texts) = s +s String.◌∷◌ separator (join separator (t ∷ texts))

-- A character before the first piece.
abbrev pub prefix : Char → List String → List String
prefix c [] = []
prefix c (s ∷ pieces) = String.◌∷◌ c s ∷ pieces

-- `text.split(separator)`
abbrev pub split : Char → String → List String
split separator String.[] = "" ∷ []
split separator (String.◌∷◌ c s) =
    let rest = split separator s in if code c == code separator then "" ∷ rest else prefix c rest

abbrev pub colon : Char
colon = ":"

abbrev pub hyphen : Char
hyphen = "-"

abbrev pub semicolon : Char
semicolon = ";"

-- The text of the null character.
abbrev pub null_text : String
null_text = String.◌∷◌ "\0" ""

-- An empty text is falsy, as `null` is; an empty array is not.
abbrev pub topic_key : Topic → String
topic_key any = null_text
topic_key (one String.[]) = null_text
topic_key (one (String.◌∷◌ c s)) = String.◌∷◌ c s
topic_key (one_of topics) = join semicolon topics

abbrev pub or_empty : Option String → String
or_empty none = ""
or_empty (some s) = s

abbrev pub topics_key : Option (List Topic) → String
topics_key none = ""
topics_key (some topics) = join hyphen (map topic_key topics)

unfoldable pub filter_to_key : EventFilter → String
filter_to_key f = or_empty f.address +s String.◌∷◌ colon (topics_key f.topics)

abbrev pub topic_of : List String → Topic
topic_of (part ∷ []) = one part
topic_of parts = one_of parts

abbrev pub address_of : String → Option String
address_of String.[] = none
address_of (String.◌∷◌ c s) = some (String.◌∷◌ c s)

-- The filter of the pieces of a key; `none` is the exception where there is no second piece.
abbrev pub filter_of : List String → Option EventFilter
filter_of (address ∷ topics ∷ rest) = some (record {
  address = address_of address;
  topics = some (map (λ t. topic_of (split semicolon t)) (split hyphen topics));
})
filter_of _ = none

unfoldable pub key_to_filter : String → Option EventFilter
key_to_filter key = filter_of (split colon key)

-- `Object.keys(state)`
abbrev pub keys : LogsState → List String
keys [] = []
keys ((key, f) ∷ s) = key ∷ keys s

-- `typeof n === 'number' && n >= block_number`
abbrev pub reaches : Option ℕ → ℕ → Bool
reaches none block_number = false
reaches (some n) block_number = leb block_number n

abbrev pub results_block : Option Results → Option ℕ
results_block none = none
results_block (some r) = some r.block_number

abbrev pub is_zero : ℤ → Bool
is_zero (ℤ.pos n) = n == 0
is_zero (ℤ.negsuc n) = false

-- What the filter of the keys asks of the state of one.
unfoldable pub needs_fetch : ℕ → Option FetchState → Bool
needs_fetch block_number none = false
needs_fetch block_number (some f) =
    if is_zero f.listeners
    then false
    else if reaches f.fetching_block_number block_number
    then false
    else if reaches (results_block f.results) block_number
    then false
    else true

unfoldable pub keys_needing : ℕ → LogsState → List String
keys_needing block_number s = filter (λ key. needs_fetch block_number (load s key)) (keys s)

abbrev all_some : Option EventFilter → Option (List EventFilter) → Option (List EventFilter)
all_some (some f) (some filters) = some (f ∷ filters)
all_some _ _ = none

-- `keys.map(keyToFilter)`; `none` is an exception.
unfoldable pub filters_of : List String → Option (List EventFilter)
filters_of [] = some []
filters_of (key ∷ keys) = all_some (key_to_filter key) (filters_of keys)

unfoldable pub filters_need_fetch : Option ℕ → LogsState → Option (List EventFilter)
filters_need_fetch none s = some []
filters_need_fetch (some block_number) s = filters_of (keys_needing block_number s)

-- The effect of the updater: the state after it dispatched, and the filters whose logs it asked the
-- library for up to the block. `library` is whether there is one.
unfoldable pub update : Bool → Option ℕ → LogsState → Option (LogsState × List EventFilter)
update library none s = some (s, [])
update library (some block_number) s = elim (filters_need_fetch (some block_number) s) [
  | none ↦ none
  | some [] ↦ some (s, [])
  | some (f ∷ filters) ↦
      if library
      then some (fetching_logs (map filter_to_key (f ∷ filters)) block_number s, f ∷ filters)
      else some (s, [])
]

pub data LogsStatus : Type 0 where
  invalid : LogsStatus
  loading : LogsStatus
  syncing : LogsStatus
  error : LogsStatus
  synced : LogsStatus

pub record UseLogsResult : Type 0 where
  pub logs : Option (List Log)
  pub state : LogsStatus

-- What the hook gives for the results of the filter, at a block.
unfoldable pub show_results : ℕ → Option Results → UseLogsResult
show_results block_number none = record { logs = none; state = loading }
show_results block_number (some r) = elim r.logs [
  | none ↦ record { logs = none; state = error }
  | some logs ↦ record {
    logs = some logs;
    state = if leb block_number r.block_number then synced else syncing;
  }
]

-- The key is that of the filter, and block 0 counts as none.
unfoldable pub use_logs : Option EventFilter → Option ℕ → LogsState → UseLogsResult
use_logs none block_number s = record { logs = none; state = invalid }
use_logs (some f) none s = record { logs = none; state = invalid }
use_logs (some f) (some block_number) s =
    if str_eq (filter_to_key f) ""
    then record { logs = none; state = invalid }
    else if block_number == 0
    then record { logs = none; state = invalid }
    else show_results block_number (results_of (load s (filter_to_key f)))
