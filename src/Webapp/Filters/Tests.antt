-- ===== src/Webapp/Filters/Tests.antt =====
-- Keys of concrete filters, the updater on them, and the theorems at them.
use theword_monorepo.Prelude.{◌≡◌, ◌≢◌, ◌⊎◌, refl, true, none, some, List, [], ◌∷◌, arith, map}
use theword_monorepo.Prelude.Int.{pos}
use theword_monorepo.Prelude.Table.{load}
use theword_monorepo.Webapp.Logs.{LogsState, FetchState, run, remove}
use theword_monorepo.Webapp.Filters.{
  Topic, any, one, one_of, EventFilter, filter_to_key, key_to_filter, keys_needing, update,
  use_logs, synced, error,
}
use theword_monorepo.Webapp.Filters.Keys.{normal, key_to_filter-filter_to_key}
use theword_monorepo.Webapp.Filters.Stable.{IsStable, filter_to_key-IsStable, no_topics_other_key}
use theword_monorepo.Webapp.Filters.Updates.{update_once}
use theword_monorepo.Webapp.Filters.Answers.{answer, use_logs-answer}

abbrev topics : List Topic
topics = one "0x7d" ∷ any ∷ one_of ("0x01" ∷ "0x02" ∷ []) ∷ []

abbrev proposals : EventFilter
proposals = record { address = some "0xd0"; topics = some topics }

a_key :
    filter_to_key (record {
      address = some "0xd0";
      topics = some (one "0x7d" ∷ one_of ("0x01" ∷ "0x02" ∷ []) ∷ []);
    })
    ≡ "0xd0:0x7d-0x01;0x02"
unfolding filter_to_key
a_key = refl

key_to_filter-filter_to_key_example :
    key_to_filter (filter_to_key proposals) ≡ some (normal proposals)
key_to_filter-filter_to_key_example = key_to_filter-filter_to_key proposals (ground arith)

proposals-IsStable : IsStable (filter_to_key proposals)
proposals-IsStable =
    filter_to_key-IsStable (some "0xd0") (one "0x7d") (any ∷ one_of ("0x01" ∷ "0x02" ∷ []) ∷ [])
      (ground arith) (omega arith)

no_topics_of_proposals :
    (g : EventFilter) × ((key_to_filter
          (filter_to_key (record { address = some "0xd0"; topics = none }))
        ≡ some g)
      × (filter_to_key g ≢ filter_to_key (record { address = some "0xd0"; topics = none })))
no_topics_of_proposals = no_topics_other_key (some "0xd0") (ground arith)

abbrev listened : FetchState
listened = record { listeners = pos 1; fetching_block_number = none; results = none }

abbrev store : LogsState
store = (filter_to_key proposals, listened) ∷ []

update_once_example :
    (t : LogsState) × ((filters : List EventFilter) × (((update true (some 9) store
            ≡ some (t, filters))
          × (map filter_to_key filters ≡ keys_needing 9 store))
        × (update true (some 9) t ≡ some (t, []))))
update_once_example = update_once 9 store (proposals-IsStable, tt)

load-store : load store (filter_to_key proposals) ≡ some listened
unfolding load filter_to_key
load-store = refl

use_logs-answer_example :
    ((use_logs
        (some proposals)
        (some 8)
        (run (remove "0xd1:" ∷ []) (answer (filter_to_key proposals) 9 none store))).state
      ≡ synced)
    ⊎ ((use_logs
          (some proposals)
          (some 8)
          (run (remove "0xd1:" ∷ []) (answer (filter_to_key proposals) 9 none store))).state
        ≡ error)
use_logs-answer_example =
    use_logs-answer proposals 8 9 none store listened (remove "0xd1:" ∷ []) load-store (omega arith)
      (omega arith)
