-- ===== src/Webapp/Logs.antt =====
-- logs.ts: the logs fetched for each filter. A filter stands in the actions as its key, which
-- `filterToKey` gives.
pub mod Monotone
use theword_monorepo.Prelude.{
  ℕ, String, Bool, true, false, Option, none, some, List, [], ◌∷◌, ltb, if◌then◌else◌,
}
use theword_monorepo.Prelude.Int.{ℤ, pos, ◌+ℤ◌, ◌-ℤ◌}
use theword_monorepo.Prelude.Table.{Table, load, save}

pub record Log : Type 0 where
  pub topics : List String
  pub transaction_hash : String
  pub payload : String

-- `logs = none` is the result with `error: true`.
pub record Results : Type 0 where
  pub block_number : ℕ
  pub logs : Option (List Log)

pub record FetchState : Type 0 where
  pub listeners : ℤ
  pub fetching_block_number : Option ℕ
  pub results : Option Results

-- The results of the state of a filter, if it has one.
abbrev pub results_of : Option FetchState → Option Results
results_of none = none
results_of (some f) = f.results

abbrev pub LogsState : Type 0
LogsState = Table FetchState

unfoldable pub add_listener : String → LogsState → LogsState
add_listener key s = elim (load s key) [
  | none ↦ save s key (record { listeners = pos 1; fetching_block_number = none; results = none })
  | some f ↦ save s key (record f { listeners = f.listeners +ℤ pos 1 })
]

unfoldable pub fetching_logs : List String → ℕ → LogsState → LogsState
fetching_logs [] block_number s = s
fetching_logs (key ∷ keys) block_number s = fetching_logs keys block_number (elim (load s key) [
  | none ↦ s
  | some f ↦ save s key (record f { fetching_block_number = some block_number })
])

-- `results && results.blockNumber > block_number`
abbrev pub is_newer : Option Results → ℕ → Bool
is_newer none block_number = false
is_newer (some r) block_number = ltb block_number r.block_number

-- `fetchedLogs` with `logs` and `fetchedLogsError` with `error: true`.
unfoldable pub set_results : String → Results → LogsState → LogsState
set_results key results s = elim (load s key) [
  | none ↦ s
  | some f ↦
      if is_newer f.results results.block_number
      then s
      else save s key (record f { results = some results })
]

unfoldable pub fetched_logs : String → ℕ → List Log → LogsState → LogsState
fetched_logs key block_number logs s =
    set_results key (record { block_number = block_number; logs = some logs }) s

unfoldable pub fetched_logs_error : String → ℕ → LogsState → LogsState
fetched_logs_error key block_number s =
    set_results key (record { block_number = block_number; logs = none }) s

unfoldable pub remove_listener : String → LogsState → LogsState
remove_listener key s = elim (load s key) [
  | none ↦ s
  | some f ↦ save s key (record f { listeners = f.listeners -ℤ pos 1 })
]

pub data Action : Type 0 where
  add : String → Action
  fetching : List String → ℕ → Action
  fetched : String → ℕ → List Log → Action
  failed : String → ℕ → Action
  remove : String → Action

unfoldable pub reduce : Action → LogsState → LogsState
reduce (add key) s = add_listener key s
reduce (fetching keys block_number) s = fetching_logs keys block_number s
reduce (fetched key block_number logs) s = fetched_logs key block_number logs s
reduce (failed key block_number) s = fetched_logs_error key block_number s
reduce (remove key) s = remove_listener key s

unfoldable pub run : List Action → LogsState → LogsState
run [] s = s
run (a ∷ actions) s = run actions (reduce a s)
