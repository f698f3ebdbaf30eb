-- ===== src/Webapp/Filters/Answers.antt =====
-- What a component sees of a filter once the logs that the updater asked for are answered.
use theword_monorepo.Prelude.{
  cons-ne-empty, ◌+s◌, ℕ, ◌≤◌, ◌≡◌, ◌≢◌, refl, ◌⊎◌, inl, inr, String, true, false, Option, none,
  some, List, arith, leb, ◌==◌, str_eq, Bool-cases, Option-cases,
}
use theword_monorepo.Prelude.Table.{load, load-save_self}
use theword_monorepo.Webapp.Logs.{
  Log, Results, FetchState, results_of, LogsState, is_newer, set_results, fetched_logs,
  fetched_logs_error, Action, run,
}
use theword_monorepo.Webapp.Logs.Monotone.{NotOlder, run-Advances, Advances}
use theword_monorepo.Webapp.Filters.{
  EventFilter, or_empty, topics_key, colon, filter_to_key, synced, error, show_results, use_logs,
}

-- The answer of the library: logs, or an error.
abbrev pub answer : String → ℕ → Option (List Log) → LogsState → LogsState
answer key block_number none s = fetched_logs_error key block_number s
answer key block_number (some logs) s = fetched_logs key block_number logs s

answer-results :
    (key : String) (r : Results) (s : LogsState) (f : FetchState)
    → load s key ≡ some f
    → NotOlder (some r) (results_of (load (set_results key r s) key))
unfolding set_results
answer-results key r s f h =
    rw (h, set_results)
      (elim (Bool-cases (is_newer f.results r.block_number)) [
        | inl newer ↦ rw (newer, h) (go f.results newer)
        | inr n ↦ rw (n, load-save_self s key (record f { results = some r })) (omega arith)
      ])
  where
    go : (o : Option Results) → is_newer o r.block_number ≡ true → NotOlder (some r) o
    go none e = cc
    go (some q) e = ground arith

answered :
    (key : String) (block_number : ℕ) (logs : Option (List Log)) (s : LogsState) (f : FetchState)
    → load s key ≡ some f
    → NotOlder
        (some (record { block_number = block_number; logs = logs }))
        (results_of (load (answer key block_number logs s) key))
unfolding fetched_logs fetched_logs_error
answered key block_number none s f h =
    answer-results key (record { block_number = block_number; logs = none }) s f h
answered key block_number (some logs) s f h =
    answer-results key (record { block_number = block_number; logs = some logs }) s f h

NotOlder-later :
    (r : Results) (o p : Option Results) → NotOlder (some r) o → NotOlder o p → NotOlder (some r) p
NotOlder-later r none p h k = absurd h
NotOlder-later r (some q) none h k = absurd k
NotOlder-later r (some q) (some t) h k = omega (arith, h, k)

key-ne-empty : (s t : String) → str_eq (s +s String.◌∷◌ colon t) "" ≡ false
key-ne-empty String.[] t = cons-ne-empty colon t
key-ne-empty (String.◌∷◌ c s) t = cons-ne-empty c (s +s String.◌∷◌ colon t)

show_results-recent :
    (block_number : ℕ) (r : Results) (o : Option Results)
    → block_number ≤ r.block_number
    → NotOlder (some r) o
    → ((show_results block_number o).state ≡ synced) ⊎ ((show_results block_number o).state ≡ error)
unfolding show_results
show_results-recent block_number r none b h = absurd h
show_results-recent block_number r (some q) b h = elim (Option-cases q.logs) [
  | inl failed ↦ inr (rw (failed, show_results) refl)
  | inr (logs, there) ↦
      let recent : leb block_number q.block_number ≡ true = ground arith in
      inl (rw (there, recent, show_results) refl)
]

-- When the library has answered for a filter that the store has, with the logs up to a block that is
-- not 0 or with an error, then whatever actions follow, a component that asks at this block or an
-- earlier one sees the filter as synced or failed, never as loading or syncing.
pub use_logs-answer :
    (f : EventFilter) (block_number asked : ℕ) (logs : Option (List Log)) (s : LogsState)
    (st : FetchState) (later : List Action)
    → load s (filter_to_key f) ≡ some st
    → block_number ≢ 0
    → block_number ≤ asked
    → ((use_logs
          (some f)
          (some block_number)
          (run later (answer (filter_to_key f) asked logs s))).state
        ≡ synced)
      ⊎ ((use_logs
            (some f)
            (some block_number)
            (run later (answer (filter_to_key f) asked logs s))).state
          ≡ error)
unfolding use_logs Advances
use_logs-answer f block_number asked logs s st later h z le =
    let key = filter_to_key f in
    let r : Results = record { block_number = asked; logs = logs } in
    let s1 = answer key asked logs s in
    let recent =
      NotOlder-later r (results_of (load s1 key)) (results_of (load (run later s1) key))
        (answered key asked logs s st h) (run-Advances later s1 key) in
    let nonempty : str_eq key "" ≡ false =
      unfold filter_to_key in key-ne-empty (or_empty f.address) (topics_key f.topics) in
    let nonzero : (block_number == 0) ≡ false = ground arith in
    rw (nonempty, nonzero) (show_results-recent block_number r _ le recent)
