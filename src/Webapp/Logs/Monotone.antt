-- ===== src/Webapp/Logs/Monotone.antt =====
-- The results of a filter only move to later blocks.
use theword_monorepo.Prelude.{
  ℕ, ◌≤◌, ◌≡◌, String, false, Option, none, some, List, [], ◌∷◌, arith, inl, inr, Bool-cases,
  Option-cases, eq_iff, str_eq,
}
use theword_monorepo.Prelude.Table.{load, save, load-save}
use theword_monorepo.Webapp.Logs.{
  Results, FetchState, results_of, LogsState, add_listener, fetching_logs, is_newer, set_results,
  fetched_logs, fetched_logs_error, remove_listener, Action, add, fetching, fetched, failed, remove,
  reduce, run,
}

-- The second results are there if the first are, and are not older.
abbrev pub NotOlder : Option Results → Option Results → Type 0
NotOlder none o = Unit
NotOlder (some r) none = ⊥
NotOlder (some r) (some q) = r.block_number ≤ q.block_number

NotOlder-refl : (o : Option Results) → NotOlder o o
NotOlder-refl none = tt
NotOlder-refl (some r) = omega arith

NotOlder-trans : (o p q : Option Results) → NotOlder o p → NotOlder p q → NotOlder o q
NotOlder-trans none p q h k = tt
NotOlder-trans (some r) none q h k = absurd h
NotOlder-trans (some r) (some t) none h k = absurd k
NotOlder-trans (some r) (some t) (some u) h k = omega (arith, h, k)

-- Every filter of `s` is in `t`, with results that are not older.
unfoldable pub Advances : LogsState → LogsState → Type 0
Advances s t = (key : String) → NotOlder (results_of (load s key)) (results_of (load t key))

Advances-refl : (s : LogsState) → Advances s s
unfolding Advances
Advances-refl s key = NotOlder-refl _

Advances-trans : (s t u : LogsState) → Advances s t → Advances t u → Advances s u
unfolding Advances
Advances-trans s t u h k key = NotOlder-trans _ _ _ (h key) (k key)

save-Advances :
    (s : LogsState) (key : String) (f : FetchState)
    → NotOlder (results_of (load s key)) f.results
    → Advances s (save s key f)
unfolding Advances
save-Advances s key f h j = elim (Bool-cases (str_eq key j)) [
  | inl same ↦ let e : key ≡ j = (eq_iff key j).0 same in rw (load-save s key j f, same) (rw⁻¹ e h)
  | inr other ↦ rw (load-save s key j f, other) (NotOlder-refl _)
]

add_listener-Advances : (key : String) (s : LogsState) → Advances s (add_listener key s)
unfolding add_listener
add_listener-Advances key s = elim (Option-cases (load s key)) [
  | inl h ↦ rw (h, add_listener) (save-Advances s key _ (rw h tt))
  | inr (f, h) ↦ rw (h, add_listener) (save-Advances s key _ (rw h (NotOlder-refl f.results)))
]

remove_listener-Advances : (key : String) (s : LogsState) → Advances s (remove_listener key s)
unfolding remove_listener
remove_listener-Advances key s = elim (Option-cases (load s key)) [
  | inl h ↦ rw (h, remove_listener) (Advances-refl s)
  | inr (f, h) ↦ rw (h, remove_listener) (save-Advances s key _ (rw h (NotOlder-refl f.results)))
]

fetching_logs-Advances :
    (keys : List String) (block_number : ℕ) (s : LogsState)
    → Advances s (fetching_logs keys block_number s)
unfolding fetching_logs
fetching_logs-Advances [] block_number s = Advances-refl s
fetching_logs-Advances (key ∷ keys) block_number s = elim (Option-cases (load s key)) [
  | inl h ↦ rw h (fetching_logs-Advances keys block_number s)
  | inr (f, h) ↦ rw h (
      Advances-trans s _ _ (save-Advances s key _ (rw h (NotOlder-refl f.results)))
        (fetching_logs-Advances keys block_number _))
]

is_newer-NotOlder :
    (o : Option Results) (r : Results) → is_newer o r.block_number ≡ false → NotOlder o (some r)
is_newer-NotOlder none r h = tt
is_newer-NotOlder (some q) r h = ground arith

set_results-Advances :
    (key : String) (r : Results) (s : LogsState) → Advances s (set_results key r s)
unfolding set_results
set_results-Advances key r s = elim (Option-cases (load s key)) [
  | inl h ↦ rw (h, set_results) (Advances-refl s)
  | inr (f, h) ↦
      rw (h, set_results)
        (elim (Bool-cases (is_newer f.results r.block_number)) [
          | inl newer ↦ rw newer (Advances-refl s)
          | inr n ↦ rw n (save-Advances s key _ (rw h (is_newer-NotOlder f.results r n)))
        ])
]

reduce-Advances : (a : Action) (s : LogsState) → Advances s (reduce a s)
unfolding reduce fetched_logs fetched_logs_error
reduce-Advances (add key) s = add_listener-Advances key s
reduce-Advances (fetching keys block_number) s = fetching_logs-Advances keys block_number s
reduce-Advances (fetched key block_number logs) s = set_results-Advances key _ s
reduce-Advances (failed key block_number) s = set_results-Advances key _ s
reduce-Advances (remove key) s = remove_listener-Advances key s

-- Over any sequence of actions, fetches that arrive in any order and errors included, a filter that
-- has results keeps having results, and their block number never decreases.
pub run-Advances : (actions : List Action) (s : LogsState) → Advances s (run actions s)
unfolding run
run-Advances [] s = Advances-refl s
run-Advances (a ∷ actions) s =
    Advances-trans s (reduce a s) _ (reduce-Advances a s) (run-Advances actions (reduce a s))
