-- ===== src/Subgraph/Tally.antt =====
-- The votes that the store attributes to the delegates, and the sum that the governance entity
-- keeps of them.
pub mod Parts
pub mod Handlers
pub mod Transfers
pub mod Invariant
use theword_monorepo.Prelude.{◌≡◌, refl, sym, ap, ◌∙◌, String}
use theword_monorepo.Prelude.Int.{ℤ}
use theword_monorepo.Prelude.Table.{load}
use theword_monorepo.Prelude.Totals.{total, share}
use theword_monorepo.Subgraph.Entities.{Delegate, Store}
use theword_monorepo.Subgraph.Helpers.{get_governance_entity}

abbrev pub votes_of : Delegate → ℤ
votes_of d = d.delegated_votes_raw

abbrev pub tally : Store → ℤ
tally s = total votes_of s.delegates

-- A delegate that the store does not know has no votes.
abbrev pub stored_votes : Store → String → ℤ
stored_votes s id = share votes_of (load s.delegates id)

abbrev pub counted_votes : Store → ℤ
counted_votes s = (get_governance_entity s).delegated_votes_raw

-- The step from `s` to `t` moves no votes.
pub record SameVotes (s t : Store) : Type 0 where
  pub tally : tally t ≡ tally s
  pub counted : counted_votes t ≡ counted_votes s
  pub stored : (j : String) → stored_votes t j ≡ stored_votes s j

pub SameVotes-trans : {s t u : Store} → SameVotes s t → SameVotes t u → SameVotes s u
SameVotes-trans a b = record {
  tally = b.tally ∙ a.tally;
  counted = b.counted ∙ a.counted;
  stored = λ j. b.stored j ∙ a.stored j;
}

pub SameVotes-of_eq :
    {s t : Store} → t.delegates ≡ s.delegates → t.governance ≡ s.governance → SameVotes s t
SameVotes-of_eq d g = record { tally = rw d; counted = rw g; stored = λ j. rw d }
