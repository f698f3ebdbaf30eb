-- ===== src/Subgraph/Tally/Parts.antt =====
-- The helpers that read and save entities move no votes.
use theword_monorepo.Prelude.{
  ◌≡◌, refl, String, arith, str_eq, eq_iff, inl, inr, Option-cases, Bool-cases,
}
use theword_monorepo.Prelude.Table.{load, load-save}
use theword_monorepo.Prelude.Totals.{total-save_same}
use theword_monorepo.Subgraph.Entities.{Delegate, Governance, Store, zero_address}
use theword_monorepo.Subgraph.Helpers.{
  account_of, delegate_of, proposal_of, delegate_of_found, delegate_of_missing, new_delegate,
  count_delegate, save_delegate, save_governance, proposal_of_found, proposal_of_missing,
}
use theword_monorepo.Subgraph.Tally.{
  votes_of, stored_votes, counted_votes, SameVotes, SameVotes-trans, SameVotes-of_eq,
}

pub SameVotes-refl : (s : Store) → SameVotes s s
SameVotes-refl s = record { tally = refl; counted = refl; stored = λ j. refl }

pub save_delegate-SameVotes :
    (s : Store) (d : Delegate) → stored_votes s d.id ≡ votes_of d → SameVotes s (save_delegate d s)
save_delegate-SameVotes s d h = record {
  tally = total-save_same votes_of s.delegates d.id d h;
  counted = refl;
  stored = λ j. ground (arith, load-save s.delegates d.id j d, eq_iff d.id j);
}

pub save_governance-SameVotes :
    (s : Store) (g : Governance)
    → g.delegated_votes_raw ≡ counted_votes s
    → SameVotes s (save_governance g s)
save_governance-SameVotes s g h = record { tally = refl; counted = h; stored = λ j. refl }

module _ (id : String) (s : Store) where
  count_delegate-SameVotes : SameVotes s (count_delegate id s)
  count_delegate-SameVotes = elim (Bool-cases (str_eq id zero_address)) [
    | inl zero ↦ rw zero (SameVotes-refl s)
    | inr other ↦ rw other (save_governance-SameVotes s _ refl)
  ]

  count_delegate_delegates : (count_delegate id s).delegates ≡ s.delegates
  count_delegate_delegates = ground arith

  pub delegate_of-SameVotes : SameVotes s (delegate_of id s).1
  delegate_of-SameVotes = elim (Option-cases (load s.delegates id)) [
    | inl missing ↦ rw (delegate_of_missing id s missing) (
        SameVotes-trans count_delegate-SameVotes (
          save_delegate-SameVotes (count_delegate id s) (new_delegate id)
            (rw (count_delegate_delegates, missing))))
    | inr (d, found) ↦ rw (delegate_of_found id s d found) (SameVotes-refl s)
  ]

  pub delegate_of_votes : stored_votes s id ≡ votes_of (delegate_of id s).0
  delegate_of_votes = elim (Option-cases (load s.delegates id)) [
    | inl missing ↦ rw (delegate_of_missing id s missing, missing)
    | inr (d, found) ↦ rw (delegate_of_found id s d found, found)
  ]

  pub account_of-SameVotes : SameVotes s (account_of id s).1
  unfolding account_of
  account_of-SameVotes = SameVotes-of_eq (ground arith) (ground arith)

  pub proposal_of-SameVotes : SameVotes s (proposal_of id s).1
  proposal_of-SameVotes = elim (Option-cases (load s.proposals id)) [
    | inl missing ↦
        rw (proposal_of_missing id s missing)
          (record { tally = refl; counted = refl; stored = λ j. refl })
    | inr (p, found) ↦ rw (proposal_of_found id s p found) (SameVotes-refl s)
  ]
