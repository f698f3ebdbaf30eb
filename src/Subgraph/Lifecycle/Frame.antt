-- ===== src/Subgraph/Lifecycle/Frame.antt =====
-- The handlers of nouns-erc-721.ts leave offerings and proposals alone, those of nouns-dao.ts the
-- offerings, and those of nouns-auction-house.ts the proposals.
use theword_monorepo.Prelude.{
  ◌≡◌, refl, ◌∙◌, String, Bool, ◌||◌, Option, none, some, arith, inl, inr, Bool-cases, str_eq,
}
use theword_monorepo.Prelude.Int.{ℤ}
use theword_monorepo.Subgraph.Entities.{Account, Governance, Store, zero_address}
use theword_monorepo.Subgraph.Helpers.{
  account_of, delegate_of, proposal_of, vote_of, vote_of_snd, get_or_create_delegate_lookup,
}
use theword_monorepo.Subgraph.Dao.{log_unless_delegate}
use theword_monorepo.Subgraph.Token.{
  TheWordCreated, handle_the_word_created, DelegateChanged, handle_delegate_changed,
  DelegateVotesChanged, handle_delegate_votes_changed, Transfer, handle_transfer,
  release_from_delegate, has_left, has_joined, count_holders, burn_if, take_token, log_negative,
  save_governance_if, debit_holder, update_from_holder, update_to_holder,
}

-- Offerings and proposals are those of before.
pub record SameRecords (s t : Store) : Type 0 where
  pub offerings : t.offerings ≡ s.offerings
  pub proposals : t.proposals ≡ s.proposals

pub SameRecords-refl : (s : Store) → SameRecords s s
SameRecords-refl s = record { offerings = refl; proposals = refl }

pub SameRecords-trans : {s t u : Store} → SameRecords s t → SameRecords t u → SameRecords s u
SameRecords-trans a b = record {
  offerings = b.offerings ∙ a.offerings;
  proposals = b.proposals ∙ a.proposals;
}

module _ (id : String) (s : Store) where
  pub account_of-SameRecords : SameRecords s (account_of id s).1
  unfolding account_of
  account_of-SameRecords = record { offerings = ground arith; proposals = ground arith }

  pub delegate_of-SameRecords : SameRecords s (delegate_of id s).1
  unfolding delegate_of
  delegate_of-SameRecords = record { offerings = ground arith; proposals = ground arith }

  -- A proposal that is created is not saved at once.
  pub proposal_of-SameRecords : SameRecords s (proposal_of id s).1
  unfolding proposal_of
  proposal_of-SameRecords = record { offerings = ground arith; proposals = ground arith }

  pub vote_of-SameRecords : SameRecords s (vote_of id s).1
  vote_of-SameRecords = rw vote_of_snd (SameRecords-refl s)

  pub log_unless_delegate-SameRecords :
      (m hash : String) → SameRecords s (log_unless_delegate m id hash s)
  unfolding log_unless_delegate
  log_unless_delegate-SameRecords m hash = record {
    offerings = ground (arith, get_or_create_delegate_lookup id s);
    proposals = ground (arith, get_or_create_delegate_lookup id s);
  }

module _ (id : String) (s : Store) where
  release_from_delegate-SameRecords :
      (o : Option String) → SameRecords s (release_from_delegate id o s)
  unfolding release_from_delegate
  release_from_delegate-SameRecords none = SameRecords-refl s
  release_from_delegate-SameRecords (some d) =
      let h = delegate_of-SameRecords d s in
      record { offerings = h.offerings; proposals = h.proposals }

log_negative-SameRecords : (id : String) (b : ℤ) (s : Store) → SameRecords s (log_negative id b s)
unfolding log_negative
log_negative-SameRecords id b s = record { offerings = ground arith; proposals = ground arith }

save_governance_if-SameRecords :
    (b : Bool) (g : Governance) (s : Store) → SameRecords s (save_governance_if b g s)
save_governance_if-SameRecords b g s = record { offerings = ground arith; proposals = ground arith }

module _ (e : Transfer) (a : Account) (g : Governance) (s : Store) where
  debit_holder-SameRecords : SameRecords s (debit_holder e a g s).1
  unfolding debit_holder
  debit_holder-SameRecords =
      let r = SameRecords-trans (release_from_delegate-SameRecords e.token_id s a.delegate) (
        SameRecords-trans (log_negative-SameRecords a.id _ _)
          (save_governance_if-SameRecords _ _ _)) in
      record { offerings = r.offerings; proposals = r.proposals }

  update_from_holder-SameRecords : SameRecords s (update_from_holder e a g s).1
  unfolding update_from_holder
  update_from_holder-SameRecords = elim (Bool-cases (str_eq e.from zero_address)) [
    | inl minted ↦ rw minted (record { offerings = refl; proposals = refl })
    | inr other ↦ rw other debit_holder-SameRecords
  ]

  update_to_holder-SameRecords : SameRecords s (update_to_holder e a g s)
  unfolding update_to_holder
  update_to_holder-SameRecords =
      let r =
        SameRecords-trans (save_governance_if-SameRecords (str_eq e.to zero_address) _ s)
          (delegate_of-SameRecords a.id _) in
      let left = has_left a.token_balance_raw (take_token e.token_id a).token_balance_raw in
      let joined = has_joined a.token_balance_raw (take_token e.token_id a).token_balance_raw in
      let v =
        save_governance_if-SameRecords (left || joined)
          (count_holders left joined (burn_if (str_eq e.to zero_address) g)) _ in
      record { offerings = v.offerings ∙ r.offerings; proposals = v.proposals ∙ r.proposals }

module _ (s : Store) where
  pub handle_transfer-SameRecords : (e : Transfer) → SameRecords s (handle_transfer e s)
  unfolding handle_transfer
  handle_transfer-SameRecords e = SameRecords-trans (account_of-SameRecords e.from s) (
      SameRecords-trans (account_of-SameRecords e.to _) (
        SameRecords-trans (update_from_holder-SameRecords e _ _ _)
          (update_to_holder-SameRecords e _ _ _)))

  pub handle_the_word_created-SameRecords :
      (e : TheWordCreated) → SameRecords s (handle_the_word_created e s)
  unfolding handle_the_word_created
  handle_the_word_created-SameRecords e = record {
    offerings = ground arith;
    proposals = ground arith;
  }

  pub handle_delegate_changed-SameRecords :
      (e : DelegateChanged) → SameRecords s (handle_delegate_changed e s)
  unfolding handle_delegate_changed
  handle_delegate_changed-SameRecords e =
      let r = SameRecords-trans (account_of-SameRecords e.delegator s) (
        SameRecords-trans (delegate_of-SameRecords e.from_delegate _)
          (delegate_of-SameRecords e.to_delegate _)) in
      record { offerings = r.offerings; proposals = r.proposals }

  pub handle_delegate_votes_changed-SameRecords :
      (e : DelegateVotesChanged) → SameRecords s (handle_delegate_votes_changed e s)
  unfolding handle_delegate_votes_changed
  handle_delegate_votes_changed-SameRecords e =
      let r = delegate_of-SameRecords e.delegate s in
      record { offerings = r.offerings; proposals = r.proposals }
