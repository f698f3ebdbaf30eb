-- ===== src/Subgraph/Consistent.antt =====
-- The invariant of the indexed store, and that the helpers of utils/helpers.ts keep it.
use theword_monorepo.Prelude.{◌≡◌, refl, String, List, str_eq, Option-cases, Bool-cases, inl, inr}
use theword_monorepo.Prelude.Table.{load, save, Entries, Entries-nil, Entries-save}
use theword_monorepo.Subgraph.Entities.{
  Account, Delegate, Proposal, Governance, Offering, Vote, Seed, TheWord, Bid, Store, empty,
  zero_address, log_error,
}
use theword_monorepo.Subgraph.Helpers.{
  account_of, delegate_of, proposal_of, get_governance_entity, save_account, save_proposal,
  save_vote, save_delegate, save_governance, new_account, new_delegate, count_delegate,
  account_of_found, account_of_missing, delegate_of_found, delegate_of_missing, proposal_of_found,
  proposal_of_missing,
}

-- An account stands under its id, and its plain balances equal the raw ones.
pub record IsAccount (k : String) (a : Account) : Type 0 where
  pub id : a.id ≡ k
  pub balance : a.token_balance ≡ a.token_balance_raw
  pub held : a.total_tokens_held ≡ a.total_tokens_held_raw

pub record IsDelegate (k : String) (d : Delegate) : Type 0 where
  pub id : d.id ≡ k
  pub votes : d.delegated_votes ≡ d.delegated_votes_raw

abbrev pub IsProposal : String → Proposal → Type 0
IsProposal k p = p.id ≡ k

abbrev pub IsOffering : String → Offering → Type 0
IsOffering k o = o.id ≡ k

abbrev pub IsTheWord : String → TheWord → Type 0
IsTheWord k t = t.id ≡ k

abbrev pub IsGovernance : Governance → Type 0
IsGovernance g = g.delegated_votes ≡ g.delegated_votes_raw

pub record IsConsistent (s : Store) : Type 0 where
  pub accounts : Entries IsAccount s.accounts
  pub delegates : Entries IsDelegate s.delegates
  pub proposals : Entries IsProposal s.proposals
  pub offerings : Entries IsOffering s.offerings
  pub thewords : Entries IsTheWord s.thewords
  pub governance : IsGovernance (get_governance_entity s)

pub IsConsistent-empty : IsConsistent empty
IsConsistent-empty = record {
  accounts = Entries-nil IsAccount;
  delegates = Entries-nil IsDelegate;
  proposals = Entries-nil IsProposal;
  offerings = Entries-nil IsOffering;
  thewords = Entries-nil IsTheWord;
  governance = refl;
}

pub new_account-IsAccount : (id : String) → IsAccount id (new_account id)
new_account-IsAccount id = record { id = refl; balance = refl; held = refl }

pub new_delegate-IsDelegate : (id : String) → IsDelegate id (new_delegate id)
new_delegate-IsDelegate id = record { id = refl; votes = refl }

module _ {s : Store} (h : IsConsistent s) where
  pub save_account-IsConsistent : {a : Account} → IsAccount a.id a → IsConsistent (save_account a s)
  save_account-IsConsistent p = record {
    accounts = Entries-save IsAccount s.accounts h.accounts p;
    delegates = h.delegates;
    proposals = h.proposals;
    offerings = h.offerings;
    thewords = h.thewords;
    governance = h.governance;
  }

  pub save_delegate-IsConsistent :
      {d : Delegate} → IsDelegate d.id d → IsConsistent (save_delegate d s)
  save_delegate-IsConsistent p = record {
    accounts = h.accounts;
    delegates = Entries-save IsDelegate s.delegates h.delegates p;
    proposals = h.proposals;
    offerings = h.offerings;
    thewords = h.thewords;
    governance = h.governance;
  }

  pub save_governance-IsConsistent :
      {g : Governance} → IsGovernance g → IsConsistent (save_governance g s)
  save_governance-IsConsistent p = record {
    accounts = h.accounts;
    delegates = h.delegates;
    proposals = h.proposals;
    offerings = h.offerings;
    thewords = h.thewords;
    governance = p;
  }

  pub account_of-keeps :
      (id : String) → IsAccount id (account_of id s).0 × IsConsistent (account_of id s).1
  account_of-keeps id = elim (Option-cases (load s.accounts id)) [
    | inl missing ↦
        rw (account_of_missing id s missing)
          (new_account-IsAccount id, save_account-IsConsistent (new_account-IsAccount id))
    | inr (a, found) ↦ rw (account_of_found id s a found) (h.accounts id a found, h)
  ]

  count_delegate-IsConsistent : (id : String) → IsConsistent (count_delegate id s)
  count_delegate-IsConsistent id = elim (Bool-cases (str_eq id zero_address)) [
    | inl zero ↦ rw zero h
    | inr other ↦ rw other (save_governance-IsConsistent h.governance)
  ]

module _ {s : Store} (h : IsConsistent s) where
  pub log_error-IsConsistent : (m : String) (l : List String) → IsConsistent (log_error m l s)
  log_error-IsConsistent m l = record {
    accounts = h.accounts;
    delegates = h.delegates;
    proposals = h.proposals;
    offerings = h.offerings;
    thewords = h.thewords;
    governance = h.governance;
  }

  pub save_vote-IsConsistent : (v : Vote) → IsConsistent (save_vote v s)
  save_vote-IsConsistent v = record {
    accounts = h.accounts;
    delegates = h.delegates;
    proposals = h.proposals;
    offerings = h.offerings;
    thewords = h.thewords;
    governance = h.governance;
  }

  pub save_seed-IsConsistent : (x : Seed) → IsConsistent (record s { seeds = save s.seeds x.id x })
  save_seed-IsConsistent x = record {
    accounts = h.accounts;
    delegates = h.delegates;
    proposals = h.proposals;
    offerings = h.offerings;
    thewords = h.thewords;
    governance = h.governance;
  }

  pub save_theword-IsConsistent :
      (t : TheWord) → IsConsistent (record s { thewords = save s.thewords t.id t })
  save_theword-IsConsistent t = record {
    accounts = h.accounts;
    delegates = h.delegates;
    proposals = h.proposals;
    offerings = h.offerings;
    thewords = Entries-save IsTheWord s.thewords h.thewords refl;
    governance = h.governance;
  }

  pub save_bid-IsConsistent : (b : Bid) → IsConsistent (record s { bids = save s.bids b.id b })
  save_bid-IsConsistent b = record {
    accounts = h.accounts;
    delegates = h.delegates;
    proposals = h.proposals;
    offerings = h.offerings;
    thewords = h.thewords;
    governance = h.governance;
  }

  pub save_offering-IsConsistent :
      (o : Offering) → IsConsistent (record s { offerings = save s.offerings o.id o })
  save_offering-IsConsistent o = record {
    accounts = h.accounts;
    delegates = h.delegates;
    proposals = h.proposals;
    offerings = Entries-save IsOffering s.offerings h.offerings refl;
    thewords = h.thewords;
    governance = h.governance;
  }

  pub save_proposal-IsConsistent : (p : Proposal) → IsConsistent (save_proposal p s)
  save_proposal-IsConsistent p = record {
    accounts = h.accounts;
    delegates = h.delegates;
    proposals = Entries-save IsProposal s.proposals h.proposals refl;
    offerings = h.offerings;
    thewords = h.thewords;
    governance = h.governance;
  }

module _ {s : Store} (h : IsConsistent s) where
  pub delegate_of-keeps :
      (id : String) → IsDelegate id (delegate_of id s).0 × IsConsistent (delegate_of id s).1
  delegate_of-keeps id = elim (Option-cases (load s.delegates id)) [
    | inl missing ↦ rw (delegate_of_missing id s missing) (
      new_delegate-IsDelegate id,
      save_delegate-IsConsistent (count_delegate-IsConsistent h id) (new_delegate-IsDelegate id),
    )
    | inr (d, found) ↦ rw (delegate_of_found id s d found) (h.delegates id d found, h)
  ]

  pub proposal_of-keeps :
      (id : String) → IsProposal id (proposal_of id s).0 × IsConsistent (proposal_of id s).1
  proposal_of-keeps id = elim (Option-cases (load s.proposals id)) [
    | inl missing ↦
        rw (proposal_of_missing id s missing) (refl, save_governance-IsConsistent h h.governance)
    | inr (p, found) ↦ rw (proposal_of_found id s p found) (h.proposals id p found, h)
  ]
