-- ===== src/Subgraph/Token/Frame.antt =====
-- The accounts and the tokens after each part of `handleTransfer`.
use theword_monorepo.Prelude.{
  ◌≡◌, refl, String, Bool, Option, none, some, arith, str_eq, if◌then◌else◌,
}
use theword_monorepo.Prelude.Int.{ℤ}
use theword_monorepo.Prelude.Table.{save}
use theword_monorepo.Subgraph.Entities.{Account, Governance, Store, zero_address}
use theword_monorepo.Subgraph.Helpers.{delegate_of_accounts, delegate_of_thewords}
use theword_monorepo.Subgraph.Token.{
  Transfer, give_token, take_token, release_from_delegate, log_negative, has_left, has_joined,
  save_governance_if, leave_if, join_if, debit_holder, update_from_holder, update_to_holder,
  theword_of,
}

module _ (b : Bool) (g : Governance) (s : Store) where
  pub save_governance_if_accounts : (save_governance_if b g s).accounts ≡ s.accounts
  save_governance_if_accounts = ground arith

  pub save_governance_if_thewords : (save_governance_if b g s).thewords ≡ s.thewords
  save_governance_if_thewords = ground arith

  pub save_governance_if_delegates : (save_governance_if b g s).delegates ≡ s.delegates
  save_governance_if_delegates = ground arith

module _ (id : String) (s : Store) where
  release_from_delegate_accounts :
      (o : Option String) → (release_from_delegate id o s).accounts ≡ s.accounts
  unfolding release_from_delegate
  release_from_delegate_accounts none = refl
  release_from_delegate_accounts (some d) = delegate_of_accounts d s

  release_from_delegate_thewords :
      (o : Option String) → (release_from_delegate id o s).thewords ≡ s.thewords
  unfolding release_from_delegate
  release_from_delegate_thewords none = refl
  release_from_delegate_thewords (some d) = delegate_of_thewords d s

  log_negative_accounts : (b : ℤ) → (log_negative id b s).accounts ≡ s.accounts
  unfolding log_negative
  log_negative_accounts b = ground arith

  log_negative_thewords : (b : ℤ) → (log_negative id b s).thewords ≡ s.thewords
  unfolding log_negative
  log_negative_thewords b = ground arith

-- The account that the `fromHolder` part saves, but for a mint.
abbrev pub debited : Transfer → Account → Account
debited e a =
    let a1 = give_token e.token_id a in
    leave_if (has_left a.token_balance_raw a1.token_balance_raw) a1

-- The account that the `toHolder` part saves.
abbrev pub credited : Transfer → Account → Account
credited e a =
    let a1 = take_token e.token_id a in
    join_if (has_left a.token_balance_raw a1.token_balance_raw)
      (has_joined a.token_balance_raw a1.token_balance_raw) a1

join_if_id : (l j : Bool) (a : Account) → (join_if l j a).id ≡ a.id
join_if_id l j a = ground arith

module _ (e : Transfer) (a : Account) (g : Governance) (s : Store) where
  debit_holder_accounts :
      (debit_holder e a g s).1.accounts ≡ save s.accounts (debited e a).id (debited e a)
  unfolding debit_holder
  debit_holder_accounts =
      simp (save_governance_if_accounts, log_negative_accounts, release_from_delegate_accounts)

  debit_holder_thewords : (debit_holder e a g s).1.thewords ≡ s.thewords
  unfolding debit_holder
  debit_holder_thewords =
      simp (save_governance_if_thewords, log_negative_thewords, release_from_delegate_thewords)

  pub update_from_holder_accounts : (update_from_holder e a g s).1.accounts ≡ (
      if str_eq e.from zero_address
      then s.accounts
      else save s.accounts (debited e a).id (debited e a))
  unfolding update_from_holder
  update_from_holder_accounts = ground (arith, debit_holder_accounts)

  pub update_from_holder_thewords : (update_from_holder e a g s).1.thewords ≡ s.thewords
  unfolding update_from_holder
  update_from_holder_thewords = ground (arith, debit_holder_thewords)

  pub update_to_holder_accounts :
      (update_to_holder e a g s).accounts ≡ save s.accounts (credited e a).id (credited e a)
  unfolding update_to_holder
  update_to_holder_accounts = simp (save_governance_if_accounts, delegate_of_accounts)

  pub update_to_holder_thewords :
      (update_to_holder e a g s).thewords
      ≡ save s.thewords
          (theword_of e.token_id s.thewords).id
          (record (theword_of e.token_id s.thewords) { owner = some a.id })
  unfolding update_to_holder
  update_to_holder_thewords = simp (save_governance_if_thewords, delegate_of_thewords, join_if_id)
