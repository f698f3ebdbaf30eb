-- ===== src/Subgraph/Token/Keeps.antt =====
-- The handlers of nouns-erc-721.ts keep the invariant of the store.
use theword_monorepo.Prelude.{
  refl, String, Bool, true, false, Option, none, some, inl, inr, Option-cases, Bool-cases, str_eq,
}
use theword_monorepo.Prelude.Int.{ℤ, ltb_ℤ}
use theword_monorepo.Prelude.Table.{load}
use theword_monorepo.Subgraph.Entities.{Account, Governance, Store, zero_address, bigint_zero}
use theword_monorepo.Subgraph.Consistent.{
  IsConsistent, IsAccount, IsGovernance, account_of-keeps, delegate_of-keeps,
  log_error-IsConsistent, save_account-IsConsistent, save_delegate-IsConsistent,
  save_governance-IsConsistent, save_seed-IsConsistent, save_theword-IsConsistent,
}
use theword_monorepo.Subgraph.Token.{
  TheWordCreated, handle_the_word_created, DelegateChanged, handle_delegate_changed,
  DelegateVotesChanged, handle_delegate_votes_changed, Transfer, release_from_delegate,
  log_negative, count_holders, save_governance_if, leave_if, burn_if, join_if, give_token,
  take_token, debit_holder, update_from_holder, update_to_holder, handle_transfer,
}

module _ (g : Governance) (h : IsGovernance g) where
  count_holders-IsGovernance : (left joined : Bool) → IsGovernance (count_holders left joined g)
  count_holders-IsGovernance true joined = h
  count_holders-IsGovernance false true = h
  count_holders-IsGovernance false false = h

  pub burn_if-IsGovernance : (burned : Bool) → IsGovernance (burn_if burned g)
  burn_if-IsGovernance true = h
  burn_if-IsGovernance false = h

  pub save_governance_if-IsConsistent :
      {s : Store} → IsConsistent s → (b : Bool) → IsConsistent (save_governance_if b g s)
  save_governance_if-IsConsistent k true = save_governance-IsConsistent k h
  save_governance_if-IsConsistent k false = k

leave_if-IsAccount :
    (b : Bool) (a : Account) → IsAccount a.id a → IsAccount (leave_if b a).id (leave_if b a)
leave_if-IsAccount true a p = record { id = refl; balance = p.balance; held = p.held }
leave_if-IsAccount false a p = p

join_if-IsAccount :
    (l j : Bool) (a : Account) → IsAccount a.id a → IsAccount (join_if l j a).id (join_if l j a)
join_if-IsAccount false true a p = record { id = refl; balance = p.balance; held = p.held }
join_if-IsAccount false false a p = p
join_if-IsAccount true j a p = p

module _ {s : Store} (h : IsConsistent s) where
  pub handle_the_word_created-IsConsistent :
      (e : TheWordCreated) → IsConsistent (handle_the_word_created e s)
  unfolding handle_the_word_created
  handle_the_word_created-IsConsistent e =
      let h' = save_seed-IsConsistent h _ in
      elim (Option-cases (load s.thewords e.token_id)) [
        | inl missing ↦ rw (missing, handle_the_word_created) (log_error-IsConsistent h' _ _)
        | inr (t, found) ↦ rw (found, handle_the_word_created) (save_theword-IsConsistent h' _)
      ]

  pub handle_delegate_changed-IsConsistent :
      (e : DelegateChanged) → IsConsistent (handle_delegate_changed e s)
  unfolding handle_delegate_changed
  handle_delegate_changed-IsConsistent e =
      let (a, h1) = account_of-keeps h e.delegator in
      let (p, h2) = delegate_of-keeps h1 e.from_delegate in
      let (n, h3) = delegate_of-keeps h2 e.to_delegate in
      let h4 =
        save_account-IsConsistent h3 (record { id = refl; balance = a.balance; held = a.held }) in
      let h5 = save_delegate-IsConsistent h4 (record { id = refl; votes = p.votes }) in
      save_delegate-IsConsistent h5 (record { id = refl; votes = n.votes })

  pub handle_delegate_votes_changed-IsConsistent :
      (e : DelegateVotesChanged) → IsConsistent (handle_delegate_votes_changed e s)
  unfolding handle_delegate_votes_changed
  handle_delegate_votes_changed-IsConsistent e =
      let (d, h1) = delegate_of-keeps h e.delegate in
      let h2 = save_delegate-IsConsistent h1 (record { id = refl; votes = refl }) in
      save_governance-IsConsistent h2 refl

  release_from_delegate-IsConsistent :
      (id : String) (o : Option String) → IsConsistent (release_from_delegate id o s)
  unfolding release_from_delegate
  release_from_delegate-IsConsistent id none = h
  release_from_delegate-IsConsistent id (some d) =
      let (p, h') = delegate_of-keeps h d in
      save_delegate-IsConsistent h' (record { id = refl; votes = p.votes })

  log_negative-IsConsistent : (id : String) (b : ℤ) → IsConsistent (log_negative id b s)
  unfolding log_negative
  log_negative-IsConsistent id b = elim (Bool-cases (ltb_ℤ b bigint_zero)) [
    | inl negative ↦ rw negative (log_error-IsConsistent h _ _)
    | inr other ↦ rw other h
  ]

module _ (e : Transfer) {k : String} {a : Account} (g : Governance) (p : IsAccount k a)
    (q : IsGovernance g) {s : Store} (h : IsConsistent s) where
  debit_holder-IsConsistent :
      IsGovernance (debit_holder e a g s).0 × IsConsistent (debit_holder e a g s).1
  unfolding debit_holder
  debit_holder-IsConsistent =
      let q' = count_holders-IsGovernance g q _ _ in
      let h1 = release_from_delegate-IsConsistent h e.token_id a.delegate in
      let h2 = log_negative-IsConsistent h1 a.id _ in
      let h3 = save_governance_if-IsConsistent _ q' h2 _ in
      (
        q',
        save_account-IsConsistent h3 (
            leave_if-IsAccount _ (give_token e.token_id a)
              (record { id = refl; balance = refl; held = p.held })),
      )

  pub update_from_holder-IsConsistent :
      IsGovernance (update_from_holder e a g s).0 × IsConsistent (update_from_holder e a g s).1
  unfolding update_from_holder
  update_from_holder-IsConsistent = elim (Bool-cases (str_eq e.from zero_address)) [
    | inl minted ↦ rw minted (q, save_governance-IsConsistent h q)
    | inr other ↦ rw other debit_holder-IsConsistent
  ]

  update_to_holder-IsConsistent : IsConsistent (update_to_holder e a g s)
  unfolding update_to_holder
  update_to_holder-IsConsistent =
      let q1 = burn_if-IsGovernance g q (str_eq e.to zero_address) in
      let h1 = save_governance_if-IsConsistent _ q1 h (str_eq e.to zero_address) in
      let (d, h2) = delegate_of-keeps h1 a.id in
      let h3 = save_delegate-IsConsistent h2 (record { id = refl; votes = d.votes }) in
      let h4 = save_governance_if-IsConsistent _ (count_holders-IsGovernance _ q1 _ _) h3 _ in
      let h5 = save_theword-IsConsistent h4 _ in
      save_account-IsConsistent h5 (
        join_if-IsAccount _ _ (take_token e.token_id a)
          (record { id = refl; balance = refl; held = refl }))

pub handle_transfer-IsConsistent :
    {s : Store} → IsConsistent s → (e : Transfer) → IsConsistent (handle_transfer e s)
unfolding handle_transfer
handle_transfer-IsConsistent h e =
    let (p, h1) = account_of-keeps h e.from in
    let (p', h2) = account_of-keeps h1 e.to in
    let (q, h3) = update_from_holder-IsConsistent e _ p h2.governance h2 in
    update_to_holder-IsConsistent e _ p' q h3
