-- ===== src/Subgraph/Token/Balances.antt =====
-- What `handleTransfer` does to the balances and the owner of a token.
use theword_monorepo.Prelude.{
  ◌≡◌, String, Option, none, some, arith, str_eq, eq_iff, if◌then◌else◌, Option-cases, inl, inr,
  ◌&&◌, not,
}
use theword_monorepo.Prelude.Int.{ℤ, ◌+ℤ◌, ◌-ℤ◌}
use theword_monorepo.Prelude.Table.{Table, load, save, load-save}
use theword_monorepo.Subgraph.Entities.{
  Account, Governance, TheWord, Store, zero_address, bigint_zero, bigint_one,
}
use theword_monorepo.Subgraph.Helpers.{
  account_of, account_of_found, account_of_missing, new_account,
}
use theword_monorepo.Subgraph.Consistent.{IsConsistent, account_of-keeps}
use theword_monorepo.Subgraph.Token.{
  Transfer, update_from_holder, update_to_holder, handle_transfer, theword_of,
}
use theword_monorepo.Subgraph.Token.Frame.{
  debited, credited, update_from_holder_accounts, update_from_holder_thewords,
  update_to_holder_accounts, update_to_holder_thewords,
}

-- The indexed balance of an address; an address that has no account holds nothing.
abbrev pub balance_in : Table Account → String → ℤ
balance_in t j = elim (load t j) [ none ↦ bigint_zero | some a ↦ a.token_balance_raw ]

abbrev pub balance : Store → String → ℤ
balance s = balance_in s.accounts

module _ (id : String) (s : Store) where
  pub account_of_balance : (account_of id s).0.token_balance_raw ≡ balance s id
  account_of_balance = elim (Option-cases (load s.accounts id)) [
    | inl missing ↦ rw (account_of_missing id s missing) (ground arith)
    | inr (a, found) ↦ rw (account_of_found id s a found) (ground arith)
  ]

  pub balance-account_of : (j : String) → balance (account_of id s).1 j ≡ balance s j
  balance-account_of j = elim (Option-cases (load s.accounts id)) [
    | inl missing ↦
        rw (account_of_missing id s missing)
          (ground (arith, load-save s.accounts id j (new_account id), eq_iff id j))
    | inr (a, found) ↦ rw (account_of_found id s a found)
  ]

balance_in-save :
    (t : Table Account) (k j : String) (a : Account)
    → balance_in (save t k a) j ≡ (if str_eq k j then a.token_balance_raw else balance_in t j)
balance_in-save t k j a = ground (arith, load-save t k j a)

module _ (e : Transfer) (a : Account) where
  debited_id : (debited e a).id ≡ a.id
  debited_id = ground arith

  debited_balance : (debited e a).token_balance_raw ≡ a.token_balance_raw -ℤ bigint_one
  debited_balance = ground arith

  credited_id : (credited e a).id ≡ a.id
  credited_id = ground arith

  credited_balance : (credited e a).token_balance_raw ≡ a.token_balance_raw +ℤ bigint_one
  credited_balance = ground arith

-- The two parts of the handler, on holders that stand under their own ids.
module _ (e : Transfer) (a b : Account) (g g' : Governance) (s : Store) (j : String) where
  parts_balances : balance (update_to_holder e b g' (update_from_holder e a g s).1) j ≡ (
      if str_eq b.id j
      then b.token_balance_raw +ℤ bigint_one
      else if str_eq a.id j && not (str_eq e.from zero_address)
      then a.token_balance_raw -ℤ bigint_one
      else balance s j)
  parts_balances =
      rw (update_to_holder_accounts, balance_in-save, update_from_holder_accounts)
        (ground (
          arith,
          credited_id e b,
          credited_balance e b,
          debited_id e a,
          debited_balance e a,
          balance_in-save s.accounts (debited e a).id j (debited e a),
        ))

-- The balance of every address after a transfer. The receiver gains one token, also when it is
-- the sender; any other sender than the zero address loses one; no other balance changes.
pub handle_transfer_balances :
    (e : Transfer) (s : Store)
    → IsConsistent s
    → (j : String)
    → balance (handle_transfer e s) j ≡ (
        if str_eq e.to j
        then balance s e.to +ℤ bigint_one
        else if str_eq e.from j && not (str_eq e.from zero_address)
        then balance s e.from -ℤ bigint_one
        else balance s j)
unfolding handle_transfer
handle_transfer_balances e s h j =
    let s1 = (account_of e.from s).1 in
    let s2 = (account_of e.to s1).1 in
    let (p, h1) = account_of-keeps h e.from in
    let (q, _) = account_of-keeps h1 e.to in
    rw
      (
        parts_balances, p.id, q.id, account_of_balance, balance-account_of, account_of_balance,
        balance-account_of,
      )
      (rw balance-account_of)

-- The indexed owner of a token.
abbrev owner_in : Option TheWord → Option String
owner_in none = none
owner_in (some t) = t.owner

abbrev pub owner : Store → String → Option String
owner s id = owner_in (load s.thewords id)

account_of_thewords : (id : String) (s : Store) → (account_of id s).1.thewords ≡ s.thewords
unfolding account_of
account_of_thewords id s = ground arith

theword_of_id : (id : String) (s : Store) → IsConsistent s → (theword_of id s.thewords).id ≡ id
theword_of_id id s h = elim (Option-cases (load s.thewords id)) [
  | inl missing ↦ ground arith
  | inr (t, found) ↦ ground (arith, h.thewords id t found)
]

-- After a transfer its token belongs to the receiver, and every other token to whom it did.
pub handle_transfer_owner :
    (e : Transfer) (s : Store)
    → IsConsistent s
    → (j : String)
    → owner (handle_transfer e s) j ≡ (if str_eq e.token_id j then some e.to else owner s j)
unfolding handle_transfer
handle_transfer_owner e s h j =
    let s1 = (account_of e.from s).1 in
    let s2 = (account_of e.to s1).1 in
    let (p, h1) = account_of-keeps h e.from in
    let (q, _) = account_of-keeps h1 e.to in
    simp
      (
        update_to_holder_thewords,
        update_from_holder_thewords,
        account_of_thewords,
        theword_of_id e.token_id s h,
        q.id,
        load-save,
      )
      (ground arith)
