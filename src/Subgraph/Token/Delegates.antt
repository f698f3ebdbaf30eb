-- ===== src/Subgraph/Token/Delegates.antt =====
-- The count of delegates over a mint: the governance entity is read before the receiver's delegate
-- is created, and saved after it.
use theword_monorepo.Prelude.{
  ◌≡◌, ◌≢◌, ap, ◌∙◌, String, true, false, none, some, arith, str_eq, eq_iff,
}
use theword_monorepo.Prelude.Int.{ℤ, ◌+ℤ◌}
use theword_monorepo.Prelude.Table.{load, load-save_self}
use theword_monorepo.Subgraph.Entities.{
  Account, Delegate, Governance, Store, zero_address, bigint_zero, bigint_one,
}
use theword_monorepo.Subgraph.Helpers.{
  account_of, delegate_of, get_governance_entity, save_governance,
}
use theword_monorepo.Subgraph.Consistent.{
  IsConsistent, account_of-keeps, delegate_of-keeps, save_governance-IsConsistent,
}
use theword_monorepo.Subgraph.Token.{
  Transfer, has_left, has_joined, mint, update_from_holder, update_to_holder, handle_transfer,
  count_holders,
}
use theword_monorepo.Subgraph.Token.Frame.{save_governance_if_delegates}
use theword_monorepo.Subgraph.Token.Balances.{balance, balance-account_of, account_of_balance}

has_joined_first : (b : ℤ) → b ≡ bigint_zero → has_joined b (b +ℤ bigint_one) ≡ true
unfolding has_joined ◌+ℤ◌
has_joined_first b h = ground arith

has_left_first : (b : ℤ) → b ≡ bigint_zero → has_left b (b +ℤ bigint_one) ≡ false
unfolding has_left ◌+ℤ◌
has_left_first b h = ground arith

account_of_governance : (id : String) (s : Store) → (account_of id s).1.governance ≡ s.governance
unfolding account_of
account_of_governance id s = ground arith

governance_of_eq :
    (s t : Store) → s.governance ≡ t.governance → get_governance_entity s ≡ get_governance_entity t
governance_of_eq s t h = ground arith

governance_of_some :
    (s : Store) (g : Governance) → s.governance ≡ some g → get_governance_entity s ≡ g
governance_of_some s g h = ground arith

-- A first token: the governance entity that is saved is the one that was read.
module _ (e : Transfer) (a : Account) (g : Governance) (s : Store)
    (first : a.token_balance_raw ≡ bigint_zero) (kept : str_eq e.to zero_address ≡ false) where
  update_to_holder_first : (update_to_holder e a g s).governance ≡ some (count_holders false true g)
  unfolding update_to_holder
  update_to_holder_first =
      rw
        (kept, has_left_first a.token_balance_raw first, has_joined_first a.token_balance_raw first)

  update_to_holder_delegate :
      (delegate_of a.id s).0.id ≡ a.id
      → (d : Delegate) × (load (update_to_holder e a g s).delegates a.id ≡ some d)
  unfolding update_to_holder
  update_to_holder_delegate same =
      rw (save_governance_if_delegates, kept, same) (_, load-save_self _ _ _)

-- The first token of an address that has no delegate yet, when it is minted: the store gets the
-- delegate, and `totalDelegates` is what it was before, since the governance entity that was read
-- before the delegate was created is saved over the one that counts it.
pub mint_loses_count :
    (e : Transfer) (s : Store)
    → IsConsistent s
    → e.from ≡ zero_address
    → e.to ≢ zero_address
    → balance s e.to ≡ bigint_zero
    → load s.delegates e.to ≡ none
    → ((get_governance_entity (handle_transfer e s)).total_delegates
        ≡ (get_governance_entity s).total_delegates)
      × ((d : Delegate) × (load (handle_transfer e s).delegates e.to ≡ some d))
unfolding handle_transfer update_from_holder
mint_loses_count e s h minted kept first unknown =
    let s1 = (account_of e.from s).1 in
    let (b, s2) = account_of e.to s1 in
    let (_, h1) = account_of-keeps h e.from in
    let (q, h2) = account_of-keeps h1 e.to in
    let g = get_governance_entity s2 in
    let zero : str_eq e.from zero_address ≡ true = (eq_iff e.from zero_address).1 minted in
    let other : str_eq e.to zero_address ≡ false = ground (arith, eq_iff e.to zero_address) in
    let empty : b.token_balance_raw ≡ bigint_zero =
      account_of_balance e.to s1 ∙ balance-account_of e.from s e.to ∙ first in
    let s3 = save_governance (mint g) s2 in
    let h3 = save_governance-IsConsistent h2 h2.governance in
    let saved = update_to_holder_first e b (mint g) s3 empty other in
    let known =
      update_to_holder_delegate e b (mint g) s3 empty other
        (rw q.id (delegate_of-keeps h3 e.to).0.id) in
    let same : g ≡ get_governance_entity s =
      governance_of_eq s2 s (account_of_governance e.to s1 ∙ account_of_governance e.from s) in
    rw zero (
      ap (λ (x : Governance). x.total_delegates)
            (governance_of_some (update_to_holder e b (mint g) s3)
              (count_holders false true (mint g)) saved)
          ∙ ap (λ (x : Governance). x.total_delegates) same,
      rw q.id at known,
    )
