-- ===== src/Subgraph/Tally/Transfers.antt =====
-- A transfer moves no votes.
use theword_monorepo.Prelude.{
  ◌≡◌, refl, sym, ◌∙◌, String, Bool, true, false, ◌||◌, Option, none, some, [], ◌∷◌, ◌++◌, arith,
  str_eq, inl, inr, Bool-cases,
}
use theword_monorepo.Prelude.Int.{ℤ}
use theword_monorepo.Subgraph.Entities.{Account, Delegate, Governance, Store, zero_address}
use theword_monorepo.Subgraph.Helpers.{
  account_of, delegate_of, get_governance_entity, save_delegate,
}
use theword_monorepo.Subgraph.Consistent.{
  IsConsistent, IsGovernance, account_of-keeps, delegate_of-keeps,
}
use theword_monorepo.Subgraph.Token.{
  Transfer, give_token, take_token, without_token, release_from_delegate, log_negative, has_left,
  has_joined, count_holders, save_governance_if, burn_if, debit_holder, update_from_holder,
  update_to_holder, handle_transfer,
}
use theword_monorepo.Subgraph.Token.Keeps.{
  update_from_holder-IsConsistent, burn_if-IsGovernance, save_governance_if-IsConsistent,
}
use theword_monorepo.Subgraph.Tally.{counted_votes, SameVotes, SameVotes-trans, SameVotes-of_eq}
use theword_monorepo.Subgraph.Tally.Parts.{
  SameVotes-refl, save_governance-SameVotes, delegate_of-SameVotes, account_of-SameVotes,
}
use theword_monorepo.Subgraph.Tally.Handlers.{update_delegate-SameVotes, read_delegate_votes}

save_governance_if-SameVotes :
    (b : Bool) (g : Governance) (s : Store)
    → g.delegated_votes_raw ≡ counted_votes s
    → SameVotes s (save_governance_if b g s)
save_governance_if-SameVotes true g s h = save_governance-SameVotes s g h
save_governance_if-SameVotes false g s h = SameVotes-refl s

count_holders_votes :
    (l j : Bool) (g : Governance)
    → (count_holders l j g).delegated_votes_raw ≡ g.delegated_votes_raw
count_holders_votes l j g = ground arith

burn_if_votes :
    (b : Bool) (g : Governance) → (burn_if b g).delegated_votes_raw ≡ g.delegated_votes_raw
burn_if_votes b g = ground arith

release_from_delegate-SameVotes :
    {s : Store}
    → IsConsistent s
    → (id : String) (o : Option String) → SameVotes s (release_from_delegate id o s)
unfolding release_from_delegate
release_from_delegate-SameVotes {s} h id none = SameVotes-refl s
release_from_delegate-SameVotes {s} h id (some d) =
    let (p, s') = delegate_of d s in
    SameVotes-trans (delegate_of-SameVotes d s) (
      update_delegate-SameVotes s' d
        (record p { theword_represented = without_token id p.theword_represented })
        (delegate_of-keeps h d).0.id (read_delegate_votes d s))

log_negative-SameVotes : (id : String) (b : ℤ) (s : Store) → SameVotes s (log_negative id b s)
unfolding log_negative
log_negative-SameVotes id b s = SameVotes-of_eq (ground arith) (ground arith)

module _ (e : Transfer) (a : Account) (g : Governance) {s : Store} (h : IsConsistent s)
    (same : g.delegated_votes_raw ≡ counted_votes s) where
  debit_holder-SameVotes :
      SameVotes s (debit_holder e a g s).1
      × ((debit_holder e a g s).0.delegated_votes_raw ≡ g.delegated_votes_raw)
  unfolding debit_holder
  debit_holder-SameVotes =
      let a1 = give_token e.token_id a in
      let left = has_left a.token_balance_raw a1.token_balance_raw in
      let joined = has_joined a.token_balance_raw a1.token_balance_raw in
      let s1 = release_from_delegate e.token_id a1.delegate s in
      let r = release_from_delegate-SameVotes h e.token_id a1.delegate in
      let l = log_negative-SameVotes a.id a1.token_balance_raw s1 in
      let votes = count_holders_votes left joined g in
      let v =
        save_governance_if-SameVotes (left || joined) (count_holders left joined g)
          (log_negative a.id a1.token_balance_raw s1)
          (votes ∙ same ∙ sym (l.counted ∙ r.counted)) in
      (SameVotes-trans r (SameVotes-trans l (SameVotes-trans v (SameVotes-of_eq refl refl))), votes)

  update_from_holder-SameVotes :
      SameVotes s (update_from_holder e a g s).1
      × ((update_from_holder e a g s).0.delegated_votes_raw ≡ g.delegated_votes_raw)
  unfolding update_from_holder
  update_from_holder-SameVotes = elim (Bool-cases (str_eq e.from zero_address)) [
    | inl minted ↦ rw minted (save_governance-SameVotes s _ same, refl)
    | inr other ↦ rw other debit_holder-SameVotes
  ]

  update_to_holder-SameVotes : IsGovernance g → SameVotes s (update_to_holder e a g s)
  unfolding update_to_holder
  update_to_holder-SameVotes q =
      let burned = str_eq e.to zero_address in
      let g1 = burn_if burned g in
      let s1 = save_governance_if burned g1 s in
      let h1 = save_governance_if-IsConsistent g1 (burn_if-IsGovernance g q burned) h burned in
      let b = save_governance_if-SameVotes burned g1 s (burn_if_votes burned g ∙ same) in
      let (d, s2) = delegate_of a.id s1 in
      let o = delegate_of-SameVotes a.id s1 in
      let d' : Delegate = record d {
        theword_represented = d.theword_represented ++ e.token_id ∷ [];
      } in
      let u =
        update_delegate-SameVotes s2 a.id d' (delegate_of-keeps h1 a.id).0.id
          (read_delegate_votes a.id s1) in
      let s3 = save_delegate d' s2 in
      let a1 = take_token e.token_id a in
      let left = has_left a.token_balance_raw a1.token_balance_raw in
      let joined = has_joined a.token_balance_raw a1.token_balance_raw in
      let v = save_governance_if-SameVotes (left || joined) (count_holders left joined g1) s3 (
        count_holders_votes left joined g1
        ∙ burn_if_votes burned g
        ∙ same
        ∙ sym (u.counted ∙ o.counted ∙ b.counted)) in
      SameVotes-trans b
        (SameVotes-trans o (SameVotes-trans u (SameVotes-trans v (SameVotes-of_eq refl refl))))

pub handle_transfer-SameVotes :
    {s : Store} → IsConsistent s → (e : Transfer) → SameVotes s (handle_transfer e s)
unfolding handle_transfer
handle_transfer-SameVotes {s} h e =
    let (a, s1) = account_of e.from s in
    let (b, s2) = account_of e.to s1 in
    let (p, h1) = account_of-keeps h e.from in
    let (_, h2) = account_of-keeps h1 e.to in
    let g = get_governance_entity s2 in
    let (q, h3) = update_from_holder-IsConsistent e g p h2.governance h2 in
    let (f, votes) = update_from_holder-SameVotes e a g h2 refl in
    let (g', s3) = update_from_holder e a g s2 in
    SameVotes-trans (account_of-SameVotes e.from s) (
      SameVotes-trans (account_of-SameVotes e.to s1)
        (SameVotes-trans f (update_to_holder-SameVotes e b g' h3 (votes ∙ sym f.counted) q)))
