-- ===== src/Subgraph/Helpers.antt =====
-- utils/helpers.ts: the entity with an id, created where the store has none.
use theword_monorepo.Prelude.{
  ◌≡◌, arith, String, Bool, true, false, Option, none, some, [], str_eq, if◌then◌else◌,
}
use theword_monorepo.Prelude.Int.{◌+ℤ◌}
use theword_monorepo.Prelude.Table.{load, save}
use theword_monorepo.Subgraph.Entities.{
  Account, Delegate, Proposal, Vote, Governance, Store, zero_address, bigint_zero, bigint_one,
}

abbrev pub save_account : Account → Store → Store
save_account a s = record s { accounts = save s.accounts a.id a }

abbrev pub save_delegate : Delegate → Store → Store
save_delegate d s = record s { delegates = save s.delegates d.id d }

abbrev pub save_proposal : Proposal → Store → Store
save_proposal p s = record s { proposals = save s.proposals p.id p }

abbrev pub save_vote : Vote → Store → Store
save_vote v s = record s { votes = save s.votes v.id v }

abbrev pub save_governance : Governance → Store → Store
save_governance g s = record s { governance = some g }

abbrev pub new_governance : Governance
new_governance = record {
  proposals = bigint_zero;
  total_token_holders = bigint_zero;
  current_token_holders = bigint_zero;
  current_delegates = bigint_zero;
  total_delegates = bigint_zero;
  delegated_votes_raw = bigint_zero;
  delegated_votes = bigint_zero;
  proposals_queued = bigint_zero;
}

-- The entity is not saved here.
abbrev pub get_governance_entity : Store → Governance
get_governance_entity s = elim s.governance [ none ↦ new_governance | some g ↦ g ]

-- Each `create_…` is what stands under `if (… == null && createIfNotFound)`.
abbrev pub new_account : String → Account
new_account id = record {
  id = id;
  delegate = none;
  token_balance_raw = bigint_zero;
  token_balance = bigint_zero;
  total_tokens_held_raw = bigint_zero;
  total_tokens_held = bigint_zero;
  theword = [];
}

abbrev create_account : String → Bool → Store → Store
create_account id saved s = if saved then save_account (new_account id) s else s

unfoldable pub get_or_create_account : String → Bool → Bool → Store → Option Account × Store
get_or_create_account id create saved s = elim (load s.accounts id) [
  | some a ↦ (some a, s)
  | none ↦ if create then (some (new_account id), create_account id saved s) else (none, s)
]

abbrev pub new_delegate : String → Delegate
new_delegate id = record {
  id = id;
  delegated_votes_raw = bigint_zero;
  delegated_votes = bigint_zero;
  token_holders_represented_amount = 0;
  theword_represented = [];
}

abbrev pub count_delegate : String → Store → Store
count_delegate id s =
    if str_eq id zero_address
    then s
    else (let g = get_governance_entity s in
        save_governance (record g { total_delegates = g.total_delegates +ℤ bigint_one }) s)

abbrev create_delegate : String → Bool → Store → Store
create_delegate id saved s =
    if saved then save_delegate (new_delegate id) (count_delegate id s) else count_delegate id s

unfoldable pub get_or_create_delegate : String → Bool → Bool → Store → Option Delegate × Store
get_or_create_delegate id create saved s = elim (load s.delegates id) [
  | some d ↦ (some d, s)
  | none ↦ if create then (some (new_delegate id), create_delegate id saved s) else (none, s)
]

abbrev pub new_vote : String → Vote
new_vote id = record { id = id; ballot = none }

unfoldable pub get_or_create_vote : String → Bool → Bool → Store → Option Vote × Store
get_or_create_vote id create saved s = elim (load s.votes id) [
  | some v ↦ (some v, s)
  | none ↦
      if create
      then (some (new_vote id), if saved then save_vote (new_vote id) s else s)
      else (none, s)
]

abbrev pub new_proposal : String → Proposal
new_proposal id = record { id = id; details = none; status = none; execution_eta = none }

abbrev pub count_proposal : Store → Store
count_proposal s =
    let g = get_governance_entity s in
    save_governance (record g { proposals = g.proposals +ℤ bigint_one }) s

unfoldable pub get_or_create_proposal : String → Bool → Bool → Store → Option Proposal × Store
get_or_create_proposal id create saved s = elim (load s.proposals id) [
  | some p ↦ (some p, s)
  | none ↦
      if create
      then (
        some (new_proposal id),
        if saved then save_proposal (new_proposal id) (count_proposal s) else count_proposal s,
      )
      else (none, s)
]

-- The calls with the default arguments. The casts `as Account` and `as Delegate` meet no null
-- there, since the entity is created.
abbrev cast {ℓ} : {A : Type ℓ} → A → Option A → A
cast fallback none = fallback
cast fallback (some a) = a

unfoldable pub account_of : String → Store → Account × Store
unfolding get_or_create_account
account_of id s =
    let (a, s') = get_or_create_account id true true s in (cast (new_account id) a, s')

unfoldable pub delegate_of : String → Store → Delegate × Store
unfolding get_or_create_delegate
delegate_of id s =
    let (d, s') = get_or_create_delegate id true true s in (cast (new_delegate id) d, s')

-- The default of `save` is false for these two.
unfoldable pub vote_of : String → Store → Vote × Store
unfolding get_or_create_vote
vote_of id s = let (v, s') = get_or_create_vote id true false s in (cast (new_vote id) v, s')

unfoldable pub proposal_of : String → Store → Proposal × Store
unfolding get_or_create_proposal
proposal_of id s =
    let (p, s') = get_or_create_proposal id true false s in (cast (new_proposal id) p, s')

-- The calls by whether the store has the entity.
module _ (id : String) (s : Store) where
  pub account_of_found : (a : Account) → load s.accounts id ≡ some a → account_of id s ≡ (a, s)
  unfolding account_of
  account_of_found a h = ground arith

  pub account_of_missing :
      load s.accounts id ≡ none
      → account_of id s ≡ (new_account id, save_account (new_account id) s)
  unfolding account_of
  account_of_missing h = ground arith

  pub delegate_of_found : (d : Delegate) → load s.delegates id ≡ some d → delegate_of id s ≡ (d, s)
  unfolding delegate_of
  delegate_of_found d h = ground arith

  pub delegate_of_missing :
      load s.delegates id ≡ none
      → delegate_of id s ≡ (new_delegate id, save_delegate (new_delegate id) (count_delegate id s))
  unfolding delegate_of
  delegate_of_missing h = ground arith

  pub proposal_of_found : (p : Proposal) → load s.proposals id ≡ some p → proposal_of id s ≡ (p, s)
  unfolding proposal_of
  proposal_of_found p h = ground arith

  pub proposal_of_missing :
      load s.proposals id ≡ none → proposal_of id s ≡ (new_proposal id, count_proposal s)
  unfolding proposal_of
  proposal_of_missing h = ground arith

  pub vote_of_snd : (vote_of id s).1 ≡ s
  unfolding vote_of
  vote_of_snd = ground arith

  -- Without the flag to create, the call only looks the delegate up.
  pub get_or_create_delegate_lookup :
      get_or_create_delegate id false true s ≡ (load s.delegates id, s)
  unfolding get_or_create_delegate
  get_or_create_delegate_lookup = ground arith

  -- What a created entity leaves alone.
  pub delegate_of_accounts : (delegate_of id s).1.accounts ≡ s.accounts
  unfolding delegate_of
  delegate_of_accounts = ground arith

  pub delegate_of_thewords : (delegate_of id s).1.thewords ≡ s.thewords
  unfolding delegate_of
  delegate_of_thewords = ground arith
