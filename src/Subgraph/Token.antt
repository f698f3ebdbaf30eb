-- ===== src/Subgraph/Token.antt =====
-- nouns-erc-721.ts: tokens, holders and delegates. Addresses and ids stand in the events as the
-- texts that `toHexString` and `toString` give; `!==` on texts compares their contents.
pub mod Keeps
pub mod Frame
pub mod Balances
pub mod Delegates
use theword_monorepo.Prelude.{
  String, Bool, true, false, not, ◌&&◌, ◌||◌, Option, none, some, List, [], ◌∷◌, ◌++◌, str_eq,
  filter, includes, if◌then◌else◌,
}
use theword_monorepo.Prelude.Int.{ℤ, ◌+ℤ◌, ◌-ℤ◌, ltb_ℤ, eqb_ℤ}
use theword_monorepo.Prelude.Table.{Table, load, save}
use theword_monorepo.Subgraph.Entities.{
  Account, Delegate, Governance, Seed, TheWord, Store, zero_address, bigint_zero, bigint_one,
  log_error, increment_i32, decrement_i32,
}
use theword_monorepo.Subgraph.Helpers.{
  account_of, delegate_of, get_governance_entity, save_account, save_delegate, save_governance,
}

abbrev pub save_seed : Seed → Store → Store
save_seed x s = record s { seeds = save s.seeds x.id x }

abbrev pub save_theword : TheWord → Store → Store
save_theword t s = record s { thewords = save s.thewords t.id t }

pub record TheWordCreated : Type 0 where
  pub token_id : String
  pub background : ℤ
  pub body : ℤ
  pub accessory : ℤ
  pub head : ℤ
  pub glasses : ℤ
  pub hash : String

unfoldable pub handle_the_word_created : TheWordCreated → Store → Store
handle_the_word_created e s =
    let seed : Seed = record {
      id = e.token_id;
      background = e.background;
      body = e.body;
      accessory = e.accessory;
      head = e.head;
      glasses = e.glasses;
    } in
    let s' = save_seed seed s in
    elim (load s'.thewords e.token_id) [
      | none ↦ log_error "handleTheWordCreated" (e.token_id ∷ e.hash ∷ []) s'
      | some theword ↦ save_theword (record theword { seed = some seed.id }) s'
    ]

pub record DelegateChanged : Type 0 where
  pub delegator : String
  pub from_delegate : String
  pub to_delegate : String

abbrev pub remove_delegator : List String → Delegate → Delegate
remove_delegator tokens d = record d {
  token_holders_represented_amount = decrement_i32 d.token_holders_represented_amount;
  theword_represented = filter (λ n. not (includes tokens n)) d.theword_represented;
}

abbrev pub add_delegator : List String → Delegate → Delegate
add_delegator tokens d = record d {
  token_holders_represented_amount = increment_i32 d.token_holders_represented_amount;
  theword_represented = d.theword_represented ++ tokens;
}

-- Both delegates are read before either is saved.
unfoldable pub handle_delegate_changed : DelegateChanged → Store → Store
handle_delegate_changed e s0 =
    let (holder, s1) = account_of e.delegator s0 in
    let (previous, s2) = delegate_of e.from_delegate s1 in
    let (next, s3) = delegate_of e.to_delegate s2 in
    let s4 = save_account (record holder { delegate = some next.id }) s3 in
    let s5 = save_delegate (remove_delegator holder.theword previous) s4 in
    save_delegate (add_delegator holder.theword next) s5

pub record DelegateVotesChanged : Type 0 where
  pub delegate : String
  pub previous_balance : ℤ
  pub new_balance : ℤ

-- The change of `currentDelegates`.
abbrev pub count_current_delegates : DelegateVotesChanged → Governance → Governance
count_current_delegates e g0 =
    let g1 : Governance =
      if eqb_ℤ e.previous_balance bigint_zero && ltb_ℤ bigint_zero e.new_balance
      then record g0 { current_delegates = g0.current_delegates +ℤ bigint_one }
      else g0 in
    if eqb_ℤ e.new_balance bigint_zero
    then record g1 { current_delegates = g1.current_delegates -ℤ bigint_one }
    else g1

-- The governance entity is read before the delegate is, and saved after it.
unfoldable pub handle_delegate_votes_changed : DelegateVotesChanged → Store → Store
handle_delegate_votes_changed e s0 =
    let g0 = get_governance_entity s0 in
    let (delegate, s1) = delegate_of e.delegate s0 in
    let difference = e.new_balance -ℤ e.previous_balance in
    let s2 =
      save_delegate
        (record delegate { delegated_votes_raw = e.new_balance; delegated_votes = e.new_balance })
        s1 in
    let g1 = count_current_delegates e g0 in
    let votes = g1.delegated_votes_raw +ℤ difference in
    save_governance (record g1 { delegated_votes_raw = votes; delegated_votes = votes }) s2

pub record Transfer : Type 0 where
  pub from : String
  pub to : String
  pub token_id : String

abbrev pub without_token : String → List String → List String
without_token id = filter (λ n. not (str_eq n id))

-- The assignments to `fromHolder` before its delegate is looked at.
abbrev pub give_token : String → Account → Account
give_token id a =
    let balance = a.token_balance_raw -ℤ bigint_one in
    record a {
      token_balance_raw = balance;
      token_balance = balance;
      theword = without_token id a.theword;
    }

unfoldable pub release_from_delegate : String → Option String → Store → Store
release_from_delegate id none s = s
release_from_delegate id (some delegate) s =
    let (d, s') = delegate_of delegate s in
    save_delegate (record d { theword_represented = without_token id d.theword_represented }) s'

-- The message without the text of the balance.
unfoldable pub log_negative : String → ℤ → Store → Store
log_negative id balance s =
    if ltb_ℤ balance bigint_zero then log_error "handleTransfer" (id ∷ []) s else s

-- The two tests on a balance before and after the transfer.
unfoldable pub has_left : ℤ → ℤ → Bool
has_left before after = eqb_ℤ after bigint_zero && ltb_ℤ bigint_zero before

unfoldable pub has_joined : ℤ → ℤ → Bool
has_joined before after = ltb_ℤ bigint_zero after && eqb_ℤ before bigint_zero

-- `if (left) currentTokenHolders -= 1; else if (joined) currentTokenHolders += 1`
abbrev pub count_holders : (left joined : Bool) → Governance → Governance
count_holders true joined g = record g {
  current_token_holders = g.current_token_holders -ℤ bigint_one;
}
count_holders false true g = record g {
  current_token_holders = g.current_token_holders +ℤ bigint_one;
}
count_holders false false g = g

abbrev pub save_governance_if : Bool → Governance → Store → Store
save_governance_if true g s = save_governance g s
save_governance_if false g s = s

abbrev pub leave_if : Bool → Account → Account
leave_if true a = record a { delegate = none }
leave_if false a = a

-- The branch of the `fromHolder` part for a holder that is not the zero address.
unfoldable pub debit_holder : Transfer → Account → Governance → Store → Governance × Store
debit_holder e holder g s =
    let a1 = give_token e.token_id holder in
    let left = has_left holder.token_balance_raw a1.token_balance_raw in
    let joined = has_joined holder.token_balance_raw a1.token_balance_raw in
    let s1 = release_from_delegate e.token_id a1.delegate s in
    let s2 = log_negative holder.id a1.token_balance_raw s1 in
    let g' = count_holders left joined g in
    let s3 = save_governance_if (left || joined) g' s2 in (g', save_account (leave_if left a1) s3)

abbrev pub mint : Governance → Governance
mint g = record g { total_token_holders = g.total_token_holders +ℤ bigint_one }

-- The `fromHolder` part, on the holder and the governance entity that were read before it.
unfoldable pub update_from_holder : Transfer → Account → Governance → Store → Governance × Store
update_from_holder e holder g s =
    if str_eq e.from zero_address
    then (mint g, save_governance (mint g) s)
    else debit_holder e holder g s

-- The assignments to `toHolder` before `currentTokenHolders` is counted.
abbrev pub take_token : String → Account → Account
take_token id a =
    let balance = a.token_balance_raw +ℤ bigint_one in
    let held = a.total_tokens_held_raw +ℤ bigint_one in
    record a {
      token_balance_raw = balance;
      token_balance = balance;
      total_tokens_held_raw = held;
      total_tokens_held = held;
      theword = a.theword ++ id ∷ [];
    }

abbrev pub burn_if : Bool → Governance → Governance
burn_if true g = record g { total_token_holders = g.total_token_holders -ℤ bigint_one }
burn_if false g = g

-- `toHolder.delegate = toHolder.id` in the second branch.
abbrev pub join_if : (left joined : Bool) → Account → Account
join_if false true a = record a { delegate = some a.id }
join_if _ _ a = a

abbrev pub theword_of : String → Table TheWord → TheWord
theword_of id thewords = elim (load thewords id) [
  | none ↦ record { id = id; seed = none; owner = none }
  | some t ↦ t
]

-- The `toHolder` part.
unfoldable pub update_to_holder : Transfer → Account → Governance → Store → Store
update_to_holder e holder g0 s0 =
    let burned = str_eq e.to zero_address in
    let g1 = burn_if burned g0 in
    let s1 = save_governance_if burned g1 s0 in
    let (d, s2) = delegate_of holder.id s1 in
    let s3 =
      save_delegate (record d { theword_represented = d.theword_represented ++ e.token_id ∷ [] })
        s2 in
    let a1 = take_token e.token_id holder in
    let left = has_left holder.token_balance_raw a1.token_balance_raw in
    let joined = has_joined holder.token_balance_raw a1.token_balance_raw in
    let s4 = save_governance_if (left || joined) (count_holders left joined g1) s3 in
    let a2 = join_if left joined a1 in
    let s5 = save_theword (record (theword_of e.token_id s4.thewords) { owner = some a2.id }) s4 in
    save_account a2 s5

-- Both holders and the governance entity are read before anything is saved.
unfoldable pub handle_transfer : Transfer → Store → Store
handle_transfer e s0 =
    let (from_holder, s1) = account_of e.from s0 in
    let (to_holder, s2) = account_of e.to s1 in
    let (g, s3) = update_from_holder e from_holder (get_governance_entity s2) s2 in
    update_to_holder e to_holder g s3
