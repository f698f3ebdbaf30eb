-- ===== src/Webapp/Governance/Form.antt =====
-- pages/CreateProposal: the state of the form that makes a proposal.
use theword_monorepo.Prelude.{
  ℕ, zero, suc, ◌≡◌, refl, Bool, true, false, not, ◌&&◌, ◌||◌, Option, none, some, List, [], ◌∷◌,
  ◌++◌, map, ltb, ◌==◌, if◌then◌else◌, All, inl, inr, Bool-cases,
}
use theword_monorepo.Sdk.Hex.{Text}
use theword_monorepo.Webapp.Transactions.{
  idle, pending_signature, mining, success, fail, exception, TransactionStatus, AlertModal, alert,
  or_text, try_again,
}

pub record ProposalTransaction : Type 0 where
  pub address : Text
  pub value : Text
  pub signature : Text
  pub calldata : Text

pub record FormState : Type 0 where
  pub transactions : List ProposalTransaction
  pub title_value : Text
  pub body_value : Text
  pub shows_modal : Bool

-- `text.startsWith('0x')`
abbrev pub starts_with_0x : Text → Bool
starts_with_0x (a ∷ b ∷ t) = (a == b'0') && (b == b'x')
starts_with_0x _ = false

abbrev pub with_0x : Text → Text
with_0x t = if starts_with_0x t then t else b'0' ∷ b'x' ∷ t

unfoldable pub handle_add_proposal_action : ProposalTransaction → FormState → FormState
handle_add_proposal_action t s = record s {
  transactions =
      s.transactions
      ++ record t { address = with_0x t.address; calldata = with_0x t.calldata } ∷ [];
  shows_modal = false;
}

-- `list.filter((_, i) => i !== index)`
abbrev pub without : ℕ → List ProposalTransaction → List ProposalTransaction
without index [] = []
without zero (t ∷ ts) = ts
without (suc index) (t ∷ ts) = t ∷ without index ts

unfoldable pub handle_remove_proposal_action : ℕ → FormState → FormState
handle_remove_proposal_action index s = record s { transactions = without index s.transactions }

abbrev pub handle_title_input : Text → FormState → FormState
handle_title_input title s = record s { title_value = title }

abbrev pub handle_body_input : Text → FormState → FormState
handle_body_input body s = record s { body_value = body }

abbrev pub is_nil {ℓ} : {A : Type ℓ} → List A → Bool
is_nil [] = true
is_nil (x ∷ xs) = false

unfoldable pub is_form_invalid : FormState → Bool
is_form_invalid s = is_nil s.transactions || is_nil s.title_value || is_nil s.body_value

-- Votes that are not there, or 0, are not enough.
unfoldable pub has_enough_vote : Option ℕ → Option ℕ → Bool
has_enough_vote none threshold = false
has_enough_vote (some votes) none = false
has_enough_vote (some votes) (some threshold) = not (votes == 0) && ltb threshold votes

unfoldable pub description_of : Text → Text → Text
description_of title body = b'#' ∷ b' ' ∷ title ++ (10 ∷ 10 ∷ body)

-- What is sent to the contract.
pub record ProposeCall : Type 0 where
  pub targets : List Text
  pub values : List Text
  pub signatures : List Text
  pub calldatas : List Text
  pub description : Text

unfoldable pub handle_create_proposal : FormState → Option ProposeCall
handle_create_proposal s =
    if is_nil s.transactions
    then none
    else some (record {
      targets = map (λ t. t.address) s.transactions;
      values = map (λ t. t.value) s.transactions;
      signatures = map (λ t. t.signature) s.transactions;
      calldatas = map (λ t. t.calldata) s.transactions;
      description = description_of s.title_value s.body_value;
    })

pub record ProposePage : Type 0 where
  pub is_propose_pending : Bool
  pub modal : Option AlertModal

-- The effect of the state of the transaction that proposes.
unfoldable pub on_propose_state : TransactionStatus → ProposePage → ProposePage
on_propose_state tx s = elim tx.status [
  | idle ↦ record s { is_propose_pending = false }
  | pending_signature ↦ s
  | mining ↦ record s { is_propose_pending = true }
  | success ↦ record {
    is_propose_pending = false;
    modal = some (alert "Success" "Proposal Created!");
  }
  | fail ↦ record {
    is_propose_pending = false;
    modal = some (alert "Transaction Failed" (or_text tx.error_message try_again));
  }
  | exception ↦ record {
    is_propose_pending = false;
    modal = some (alert "Error" (or_text tx.error_message try_again));
  }
]

-- Adding a transaction, or removing one at a place.
pub data Action : Type 0 where
  add : ProposalTransaction → Action
  remove : ℕ → Action

unfoldable pub act : Action → FormState → FormState
act (add t) s = handle_add_proposal_action t s
act (remove index) s = handle_remove_proposal_action index s

unfoldable pub run : List Action → FormState → FormState
run [] s = s
run (a ∷ actions) s = run actions (act a s)

abbrev pub HasPrefixes : ProposalTransaction → Type 0
HasPrefixes t = (starts_with_0x t.address ≡ true) × (starts_with_0x t.calldata ≡ true)

starts_with_0x-with_0x : (t : Text) → starts_with_0x (with_0x t) ≡ true
starts_with_0x-with_0x t = elim (Bool-cases (starts_with_0x t)) [
  | inl there ↦ rw there there
  | inr missing ↦ rw missing refl
]

All-snoc :
    (ts : List ProposalTransaction) (t : ProposalTransaction)
    → All HasPrefixes ts
    → HasPrefixes t
    → All HasPrefixes (ts ++ t ∷ [])
All-snoc [] t h k = (k, tt)
All-snoc (s ∷ ts) t (h, rest) k = (h, All-snoc ts t rest k)

All-without :
    (index : ℕ) (ts : List ProposalTransaction)
    → All HasPrefixes ts
    → All HasPrefixes (without index ts)
All-without index [] h = tt
All-without zero (t ∷ ts) (h, rest) = rest
All-without (suc index) (t ∷ ts) (h, rest) = (h, All-without index ts rest)

-- After any additions and removals, the address and the call data of every transaction of the form
-- begin with `0x`, if that was so before.
pub run-HasPrefixes :
    (actions : List Action) (s : FormState)
    → All HasPrefixes s.transactions
    → All HasPrefixes (run actions s).transactions
unfolding run act handle_add_proposal_action handle_remove_proposal_action
run-HasPrefixes [] s h = h
run-HasPrefixes (add t ∷ actions) s h = run-HasPrefixes actions (handle_add_proposal_action t s) (
    All-snoc s.transactions
      (record t { address = with_0x t.address; calldata = with_0x t.calldata }) h
      (starts_with_0x-with_0x t.address, starts_with_0x-with_0x t.calldata))
run-HasPrefixes (remove index ∷ actions) s h =
    run-HasPrefixes actions (handle_remove_proposal_action index s)
      (All-without index s.transactions h)
