-- ===== src/Webapp/VotePage.antt =====
-- pages/Vote: what the page of a proposal computes, and how it follows its three transactions.
pub mod Pending
pub mod Shown
mod Tests
use Prim.Native.Char.{code}
use theword_monorepo.Prelude.{
  ℕ, zero, suc, ◌+◌, ◌*◌, String, Bool, true, false, not, ◌&&◌, ◌||◌, Option, none, some, List, [],
  ◌∷◌, ltb, leb, ◌==◌, if◌then◌else◌,
}
use theword_monorepo.Webapp.Governance.{
  Vote, against, for, abstain, ProposalState, undetermined, pending, active, canceled, defeated,
  succeeded, queued, expired, executed, vetoed, Proposal, of,
}
use theword_monorepo.Webapp.Markdown.{or_default}
use theword_monorepo.Webapp.Transactions.{
  TransactionState, idle, pending_signature, mining, success, fail, exception, TransactionStatus,
  AlertModal, alert, or_text, try_again,
}

abbrev starts_with : String → String → Bool
starts_with String.[] s = true
starts_with (String.◌∷◌ c p) String.[] = false
starts_with (String.◌∷◌ c p) (String.◌∷◌ d s) = (code c == code d) && starts_with p s

-- `text.match(/part/)`, the part without special characters.
unfoldable pub has_part : String → String → Bool
has_part p String.[] = starts_with p ""
has_part p (String.◌∷◌ c s) = starts_with p (String.◌∷◌ c s) || has_part p s

unfoldable pub get_vote_error_message : Option String → Option String
get_vote_error_message none = none
get_vote_error_message (some error) =
    if has_part "voter already voted" error then some "User Already Voted" else some error

-- A percentage is kept as its numerator and its denominator; there are no votes where it is 0.
pub record Percentages : Type 0 where
  pub total_votes : ℕ
  pub for_percentage : ℕ
  pub against_percentage : ℕ
  pub abstain_percentage : ℕ

abbrev pub total_votes : Proposal → ℕ
total_votes p = p.for_count + p.against_count + p.abstain_count

unfoldable pub percentages : Proposal → Percentages
percentages p = record {
  total_votes = total_votes p;
  for_percentage = p.for_count * 100;
  against_percentage = p.against_count * 100;
  abstain_percentage = p.abstain_count * 100;
}

abbrev pub is_active : ProposalState → Bool
is_active active = true
is_active _ = false

-- Votes that are not there, or 0, show no buttons.
unfoldable pub show_voting_buttons : Option ℕ → Bool → Proposal → Bool
show_voting_buttons none has_voted p = false
show_voting_buttons (some votes) has_voted p =
    not (votes == 0) && not has_voted && is_active p.status

abbrev pub has_succeeded : ProposalState → Bool
has_succeeded succeeded = true
has_succeeded _ = false

abbrev pub max_safe_integer : ℕ
max_safe_integer = 9007199254740991

-- The time in milliseconds; `eta` is in seconds.
abbrev pub eta_time : Option ℕ → ℕ
eta_time none = max_safe_integer
eta_time (some eta) = eta * 1000

unfoldable pub is_awaiting_state_change : ℕ → Proposal → Bool
is_awaiting_state_change now p = elim p.status [
  | succeeded ↦ true
  | queued ↦ leb (eta_time p.eta) now
  | _ ↦ false
]

unfoldable pub quorum_reached : Proposal → Bool
quorum_reached p = ltb p.against_count p.for_count && leb p.quorum_votes p.for_count

pub data StateMove : Type 0 where
  queue_proposal : StateMove
  execute_proposal : StateMove

unfoldable pub move_state_action : Proposal → StateMove
move_state_action p = if has_succeeded p.status then queue_proposal else execute_proposal

pub record PageState : Type 0 where
  pub show_vote_modal : Bool
  pub is_vote_pending : Bool
  pub is_queue_pending : Bool
  pub is_execute_pending : Bool
  pub modal : Option AlertModal

abbrev pub set_modal : AlertModal → PageState → PageState
set_modal m s = record s { modal = some m }

-- The last state of a transaction: an alert, and then the two callbacks.
abbrev pub finish :
    AlertModal → (Bool → PageState → PageState) → (PageState → PageState) → PageState → PageState
finish m set_pending on_final_state s = on_final_state (set_pending false (set_modal m s))

-- A callback that is left out does nothing, and the error message that is left out gives none.
unfoldable pub on_transaction_state_change :
    TransactionStatus
    → String
    → (Bool → PageState → PageState)
    → (Option String → Option String)
    → (PageState → PageState)
    → PageState
    → PageState
on_transaction_state_change tx success_message set_pending get_error_message on_final_state s =
    elim tx.status [
      | idle ↦ set_pending false s
      | pending_signature ↦ s
      | mining ↦ set_pending true s
      | success ↦
          finish (alert "Success" (or_text (some success_message) "Transaction Successful!"))
            set_pending on_final_state s
      | fail ↦
          finish (alert "Transaction Failed" (or_text tx.error_message try_again)) set_pending
            on_final_state s
      | exception ↦
          finish (alert "Error" (or_text (get_error_message tx.error_message) try_again))
            set_pending on_final_state s
    ]

abbrev pub set_vote_pending : Bool → PageState → PageState
set_vote_pending b s = record s { is_vote_pending = b }

abbrev pub set_queue_pending : Bool → PageState → PageState
set_queue_pending b s = record s { is_queue_pending = b }

abbrev pub set_execute_pending : Bool → PageState → PageState
set_execute_pending b s = record s { is_execute_pending = b }

abbrev pub hide_vote_modal : PageState → PageState
hide_vote_modal s = record s { show_vote_modal = false }

-- A change of the state of one of the three transactions, or the opening or the closing of the vote's
-- dialog.
pub data PageEvent : Type 0 where
  cast_vote_state : TransactionStatus → PageEvent
  queue_proposal_state : TransactionStatus → PageEvent
  execute_proposal_state : TransactionStatus → PageEvent
  open_vote_modal : PageEvent
  close_vote_modal : PageEvent

unfoldable pub on_event : PageEvent → PageState → PageState
on_event (cast_vote_state tx) s =
    on_transaction_state_change tx "Vote Successful!" set_vote_pending get_vote_error_message
      hide_vote_modal s
on_event (queue_proposal_state tx) s =
    on_transaction_state_change tx "Proposal Queued!" set_queue_pending (λ e. none) (λ t. t) s
on_event (execute_proposal_state tx) s =
    on_transaction_state_change tx "Proposal Executed!" set_execute_pending (λ e. none) (λ t. t) s
on_event open_vote_modal s = record s { show_vote_modal = true }
on_event close_vote_modal s = hide_vote_modal s

unfoldable pub on_events : List PageEvent → PageState → PageState
on_events [] s = s
on_events (e ∷ events) s = on_events events (on_event e s)
