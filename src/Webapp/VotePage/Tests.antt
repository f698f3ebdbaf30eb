-- ===== src/Webapp/VotePage/Tests.antt =====
-- The page on concrete events, and the theorems at them.
use theword_monorepo.Prelude.{◌≡◌, refl, false, none, some, List, [], ◌∷◌}
use theword_monorepo.Webapp.Transactions.{
  TransactionState, mining, pending_signature, exception, TransactionStatus, alert,
}
use theword_monorepo.Webapp.VotePage.{
  PageState, PageEvent, cast_vote_state, queue_proposal_state, open_vote_modal, on_event, on_events,
  on_transaction_state_change, get_vote_error_message, has_part,
}
use theword_monorepo.Webapp.VotePage.Pending.{flags_of, moves, on_events-moves}

abbrev fresh : PageState
fresh = record {
  show_vote_modal = false;
  is_vote_pending = false;
  is_queue_pending = false;
  is_execute_pending = false;
  modal = none;
}

abbrev tx : TransactionState → TransactionStatus
tx status = record { status = status; error_message = some "voter already voted" }

abbrev some_events : List PageEvent
some_events =
    open_vote_modal
    ∷ cast_vote_state (tx pending_signature)
    ∷ cast_vote_state (tx mining)
    ∷ queue_proposal_state (tx mining)
    ∷ cast_vote_state (tx exception)
    ∷ []

flags_of-on_events : flags_of (on_events some_events fresh) ≡ moves some_events (flags_of fresh)
flags_of-on_events = on_events-moves some_events fresh

-- The contract's words for a second vote are shown in other words.
second_vote : (on_events some_events fresh).modal ≡ some (alert "Error" "User Already Voted")
unfolding on_events on_event on_transaction_state_change get_vote_error_message has_part
second_vote = refl
