-- ===== src/Webapp/VotePage/Pending.antt =====
-- The flags of the page say whether a transaction is being mined.
use theword_monorepo.Prelude.{◌≡◌, refl, String, Bool, true, false, Option, List, [], ◌∷◌, ap, ◌∙◌}
use theword_monorepo.Webapp.Transactions.{
  TransactionState, idle, pending_signature, mining, success, fail, exception,
}
use theword_monorepo.Webapp.VotePage.{
  PageState, on_transaction_state_change, PageEvent, cast_vote_state, queue_proposal_state,
  execute_proposal_state, open_vote_modal, close_vote_modal, on_event, on_events,
}

-- A wallet that asks for the signature changes nothing; any other state decides.
abbrev pub mined : TransactionState → Bool → Bool
mined idle before = false
mined pending_signature before = before
mined mining before = true
mined _ before = false

-- Whether the dialog is still open.
abbrev pub kept_open : TransactionState → Bool → Bool
kept_open success before = false
kept_open fail before = false
kept_open exception before = false
kept_open _ before = before

pub record Flags : Type 0 where
  pub dialog : Bool
  pub vote : Bool
  pub queue : Bool
  pub execute : Bool

abbrev pub flags_of : PageState → Flags
flags_of s = record {
  dialog = s.show_vote_modal;
  vote = s.is_vote_pending;
  queue = s.is_queue_pending;
  execute = s.is_execute_pending;
}

-- Each transaction moves its own flag, and the vote's closes the dialog when it is over.
abbrev pub move : PageEvent → Flags → Flags
move (cast_vote_state tx) f = record f {
  dialog = kept_open tx.status f.dialog;
  vote = mined tx.status f.vote;
}
move (queue_proposal_state tx) f = record f { queue = mined tx.status f.queue }
move (execute_proposal_state tx) f = record f { execute = mined tx.status f.execute }
move open_vote_modal f = record f { dialog = true }
move close_vote_modal f = record f { dialog = false }

abbrev pub moves : List PageEvent → Flags → Flags
moves [] f = f
moves (e ∷ events) f = moves events (move e f)

flags_cast :
    (status : TransactionState) (message : Option String) (s : PageState)
    → flags_of (on_event (cast_vote_state (record { status = status; error_message = message })) s)
      ≡ move (cast_vote_state (record { status = status; error_message = message })) (flags_of s)
unfolding on_event on_transaction_state_change
flags_cast idle message s = refl
flags_cast pending_signature message s = refl
flags_cast mining message s = refl
flags_cast success message s = refl
flags_cast fail message s = refl
flags_cast exception message s = refl

flags_queue :
    (status : TransactionState) (message : Option String) (s : PageState)
    → flags_of
        (on_event (queue_proposal_state (record { status = status; error_message = message })) s)
      ≡ move
          (queue_proposal_state (record { status = status; error_message = message }))
          (flags_of s)
unfolding on_event on_transaction_state_change
flags_queue idle message s = refl
flags_queue pending_signature message s = refl
flags_queue mining message s = refl
flags_queue success message s = refl
flags_queue fail message s = refl
flags_queue exception message s = refl

flags_execute :
    (status : TransactionState) (message : Option String) (s : PageState)
    → flags_of
        (on_event (execute_proposal_state (record { status = status; error_message = message })) s)
      ≡ move
          (execute_proposal_state (record { status = status; error_message = message }))
          (flags_of s)
unfolding on_event on_transaction_state_change
flags_execute idle message s = refl
flags_execute pending_signature message s = refl
flags_execute mining message s = refl
flags_execute success message s = refl
flags_execute fail message s = refl
flags_execute exception message s = refl

on_event-move : (e : PageEvent) (s : PageState) → flags_of (on_event e s) ≡ move e (flags_of s)
unfolding on_event
on_event-move (cast_vote_state tx) s = flags_cast tx.status tx.error_message s
on_event-move (queue_proposal_state tx) s = flags_queue tx.status tx.error_message s
on_event-move (execute_proposal_state tx) s = flags_execute tx.status tx.error_message s
on_event-move open_vote_modal s = refl
on_event-move close_vote_modal s = refl

-- Over any changes of the three transactions, in any order, the page refines the machine of its four
-- flags: each transaction's flag says whether that transaction is being mined, which a request for a
-- signature leaves as it is, and the vote's dialog closes when its transaction has succeeded or failed.
pub on_events-moves :
    (events : List PageEvent) (s : PageState)
    → flags_of (on_events events s) ≡ moves events (flags_of s)
unfolding on_events
on_events-moves [] s = refl
on_events-moves (e ∷ events) s =
    on_events-moves events (on_event e s) ∙ ap (λ f. moves events f) (on_event-move e s)
