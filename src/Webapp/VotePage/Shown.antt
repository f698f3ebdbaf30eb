-- ===== src/Webapp/VotePage/Shown.antt =====
-- What the page and the row of a word's profile show of a proposal.
use theword_monorepo.Prelude.{◌≡◌, true, ◌⊎◌, ℕ, ◌≤◌, arith}
use theword_monorepo.Webapp.Governance.{succeeded, queued, Proposal}
use theword_monorepo.Webapp.VotePage.{
  is_awaiting_state_change, eta_time, move_state_action, queue_proposal, execute_proposal,
}

-- Where the page waits for a change of state, the button makes the change that the state admits: it
-- queues a proposal that succeeded, and executes one that is queued and whose time has come; and in
-- no other state does the page wait.
pub awaiting_move :
    (now : ℕ) (p : Proposal)
    → is_awaiting_state_change now p ≡ true
    → ((p.status ≡ succeeded) × (move_state_action p ≡ queue_proposal))
      ⊎ ((p.status ≡ queued) × (move_state_action p ≡ execute_proposal) × (eta_time p.eta ≤ now))
unfolding is_awaiting_state_change move_state_action
awaiting_move now p h = ground arith
