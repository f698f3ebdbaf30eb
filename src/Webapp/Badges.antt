-- ===== src/Webapp/Badges.antt =====
-- components/ProposalStatus, components/TheWordProfileVoteRow and components/VoteModal: the texts and
-- the icons for the state of a proposal and for a vote.
use theword_monorepo.Prelude.{
  ℕ, ◌≡◌, refl, String, Bool, true, false, Option, none, some, ◌==◌, if◌then◌else◌,
}
use theword_monorepo.Webapp.Governance.{
  Vote, against, for, abstain, ProposalState, undetermined, pending, active, canceled, defeated,
  succeeded, queued, expired, executed, vetoed,
}

-- components/ProposalStatus
unfoldable pub status_variant : ProposalState → String
status_variant pending = "primary"
status_variant active = "primary"
status_variant succeeded = "success"
status_variant executed = "success"
status_variant defeated = "danger"
status_variant vetoed = "danger"
status_variant _ = "secondary"

unfoldable pub status_text : ProposalState → String
status_text pending = "Pending"
status_text active = "Active"
status_text succeeded = "Succeeded"
status_text executed = "Executed"
status_text defeated = "Defeated"
status_text queued = "Queued"
status_text canceled = "Canceled"
status_text vetoed = "Vetoed"
status_text expired = "Expired"
status_text undetermined = "Undetermined"

-- components/TheWordProfileVoteRow. The support is 0 against, 1 for, and any other number abstains.
pub data VoteIcon : Type 0 where
  pending_vote : VoteIcon
  absent_vote : VoteIcon
  yes_vote : VoteIcon
  abstain_vote : VoteIcon
  no_vote : VoteIcon

abbrev pub is_open : ProposalState → Bool
is_open pending = true
is_open active = true
is_open _ = false

unfoldable pub select_icon : ProposalState → Option ℕ → VoteIcon
select_icon status none = if is_open status then pending_vote else absent_vote
select_icon status (some support) =
    if support == 0 then no_vote else if support == 1 then yes_vote else abstain_vote

unfoldable pub select_voting_info_text : ProposalState → Option ℕ → String
select_voting_info_text status none = if is_open status then "Waiting for" else "Absent for"
select_voting_info_text status (some support) =
    if support == 0 then "Voted aginst" else if support == 1 then "Voted for" else "Abstained on"

unfoldable pub select_proposal_status : ProposalState → String
select_proposal_status succeeded = "success"
select_proposal_status executed = "success"
select_proposal_status queued = "success"
select_proposal_status defeated = "failure"
select_proposal_status vetoed = "failure"
select_proposal_status _ = "pending"

unfoldable pub select_proposal_text : ProposalState → String
select_proposal_text pending = "Pending"
select_proposal_text active = "Active"
select_proposal_text succeeded = "Succeeded"
select_proposal_text executed = "Executed"
select_proposal_text defeated = "Defeated"
select_proposal_text queued = "Queued"
select_proposal_text canceled = "Canceled"
select_proposal_text vetoed = "Vetoed"
select_proposal_text expired = "Expired"
select_proposal_text undetermined = "Undetermined"

-- components/VoteModal: the text of its title, without the proposal's number.
unfoldable pub vote_action_text : Option Vote → Option String
vote_action_text none = none
vote_action_text (some for) = some "Vote For Proposal "
vote_action_text (some against) = some "Vote Against Proposal "
vote_action_text (some abstain) = some "Vote to Abstain on Proposal "

-- The badge of a proposal and the row of a profile name every state alike.
pub status_text-same : (s : ProposalState) → status_text s ≡ select_proposal_text s
unfolding status_text select_proposal_text
status_text-same undetermined = refl
status_text-same pending = refl
status_text-same active = refl
status_text-same canceled = refl
status_text-same defeated = refl
status_text-same succeeded = refl
status_text-same queued = refl
status_text-same expired = refl
status_text-same executed = refl
status_text-same vetoed = refl
