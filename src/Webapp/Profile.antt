-- ===== src/Webapp/Profile.antt =====
-- components/ProfileActivityFeed, components/TheWordProfileVoteRow and
-- components/TheWordInfoRowBirthday: the rows of a profile and the start time that its birthday
-- shows. What the queries answer is an argument.
pub mod Activity
mod Tests
use theword_monorepo.Prelude.{
  ℕ, ◌+◌, String, Bool, true, false, not, ◌&&◌, Option, none, some, List, [], ◌∷◌, ◌++◌, map, ltb,
  ◌==◌, if◌then◌else◌, length,
}
use theword_monorepo.Webapp.Offering.{OfferingState}
use theword_monorepo.Webapp.Display.{is_thewordder_theword, find_past}
use theword_monorepo.Webapp.Governance.{Proposal}
use theword_monorepo.Sdk.Hex.{Text}
use theword_monorepo.Webapp.Badges.{
  VoteIcon, select_icon, select_voting_info_text, select_proposal_status,
}

pub record TheWordVoteHistory : Type 0 where
  pub proposal_id : ℕ
  pub support_detailed : ℕ

-- The object that `reduce` fills, with a key per proposal.
abbrev pub TheWordVotes : Type 0
TheWordVotes = List (ℕ × TheWordVoteHistory)

unfoldable pub put_vote : TheWordVotes → TheWordVoteHistory → TheWordVotes
put_vote [] h = (h.proposal_id, h) ∷ []
put_vote ((id, old) ∷ votes) h =
    let rest = put_vote votes h in if id == h.proposal_id then (id, h) ∷ votes else (id, old) ∷ rest

unfoldable pub vote_on : TheWordVotes → ℕ → Option TheWordVoteHistory
vote_on [] k = none
vote_on ((id, h) ∷ votes) k = let rest = vote_on votes k in if id == k then some h else rest

unfoldable pub reduce_votes : TheWordVotes → List TheWordVoteHistory → TheWordVotes
reduce_votes votes [] = votes
reduce_votes votes (h ∷ history) = reduce_votes (put_vote votes h) history

-- What the query for the highest token at the time of the proposal gives: nothing yet, or the id of
-- the first offering, if there is one.
pub data Minted : Type 0 where
  loading : Minted
  highest : Option ℕ → Minted

pub data Row : Type 0 where
  hidden : Row
  no_activity : Row
  vote_row : VoteIcon → String → Text → String → Row

abbrev not_minted : ℕ → Option ℕ → Bool
not_minted theword_id none = false
not_minted theword_id (some id) = ltb id theword_id

abbrev is_latest : Option ℕ → ℕ → Bool
is_latest none latest = false
is_latest (some id) latest = id == latest

abbrev pub support_of : Option TheWordVoteHistory → Option ℕ
support_of none = none
support_of (some vote) = some vote.support_detailed

unfoldable pub profile_vote_row : ℕ → ℕ → Minted → Proposal → Option TheWordVoteHistory → Row
profile_vote_row theword_id latest loading p vote = hidden
profile_vote_row theword_id latest (highest minted) p vote =
    if not_minted theword_id minted
    then (if is_latest p.id latest then no_activity else hidden)
    else vote_row (select_icon p.status (support_of vote))
        (select_voting_info_text p.status (support_of vote)) p.title
        (select_proposal_status p.status)

abbrev pub vote_of : TheWordVotes → Option ℕ → Option TheWordVoteHistory
vote_of votes none = none
vote_of votes (some id) = vote_on votes id

unfoldable pub reversed : List Proposal → List Proposal
reversed [] = []
reversed (p ∷ proposals) = reversed proposals ++ p ∷ []

-- The rows, the latest proposal first; `none` is the picture shown while there is no proposal.
unfoldable pub activity_feed :
    ℕ → (Proposal → Minted) → List TheWordVoteHistory → List Proposal → Option (List Row)
activity_feed theword_id minted history proposals =
    let votes = reduce_votes [] history in
    let latest = length proposals in
    if latest == 0
    then none
    else some (
        map (λ p. profile_vote_row theword_id latest (minted p) p (vote_of votes p.id))
          (reversed proposals))

-- What the row of the birthday is: nothing, the exception of `BigNumber.from`, or the date of a start
-- time.
pub data Birthday : Type 0 where
  nothing : Birthday
  exception : Birthday
  born : ℕ → Birthday

unfoldable pub theword_id_for_query : ℕ → ℕ
theword_id_for_query id = if is_thewordder_theword id then id + 1 else id

abbrev pub birthday_of : Option OfferingState → Birthday
birthday_of none = exception
birthday_of (some s) = elim s.active_offering [ none ↦ exception | some o ↦ born o.start_time ]

unfoldable pub birthday : ℕ → List OfferingState → Birthday
birthday id [] = nothing
birthday id (s ∷ past) = birthday_of (find_past (theword_id_for_query id) (s ∷ past))
