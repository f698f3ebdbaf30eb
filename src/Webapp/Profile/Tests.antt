-- ===== src/Webapp/Profile/Tests.antt =====
-- A profile with two proposals, and birthdays.
use theword_monorepo.Prelude.{◌≡◌, refl, false, none, some, List, [], ◌∷◌, ◌++◌}
use theword_monorepo.Webapp.Offering.{OfferingState}
use theword_monorepo.Webapp.Display.{find_past}
use theword_monorepo.Webapp.Governance.{Proposal, active, executed}
use theword_monorepo.Webapp.Badges.{
  yes_vote, pending_vote, select_icon, select_voting_info_text, select_proposal_status,
}
use theword_monorepo.Webapp.Profile.Activity.{vote_of-decided}
use theword_monorepo.Webapp.Profile.{
  vote_of, TheWordVoteHistory, highest, vote_row, no_activity, hidden, put_vote, vote_on,
  reduce_votes, profile_vote_row, reversed, activity_feed, birthday, nothing, exception, born,
  theword_id_for_query,
}

abbrev proposal : Proposal
proposal = record {
  id = some 1;
  title = [];
  description = none;
  status = executed;
  for_count = 1;
  against_count = 0;
  abstain_count = 0;
  created_block = none;
  start_block = none;
  end_block = none;
  eta = none;
  proposer = none;
  proposal_threshold = 1;
  quorum_votes = 1;
  details = none;
  transaction_hash = none;
}

abbrev proposals : List Proposal
proposals = proposal ∷ record proposal { id = some 2; status = active } ∷ []

abbrev history : List TheWordVoteHistory
history =
    record { proposal_id = 1; support_detailed = 0 }
    ∷ record { proposal_id = 1; support_detailed = 1 }
    ∷ []

latest_first :
    activity_feed 7 (λ p. highest (some 9)) history proposals
    ≡ some (
        vote_row pending_vote "Waiting for" [] "pending"
        ∷ vote_row yes_vote "Voted for" [] "success"
        ∷ [])
unfolding activity_feed reduce_votes put_vote vote_on reversed profile_vote_row select_icon
    select_voting_info_text select_proposal_status
latest_first = refl

new_token :
    activity_feed 12 (λ p. highest (some 9)) history proposals ≡ some (no_activity ∷ hidden ∷ [])
unfolding activity_feed reduce_votes put_vote vote_on reversed profile_vote_row
new_token = refl

abbrev past : List OfferingState
past =
    record {
      active_offering = some (record {
        amount = 1;
        bidder = "0xb2";
        start_time = 500;
        end_time = 600;
        theword_id = 11;
        settled = false;
      });
      bids = [];
    }
    ∷ []

birthdays :
    (birthday 10 past ≡ born 500)
    × (birthday 11 past ≡ born 500)
    × (birthday 12 past ≡ exception)
    × (birthday 12 [] ≡ nothing)
unfolding birthday find_past theword_id_for_query
birthdays = (refl, refl, refl, refl)

abbrev against_one : TheWordVoteHistory
against_one = record { proposal_id = 1; support_detailed = 0 }

abbrev for_one : TheWordVoteHistory
for_one = record { proposal_id = 1; support_detailed = 1 }

abbrev for_two : TheWordVoteHistory
for_two = record { proposal_id = 2; support_detailed = 1 }

vote_of-decided_example :
    vote_of (reduce_votes [] ((against_one ∷ []) ++ for_one ∷ for_two ∷ [])) (some 1) ≡ some for_one
vote_of-decided_example = vote_of-decided (against_one ∷ []) (for_two ∷ []) for_one (refl, tt)
