-- ===== src/Webapp/Governance/Listing.antt =====
-- Which proposal is found under a number.
use theword_monorepo.Prelude.{
  ℕ, zero, suc, ◌+◌, ◌≡◌, refl, true, false, Option, some, List, [], ◌∷◌, map, arith, ◌==◌,
}
use theword_monorepo.Webapp.Governance.{
  ProposalState, ProposalCallResult, FormattedLog, build_proposal, build_proposals, answer_at, at,
  all_proposals, find_proposal, has_id, use_proposal,
}
use theword_monorepo.Webapp.Markdown.{or_default}

-- The results have the numbers that follow `start`, in order.
abbrev pub AreNumbered : ℕ → List ProposalCallResult → Type 0
AreNumbered start [] = Unit
AreNumbered start (r ∷ results) = (r.id ≡ start + 1) × AreNumbered (start + 1) results

module _ (voting_delay : ℕ) (states : List (Option ProposalState)) (logs : List FormattedLog) where
  has_id-built :
      (id : ℕ) (q : ProposalCallResult) (state : Option ProposalState) (log : Option FormattedLog)
      → has_id id (build_proposal voting_delay (some q) state log) ≡ (q.id == id)
  unfolding build_proposal
  has_id-built id q state log = refl

  find_proposal-built :
      (results : List ProposalCallResult) (start i place : ℕ) (r : ProposalCallResult)
      → AreNumbered start results
      → at results i ≡ some r
      → place ≡ start + i
      → find_proposal
          (place + 1)
          (build_proposals voting_delay states logs start (map some results))
        ≡ some (build_proposal voting_delay (some r) (answer_at states place) (at logs place))
  unfolding find_proposal build_proposals
  find_proposal-built [] start i place r h e k = cc
  find_proposal-built (q ∷ results) start zero place r (h, more) e k =
      let same : (q.id == place + 1) ≡ true = ground arith in
      let here : start ≡ place = omega arith in
      let it : q ≡ r = cc in
      rw (has_id-built (place + 1) q (answer_at states start) (at logs start), same)
        (rw (here, it) refl)
  find_proposal-built (q ∷ results) start (suc i) place r (h, more) e k =
      let other : (q.id == place + 1) ≡ false = ground arith in
      rw (has_id-built (place + 1) q (answer_at states start) (at logs start), other)
        (find_proposal-built results (start + 1) i place r more e (omega arith))

-- If the calls for the indices gave the proposals with the numbers from 1 on, in order, and there are
-- logs, then nothing is loading any more, and the proposal that is found under a number is made of
-- the call, the state and the log at the place before that number.
pub use_proposal-at :
    (voting_delay : Option ℕ) (results : List ProposalCallResult)
    (states : List (Option ProposalState)) (log : FormattedLog) (logs : List FormattedLog) (i : ℕ)
    (r : ProposalCallResult)
    → AreNumbered 0 results
    → at results i ≡ some r
    → ((all_proposals voting_delay (map some results) states (some (log ∷ logs))).loading ≡ false)
      × (use_proposal
            (i + 1)
            (all_proposals voting_delay (map some results) states (some (log ∷ logs)))
          ≡ some (
              build_proposal
                (or_default 0 voting_delay)
                (some r)
                (answer_at states i)
                (at (log ∷ logs) i)))
unfolding all_proposals use_proposal
use_proposal-at voting_delay [] states log logs i r h e = cc
use_proposal-at voting_delay (q ∷ results) states log logs i r h e = (
  refl,
  find_proposal-built (or_default 0 voting_delay) states (log ∷ logs) (q ∷ results) 0 i i r h e
      (omega arith),
)
