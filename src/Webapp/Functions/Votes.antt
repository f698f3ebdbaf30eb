-- ===== src/Webapp/Functions/Votes.antt =====
-- v0-proposal-votes: the votes of each proposal.
use theword_monorepo.Prelude.{
  ◌≡◌, refl, sym, ◌∙◌, ap, true, false, Option, none, some, List, [], ◌∷◌, ◌++◌, map, arith, ==_iff,
  inl, inr, Bool-cases, filter,
}
use mathlib.Core.Path.{subst}
use mathlib.Core.List.{append_assoc, append-nil}
use theword_monorepo.Webapp.Functions.{
  Number, NormalizedVote, NormalizedTheWord, ProposalVote, built_proposal_vote, ProposalVotes,
  same_key, votes_at, push_vote, add_votes, reduce_from, reduce_proposal_votes,
}

-- No entry stands for no votes.
abbrev pub entry : List ProposalVote → Option (List ProposalVote)
entry [] = none
entry (v ∷ votes) = some (v ∷ votes)

-- The votes of an entry that may be missing, and more votes.
abbrev more : Option (List ProposalVote) → List ProposalVote → Option (List ProposalVote)
more none votes = entry votes
more (some old) votes = some (old ++ votes)

-- The votes of a word on a proposal.
abbrev pub votes_of : Number → NormalizedTheWord → List ProposalVote
votes_of key w =
    map (λ v. built_proposal_vote w v) (filter (λ v. same_key v.proposal_id key) w.votes)

-- The votes of all words on a proposal, in the order of the words.
abbrev pub all_votes : Number → List NormalizedTheWord → List ProposalVote
all_votes key [] = []
all_votes key (w ∷ theword) = votes_of key w ++ all_votes key theword

same_key_eq : (a b : Number) → same_key a b ≡ true → a ≡ b
same_key_eq none none h = refl
same_key_eq none (some n) h = cc
same_key_eq (some m) none h = cc
same_key_eq (some m) (some n) h = ap some ((==_iff m n).0 h)

same_key_refl : (a : Number) → same_key a a ≡ true
same_key_refl none = refl
same_key_refl (some m) = ground arith

votes_at-push_other :
    (acc : ProposalVotes) (k key : Number) (vote : ProposalVote)
    → same_key k key ≡ false
    → votes_at (push_vote k vote acc) key ≡ votes_at acc key
unfolding votes_at push_vote
votes_at-push_other [] k key vote h = rw h refl
votes_at-push_other ((j, votes) ∷ acc) k key vote h = elim (Bool-cases (same_key j k)) [
  | inl same ↦
      let e : j ≡ k = same_key_eq j k same in
      let other : same_key j key ≡ false = rw e h in rw (same, other) refl
  | inr other ↦ rw (other, votes_at-push_other acc k key vote h) refl
]

votes_at-push_self :
    (acc : ProposalVotes) (k : Number) (vote : ProposalVote)
    → votes_at (push_vote k vote acc) k ≡ more (votes_at acc k) (vote ∷ [])
unfolding votes_at push_vote
votes_at-push_self [] k vote = rw (same_key_refl k) refl
votes_at-push_self ((j, votes) ∷ acc) k vote = elim (Bool-cases (same_key j k)) [
  | inl same ↦ rw (same, same) refl
  | inr other ↦ rw (other, other, votes_at-push_self acc k vote) refl
]

more-more :
    (o : Option (List ProposalVote)) (v : ProposalVote) (votes : List ProposalVote)
    → more (more o (v ∷ [])) votes ≡ more o (v ∷ votes)
more-more none v votes = refl
more-more (some old) v votes = ap some (append_assoc old (v ∷ []) votes)

more-nil : (o : Option (List ProposalVote)) → more o [] ≡ o
more-nil none = refl
more-nil (some old) = ap some (append-nil old)

more-append :
    (o : Option (List ProposalVote)) (a b : List ProposalVote) → more (more o a) b ≡ more o (a ++ b)
more-append none [] b = refl
more-append none (v ∷ a) b = refl
more-append (some old) a b = ap some (append_assoc old a b)

abbrev chosen : Number → NormalizedTheWord → List NormalizedVote → List ProposalVote
chosen key w votes =
    map (λ v. built_proposal_vote w v) (filter (λ v. same_key v.proposal_id key) votes)

votes_at-add_votes :
    (w : NormalizedTheWord) (votes : List NormalizedVote) (acc : ProposalVotes) (key : Number)
    → votes_at (add_votes w votes acc) key ≡ more (votes_at acc key) (chosen key w votes)
unfolding add_votes
votes_at-add_votes w [] acc key = sym (more-nil (votes_at acc key))
votes_at-add_votes w (v ∷ votes) acc key =
    let pushed = push_vote v.proposal_id (built_proposal_vote w v) acc in
    let rest = votes_at-add_votes w votes pushed key in
    elim (Bool-cases (same_key v.proposal_id key)) [
      | inr other ↦
          rw
            (rest, votes_at-push_other acc v.proposal_id key (built_proposal_vote w v) other, other)
            refl
      | inl same ↦
          let e : v.proposal_id ≡ key = same_key_eq v.proposal_id key same in
          let here : votes_at pushed key ≡ more (votes_at acc key) (built_proposal_vote w v ∷ []) =
            subst (λ k. votes_at pushed k ≡ more (votes_at acc k) (built_proposal_vote w v ∷ [])) e
              (votes_at-push_self acc v.proposal_id (built_proposal_vote w v)) in
          rw (rest, here, same)
            (more-more (votes_at acc key) (built_proposal_vote w v) (chosen key w votes))
    ]

votes_at-reduce_from :
    (theword : List NormalizedTheWord) (acc : ProposalVotes) (key : Number)
    → votes_at (reduce_from theword acc) key ≡ more (votes_at acc key) (all_votes key theword)
unfolding reduce_from
votes_at-reduce_from [] acc key = sym (more-nil (votes_at acc key))
votes_at-reduce_from (w ∷ theword) acc key =
    votes_at-reduce_from theword (add_votes w w.votes acc) key
    ∙ ap (λ o. more o (all_votes key theword)) (votes_at-add_votes w w.votes acc key)
    ∙ more-append (votes_at acc key) (votes_of key w) (all_votes key theword)

-- The entry of a proposal in the answer has the votes on it of all words, in the order of the words
-- and of their votes, and there is an entry exactly for the proposals that have votes.
pub reduce_proposal_votes-all :
    (theword : List NormalizedTheWord) (key : Number)
    → votes_at (reduce_proposal_votes theword) key ≡ entry (all_votes key theword)
unfolding reduce_proposal_votes votes_at
reduce_proposal_votes-all theword key = votes_at-reduce_from theword [] key
