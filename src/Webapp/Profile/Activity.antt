-- ===== src/Webapp/Profile/Activity.antt =====
-- Which vote a row of the profile shows.
use theword_monorepo.Prelude.{
  ℕ, ◌≡◌, refl, ap, ◌∙◌, true, false, Option, none, some, List, [], ◌∷◌, ◌++◌, Bool-cases, All, inl,
  inr, ◌==◌, if◌then◌else◌, arith,
}
use theword_monorepo.Webapp.Profile.{
  TheWordVoteHistory, TheWordVotes, put_vote, vote_on, reduce_votes, vote_of,
}

-- The last vote of the history on a proposal, or the one given where it has none.
abbrev pub last_vote :
    Option TheWordVoteHistory → List TheWordVoteHistory → ℕ → Option TheWordVoteHistory
last_vote found [] k = found
last_vote found (h ∷ history) k = last_vote (if h.proposal_id == k then some h else found) history k

vote_on-put :
    (votes : TheWordVotes) (h : TheWordVoteHistory) (k : ℕ)
    → vote_on (put_vote votes h) k ≡ (if h.proposal_id == k then some h else vote_on votes k)
unfolding vote_on put_vote
vote_on-put [] h k = refl
vote_on-put ((id, old) ∷ votes) h k = elim (Bool-cases (id == h.proposal_id)) [
  | inl e ↦
      let same : id ≡ h.proposal_id = ground arith in
      elim (Bool-cases (id == k)) [
        | inl f ↦ let g : (h.proposal_id == k) ≡ true = ground arith in rw (e, f, g) refl
        | inr f ↦ let g : (h.proposal_id == k) ≡ false = ground arith in rw (e, f, g) refl
      ]
  | inr e ↦ elim (Bool-cases (id == k)) [
    | inl f ↦ let g : (h.proposal_id == k) ≡ false = ground arith in rw (e, f, g) refl
    | inr f ↦ rw (e, f) (vote_on-put votes h k)
  ]
]

reduce_votes-last :
    (votes : TheWordVotes) (history : List TheWordVoteHistory) (k : ℕ)
    → vote_on (reduce_votes votes history) k ≡ last_vote (vote_on votes k) history k
unfolding reduce_votes
reduce_votes-last votes [] k = refl
reduce_votes-last votes (h ∷ history) k =
    reduce_votes-last (put_vote votes h) history k
    ∙ ap (λ found. last_vote found history k) (vote_on-put votes h k)

-- The row of a proposal with an id shows the last vote of the history on it.
pub vote_of-last :
    (history : List TheWordVoteHistory) (k : ℕ)
    → vote_of (reduce_votes [] history) (some k) ≡ last_vote none history k
unfolding vote_on
vote_of-last history k = reduce_votes-last [] history k

last_vote-append :
    (found : Option TheWordVoteHistory) (history later : List TheWordVoteHistory) (k : ℕ)
    → last_vote found (history ++ later) k ≡ last_vote (last_vote found history k) later k
last_vote-append found [] later k = refl
last_vote-append found (h ∷ history) later k =
    last_vote-append (if h.proposal_id == k then some h else found) history later k

last_vote-silent :
    (found : Option TheWordVoteHistory) (later : List TheWordVoteHistory) (k : ℕ)
    → All (λ h. (h.proposal_id == k) ≡ false) later
    → last_vote found later k ≡ found
last_vote-silent found [] k a = refl
last_vote-silent found (h ∷ later) k (e, a) = rw e (last_vote-silent found later k a)

-- A vote that no later vote on the same proposal follows is the one that the row shows, whatever
-- votes came before.
pub vote_of-decided :
    (before later : List TheWordVoteHistory) (h : TheWordVoteHistory)
    → All (λ l. (l.proposal_id == h.proposal_id) ≡ false) later
    → vote_of (reduce_votes [] (before ++ h ∷ later)) (some h.proposal_id) ≡ some h
vote_of-decided before later h a =
    let k = h.proposal_id in
    let same : (k == k) ≡ true = ground arith in
    vote_of-last (before ++ h ∷ later) k
    ∙ last_vote-append none before (h ∷ later) k
    ∙ ap (λ b. last_vote (if b then some h else last_vote none before k) later k) same
    ∙ last_vote-silent (some h) later k a
