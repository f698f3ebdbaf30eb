-- ===== src/Webapp/Functions.antt =====
-- packages/theword-webapp/functions: the words as the subgraph gives them, and what the functions make
-- of them. The conversions of ethers and of JavaScript, the recovery of a signer and the parsing of
-- JSON are parameters; `none` is an exception.
pub mod Votes
pub mod Holders
pub mod Signature
mod Tests
use theword_monorepo.Prelude.{
  ℕ, String, Bool, true, false, not, ◌&&◌, Option, none, some, List, [], ◌∷◌, ◌++◌, map, ltb, ◌==◌,
  if◌then◌else◌, str_eq, length,
}

infixl 20 ◌>>=◌
abbrev ◌>>=◌ {ℓ κ} : {A : Type ℓ} {B : Type κ} → Option A → (A → Option B) → Option B
none >>= f = none
some a >>= f = f a

-- What the subgraph answers: texts, and a delegate that may be missing.
pub record QueriedVote : Type 0 where
  pub proposal_id : String
  pub support_detailed : String

pub record QueriedSeed : Type 0 where
  pub background : String
  pub body : String
  pub accessory : String
  pub head : String
  pub glasses : String

pub record QueriedTheWord : Type 0 where
  pub id : String
  pub owner_id : String
  pub delegate_id : Option String
  pub votes : List QueriedVote
  pub seed : QueriedSeed

-- A number of JavaScript as far as the conversions give it; `none` is `NaN`.
abbrev pub Number : Type 0
Number = Option ℕ

pub record NormalizedVote : Type 0 where
  pub proposal_id : Number
  pub support_detailed : Number

pub record Seed : Type 0 where
  pub background : Number
  pub body : Number
  pub accessory : Number
  pub head : Number
  pub glasses : Number

pub record NormalizedTheWord : Type 0 where
  pub id : Number
  pub owner : String
  pub delegated_to : Option String
  pub votes : List NormalizedVote
  pub seed : Seed

module _ (number : String → Number) where
  abbrev pub normalize_vote : QueriedVote → NormalizedVote
  normalize_vote vote = record {
    proposal_id = number vote.proposal_id;
    support_detailed = number vote.support_detailed;
  }

  abbrev pub normalize_seed : QueriedSeed → Seed
  normalize_seed seed = record {
    background = number seed.background;
    body = number seed.body;
    accessory = number seed.accessory;
    head = number seed.head;
    glasses = number seed.glasses;
  }

  abbrev pub normalize_the_word : QueriedTheWord → NormalizedTheWord
  normalize_the_word theword = record {
    id = number theword.id;
    owner = theword.owner_id;
    delegated_to = theword.delegate_id;
    votes = map (λ v. normalize_vote v) theword.votes;
    seed = normalize_seed theword.seed;
  }

  abbrev pub normalize_theword : List QueriedTheWord → List NormalizedTheWord
  normalize_theword theword = map (λ w. normalize_the_word w) theword

pub record ProposalVote : Type 0 where
  pub theword_id : Number
  pub owner : String
  pub delegated_to : Option String
  pub support_detailed : Number

abbrev pub built_proposal_vote : NormalizedTheWord → NormalizedVote → ProposalVote
built_proposal_vote theword vote = record {
  theword_id = theword.id;
  owner = theword.owner;
  delegated_to = theword.delegated_to;
  support_detailed = vote.support_detailed;
}

-- The object from numbers to votes. `NaN` is a key of its own.
abbrev pub ProposalVotes : Type 0
ProposalVotes = List (Number × List ProposalVote)

abbrev pub same_key : Number → Number → Bool
same_key none none = true
same_key none (some n) = false
same_key (some m) none = false
same_key (some m) (some n) = m == n

-- `acc[key]`
unfoldable pub votes_at : ProposalVotes → Number → Option (List ProposalVote)
votes_at [] key = none
votes_at ((k, votes) ∷ acc) key = if same_key k key then some votes else votes_at acc key

-- An entry is made for a key that has none, and the vote is pushed to the entry.
unfoldable pub push_vote : Number → ProposalVote → ProposalVotes → ProposalVotes
push_vote key vote [] = (key, vote ∷ []) ∷ []
push_vote key vote ((k, votes) ∷ acc) =
    if same_key k key then (k, votes ++ vote ∷ []) ∷ acc else (k, votes) ∷ push_vote key vote acc

unfoldable pub add_votes : NormalizedTheWord → List NormalizedVote → ProposalVotes → ProposalVotes
add_votes theword [] acc = acc
add_votes theword (vote ∷ votes) acc =
    add_votes theword votes (push_vote vote.proposal_id (built_proposal_vote theword vote) acc)

unfoldable pub reduce_from : List NormalizedTheWord → ProposalVotes → ProposalVotes
reduce_from [] acc = acc
reduce_from (w ∷ theword) acc = reduce_from theword (add_votes w w.votes acc)

unfoldable pub reduce_proposal_votes : List NormalizedTheWord → ProposalVotes
reduce_proposal_votes theword = reduce_from theword []

-- What `R.pick` leaves of a word for the owners, the seeds and the votes.
pub record LiteTheWord : Type 0 where
  pub id : Number
  pub owner : String
  pub delegated_to : Option String

abbrev pub lighten_the_word : NormalizedTheWord → LiteTheWord
lighten_the_word w = record { id = w.id; owner = w.owner; delegated_to = w.delegated_to }

pub record SeededTheWord : Type 0 where
  pub id : Number
  pub seed : Seed

abbrev pub build_seeded_the_word : NormalizedTheWord → SeededTheWord
build_seeded_the_word w = record { id = w.id; seed = w.seed }

pub record TheWordVote : Type 0 where
  pub id : Number
  pub owner : String
  pub delegated_to : Option String
  pub votes : List NormalizedVote

abbrev pub build_the_word_vote : NormalizedTheWord → TheWordVote
build_the_word_vote w = record {
  id = w.id;
  owner = w.owner;
  delegated_to = w.delegated_to;
  votes = w.votes;
}

-- `array.filter(test)` with a test that may throw.
unfoldable pub filter_words :
    (NormalizedTheWord → Option Bool) → List NormalizedTheWord → Option (List NormalizedTheWord)
filter_words test [] = some []
filter_words test (w ∷ theword) =
    let rest = filter_words test theword in
    test w >>= (λ keep. rest >>= (λ kept. some (if keep then w ∷ kept else kept)))

abbrev pub is_nonempty : List NormalizedTheWord → Bool
is_nonempty theword = ltb 0 (length theword)

module _ (big_number : String → Option ℕ) where
  unfoldable pub big_numbers_equal : String → String → Option Bool
  big_numbers_equal a b = big_number a >>= (λ m. big_number b >>= (λ n. some (m == n)))

  abbrev pub owner_test : String → NormalizedTheWord → Option Bool
  owner_test address w = big_numbers_equal address w.owner

  -- A word without a delegate, or with an empty one, is left out before the comparison.
  abbrev pub delegate_from : String → Option String → Option Bool
  delegate_from address none = some false
  delegate_from address (some d) = if str_eq d "" then some false else big_numbers_equal address d

  abbrev pub delegate_test : String → NormalizedTheWord → Option Bool
  delegate_test address w = delegate_from address w.delegated_to

  unfoldable pub is_the_word_owner : String → List NormalizedTheWord → Option Bool
  is_the_word_owner address theword =
      filter_words (owner_test address) theword >>= (λ kept. some (is_nonempty kept))

  unfoldable pub is_the_word_delegate : String → List NormalizedTheWord → Option Bool
  is_the_word_delegate address theword =
      filter_words (delegate_test address) theword >>= (λ kept. some (is_nonempty kept))
