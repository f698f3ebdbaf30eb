-- ===== src/Webapp/Functions/Tests.antt =====
-- The functions on concrete words, and the theorems at them.
use theword_monorepo.Prelude.{
  ℕ, ◌≡◌, ◌⊎◌, refl, String, Bool, true, false, Option, none, some, List, [], ◌∷◌, str_eq,
  if◌then◌else◌,
}
use theword_monorepo.Webapp.Functions.{
  Seed, NormalizedTheWord, votes_at, reduce_proposal_votes, is_the_word_owner, is_the_word_delegate,
  big_numbers_equal, filter_words,
}
use theword_monorepo.Webapp.Functions.Votes.{entry, all_votes, reduce_proposal_votes-all}
use theword_monorepo.Webapp.Functions.Holders.{any_word, same_number, delegated_to, holders_answer}
use theword_monorepo.Webapp.Functions.Signature.{
  empty_body, Body, ParticipantData, Verification, invalid_body_check, handler, IsSigned,
  only_empty_is_refused, handler-IsSigned,
}

abbrev no_seed : Seed
no_seed = record { background = none; body = none; accessory = none; head = none; glasses = none }

abbrev words : List NormalizedTheWord
words =
    record {
      id = some 1;
      owner = "0x0a";
      delegated_to = some "0x0b";
      votes =
          record { proposal_id = some 3; support_detailed = some 1 }
          ∷ record { proposal_id = some 4; support_detailed = some 0 }
          ∷ [];
      seed = no_seed;
    }
    ∷ record {
      id = some 2;
      owner = "0x0b";
      delegated_to = none;
      votes = record { proposal_id = some 3; support_detailed = some 2 } ∷ [];
      seed = no_seed;
    }
    ∷ []

reduce_proposal_votes-all_example :
    votes_at (reduce_proposal_votes words) (some 3) ≡ entry (all_votes (some 3) words)
reduce_proposal_votes-all_example = reduce_proposal_votes-all words (some 3)

-- Two addresses, as numbers.
abbrev big_number : String → Option ℕ
big_number a = if str_eq a "0x0a" then some 10 else if str_eq a "0x0b" then some 11 else none

holders_of_words :
    (is_the_word_owner big_number "0x0b" words
      ≡ some (any_word (λ w. same_number big_number 11 w.owner) words))
    × (is_the_word_delegate big_number "0x0b" words
        ≡ some (any_word (λ w. delegated_to big_number 11 w.delegated_to) words))
holders_of_words =
    holders_answer big_number "0x0b" 11 words refl ((10, refl), ((11, refl), tt))
      ((11, refl), (tt, tt))

abbrev curried : String → Bool
curried field = true

abbrev parse : String → Option Body
parse text = some (record { message = some text; signature = some "0x05"; signer = some "0x0a" })

-- Every signature is that of the first address.
abbrev verify_message : Option String → Option String → Option String
verify_message message signature = some "0x0a"

abbrev no_text : Option String
no_text = some ""

empty_body_is_refused : (empty_body ≡ empty_body) × ((no_text ≡ none) ⊎ (no_text ≡ some ""))
unfolding handler invalid_body_check
empty_body_is_refused =
    only_empty_is_refused curried parse verify_message big_number (some words) true no_text
      empty_body (λ field. refl) refl

abbrev participant : ParticipantData
participant = record { is_delegate = false; is_owner = true }

abbrev verification : Verification
verification = record {
  body = record { message = some "hello"; signature = some "0x05"; signer = some "0x0a" };
  recovered_address = "0x0a";
  valid_signature = true;
  participant_data = some participant;
}

handler-IsSigned_example :
    IsSigned curried parse verify_message big_number (some words) verification participant
unfolding handler invalid_body_check big_numbers_equal is_the_word_owner is_the_word_delegate
    filter_words
handler-IsSigned_example =
    handler-IsSigned curried parse verify_message big_number (some words) true (some "hello")
      verification participant refl refl
