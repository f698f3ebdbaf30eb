-- ===== src/Webapp/Governance/Tests.antt =====
-- Titles of concrete descriptions, proposals on a list, and the theorems at them.
use theword_monorepo.Prelude.{◌≡◌, refl, false, some, [], ◌∷◌, map, arith}
use theword_monorepo.Webapp.Governance.{
  succeeded, ProposalCallResult, FormattedLog, build_proposal, answer_at, at, all_proposals,
  use_proposal,
}
use theword_monorepo.Webapp.Markdown.{
  or_default, title_of, is_space, extract_title, extract_hash_title, extract_equal_title, spaces,
  hashes, remove_pairs, untitled,
}
use theword_monorepo.Webapp.Governance.Form.{description_of}
use theword_monorepo.Webapp.Governance.Title.{build_proposal-title}
use theword_monorepo.Webapp.Governance.Listing.{use_proposal-at}

abbrev first : ProposalCallResult
first = record {
  id = 1;
  abstain_votes = 0;
  against_votes = 1;
  for_votes = 5;
  canceled = false;
  vetoed = false;
  executed = false;
  start_block = 100;
  end_block = 200;
  eta = 0;
  proposal_threshold = 1;
  proposer = b'a' ∷ [];
  quorum_votes = 2;
}

abbrev second : ProposalCallResult
second = record first { id = 2 }

abbrev log : FormattedLog
log = record {
  description = description_of (b'H' ∷ b'i' ∷ []) (b'*' ∷ b'*' ∷ []);
  transaction_hash = b'0' ∷ [];
  details = [];
}

build_proposal-title_example :
    (build_proposal 3 (some first) (some succeeded) (some log)).title ≡ b'H' ∷ b'i' ∷ []
unfolding is_space
build_proposal-title_example =
    build_proposal-title 3 b'H' (b'i' ∷ []) (b'*' ∷ b'*' ∷ []) (some first) (some succeeded) log
      refl ((refl, refl, refl, refl), ((refl, refl, refl, refl), tt)) refl

use_proposal-at_example :
    ((all_proposals
        (some 3)
        (map some (first ∷ second ∷ []))
        (some succeeded ∷ [])
        (some (log ∷ []))).loading
      ≡ false)
    × (use_proposal 2 (
          all_proposals
            (some 3)
            (map some (first ∷ second ∷ []))
            (some succeeded ∷ [])
            (some (log ∷ [])))
        ≡ some (
            build_proposal
              (or_default 0 (some 3))
              (some second)
              (answer_at (some succeeded ∷ []) 1)
              (at (log ∷ []) 1)))
use_proposal-at_example =
    use_proposal-at (some 3) (first ∷ second ∷ []) (some succeeded ∷ []) log [] 1 second
      (omega arith) refl

-- `A` over three `=`, and seven `#`, which are no title.
underlined_title : title_of (some (b'A' ∷ 10 ∷ b'=' ∷ b'=' ∷ b'=' ∷ [])) ≡ b'A' ∷ []
unfolding title_of extract_title extract_hash_title extract_equal_title spaces hashes remove_pairs
    is_space
underlined_title = refl

seven_hashes :
    title_of (some (b'#' ∷ b'#' ∷ b'#' ∷ b'#' ∷ b'#' ∷ b'#' ∷ b'#' ∷ b' ' ∷ b'A' ∷ [])) ≡ untitled
unfolding title_of extract_title extract_hash_title extract_equal_title spaces hashes remove_pairs
    is_space
seven_hashes = refl
