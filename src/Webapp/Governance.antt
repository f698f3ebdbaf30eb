-- ===== src/Webapp/Governance.antt =====
-- wrappers/thewordDao.ts and pages/CreateProposal: the proposals with their titles, and the form that
-- makes one. A text is a list of character codes.
pub mod Title
pub mod Listing
pub mod Form
mod Tests
use theword_monorepo.Prelude.{
  ℕ, zero, suc, ◌+◌, ◌-◌, Bool, true, false, not, ◌&&◌, ◌||◌, Option, none, some, List, [], ◌∷◌,
  ◌++◌, map, ltb, leb, ◌==◌, if◌then◌else◌, length,
}
use theword_monorepo.Prelude.Int.{ℤ, pos, ◌-ℤ◌}
use theword_monorepo.Sdk.Hex.{Text}
use theword_monorepo.Webapp.Markdown.{or_default, title_of, unescape_lines}

pub data Vote : Type 0 where
  against : Vote
  for : Vote
  abstain : Vote

pub data ProposalState : Type 0 where
  undetermined : ProposalState
  pending : ProposalState
  active : ProposalState
  canceled : ProposalState
  defeated : ProposalState
  succeeded : ProposalState
  queued : ProposalState
  expired : ProposalState
  executed : ProposalState
  vetoed : ProposalState

-- What the contract has of a proposal; the three marks are not read here, since the state has them.
pub record ProposalCallResult : Type 0 where
  pub id : ℕ
  pub abstain_votes : ℕ
  pub against_votes : ℕ
  pub for_votes : ℕ
  pub canceled : Bool
  pub vetoed : Bool
  pub executed : Bool
  pub start_block : ℕ
  pub end_block : ℕ
  pub eta : ℕ
  pub proposal_threshold : ℕ
  pub proposer : Text
  pub quorum_votes : ℕ

pub record ProposalDetail : Type 0 where
  pub target : Text
  pub function_sig : Text
  pub call_data : Text

-- A log of the creation of a proposal, as it is formatted.
pub record FormattedLog : Type 0 where
  pub description : Text
  pub transaction_hash : Text
  pub details : List ProposalDetail

-- The numbers that are `NaN` where the contract has not answered are `none` then.
pub record Proposal : Type 0 where
  pub id : Option ℕ
  pub title : Text
  pub description : Option Text
  pub status : ProposalState
  pub for_count : ℕ
  pub against_count : ℕ
  pub abstain_count : ℕ
  pub created_block : Option ℤ
  pub start_block : Option ℕ
  pub end_block : Option ℕ
  pub eta : Option ℕ
  pub proposer : Option Text
  pub proposal_threshold : ℕ
  pub quorum_votes : ℕ
  pub details : Option (List ProposalDetail)
  pub transaction_hash : Option Text

pub record ProposalData : Type 0 where
  pub proposals : List Proposal
  pub loading : Bool

-- The numbers from 1 to the count.
abbrev pub indices_from : ℕ → ℕ → List ℕ
indices_from start zero = []
indices_from start (suc n) = (start + 1) ∷ indices_from (start + 1) n

unfoldable pub count_to_indices : Option ℕ → List ℕ
count_to_indices none = []
count_to_indices (some count) = indices_from 0 count

-- `text.split('(')`, as the first piece and the others.
abbrev pub split_open : Text → Text × List Text
split_open [] = ([], [])
split_open (c ∷ t) =
    let (piece, pieces) = split_open t in
    if c == b'(' then ([], piece ∷ pieces) else (c ∷ piece, pieces)

-- `signature.substr(0, signature.length - 1)`
abbrev pub drop_last : Text → Text
drop_last [] = []
drop_last (c ∷ []) = []
drop_last (c ∷ d ∷ t) = c ∷ drop_last (d ∷ t)

abbrev pub transfer : Text
transfer = b't' ∷ b'r' ∷ b'a' ∷ b'n' ∷ b's' ∷ b'f' ∷ b'e' ∷ b'r' ∷ []

abbrev pub eth : Text
eth = b' ' ∷ b'E' ∷ b'T' ∷ b'H' ∷ []

-- The text where the types are missing or empty: those types, the value, which is truthy as a
-- BigNumber, or nothing.
abbrev pub undecoded : (ℕ → Text) → Option ℕ → Text
undecoded format_ether none = []
undecoded format_ether (some value) = format_ether value ++ eth

module _ (format_ether : ℕ → Text) (decode : Text → Text → Option Text) where
  -- A detail, from the name and the pieces after it. `decode` is the decoding of the call data by the
  -- types, joined by commas; `none` is its exception.
  abbrev pub detail_of : Text → Option ℕ → Text → Text → List Text → Option ProposalDetail
  detail_of target value calldata [] [] = some (record {
    target = target;
    function_sig = transfer;
    call_data = undecoded format_ether value;
  })
  detail_of target value calldata [] ([] ∷ more) = some (record {
    target = target;
    function_sig = transfer;
    call_data = undecoded format_ether value;
  })
  detail_of target value calldata [] ((c ∷ types) ∷ more) =
      some (record { target = target; function_sig = transfer; call_data = c ∷ types })
  detail_of target value calldata (n ∷ name) [] = some (record {
    target = target;
    function_sig = n ∷ name;
    call_data = undecoded format_ether value;
  })
  detail_of target value calldata (n ∷ name) ([] ∷ more) = some (record {
    target = target;
    function_sig = n ∷ name;
    call_data = undecoded format_ether value;
  })
  detail_of target value calldata (n ∷ name) ((c ∷ types) ∷ more) =
      elim (decode (c ∷ types) calldata) [
        | none ↦ none
        | some decoded ↦
            some (record { target = target; function_sig = n ∷ name; call_data = decoded })
      ]

  unfoldable pub format_detail : Text → Option ℕ → Text → Text → Option ProposalDetail
  format_detail target value signature calldata =
      let (name, pieces) = split_open (drop_last signature) in
      detail_of target value calldata name pieces

-- `list[i]`
abbrev pub at {ℓ} : {A : Type ℓ} → List A → ℕ → Option A
at [] i = none
at (x ∷ xs) zero = some x
at (x ∷ xs) (suc i) = at xs i

abbrev pub of {ℓ κ} : {A : Type ℓ} {B : Type κ} → (A → B) → Option A → Option B
of f none = none
of f (some a) = some (f a)

-- A date counts from an `eta` that is there, also 0: a BigNumber is truthy.
unfoldable pub build_proposal :
    ℕ → Option ProposalCallResult → Option ProposalState → Option FormattedLog → Proposal
build_proposal voting_delay proposal state log =
    let description = of (λ (l : FormattedLog). unescape_lines l.description) log in
    record {
      id = of (λ (p : ProposalCallResult). p.id) proposal;
      title = title_of description;
      description = description;
      status = or_default undetermined state;
      for_count = or_default 0 (of (λ (p : ProposalCallResult). p.for_votes) proposal);
      against_count = or_default 0 (of (λ (p : ProposalCallResult). p.against_votes) proposal);
      abstain_count = or_default 0 (of (λ (p : ProposalCallResult). p.abstain_votes) proposal);
      created_block =
          of (λ (p : ProposalCallResult). pos p.start_block -ℤ pos voting_delay) proposal;
      start_block = of (λ (p : ProposalCallResult). p.start_block) proposal;
      end_block = of (λ (p : ProposalCallResult). p.end_block) proposal;
      eta = of (λ (p : ProposalCallResult). p.eta) proposal;
      proposer = of (λ (p : ProposalCallResult). p.proposer) proposal;
      proposal_threshold =
          or_default 0 (of (λ (p : ProposalCallResult). p.proposal_threshold) proposal);
      quorum_votes = or_default 0 (of (λ (p : ProposalCallResult). p.quorum_votes) proposal);
      details = of (λ (l : FormattedLog). l.details) log;
      transaction_hash = of (λ (l : FormattedLog). l.transaction_hash) log;
    }

-- `states[i]?.[0]`
abbrev pub answer_at : List (Option ProposalState) → ℕ → Option ProposalState
answer_at states i = or_default none (at states i)

-- The proposals from a place in the lists on.
unfoldable pub build_proposals :
    ℕ
    → List (Option ProposalState)
    → List FormattedLog
    → ℕ
    → List (Option ProposalCallResult)
    → List Proposal
build_proposals voting_delay states logs i [] = []
build_proposals voting_delay states logs i (p ∷ proposals) =
    build_proposal voting_delay p (answer_at states i) (at logs i)
    ∷ build_proposals voting_delay states logs (i + 1) proposals

abbrev pub is_empty {ℓ} : {A : Type ℓ} → List A → Bool
is_empty [] = true
is_empty (x ∷ xs) = false

-- `proposals` is what the calls for the indices gave so far, `none` a call without an answer.
unfoldable pub all_proposals :
    Option ℕ
    → List (Option ProposalCallResult)
    → List (Option ProposalState)
    → Option (List FormattedLog)
    → ProposalData
all_proposals voting_delay proposals states formatted_logs =
    let logs = or_default [] formatted_logs in
    if not (is_empty proposals) && is_empty logs
    then record { proposals = []; loading = true }
    else record {
      proposals = build_proposals (or_default 0 voting_delay) states logs 0 proposals;
      loading = false;
    }

abbrev pub has_id : ℕ → Proposal → Bool
has_id id p = elim p.id [ none ↦ false | some n ↦ n == id ]

-- The first proposal with the id.
unfoldable pub find_proposal : ℕ → List Proposal → Option Proposal
find_proposal id [] = none
find_proposal id (p ∷ proposals) = if has_id id p then some p else find_proposal id proposals

unfoldable pub use_proposal : ℕ → ProposalData → Option Proposal
use_proposal id d = find_proposal id d.proposals
