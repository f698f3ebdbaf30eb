-- ===== src/Subgraph/Dao.antt =====
-- nouns-dao.ts: proposals and votes. Addresses and ids stand in the events as the texts that
-- `toHexString` and `toString` give.
pub mod Keeps
use Prim.Native.Char.{code}
use Prim.Native.String
use theword_monorepo.Prelude.{
  ◌≡◌, arith, ℕ, String, Bool, true, false, ◌&&◌, Option, none, some, List, [], ◌∷◌, str_eq, ◌==◌,
  if◌then◌else◌,
}
use theword_monorepo.Prelude.Int.{ℤ, ◌+ℤ◌, ◌-ℤ◌, ltb_ℤ}
use theword_monorepo.Prelude.Table.{load}
use theword_monorepo.Subgraph.Entities.{
  Delegate, Status, pending, cancelled, vetoed, executed, queued, active, Details, Proposal, Ballot,
  Vote, Governance, Store, bigint_one, log_error,
}
use theword_monorepo.Subgraph.Helpers.{
  get_or_create_delegate, get_or_create_delegate_lookup, delegate_of, vote_of, proposal_of,
  get_governance_entity, save_proposal, save_vote, save_governance,
}

-- `description.split('\\n').join('\n')`: a backslash before an n becomes a line feed.
unfoldable pub unescape : String → String
unescape (String.◌∷◌ c (String.◌∷◌ d s)) =
    let escaped = String.◌∷◌ "\n" (unescape s) in
    let plain = String.◌∷◌ c (unescape (String.◌∷◌ d s)) in
    if code c == 92 && code d == 110 then escaped else plain
unescape s = s

pub record ProposalCreated : Type 0 where
  pub id : String
  pub proposer : String
  pub targets : List String
  pub values : List ℤ
  pub signatures : List String
  pub calldatas : List String
  pub start_block : ℤ
  pub end_block : ℤ
  pub proposal_threshold : ℤ
  pub quorum_votes : ℤ
  pub description : String
  pub block_number : ℤ
  pub timestamp : ℤ
  pub hash : String

-- The delegate of an event is looked up once without creating it, to log an error.
unfoldable pub log_unless_delegate : String → String → String → Store → Store
log_unless_delegate handler id hash s =
    let (found, s') = get_or_create_delegate id false true s in
    elim found [ none ↦ log_error handler (id ∷ hash ∷ []) s' | some d ↦ s' ]

-- Only the log changes.
module _ (handler id hash : String) (s : Store) where
  pub log_unless_delegate_missing :
      load s.delegates id ≡ none
      → log_unless_delegate handler id hash s ≡ log_error handler (id ∷ hash ∷ []) s
  unfolding log_unless_delegate
  log_unless_delegate_missing h = ground (arith, get_or_create_delegate_lookup id s)

  pub log_unless_delegate_found :
      {d : Delegate} → load s.delegates id ≡ some d → log_unless_delegate handler id hash s ≡ s
  unfolding log_unless_delegate
  log_unless_delegate_found h = ground (arith, get_or_create_delegate_lookup id s)

abbrev details_of : ProposalCreated → String → Details
details_of e proposer = record {
  proposer = proposer;
  targets = e.targets;
  values = e.values;
  signatures = e.signatures;
  calldatas = e.calldatas;
  created_timestamp = e.timestamp;
  start_block = e.start_block;
  end_block = e.end_block;
  proposal_threshold = e.proposal_threshold;
  quorum_votes = e.quorum_votes;
  description = unescape e.description;
}

unfoldable pub handle_proposal_created : ProposalCreated → Store → Store
handle_proposal_created e s0 =
    let (proposal, s1) = proposal_of e.id s0 in
    let s2 = log_unless_delegate "ProposalCreated" e.proposer e.hash s1 in
    let (proposer, s3) = delegate_of e.proposer s2 in
    save_proposal
      (record proposal {
        details = some (details_of e proposer.id);
        status = some (if ltb_ℤ e.block_number e.start_block then pending else active);
      })
      s3

abbrev set_status : Status → Proposal → Proposal
set_status status p = record p { status = some status }

unfoldable pub handle_proposal_canceled : String → Store → Store
handle_proposal_canceled id s =
    let (proposal, s') = proposal_of id s in save_proposal (set_status cancelled proposal) s'

unfoldable pub handle_proposal_vetoed : String → Store → Store
handle_proposal_vetoed id s =
    let (proposal, s') = proposal_of id s in save_proposal (set_status vetoed proposal) s'

-- The governance entity is read before the proposal is, and saved after it.
unfoldable pub handle_proposal_queued : String → ℤ → Store → Store
handle_proposal_queued id eta s =
    let governance = get_governance_entity s in
    let (proposal, s') = proposal_of id s in
    save_governance
      (record governance { proposals_queued = governance.proposals_queued +ℤ bigint_one })
      (save_proposal (record proposal { status = some queued; execution_eta = some eta }) s')

unfoldable pub handle_proposal_executed : String → Store → Store
handle_proposal_executed id s =
    let governance = get_governance_entity s in
    let (proposal, s') = proposal_of id s in
    save_governance
      (record governance { proposals_queued = governance.proposals_queued -ℤ bigint_one })
      (save_proposal (record proposal { status = some executed; execution_eta = none }) s')

pub record VoteCast : Type 0 where
  pub voter : String
  pub proposal_id : String
  pub support : ℕ
  pub votes : ℤ
  pub hash : String

abbrev pub vote_id : VoteCast → String
vote_id e = String.◌++◌ (String.◌++◌ e.voter "-") e.proposal_id

abbrev pub is_pending : Option Status → Bool
is_pending (some pending) = true
is_pending _ = false

abbrev activate : Proposal → Store → Store
activate proposal s =
    if is_pending proposal.status then save_proposal (set_status active proposal) s else s

unfoldable pub handle_vote_cast : VoteCast → Store → Store
handle_vote_cast e s0 =
    let (proposal, s1) = proposal_of e.proposal_id s0 in
    let (vote, s2) = vote_of (vote_id e) s1 in
    let s3 = log_unless_delegate "VoteCast" e.voter e.hash s2 in
    let (voter, s4) = delegate_of e.voter s3 in
    let ballot : Ballot = record {
      proposal = proposal.id;
      voter = voter.id;
      votes_raw = e.votes;
      votes = e.votes;
      support = e.support == 1;
      support_detailed = e.support;
      theword = voter.theword_represented;
    } in
    activate proposal (save_vote (record vote { ballot = some ballot }) s4)
