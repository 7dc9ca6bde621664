-- ===== src/Workflow/Votes.antt =====
-- Votes on a step: `checkVoteThreshold`, the final decision in `handleVoteStep`, and `buildVoteData`
-- of src/proposals/workflow.service.ts.
pub mod Laws
use crmp_backend.Base.{
  ℕ, suc, zero, ◌+◌, Bool, true, false, Option, none, some, List, [], ◌∷◌, length, leb, ltb,
  if◌then◌else◌, Result, ok, err, internal_server_error,
}
use crmp_backend.Workflow.Model.{
  Approval, DecisionOutcome, accepted, rejected, needs_revision, Strategy, majority, Votes,
}

abbrev pub same_outcome : DecisionOutcome → DecisionOutcome → Bool
same_outcome accepted accepted = true
same_outcome rejected rejected = true
same_outcome needs_revision needs_revision = true
same_outcome _ _ = false

-- `Object.values(votes).filter((d) => d === outcome).length`
unfoldable pub count_votes : DecisionOutcome → Votes → ℕ
count_votes o [] = 0
count_votes o ((_, d) ∷ vs) = if same_outcome d o then suc (count_votes o vs) else count_votes o vs

-- The code after the first `return` is never reached, so the strategy is not read.
unfoldable pub check_vote_threshold : Votes → ℕ → Option ℕ → Option Strategy → Result Bool
check_vote_threshold votes eligible none strategy = err internal_server_error
check_vote_threshold votes eligible (some zero) strategy = err internal_server_error
check_vote_threshold votes eligible (some (suc n)) strategy = ok (leb (suc n) (length votes))

abbrev pub is_majority : Option Strategy → Bool
is_majority (some majority) = true
is_majority _ = false

unfoldable pub final_decision : Option Strategy → Votes → DecisionOutcome
unfolding count_votes
final_decision strategy votes =
    let approvals = count_votes accepted votes in
    let rejections = count_votes rejected votes in
    if is_majority strategy
    then if leb approvals rejections then rejected else accepted
    else if ltb 0 rejections
    then rejected
    else accepted

pub record VoteCounts : Type 0 where
  pub approved : ℕ
  pub rejected : ℕ
  pub abstained : ℕ
  pub total : ℕ

pub record VoteData : Type 0 where
  pub threshold : Option ℕ
  pub strategy : Option Strategy
  pub counts : VoteCounts
  pub votes : Votes

-- `x || {}` and `x || null` on a threshold
abbrev pub votes_of : Option Votes → Votes
votes_of none = []
votes_of (some vs) = vs

abbrev pub nonzero : Option ℕ → Option ℕ
nonzero (some (suc n)) = some (suc n)
nonzero _ = none

unfoldable pub build_vote_data : Approval → VoteData
unfolding count_votes
build_vote_data step =
    let votes = votes_of step.vote_json in
    record {
      threshold = nonzero step.vote_threshold;
      strategy = step.vote_threshold_strategy;
      counts = record {
        approved = count_votes accepted votes;
        rejected = count_votes rejected votes;
        abstained = count_votes needs_revision votes;
        total = length votes;
      };
      votes = votes;
    }
