-- ===== src/Workflow/Votes/Laws.antt =====
-- What the votes on a step decide.
use crmp_backend.Base.{
  ℕ, suc, ◌<◌, ◌≡◌, ◌≢◌, ◌↔◌, ◌⊎◌, refl, Option, none, some, [], ◌∷◌, length, ltb, arith, All, get,
  put, is_some, if◌then◌else◌,
}
use crmp_backend.Workflow.Model.{
  DecisionOutcome, accepted, rejected, needs_revision, Strategy, majority, all_voters, number,
  Votes,
}
use crmp_backend.Workflow.Votes.{count_votes, final_decision}

-- When a vote passes: with a majority strategy, more approvals than rejections; otherwise, nobody
-- rejected.
abbrev pub Passes : Option Strategy → Votes → Type 0
Passes (some majority) vs = count_votes rejected vs < count_votes accepted vs
Passes (some all_voters) vs = All (λ v. v.1 ≢ rejected) vs
Passes (some number) vs = All (λ v. v.1 ≢ rejected) vs
Passes none vs = All (λ v. v.1 ≢ rejected) vs

no_rejections : (vs : Votes) → count_votes rejected vs ≡ 0 → All (λ v. v.1 ≢ rejected) vs
unfolding count_votes
no_rejections [] h = tt
no_rejections ((_, accepted) ∷ vs) h = (λ e. cc, no_rejections vs h)
no_rejections ((_, rejected) ∷ vs) h = absurd (omega arith)
no_rejections ((_, needs_revision) ∷ vs) h = (λ e. cc, no_rejections vs h)

no_rejections_count : (vs : Votes) → All (λ v. v.1 ≢ rejected) vs → count_votes rejected vs ≡ 0
unfolding count_votes
no_rejections_count [] h = refl
no_rejections_count ((_, accepted) ∷ vs) h = no_rejections_count vs h.1
no_rejections_count ((_, rejected) ∷ vs) h = absurd (h.0 refl)
no_rejections_count ((_, needs_revision) ∷ vs) h = no_rejections_count vs h.1

unanimous_iff :
    (vs : Votes)
    → ((if ltb 0 (count_votes rejected vs) then rejected else accepted) ≡ accepted)
      ↔ All (λ v. v.1 ≢ rejected) vs
unanimous_iff vs =
    (λ e. no_rejections vs (ground arith), λ h. ground (arith, no_rejections_count vs h))

-- A step whose votes are complete is accepted exactly when the vote passes: under MAJORITY with more
-- Accepted than Rejected votes, under any other strategy with no Rejected vote.
pub final_decision-eq-accepted_iff :
    (s : Option Strategy) (vs : Votes) → (final_decision s vs ≡ accepted) ↔ Passes s vs
unfolding final_decision
final_decision-eq-accepted_iff none vs = unanimous_iff vs
final_decision-eq-accepted_iff (some majority) vs = (λ e. ground arith, λ h. ground arith)
final_decision-eq-accepted_iff (some all_voters) vs = unanimous_iff vs
final_decision-eq-accepted_iff (some number) vs = unanimous_iff vs

-- The other way to end a vote is a rejection: no vote ends in a request for revision.
final_decision-cases :
    (s : Option Strategy) (vs : Votes)
    → (final_decision s vs ≡ accepted) ⊎ (final_decision s vs ≡ rejected)
unfolding final_decision
final_decision-cases s vs = ground arith

-- A vote cast again replaces the first one; a new voter's vote is one more.
pub length-put :
    (u : ℕ) (d : DecisionOutcome) (vs : Votes)
    → length (put u d vs) ≡ (if is_some (get u vs) then length vs else suc (length vs))
unfolding put get
length-put u d [] = refl
length-put u d ((v, e) ∷ vs) = ground (arith, length-put u d vs)
