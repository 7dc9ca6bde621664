-- ===== src/Evaluations/Listing.antt =====
-- The proposals that an evaluator still has to score: `getProposals` and
-- `enrichWithMembersAndRubrics` of src/evaluations/evaluations.service.ts.
pub mod Laws
use crmp_backend.Base.{
  ℕ, String, Bool, true, false, not, ◌&&◌, ◌||◌, Option, none, some, List, [], ◌∷◌, ◌==◌, length,
  filter, all, map, mem_nat, mem_str, if◌then◌else◌,
}
use crmp_backend.Workflow.Model.{Proposal, Status, Program, ug, pg, general}
use crmp_backend.Workflow.Store.{ProposalMember, MemberRole}
use crmp_backend.Evaluations.Model.{Phase, Rubric, Score, EvaluationTables}

pub record EnrichedItem : Type 0 where
  pub id : ℕ
  pub title : String
  pub program : Option Program
  pub members : List ℕ
  pub missing_rubrics : List Rubric

-- `items` and `meta.totalItems`; the rest of `meta` is constant.
pub record Page : Type 0 where
  pub items : List EnrichedItem
  pub total_items : ℕ

abbrev pub empty_paginated_response : Page
empty_paginated_response = record { items = []; total_items = 0 }

abbrev pub is_closed : Status → Bool
is_closed Status.approved = true
is_closed Status.rejected = true
is_closed _ = false

abbrev pub is_program : Program → Option Program → Bool
is_program ug (some ug) = true
is_program pg (some pg) = true
is_program general (some general) = true
is_program _ _ = false

abbrev pub is_evaluator : MemberRole → Bool
is_evaluator MemberRole.evaluator = true
is_evaluator _ = false

-- `inArray(role, ['PI', 'MEMBER'])`
abbrev pub is_student : MemberRole → Bool
is_student MemberRole.pi = true
is_student MemberRole.member = true
is_student _ = false

-- `eq(evaluationRubrics.phase, 'PROPOSAL')`
abbrev pub is_proposal_phase : Option Phase → Bool
is_proposal_phase (some Phase.proposal) = true
is_proposal_phase _ = false

unfoldable pub item_members : ℕ → EvaluationTables → List ℕ
unfolding filter
item_members p t =
    map (λ (m : ProposalMember). m.user_id)
      (filter (λ m. m.proposal_id == p && is_student m.role && mem_nat m.user_id t.users)
        t.proposal_members)

-- `scoredStudentIds`: the students of a proposal that the evaluator scored for a rubric
unfoldable pub scored_students : ℕ → ℕ → ℕ → EvaluationTables → List ℕ
unfolding filter
scored_students user p r t =
    map (λ (x : Score). x.student_id)
      (filter (λ x. x.evaluator_id == user && x.proposal_id == p && x.rubric_id == r) t.scores)

abbrev pub lacks : List ℕ → List ℕ → Bool
lacks [] scored = false
lacks (m ∷ ms) scored = not (all (λ k. mem_nat k scored) (m ∷ ms))

unfoldable pub is_missing : ℕ → ℕ → EvaluationTables → Rubric → Bool
unfolding item_members scored_students all
is_missing user p t r = lacks (item_members p t) (scored_students user p r.id t)

unfoldable pub missing_rubrics : ℕ → ℕ → EvaluationTables → List Rubric
unfolding filter is_missing
missing_rubrics user p t =
    filter (is_missing user p t) (filter (λ r. is_proposal_phase r.phase) t.rubrics)

unfoldable pub enrich_with_members_and_rubrics : List Proposal → ℕ → EvaluationTables → Page
unfolding item_members missing_rubrics
enrich_with_members_and_rubrics [] user t = empty_paginated_response
enrich_with_members_and_rubrics (p ∷ ps) user t = record {
  items =
      map
        (λ (q : Proposal). record {
          id = q.id;
          title = q.title;
          program = q.proposal_program;
          members = item_members q.id t;
          missing_rubrics = missing_rubrics user q.id t;
        })
        (p ∷ ps);
  total_items = length (p ∷ ps);
}

-- The proposals for which the user is a member with the role EVALUATOR.
abbrev pub assigned : ℕ → EvaluationTables → List ℕ
assigned user t =
    map (λ (m : ProposalMember). m.proposal_id)
      (filter (λ m. m.user_id == user && is_evaluator m.role) t.proposal_members)

abbrev pub open_proposals : (Proposal → Bool) → EvaluationTables → List Proposal
open_proposals test t = filter (λ p. not (is_closed p.current_status) && test p) t.proposals

-- `if (ids.length === 0)` comes to the same list as the query with no ids.
unfoldable pub listed_proposals : List String → ℕ → EvaluationTables → List Proposal
unfolding filter
listed_proposals roles user t =
    if mem_str "COORDINATOR" roles
    then open_proposals (λ p. is_program ug p.proposal_program) t
    else if mem_str "DGC_MEMBER" roles
    then open_proposals (λ p. is_program pg p.proposal_program) t
    else if mem_str "RAD" roles
    then open_proposals (λ p. is_program general p.proposal_program) t
    else if mem_str "EVALUATOR" roles
    then open_proposals (λ p. mem_nat p.id (assigned user t)) t
    else []

unfoldable pub get_proposals : List String → ℕ → EvaluationTables → Page
unfolding listed_proposals enrich_with_members_and_rubrics
get_proposals roles user t = enrich_with_members_and_rubrics (listed_proposals roles user t) user t
