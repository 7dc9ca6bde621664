-- ===== src/Workflow/Approvers.antt =====
-- Who may act on a step: `resolveApprover`, `validateApproverAuthority`, `canUserActOnStep` and
-- `getEligibleVotersByRole` of src/proposals/workflow.service.ts, with the queries of
-- src/users/users.repository.ts and src/proposals/proposal-approval.repository.ts that they make.
use crmp_backend.Base.{
  ℕ, String, str_eq, Bool, true, false, not, ◌&&◌, Option, none, some, List, [], ◌∷◌, ◌==◌,
  if◌then◌else◌, find, filter, any, get, mem_str, is_some, Result, ok, bad_request,
  internal_server_error, require, or_throw, ◌>>=◌,
}
use crmp_backend.Workflow.Model.{
  Proposal, Approval, Decision, pending, StepType, vote, User, Role, UserRole,
}
use crmp_backend.Workflow.Votes.{votes_of}
use crmp_backend.Workflow.Store.{Accounts, Db, find_proposal}

unfoldable pub find_user : ℕ → Accounts → Option User
unfolding find
find_user u acc = find (λ x. x.id == u) acc.users

-- The names of a list of role assignments; one with no role is left out.
abbrev pub names_from : List UserRole → List Role → List String
names_from [] roles = []
names_from (ur ∷ urs) roles = elim (find (λ r. r.id == ur.role_id) roles) [
  | none ↦ names_from urs roles
  | some r ↦ r.name ∷ names_from urs roles
]

-- `getUserRoles`, and the names that its callers keep
unfoldable pub role_names : ℕ → Accounts → List String
unfolding filter find
role_names u acc = names_from (filter (λ ur. ur.user_id == u) acc.user_roles) acc.roles

unfoldable pub is_coordinator_of_department : ℕ → ℕ → Accounts → Bool
unfolding any
is_coordinator_of_department u d acc =
    any (λ c. c.user_id == u && c.department_id == d) acc.coordinators

-- `findProposalWithDepartment`: the department of the proposal, if it has one
unfoldable pub proposal_department : ℕ → Db → Option ℕ
unfolding find_proposal
proposal_department p db = elim (find_proposal p db) [ none ↦ none | some q ↦ q.department_id ]

-- The branch for COORDINATOR. Reading the id of a missing user throws.
unfoldable pub resolve_coordinator : Db → Option User → ℕ → Result Bool
unfolding proposal_department is_coordinator_of_department
resolve_coordinator db user p = elim (proposal_department p db) [
  | none ↦ ok false
  | some d ↦ do
    u ← or_throw user internal_server_error
    ok (is_coordinator_of_department u.id d db.accounts)
]

unfoldable pub resolve_approver : Db → Option User → ℕ → String → List String → Result Bool
unfolding resolve_coordinator
resolve_approver db user p required names =
    if mem_str required names
    then if str_eq required "COORDINATOR" then resolve_coordinator db user p else ok true
    else ok false

unfoldable pub validate_approver_authority : Db → ℕ → Proposal → Approval → Result (Unit {0})
unfolding resolve_approver role_names find_user
validate_approver_authority db u q step = do
  can_approve ←
      resolve_approver db (find_user u db.accounts) q.id step.approver_role
        (role_names u db.accounts)
  require can_approve bad_request

abbrev pub is_pending : Decision → Bool
is_pending pending = true
is_pending _ = false

abbrev pub is_vote : StepType → Bool
is_vote vote = true
is_vote _ = false

unfoldable pub has_voted : Approval → ℕ → Bool
unfolding get
has_voted step u = is_some (get u (votes_of step.vote_json))

unfoldable pub can_user_act_on_step : Db → Approval → ℕ → Proposal → Result Bool
unfolding has_voted resolve_approver find_user role_names
can_user_act_on_step db step u q =
    if not (step.is_active && is_pending step.decision)
    then ok false
    else if is_vote step.step_type && has_voted step u
    then ok false
    else elim (find_user u db.accounts) [
      | none ↦ ok false
      | some user ↦
          resolve_approver db (some user) q.id step.approver_role (role_names u db.accounts)
    ]

-- The users, of those assigned the role, that exist.
abbrev pub holders : List UserRole → Role → Accounts → List ℕ
holders [] r acc = []
holders (ur ∷ urs) r acc =
    let rest = holders urs r acc in
    if ur.role_id == r.id && is_some (find_user ur.user_id acc) then ur.user_id ∷ rest else rest

unfoldable pub eligible_voters : String → Accounts → List ℕ
unfolding find find_user
eligible_voters role acc = elim (find (λ r. str_eq r.name role) acc.roles) [
  | none ↦ []
  | some r ↦ holders acc.user_roles r acc
]
