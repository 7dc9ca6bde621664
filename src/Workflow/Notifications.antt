-- ===== src/Workflow/Notifications.antt =====
-- What src/proposals/workflow.service.ts sends after the transaction of a call: mails through the
-- mail producer (`sendProposalStatusEmail`) and the members of the project's chat. A failure of
-- either is logged and swallowed, so these are the requests that are made.
use crmp_backend.Base.{ℕ, String, Bool, Option, none, some, List, [], ◌∷◌, ◌==◌, if◌then◌else◌}
use crmp_backend.Workflow.Model.{Proposal, DecisionOutcome}
use crmp_backend.Workflow.Store.{Db, ProposalMember, find_proposal}
use crmp_backend.Workflow.Approvers.{find_user}
use crmp_backend.Workflow.Completion.{Advancement, ProjectData}
use crmp_backend.Workflow.Actions.{ActionResult}

pub data MailStatus : Type 0 where
  approved rejected needs_revision : MailStatus

pub record StatusMail : Type 0 where
  pub user_id : ℕ
  pub email : String
  pub proposal_id : ℕ
  pub proposal_title : String
  pub new_status : MailStatus

-- Nothing is sent if the creator is gone.
unfoldable pub send_proposal_status_email : Db → Proposal → MailStatus → Option StatusMail
unfolding find_user
send_proposal_status_email db q status = elim (find_user q.created_by db.accounts) [
  | none ↦ none
  | some creator ↦ some (record {
    user_id = creator.id;
    email = creator.email;
    proposal_id = q.id;
    proposal_title = q.title;
    new_status = status;
  })
]

abbrev mail_about : Db → MailStatus → Option Proposal → Option StatusMail
mail_about db status none = none
mail_about db status (some q) = send_proposal_status_email db q status

unfoldable pub accept_step_mail : Db → Advancement × Option Proposal → Option StatusMail
unfolding send_proposal_status_email
accept_step_mail db (advancement, q) =
    if advancement.is_complete then mail_about db MailStatus.approved q else none

unfoldable pub reject_step_mail : Db → ℕ → Option StatusMail
unfolding find_proposal send_proposal_status_email
reject_step_mail db p = mail_about db MailStatus.rejected (find_proposal p db)

unfoldable pub request_revision_mail : Db → ℕ → Option StatusMail
unfolding find_proposal send_proposal_status_email
request_revision_mail db p = mail_about db MailStatus.needs_revision (find_proposal p db)

abbrev action_status : Option DecisionOutcome → Bool → Option MailStatus
action_status (some DecisionOutcome.rejected) complete = some MailStatus.rejected
action_status (some DecisionOutcome.needs_revision) complete = some MailStatus.needs_revision
action_status (some DecisionOutcome.accepted) complete =
    if complete then some MailStatus.approved else none
action_status none complete = none

unfoldable pub submit_action_mail : Db → ActionResult → Option StatusMail
unfolding send_proposal_status_email
submit_action_mail db r = elim (action_status r.outcome r.is_complete) [
  | none ↦ none
  | some status ↦ mail_about db status r.proposal
]

-- The members who are added to the chat after its creator, who is in it already.
unfoldable pub added_to_chat : ℕ → List ProposalMember → List ℕ
added_to_chat u [] = []
added_to_chat u (m ∷ ms) =
    if m.user_id == u then added_to_chat u ms else m.user_id ∷ added_to_chat u ms

pub record ChatRequest : Type 0 where
  pub project_id : ℕ
  pub project_title : String
  pub creator : ℕ
  pub added : List ℕ

abbrev chat_for : ℕ → Option ProjectData → Option ChatRequest
chat_for u none = none
chat_for u (some d) = some (record {
  project_id = d.project_id;
  project_title = d.project_title;
  creator = u;
  added = added_to_chat u d.proposal_members;
})

unfoldable pub submit_action_chat : ℕ → ActionResult → Option ChatRequest
unfolding added_to_chat
submit_action_chat u r = if r.is_complete then chat_for u r.project_data else none
