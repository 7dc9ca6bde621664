-- ===== src/Lib.antt =====
-- A verification library of the research management backend (src/ of the repository).
--
-- The program is a service over a database. A call runs in a transaction: it reads rows, checks them,
-- and either throws an HTTP exception, which rolls the transaction back, or commits its writes. A call
-- is here a function from the tables to a result, the exception or the new tables; a query is `filter`
-- or `find` on a list of rows, an UPDATE is `update_where`, an INSERT appends rows. The clock, the ids
-- that the database gives to new rows and the content hash are fields of an environment or arguments.
-- Ids are natural numbers.
--
-- Base/ holds what the components share: Tests (Boolean tests), Lists and Tables (rows, and what
-- SELECT and UPDATE do to them), Finding (what a query for one row finds afterwards), Results (calls
-- that may throw) and Values (JSON).
--
-- Workflow/ is src/proposals/workflow.service.ts, with the parts of src/db/schema, of
-- src/users/users.repository.ts and of src/proposals/proposal-approval.repository.ts that it uses:
--   Model, Store     the rows and the database
--   Conditions       parseBranchCondition, evaluateCondition
--   Votes            checkVoteThreshold, the final decision of handleVoteStep, buildVoteData
--   Forms            isValidUUID, validateFormSubmission and the attachment of files by handleFormStep;
--                    Forms/Validation says which forms pass
--   Approvers        validateApproverAuthority, resolveApprover, canUserActOnStep,
--                    getEligibleVotersByRole
--   Completion       advanceWorkflow, completeWorkflow, createProjectFromApprovedProposal
--   Submission       submitProposal, generateApprovalStepsFromRules,
--                    resumeWorkflowFromLastIncompleteStep
--   Actions          acceptStep, rejectStep, requestRevision, transitionStep, submitAction and the
--                    handlers handleApprovalStep, handleVoteStep, handleFormStep, handleRejection
--   Timeline         getApprovalTimelineForFrontend and the computations on a step
--   Notifications    the mails and the chat that a call asks for after its transaction
--   Consistency      how the steps of a proposal agree with its status, operation by operation
--   Reach            the databases that calls reach
--   Voting           one vote for each voter
--   Generation       the steps of a first submission
--   Seeding          the budget that completion gives to the project
--   Outcomes, Acted  what each call leaves of the proposal in such a database
-- Submission writes the steps; Actions decides them and calls Completion, which activates the next
-- step or approves the proposal and creates its project.
--
-- Budget/ is src/budget/repositories/budget.repository.ts with src/budget/services:
--   Model, Requests  the rows and the calls submitRequest, resubmitRequest, approveRequest,
--                    returnRequest and rejectRequest
--   Settled          the calls as a step relation, and requests on which nobody acts any more
--   Clearance        the clearance documents
--   Numbering        the sequence numbers
--   Holding          the items of a request
--   Resubmission     what a resubmitted request leaves free
--   Payable          how an open request gets paid
--
-- Documents/ is src/documents/tiptap-validator.service.ts and src/documents/tiptap-renderer.service.ts,
-- on JSON values of any shape:
--   Node             the tree of a document
--   Validator        validateDocument; Validator/Shapes says what is asked of each kind of node and
--                    mark, Validator/Checks, SchemaChecks and MarkChecks there that the tests decide
--                    it, and Validator/Laws which documents pass
--   Html             escapeHtml, escapeAttribute, and a reader of the text of a page: outside the
--                    tags, with the five character references resolved and the blank one dropped. It
--                    does not look at styles that hide a part, nor at how a browser moves text that
--                    stands in a table outside its cells
--   Marks, Renderer  applyMarks, buildBlockStyle, buildTableAttrs, buildCellStyle; renderNode
--   Renderer/Visible the text that a document has; Renderer/Shown finds it in its page
-- A call of a method that a value does not have is an internal server error, as in JavaScript.
--
-- Evaluations/ is src/evaluations/evaluations.service.ts on src/db/schema/evaluation.ts:
--   Model            the rows
--   Scores           submitScores, its grouping by rubric and its INSERT … ON CONFLICT DO UPDATE;
--                    Scores/Book is the abstract view, one note for each rubric, proposal and student,
--                    and Scores/Submission says that a submission writes in it; Scores/Accepted says
--                    which submissions succeed, Scores/Rows what they keep of the rows
--   Listing          getProposals, enrichWithMembersAndRubrics
-- What the column numeric(5,2) makes of a number is a parameter, whose `none` is an overflow. Blanks
-- beyond the 1000 characters of a feedback are cut off, as PostgreSQL does.
--
-- Tasks/ is src/tasks/tasks.service.ts and src/tasks/tasks.repository.ts on src/db/schema/task.ts:
--   Model, Service   the rows; createTask, updateTask, deleteTask, addComment and the lists
--   Summary          getTaskCountsByStatus and the counts of getSummary; Counting adds them up
--   Guards, Codes    who may work with tasks; the codes of tasks after deletions
-- A call's writes outside a transaction follow each other, and none fails halfway.
--
-- Access/ is src/access-control/access.service.ts, access.repository.ts and role-permissions.ts there:
--   Roles            the rows; createRole, updateRole, deleteRole, replaceRolePermissions
--   Granting         which permissions a replacement leaves
--   Naming, Taken    the names of roles, and what happens to a name that is in use
--   Permissions      RolePermissions of role-permissions.ts, by the values of the enums
--   Checks           can, checkRolePermission, checkAttributePermissions and its three checks
-- A violated constraint of the database, or an UPDATE without columns, is an internal server error.
--
-- Loops are structural recursions on lists, so that there is no fuel. The number conversions of
-- JavaScript are parameters (`Numbers`): `rank` orders the finite numbers that texts stand for and is
-- `none` for the others. Two calls of a path run one after the other, as their transactions commit.
-- Amounts of disbursements are whole cents, and the doubles that add them up are a parameter
-- (`Doubles`): `Number(amount)`, `+`, and what the column numeric(15,2) holds of a sum.
--
-- Not modelled: the routes and DTOs, the lengths of other columns, the read-only dashboards of the budget, the page around a rendered
-- document, its PDF and the versions of documents, the evaluator's list of projects, the workload,
-- velocity and deadlines of a project's tasks, the CASL abilities of access-control, and the
-- components around these (projects, chat, collaboration, files, users and authentication, AI, mail
-- and queues).
pub mod Access
pub mod Base
pub mod Budget
pub mod Documents
pub mod Evaluations
pub mod Tasks
pub mod Workflow
