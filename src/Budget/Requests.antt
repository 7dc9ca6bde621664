-- ===== src/Budget/Requests.antt =====
-- Disbursement requests: the writes and checks of src/budget/repositories/budget.repository.ts, and
-- the services src/budget/services/pi-budget.service.ts and finance-budget.service.ts that call them.
-- Amounts are cents. The sum of a request is one of doubles, which are a parameter; a sum that
-- its column does not hold is an internal error, before anything is written. The list of items is not empty: the DTO of the call demands it. The upload of a clearance document and
-- its attachment to the request are calls of src/files; the id of the stored file is an argument.
use crmp_backend.Base.{
  ℕ, ◌+◌, String, Bool, true, false, not, ◌&&◌, Option, none, some, List, [], ◌∷◌, ◌++◌, ◌==◌, ltb,
  if◌then◌else◌, length, find, filter, any, all, update_where, mem_nat, is_some, Result, ok,
  bad_request, forbidden, not_found, internal_server_error, require, or_throw, ◌>>=◌, ◌>>◌,
}
use crmp_backend.Workflow.Store.{ProjectMember, MemberRole}
use crmp_backend.Budget.Model.{
  BudgetItem, ItemStatus, DisbursementRequest, RequestStatus, RequestItem,
}

pub record Tables : Type 0 where
  pub members : List ProjectMember
  pub items : List BudgetItem
  pub requests : List DisbursementRequest
  pub request_items : List RequestItem

abbrev pub is_available : ItemStatus → Bool
is_available ItemStatus.available = true
is_available _ = false

abbrev pub is_returned : RequestStatus → Bool
is_returned RequestStatus.returned = true
is_returned _ = false

-- `['PENDING', 'RESUBMITTED'].includes(status)`
abbrev pub is_actionable : RequestStatus → Bool
is_actionable RequestStatus.pending = true
is_actionable RequestStatus.resubmitted = true
is_actionable _ = false

-- `role = 'PI'`
abbrev pub is_pi : MemberRole → Bool
is_pi MemberRole.pi = true
is_pi _ = false

unfoldable pub is_pi_of : ℕ → ℕ → Tables → Bool
unfolding any
is_pi_of project u t =
    any (λ m. m.project_id == project && m.user_id == u && is_pi m.role) t.members

-- The selected items of the project.
unfoldable pub selected_items : ℕ → List ℕ → Tables → List BudgetItem
unfolding filter
selected_items project ids t = filter (λ i. mem_nat i.id ids && i.project_id == project) t.items

unfoldable pub validate_and_fetch_items_for_request :
    ℕ → ℕ → List ℕ → Tables → Result (List BudgetItem)
unfolding is_pi_of selected_items any all
validate_and_fetch_items_for_request project u ids t = do
  require (is_pi_of project u t) forbidden
  require (not (any (λ r. r.project_id == project && is_returned r.status) t.requests)) bad_request
  let items = selected_items project ids t
  require (length items == length ids) bad_request
  require (all (λ i. is_available i.status) items) bad_request
  ok items

-- `UPDATE project_budget_items SET status = s WHERE id IN ids`
unfoldable pub set_items : List ℕ → ItemStatus → Tables → Tables
unfolding update_where
set_items ids s t = record t {
  items = update_where (λ i. mem_nat i.id ids) (λ i. record i { status = s }) t.items;
}

-- `UPDATE disbursement_requests … WHERE id = r`
unfoldable pub set_request : ℕ → (DisbursementRequest → DisbursementRequest) → Tables → Tables
unfolding update_where
set_request r f t = record t { requests = update_where (λ x. x.id == r) f t.requests }

unfoldable pub join_items : ℕ → List ℕ → List RequestItem
join_items r [] = []
join_items r (i ∷ ids) =
    record { disbursement_request_id = r; budget_item_id = i } ∷ join_items r ids

unfoldable pub get_disbursement_request_count : ℕ → Tables → ℕ
unfolding filter
get_disbursement_request_count project t = length (filter (λ r. r.project_id == project) t.requests)

-- `now` is the clock and `new_id` the id that the database gives to the new row.
unfoldable pub create_disbursement_request :
    ℕ → ℕ → ℕ → ℕ → List ℕ → ℕ → ℕ → Option ℕ → Tables → Tables
unfolding join_items set_items
create_disbursement_request now new_id project u ids total sequence clearance t =
    set_items ids ItemStatus.pending_disbursement (record t {
      requests =
          t.requests
          ++ record {
            id = new_id;
            project_id = project;
            requested_by = u;
            request_sequence = sequence;
            total_amount = total;
            status = RequestStatus.pending;
            clearance_file_id = clearance;
            bank_transaction_id = none;
            finance_approved_by = none;
            paid_at = none;
            finance_feedback = none;
            returned_by = none;
            returned_at = none;
            submitted_at = some now;
            updated_at = none;
          }
            ∷ [];
      request_items = t.request_items ++ join_items new_id ids;
    })

-- The doubles of JavaScript, each as its bit pattern, which is 0 for the number 0: `Number(amount)`
-- of an amount in cents, `+`, and the cents that numeric(15, 2) keeps of `toString()` (`none` is its
-- overflow).
pub record Doubles : Type 0 where
  pub of_cents : ℕ → ℕ
  pub add : ℕ → ℕ → ℕ
  pub stored : ℕ → Option ℕ

-- `items.reduce((sum, item) => sum + Number(item.amount), sum)`
unfoldable pub reduce_amounts : Doubles → ℕ → List BudgetItem → ℕ
reduce_amounts js sum [] = sum
reduce_amounts js sum (i ∷ items) = reduce_amounts js (js.add sum (js.of_cents i.amount)) items

-- `submitRequest`; `file` is the id under which the uploaded document was stored, if there is one.
unfoldable pub submit_request :
    Doubles → ℕ → ℕ → ℕ → ℕ → List ℕ → Option ℕ → Tables → Result (ℕ × Tables)
unfolding get_disbursement_request_count validate_and_fetch_items_for_request reduce_amounts
    create_disbursement_request
submit_request js now new_id project u ids file t = do
  let sequence = get_disbursement_request_count project t + 1
  require (not (ltb 1 sequence && not (is_some file))) bad_request
  items ← validate_and_fetch_items_for_request project u ids t
  total ← or_throw (js.stored (reduce_amounts js 0 items)) internal_server_error
  ok (new_id, create_disbursement_request now new_id project u ids total sequence file t)

unfoldable pub find_request : ℕ → Tables → Option DisbursementRequest
unfolding find
find_request r t = find (λ x. x.id == r) t.requests

unfoldable pub validate_resubmission : ℕ → ℕ → Tables → Result DisbursementRequest
unfolding find_request
validate_resubmission r u t = do
  request ← or_throw (find_request r t) not_found
  require (request.requested_by == u) forbidden
  require (is_returned request.status) bad_request
  ok request

abbrev pub resubmit : ℕ → ℕ → DisbursementRequest → DisbursementRequest
resubmit now file x = record x {
  clearance_file_id = some file;
  status = RequestStatus.resubmitted;
  updated_at = some now;
}

-- `resubmitRequest`: the items of the request are left as they are.
unfoldable pub resubmit_request : ℕ → ℕ → ℕ → ℕ → Tables → Result Tables
unfolding validate_resubmission set_request
resubmit_request now r u file t = do
  request ← validate_resubmission r u t
  ok (set_request r (resubmit now file) t)

unfoldable pub validate_for_finance_action : ℕ → Tables → Result DisbursementRequest
unfolding find_request
validate_for_finance_action r t = do
  request ← or_throw (find_request r t) not_found
  require (is_actionable request.status) bad_request
  require (not (ltb 1 request.request_sequence && not (is_some request.clearance_file_id)))
      bad_request
  ok request

-- The ids of the items that a request was made for.
unfoldable pub item_ids : ℕ → List RequestItem → List ℕ
item_ids r [] = []
item_ids r (j ∷ js) =
    if j.disbursement_request_id == r then j.budget_item_id ∷ item_ids r js else item_ids r js

abbrev pub pay : ℕ → ℕ → String → DisbursementRequest → DisbursementRequest
pay now u bank x = record x {
  status = RequestStatus.paid;
  bank_transaction_id = some bank;
  finance_approved_by = some u;
  paid_at = some now;
  updated_at = some now;
}

-- `approveRequest` with `approveDisbursementRequest`
unfoldable pub approve_request : ℕ → ℕ → ℕ → String → Tables → Result Tables
unfolding validate_for_finance_action set_request set_items item_ids
approve_request now r u bank t = do
  request ← validate_for_finance_action r t
  ok (set_items (item_ids r t.request_items) ItemStatus.paid (set_request r (pay now u bank) t))

abbrev pub give_back : ℕ → ℕ → String → RequestStatus → DisbursementRequest → DisbursementRequest
give_back now u feedback status x = record x {
  status = status;
  finance_feedback = some feedback;
  returned_by = some u;
  returned_at = some now;
  updated_at = some now;
}

-- `returnRequest` with `returnDisbursementRequest`
unfoldable pub return_request : ℕ → ℕ → ℕ → String → Tables → Result Tables
unfolding validate_for_finance_action set_request set_items item_ids
return_request now r u feedback t = do
  request ← validate_for_finance_action r t
  ok (
      set_items (item_ids r t.request_items) ItemStatus.available
        (set_request r (give_back now u feedback RequestStatus.returned) t))

-- `rejectRequest` with `rejectDisbursementRequest`
unfoldable pub reject_request : ℕ → ℕ → ℕ → String → Tables → Result Tables
unfolding validate_for_finance_action set_request set_items item_ids
reject_request now r u feedback t = do
  request ← validate_for_finance_action r t
  ok (
      set_items (item_ids r t.request_items) ItemStatus.available
        (set_request r (give_back now u feedback RequestStatus.rejected) t))
