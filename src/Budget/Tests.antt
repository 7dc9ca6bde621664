-- ===== src/Budget/Tests.antt =====
-- A project with three budget items, its requests, and the theorems at them.
use crmp_backend.Base.{
  ℕ, ◌+◌, ◌≡◌, refl, Option, none, some, [], ◌∷◌, Result, ok, err, bad_request, not_found, require,
  or_throw, ◌>>=◌, ◌>>◌, inl,
}
use crmp_backend.Workflow.Store.{MemberRole}
use crmp_backend.Budget.Model.{BudgetItem, DisbursementRequest, RequestStatus, available, paid}
use crmp_backend.Budget.Requests.{
  Tables, Doubles, find_request, is_actionable, item_ids, get_disbursement_request_count,
  validate_for_finance_action, submit_request, resubmit_request, approve_request, return_request,
  reject_request,
}
use crmp_backend.Budget.Settled.{
  Reaches, here, next, submitted, approved, returned_back, resubmitted_again, settled_stays,
  paid_once,
}
use crmp_backend.Budget.Clearance.{finance_check_by_status}
use crmp_backend.Budget.Numbering.{sequences, up_to, numbered_in_order}
use crmp_backend.Budget.Payable.{CanBePaid, open_request_payable}
use crmp_backend.Budget.Holding.{
  Holds, HaveStatus, submitted_items_held, approved_items_paid, declined_items_available,
}

abbrev item : ℕ → ℕ → BudgetItem
item i amount = record {
  id = i;
  project_id = 5;
  description = "Sensors";
  category = none;
  amount = amount;
  status = available;
}

abbrev start : Tables
start = record {
  members = record { project_id = 5; user_id = 1; role = MemberRole.pi } ∷ [];
  items = item 11 100 ∷ item 12 200 ∷ item 13 50 ∷ [];
  requests = [];
  request_items = [];
}

-- Doubles without rounding.
abbrev exact : Doubles
exact = record { of_cents = λ n. n; add = λ a b. a + b; stored = λ n. some n }

-- The definitions that a run computes with.
runs : Unit {0}
unfolding submit_request resubmit_request approve_request return_request find_request item_ids
runs = tt

abbrev state : Result (ℕ × Tables) → Tables
state (ok (_, t)) = t
state (err _) = start

abbrev state_of : Result Tables → Tables
state_of (ok t) = t
state_of (err _) = start

abbrev first_db : Tables
unfolding runs
first_db = state (submit_request exact 100 40 5 1 (11 ∷ 12 ∷ []) none start)

abbrev paid_db : Tables
unfolding runs
paid_db = state_of (approve_request 200 40 2 "TX-1" first_db)

abbrev second_db : Tables
unfolding runs
second_db = state (submit_request exact 300 41 5 1 (13 ∷ []) (some 9) paid_db)

abbrev returned_db : Tables
unfolding runs
returned_db = state_of (return_request 400 41 2 "Blurred" second_db)

abbrev resubmitted_db : Tables
unfolding runs
resubmitted_db = state_of (resubmit_request 500 41 1 10 returned_db)

abbrev request_or : Option DisbursementRequest → DisbursementRequest
request_or (some x) = x
request_or none = record {
  id = 0;
  project_id = 0;
  requested_by = 0;
  request_sequence = 0;
  total_amount = 0;
  status = RequestStatus.pending;
  clearance_file_id = none;
  bank_transaction_id = none;
  finance_approved_by = none;
  paid_at = none;
  finance_feedback = none;
  returned_by = none;
  returned_at = none;
  submitted_at = none;
  updated_at = none;
}

abbrev paid_request : DisbursementRequest
unfolding runs
paid_request = request_or (find_request 40 paid_db)

total : paid_request.total_amount ≡ 300
unfolding runs
total = refl

after_payment : Reaches paid_db resubmitted_db
unfolding runs
after_payment =
    next {t' = returned_db}
      (next {t' = second_db} (next here (submitted exact 300 41 5 1 (13 ∷ []) (some 9) 41 refl))
        (returned_back 400 41 2 "Blurred" refl))
      (resubmitted_again 500 41 1 10 refl)

settled_stays_example : find_request 40 resubmitted_db ≡ some paid_request
unfolding runs
settled_stays_example = settled_stays 40 paid_request after_payment refl refl

paid_once_example :
    (approve_request 600 40 2 "TX-2" resubmitted_db ≡ err bad_request)
    × (return_request 600 40 2 "TX-2" resubmitted_db ≡ err bad_request)
    × (reject_request 600 40 2 "TX-2" resubmitted_db ≡ err bad_request)
unfolding runs
paid_once_example =
    paid_once first_db paid_db resubmitted_db 200 40 2 "TX-1" refl after_payment 600 2 "TX-2"

whole_run : Reaches start second_db
unfolding runs
whole_run =
    next {t' = paid_db}
      (next {t' = first_db} (next here (submitted exact 100 40 5 1 (11 ∷ 12 ∷ []) none 40 refl))
        (approved 200 40 2 "TX-1" refl))
      (submitted exact 300 41 5 1 (13 ∷ []) (some 9) 41 refl)

finance_check_by_status_example : validate_for_finance_action 41 second_db ≡ (
    or_throw (find_request 41 second_db) not_found >>= λ x.
    require (is_actionable x.status) bad_request >> ok x)
finance_check_by_status_example = finance_check_by_status start second_db 41 refl whole_run

numbered_in_order_example :
    sequences 5 second_db.requests ≡ up_to (get_disbursement_request_count 5 second_db)
numbered_in_order_example = numbered_in_order start second_db 5 refl whole_run

submitted_items_held_example : Holds exact 5 start 40 first_db
unfolding runs
submitted_items_held_example =
    submitted_items_held exact start first_db 100 40 5 1 (11 ∷ 12 ∷ []) none 40 refl refl refl

approved_items_paid_example :
    (x y : DisbursementRequest) × (find_request 40 first_db ≡ some x)
    × (find_request 40 paid_db ≡ some y)
    × (y.status ≡ RequestStatus.paid)
    × (y.bank_transaction_id ≡ some "TX-1")
    × (y.finance_approved_by ≡ some 2)
    × (y.paid_at ≡ some 200)
    × (y.total_amount ≡ x.total_amount)
    × HaveStatus (item_ids 40 paid_db.request_items) paid paid_db.items
unfolding runs
approved_items_paid_example = approved_items_paid first_db paid_db 200 40 2 "TX-1" refl

declined_items_available_example :
    HaveStatus (item_ids 41 returned_db.request_items) available returned_db.items
unfolding runs
declined_items_available_example =
    declined_items_available second_db returned_db 400 41 2 "Blurred" (inl refl)

-- The request 41 is returned, and 40 is paid.
returned_run : Reaches start returned_db
unfolding runs
returned_run =
    next {t' = second_db}
      (next {t' = paid_db}
        (next {t' = first_db} (next here (submitted exact 100 40 5 1 (11 ∷ 12 ∷ []) none 40 refl))
          (approved 200 40 2 "TX-1" refl))
        (submitted exact 300 41 5 1 (13 ∷ []) (some 9) 41 refl))
      (returned_back 400 41 2 "Blurred" refl)

abbrev returned_request : DisbursementRequest
unfolding runs
returned_request = request_or (find_request 41 returned_db)

open_request_payable_example : CanBePaid 41 returned_db
unfolding runs
open_request_payable_example =
    open_request_payable start returned_db 500 41 2 10 "TX-2" returned_request refl returned_run
      refl refl
