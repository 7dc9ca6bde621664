-- ===== src/Budget/Payable.antt =====
-- Requests of src/budget/repositories/budget.repository.ts on which someone can still act can be
-- paid.
use crmp_backend.Base.{
  ℕ, String, true, ◌||◌, some, [], ◌==◌, ==_refl, ok, ◌≡◌, refl, ◌∙◌, Bool-cases, inl, inr, arith,
  find-update_where, find-Mem,
}
use crmp_backend.Budget.Model.{DisbursementRequest, RequestStatus, ItemStatus}
use crmp_backend.Budget.Requests.{
  Tables, is_actionable, is_returned, find_request, set_request, validate_for_finance_action,
  validate_resubmission, resubmit_request, approve_request, resubmit, pay, set_items, item_ids,
}
use crmp_backend.Budget.Settled.{Reaches, resubmitted_again, approved, here, next}
use crmp_backend.Budget.Clearance.{finance_check_by_status}
use crmp_backend.Budget.Holding.{approved_items_paid}

-- Calls lead to tables in which the request is paid.
abbrev pub CanBePaid : ℕ → Tables → Type 0
CanBePaid r t =
    (t' : Tables) × Reaches t t'
    × (y : DisbursementRequest) × (find_request r t' ≡ some y)
    × (y.status ≡ RequestStatus.paid)

actionable-CanBePaid :
    (t t' : Tables) (now r u : ℕ) (bank : String) (x : DisbursementRequest)
    → t.requests ≡ []
    → Reaches t t'
    → find_request r t' ≡ some x
    → is_actionable x.status ≡ true
    → CanBePaid r t'
unfolding approve_request
actionable-CanBePaid t t' now r u bank x empty steps found may =
    let checked : validate_for_finance_action r t' ≡ ok x =
      finance_check_by_status t t' r empty steps ∙ rw (found, may) refl in
    let left =
      set_items (item_ids r t'.request_items) ItemStatus.paid (set_request r (pay now u bank) t') in
    let done : approve_request now r u bank t' ≡ ok left = rw checked refl in
    let (_, y, _, paid, is, _, _, _, _, _) = approved_items_paid t' left now r u bank done in
    (left, next here (approved now r u bank done), y, paid, is)

and_then : {t t' t'' : Tables} → Reaches t t' → Reaches t' t'' → Reaches t t''
and_then r here = r
and_then r (next s c) = next (and_then r s) c

resubmitted_request :
    (now file r : ℕ) (t : Tables) (x : DisbursementRequest)
    → find_request r t ≡ some x
    → find_request r (set_request r (resubmit now file) t) ≡ some (resubmit now file x)
unfolding find_request set_request
resubmitted_request now file r t x found =
    let (_, its) = find-Mem (λ (z : DisbursementRequest). z.id == r) t.requests found in
    find-update_where (λ (z : DisbursementRequest). z.id == r) (λ z. z.id == r) (resubmit now file)
      t.requests (λ z. refl) found
    ∙ rw its refl

-- In tables that calls reach from tables without requests, a request that is pending, resubmitted or
-- returned can still be paid: calls that succeed lead to tables in which it is.
pub open_request_payable :
    (t t' : Tables) (now r u file : ℕ) (bank : String) (x : DisbursementRequest)
    → t.requests ≡ []
    → Reaches t t'
    → find_request r t' ≡ some x
    → (is_actionable x.status || is_returned x.status) ≡ true
    → CanBePaid r t'
unfolding resubmit_request validate_resubmission
open_request_payable t t' now r u file bank x empty steps found open_yet =
    elim (Bool-cases (is_actionable x.status)) [
      | inl may ↦ actionable-CanBePaid t t' now r u bank x empty steps found may
      | inr f ↦
          let back : is_returned x.status ≡ true = ground (arith, f, open_yet) in
          let again = set_request r (resubmit now file) t' in
          let done : resubmit_request now r x.requested_by file t' ≡ ok again =
            rw (found, ==_refl x.requested_by, back) refl in
          let call = resubmitted_again now r x.requested_by file done in
          let (t'', more, y, known, paid) =
            actionable-CanBePaid t again now r u bank (resubmit now file x) empty (next steps call)
              (resubmitted_request now file r t' x found) refl in
          (t'', and_then (next here call) more, y, known, paid)
    ]
