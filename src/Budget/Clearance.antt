-- ===== src/Budget/Clearance.antt =====
-- The clearance documents that requests after a project's first carry: src/budget/services/pi-budget.service.ts
-- asks for them, and src/budget/repositories/budget.repository.ts checks them again before finance acts.
use crmp_backend.Base.{
  ℕ, ◌≡◌, refl, sym, subst, true, not, ◌&&◌, Option-cases, inl, inr, List, [], ◌∷◌, ◌+◌, ◌==◌, ltb,
  is_some, ok, not_found, bad_request, internal_server_error, require, or_throw, ◌>>=◌, ◌>>◌,
  >>=-eq-ok, or_throw-eq-ok, require-eq-ok, ok-injective, state_of_ok, arith, All, All-append,
  All-update_where, All-Mem, find-Mem,
}
use crmp_backend.Budget.Model.{DisbursementRequest, RequestStatus, ItemStatus}
use crmp_backend.Budget.Requests.{
  Tables, is_actionable, find_request, set_request, set_items, validate_for_finance_action,
  validate_resubmission, validate_and_fetch_items_for_request, get_disbursement_request_count,
  create_disbursement_request, reduce_amounts, submit_request, resubmit_request, approve_request,
  return_request, reject_request, resubmit, pay, give_back,
}
use crmp_backend.Budget.Settled.{
  Call, Reaches, submitted, resubmitted_again, approved, returned_back, rejected_for_good, here,
  next,
}

-- Every request but a project's first has a clearance document.
abbrev pub IsCleared : DisbursementRequest → Type 0
IsCleared x = ltb 1 x.request_sequence ≡ true → is_some x.clearance_file_id ≡ true

-- An UPDATE that only changes other columns.
update-IsCleared :
    (s : ℕ) (t : Tables) (f : DisbursementRequest → DisbursementRequest)
    → ((z : DisbursementRequest) → IsCleared z → IsCleared (f z))
    → All IsCleared t.requests
    → All IsCleared (set_request s f t).requests
unfolding set_request
update-IsCleared s t f keep h =
    All-update_where (λ z. z.id == s) f t.requests (λ z _ k. keep z k) (λ z _ k. k) h

finance-IsCleared :
    (s : ℕ) (t t' : Tables) (f : DisbursementRequest → DisbursementRequest) (ids : List ℕ)
    (to : ItemStatus)
    → (validate_for_finance_action s t >>= λ _. ok (set_items ids to (set_request s f t))) ≡ ok t'
    → ((z : DisbursementRequest) → IsCleared z → IsCleared (f z))
    → All IsCleared t.requests
    → All IsCleared t'.requests
unfolding set_items
finance-IsCleared s t t' f ids to h keep c =
    let (_, _, e) = >>=-eq-ok (validate_for_finance_action s t) _ h in
    subst (λ d. All IsCleared d.requests) (ok-injective e) (update-IsCleared s t f keep c)

Call-IsCleared : (t t' : Tables) → Call t t' → All IsCleared t.requests → All IsCleared t'.requests
unfolding set_items approve_request return_request reject_request resubmit_request submit_request
    create_disbursement_request
Call-IsCleared t t' (submitted js now new_id p u ids file r h) c =
    let (gate, h) =
      require-eq-ok (not (ltb 1 (get_disbursement_request_count p t + 1) && not (is_some file)))
        bad_request _ h in
    let (items, _, h) = >>=-eq-ok (validate_and_fetch_items_for_request p u ids t) _ h in
    let (_, _, h) =
      or_throw-eq-ok (js.stored (reduce_amounts js 0 items)) internal_server_error _ h in
    subst (λ d. All IsCleared d.requests) (state_of_ok h)
      (All-append IsCleared t.requests (_ ∷ []) c ((λ later. ground (arith, gate, later)), tt))
Call-IsCleared t t' (resubmitted_again now s u file h) c =
    let (_, _, e) = >>=-eq-ok (validate_resubmission s u t) _ h in
    subst (λ d. All IsCleared d.requests) (ok-injective e)
      (update-IsCleared s t (resubmit now file) (λ z k later. refl) c)
Call-IsCleared t t' (approved now s u bank h) c =
    finance-IsCleared s t t' (pay now u bank) _ _ h (λ z k. k) c
Call-IsCleared t t' (returned_back now s u feedback h) c =
    finance-IsCleared s t t' (give_back now u feedback RequestStatus.returned) _ _ h (λ z k. k) c
Call-IsCleared t t' (rejected_for_good now s u feedback h) c =
    finance-IsCleared s t t' (give_back now u feedback RequestStatus.rejected) _ _ h (λ z k. k) c

-- Whatever calls are made, every request but a project's first has a clearance document, if that was
-- so at the start.
pub Reaches-IsCleared :
    {t t' : Tables} → Reaches t t' → All IsCleared t.requests → All IsCleared t'.requests
Reaches-IsCleared here c = c
Reaches-IsCleared (next steps call) c = Call-IsCleared _ _ call (Reaches-IsCleared steps c)

-- In tables that calls reach from tables without requests, the check of the finance office refuses
-- only unknown requests and requests that are neither pending nor resubmitted: its test of the
-- clearance document never fails.
pub finance_check_by_status :
    (t t' : Tables) (r : ℕ)
    → t.requests ≡ []
    → Reaches t t'
    → validate_for_finance_action r t' ≡ (
        or_throw (find_request r t') not_found >>= λ x.
        require (is_actionable x.status) bad_request >> ok x)
unfolding validate_for_finance_action find_request
finance_check_by_status t t' r empty steps = elim (Option-cases (find_request r t')) [
  | inl e ↦ rw e refl
  | inr (x, e) ↦
      let start : All IsCleared t.requests = subst (All IsCleared) (sym empty) tt in
      let cleared : IsCleared x =
        All-Mem IsCleared (Reaches-IsCleared steps start)
          (find-Mem (λ z. z.id == r) t'.requests e).0 in
      rw e (gate_open x cleared)
]
  where
    gate_open :
        (x : DisbursementRequest)
        → IsCleared x
        → (require (is_actionable x.status) bad_request
            >> (require
                  (not (ltb 1 x.request_sequence && not (is_some x.clearance_file_id)))
                  bad_request
                >> ok x))
          ≡ (require (is_actionable x.status) bad_request >> ok x)
    gate_open x c = ground (arith, c)
