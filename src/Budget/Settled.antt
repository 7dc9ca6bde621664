-- ===== src/Budget/Settled.antt =====
-- The calls that write disbursement requests, and what no sequence of them changes.
use crmp_backend.Base.{
  ℕ, ◌≡◌, refl, ◌∙◌, sym, ap, subst, String, Bool, true, false, Bool-cases, Option, some, List,
  ◌==◌, inl, inr, some-injective, ◌>>=◌, find-update_where, find-append, find-Mem, if◌then◌else◌,
  ok, err, bad_request, internal_server_error, >>=-eq-ok, >>=-err, require-eq-ok, or_throw-eq-ok,
  ok-injective, state_of_ok, arith,
}
use crmp_backend.Budget.Model.{DisbursementRequest, RequestStatus, ItemStatus}
use crmp_backend.Budget.Requests.{
  Tables, Doubles, is_actionable, is_returned, find_request, set_request, set_items,
  validate_for_finance_action, validate_resubmission, validate_and_fetch_items_for_request,
  create_disbursement_request, reduce_amounts, submit_request, resubmit_request, approve_request,
  return_request, reject_request, resubmit, pay, give_back,
}

-- One call that succeeded.
pub data Call (t : Tables) : Tables → Type 0 where
  submitted :
      {t' : Tables} (js : Doubles) (now new_id project u : ℕ) (ids : List ℕ) (file : Option ℕ)
      (r : ℕ)
      → submit_request js now new_id project u ids file t ≡ ok (r, t')
      → Call t t'
  resubmitted_again :
      {t' : Tables} (now r u file : ℕ) → resubmit_request now r u file t ≡ ok t' → Call t t'
  approved :
      {t' : Tables} (now r u : ℕ) (bank : String)
      → approve_request now r u bank t ≡ ok t'
      → Call t t'
  returned_back :
      {t' : Tables} (now r u : ℕ) (feedback : String)
      → return_request now r u feedback t ≡ ok t'
      → Call t t'
  rejected_for_good :
      {t' : Tables} (now r u : ℕ) (feedback : String)
      → reject_request now r u feedback t ≡ ok t'
      → Call t t'

pub data Reaches (t : Tables) : Tables → Type 0 where
  here : Reaches t t
  next : {t' t'' : Tables} → Reaches t t' → Call t' t'' → Reaches t t''

-- No one acts on a paid or rejected request any more.
abbrev pub is_settled : RequestStatus → Bool
is_settled RequestStatus.paid = true
is_settled RequestStatus.rejected = true
is_settled _ = false

-- What a successful check of the finance office has seen.
pub validate_for_finance_action-eq-ok :
    (r : ℕ) (t : Tables) (x : DisbursementRequest)
    → validate_for_finance_action r t ≡ ok x
    → (find_request r t ≡ some x) × (is_actionable x.status ≡ true)
unfolding validate_for_finance_action
validate_for_finance_action-eq-ok r t x h =
    let (y, found, h) = or_throw-eq-ok (find_request r t) _ _ h in
    let (may, h) = require-eq-ok (is_actionable y.status) _ _ h in
    let (_, h) = require-eq-ok _ _ _ h in
    let e = ok-injective h in (found ∙ ap some e, subst (λ z. is_actionable z.status ≡ true) e may)

pub validate_resubmission-eq-ok :
    (r u : ℕ) (t : Tables) (x : DisbursementRequest)
    → validate_resubmission r u t ≡ ok x
    → (find_request r t ≡ some x) × (is_returned x.status ≡ true)
unfolding validate_resubmission
validate_resubmission-eq-ok r u t x h =
    let (y, found, h) = or_throw-eq-ok (find_request r t) _ _ h in
    let (_, h) = require-eq-ok _ _ _ h in
    let (may, h) = require-eq-ok (is_returned y.status) _ _ h in
    let e = ok-injective h in (found ∙ ap some e, subst (λ z. is_returned z.status ≡ true) e may)

clash : (a b : RequestStatus) → a ≡ b → is_settled a ≡ true → is_actionable b ≡ true → ⊥
clash a b e h k = apart b (subst (λ s. is_settled s ≡ true) e h) k
  where
    apart : (s : RequestStatus) → is_settled s ≡ true → is_actionable s ≡ true → ⊥
    apart RequestStatus.pending h k = cc
    apart RequestStatus.returned h k = cc
    apart RequestStatus.resubmitted h k = cc
    apart RequestStatus.paid h k = cc
    apart RequestStatus.rejected h k = cc

returned_clash : (a b : RequestStatus) → a ≡ b → is_settled a ≡ true → is_returned b ≡ true → ⊥
returned_clash a b e h k = apart b (subst (λ s. is_settled s ≡ true) e h) k
  where
    apart : (s : RequestStatus) → is_settled s ≡ true → is_returned s ≡ true → ⊥
    apart RequestStatus.pending h k = cc
    apart RequestStatus.returned h k = cc
    apart RequestStatus.resubmitted h k = cc
    apart RequestStatus.paid h k = cc
    apart RequestStatus.rejected h k = cc

-- An UPDATE of one request leaves each request of another status.
update_one :
    (r s : ℕ) (t : Tables) (x y : DisbursementRequest)
    (f : DisbursementRequest → DisbursementRequest)
    → find_request r t ≡ some x
    → find_request s t ≡ some y
    → (x.status ≡ y.status → ⊥)
    → ((z : DisbursementRequest) → (f z).id ≡ z.id)
    → find_request r (set_request s f t) ≡ some x
unfolding find_request set_request
update_one r s t x y f hx hy apart same = elim (Bool-cases (x.id == s)) [
  | inl e ↦
      let here = (find-Mem (λ z. z.id == r) t.requests hx).1 in
      let same_id : s ≡ r = ground (arith, here, e) in
      absurd (
        apart
          (ap status (some-injective (sym hx ∙ subst (λ i. find_request i t ≡ some y) same_id hy))))
  | inr e ↦
      find-update_where (λ z. z.id == r) (λ z. z.id == s) f t.requests
        (λ z. ap (λ i. i == r) (same z)) hx
      ∙ ap (λ b. some (if b then f x else x)) e
]
  where
    status : DisbursementRequest → RequestStatus
    status z = z.status

-- The calls of the finance office: a check, then an UPDATE of the request and of its items.
finance_settled :
    (s r : ℕ) (t t' : Tables) (x : DisbursementRequest)
    (f : DisbursementRequest → DisbursementRequest) (ids : List ℕ) (to : ItemStatus)
    → (validate_for_finance_action s t >>= λ _. ok (set_items ids to (set_request s f t))) ≡ ok t'
    → ((z : DisbursementRequest) → (f z).id ≡ z.id)
    → find_request r t ≡ some x
    → is_settled x.status ≡ true
    → find_request r t' ≡ some x
unfolding set_items find_request
finance_settled s r t t' x f ids to h same found settled =
    let (y, valid, e) = >>=-eq-ok (validate_for_finance_action s t) _ h in
    let (found_y, may) = validate_for_finance_action-eq-ok s t y valid in
    subst (λ d. find_request r d ≡ some x) (ok-injective e)
      (update_one r s t x y f found found_y (λ k. clash x.status y.status k settled may) same)

pub Call-settled :
    (t t' : Tables) (r : ℕ) (x : DisbursementRequest)
    → Call t t'
    → find_request r t ≡ some x
    → is_settled x.status ≡ true
    → find_request r t' ≡ some x
unfolding set_items find_request approve_request return_request reject_request resubmit_request
    submit_request create_disbursement_request
Call-settled t t' r x (submitted js now new_id p u ids file r' h) found settled =
    let (_, h) = require-eq-ok _ _ _ h in
    let (items, _, h) = >>=-eq-ok (validate_and_fetch_items_for_request p u ids t) _ h in
    let (_, _, h) =
      or_throw-eq-ok (js.stored (reduce_amounts js 0 items)) internal_server_error _ h in
    subst (λ d. find_request r d ≡ some x) (state_of_ok h)
      (find-append (λ z. z.id == r) t.requests _ found)
Call-settled t t' r x (resubmitted_again now s u file h) found settled =
    let (y, valid, e) = >>=-eq-ok (validate_resubmission s u t) _ h in
    let (found_y, may) = validate_resubmission-eq-ok s u t y valid in
    subst (λ d. find_request r d ≡ some x) (ok-injective e)
      (update_one r s t x y (resubmit now file) found found_y
        (λ k. returned_clash x.status y.status k settled may) (λ z. refl))
Call-settled t t' r x (approved now s u bank h) found settled =
    finance_settled s r t t' x (pay now u bank) _ _ h (λ z. refl) found settled
Call-settled t t' r x (returned_back now s u feedback h) found settled =
    finance_settled s r t t' x (give_back now u feedback RequestStatus.returned) _ _ h (λ z. refl)
      found settled
Call-settled t t' r x (rejected_for_good now s u feedback h) found settled =
    finance_settled s r t t' x (give_back now u feedback RequestStatus.rejected) _ _ h (λ z. refl)
      found settled

-- Whatever calls are made, a request that is paid or rejected stays as it is, every column of it.
pub settled_stays :
    {t t' : Tables} (r : ℕ) (x : DisbursementRequest)
    → Reaches t t'
    → find_request r t ≡ some x
    → is_settled x.status ≡ true
    → find_request r t' ≡ some x
settled_stays r x here found settled = found
settled_stays r x (next steps call) found settled =
    Call-settled _ _ r x call (settled_stays r x steps found settled) settled

settled_refused :
    (r : ℕ) (t : Tables) (x : DisbursementRequest)
    → find_request r t ≡ some x
    → is_settled x.status ≡ true
    → validate_for_finance_action r t ≡ err bad_request
unfolding validate_for_finance_action
settled_refused r t x found settled = rw (found, unactionable x.status settled) refl
  where
    unactionable : (s : RequestStatus) → is_settled s ≡ true → is_actionable s ≡ false
    unactionable RequestStatus.pending h = cc
    unactionable RequestStatus.returned h = cc
    unactionable RequestStatus.resubmitted h = cc
    unactionable RequestStatus.paid h = refl
    unactionable RequestStatus.rejected h = refl

pub approved_paid :
    (now r u : ℕ) (bank : String) (t t' : Tables)
    → approve_request now r u bank t ≡ ok t'
    → (x : DisbursementRequest) × (find_request r t ≡ some x)
      × (find_request r t' ≡ some (pay now u bank x))
unfolding approve_request find_request set_items set_request
approved_paid now r u bank t t' h =
    let (x, valid, e) = >>=-eq-ok (validate_for_finance_action r t) _ h in
    let (found, _) = validate_for_finance_action-eq-ok r t x valid in
    (
      x,
      found,
      subst (λ d. find_request r d ≡ some (pay now u bank x)) (ok-injective e)
          (find-update_where (λ z. z.id == r) (λ z. z.id == r) (pay now u bank) t.requests
              (λ z. refl) found
            ∙ ap (λ b. some (if b then pay now u bank x else x))
                (find-Mem (λ z. z.id == r) t.requests found).1),
    )

-- A request that was approved is not approved, returned or rejected again, whatever calls are made
-- in between.
pub paid_once :
    (t t' t'' : Tables) (now r u : ℕ) (bank : String)
    → approve_request now r u bank t ≡ ok t'
    → Reaches t' t''
    → (now' u' : ℕ) (text : String)
    → (approve_request now' r u' text t'' ≡ err bad_request)
      × (return_request now' r u' text t'' ≡ err bad_request)
      × (reject_request now' r u' text t'' ≡ err bad_request)
unfolding approve_request return_request reject_request
paid_once t t' t'' now r u bank h steps now' u' text =
    let (x, _, found) = approved_paid now r u bank t t' h in
    let refused =
      settled_refused r t'' (pay now u bank x) (settled_stays r (pay now u bank x) steps found refl)
        refl in
    (>>=-err _ _ refused, >>=-err _ _ refused, >>=-err _ _ refused)
