-- ===== src/Budget/Holding.antt =====
-- What the writes of src/budget/repositories/budget.repository.ts do to the items of a request.
use crmp_backend.Base.{
  forbidden, not, is_some, ltb, ==_refl, find-append_new, ℕ, ◌+◌, ◌≡◌, refl, ◌∙◌, sym, ap, subst,
  String, true, false, Bool-cases, ◌⊎◌, inl, inr, Option, none, some, List, [], ◌∷◌, ◌++◌, ◌==◌,
  ◌&&◌, filter, update_where, mem_nat, all, if◌then◌else◌, ok, ◌>>=◌, >>=-eq-ok, require-eq-ok,
  ok-injective, arith, All, bad_request, internal_server_error, length, any, or_throw-eq-ok,
}
use crmp_backend.Budget.Model.{
  BudgetItem, DisbursementRequest, RequestItem, RequestStatus, ItemStatus, available, paid,
  pending_disbursement,
}
use crmp_backend.Budget.Requests.{
  Tables, is_pi_of, is_returned, is_available, find_request, selected_items, reduce_amounts,
  Doubles, item_ids, join_items, set_request, set_items, validate_for_finance_action,
  validate_and_fetch_items_for_request, create_disbursement_request, get_disbursement_request_count,
  submit_request, approve_request, return_request, reject_request, give_back, pay,
}
use crmp_backend.Budget.Settled.{approved_paid}

-- Every item with one of these ids has this status.
abbrev pub HaveStatus : List ℕ → ItemStatus → List BudgetItem → Type 0
HaveStatus ids s items = All (λ i. mem_nat i.id ids ≡ true → i.status ≡ s) items

pub set_items-HaveStatus :
    (ids : List ℕ) (s : ItemStatus) (t : Tables) → HaveStatus ids s (set_items ids s t).items
unfolding set_items update_where
set_items-HaveStatus ids s t = rows t.items
  where
    row :
        (i : BudgetItem)
        → mem_nat (if mem_nat i.id ids then record i { status = s } else i).id ids ≡ true
        → (if mem_nat i.id ids then record i { status = s } else i).status ≡ s
    row i h = elim (Bool-cases (mem_nat i.id ids)) [
      | inl e ↦ ap (λ b. (if b then record i { status = s } else i).status) e
      | inr e ↦
          let no : false ≡ true =
            sym e
            ∙ sym (ap (λ b. mem_nat (if b then record i { status = s } else i).id ids) e)
            ∙ h in
          cc
    ]

    rows :
        (items : List BudgetItem)
        → HaveStatus ids s
            (update_where (λ i. mem_nat i.id ids) (λ i. record i { status = s }) items)
    rows [] = tt
    rows (i ∷ items) = (row i, rows items)

-- The junction rows of a new request lead back to the items that it was made for.
item_ids-join_items :
    (r : ℕ) (js : List RequestItem) (ids : List ℕ)
    → item_ids r js ≡ []
    → item_ids r (js ++ join_items r ids) ≡ ids
unfolding item_ids join_items
item_ids-join_items r [] [] h = refl
item_ids-join_items r [] (i ∷ ids) h = ground (arith, item_ids-join_items r [] ids refl)
item_ids-join_items r (j ∷ js) ids h = elim (Bool-cases (j.disbursement_request_id == r)) [
  | inl e ↦ ground arith
  | inr e ↦ ground (arith, item_ids-join_items r js ids)
]

-- The selection and its total do not depend on the statuses.
total-set_items :
    (d : Doubles) (n p : ℕ) (ids js : List ℕ) (s : ItemStatus) (t : Tables)
    → reduce_amounts d n (selected_items p ids (set_items js s t))
      ≡ reduce_amounts d n (selected_items p ids t)
unfolding set_items selected_items filter update_where reduce_amounts
total-set_items d n p ids js s t = rows n t.items
  where
    rows :
        (m : ℕ) (items : List BudgetItem)
        → reduce_amounts d m (
            filter
              (λ i. mem_nat i.id ids && i.project_id == p)
              (update_where (λ i. mem_nat i.id js) (λ i. record i { status = s }) items))
          ≡ reduce_amounts d m (filter (λ i. mem_nat i.id ids && i.project_id == p) items)
    rows m [] = refl
    rows m (i ∷ items) = elim (Bool-cases (mem_nat i.id js)) [
      | inl e ↦ ground (arith, rows m items, rows (d.add m (d.of_cents i.amount)) items)
      | inr e ↦ ground (arith, rows m items, rows (d.add m (d.of_cents i.amount)) items)
    ]

-- What the selection for a request has checked.
validate-selection :
    (p u : ℕ) (ids : List ℕ) (t : Tables) (items : List BudgetItem)
    → validate_and_fetch_items_for_request p u ids t ≡ ok items
    → (selected_items p ids t ≡ items) × (all (λ i. is_available i.status) items ≡ true)
unfolding validate_and_fetch_items_for_request
validate-selection p u ids t items h =
    let (_, h) = require-eq-ok (is_pi_of p u t) forbidden _ h in
    let (_, h) =
      require-eq-ok (not (any (λ r. r.project_id == p && is_returned r.status) t.requests))
        bad_request _ h in
    let (_, h) = require-eq-ok (length (selected_items p ids t) == length ids) bad_request _ h in
    let (free, h) =
      require-eq-ok (all (λ i. is_available i.status) (selected_items p ids t)) bad_request _ h in
    let e = ok-injective h in (e, subst (λ is. all (λ i. is_available i.status) is ≡ true) e free)

-- The request `r` of `t'` is pending; the items of its junction rows were available in `t` and are
-- held in `t'`, and its total is what its column holds of the sum of their amounts in doubles.
abbrev pub Holds : Doubles → ℕ → Tables → ℕ → Tables → Type 0
Holds d p t r t' =
    (x : DisbursementRequest) × (find_request r t' ≡ some x)
    × (x.status ≡ RequestStatus.pending)
    × (all (λ i. is_available i.status) (selected_items p (item_ids r t'.request_items) t) ≡ true)
    × HaveStatus (item_ids r t'.request_items) pending_disbursement t'.items
    × (d.stored (reduce_amounts d 0 (selected_items p (item_ids r t'.request_items) t'))
        ≡ some x.total_amount)

created-Holds :
    (d : Doubles) (now new_id p u : ℕ) (ids : List ℕ) (total n : ℕ) (file : Option ℕ) (t : Tables)
    → find_request new_id t ≡ none
    → item_ids new_id t.request_items ≡ []
    → all (λ i. is_available i.status) (selected_items p ids t) ≡ true
    → d.stored (reduce_amounts d 0 (selected_items p ids t)) ≡ some total
    → Holds d p t new_id (create_disbursement_request now new_id p u ids total n file t)
unfolding create_disbursement_request find_request set_items selected_items
created-Holds d now new_id p u ids total n file t new_r new_j free sum =
    let joined = item_ids-join_items new_id t.request_items ids new_j in
    (
      _,
      find-append_new (λ z. z.id == new_id) t.requests _ new_r (==_refl new_id),
      refl,
      subst (λ js. all (λ i. is_available i.status) (selected_items p js t) ≡ true) (sym joined)
          free,
      subst (λ js. HaveStatus js pending_disbursement (set_items ids pending_disbursement t).items)
          (sym joined) (set_items-HaveStatus ids pending_disbursement t),
      subst
          (λ js.
            d.stored
              (reduce_amounts d 0 (selected_items p js (set_items ids pending_disbursement t)))
            ≡ some total)
          (sym joined)
          (ap (λ m. d.stored m) (total-set_items d 0 p ids ids pending_disbursement t) ∙ sum),
    )

-- A new request, under an id that no request has and no junction row mentions, is pending; the items
-- of its junction rows were available and are held now, and its total is what its column holds of the
-- sum of their amounts in doubles, added in the order of the rows.
pub submitted_items_held :
    (d : Doubles) (t t' : Tables) (now new_id p u : ℕ) (ids : List ℕ) (file : Option ℕ) (r : ℕ)
    → find_request new_id t ≡ none
    → item_ids new_id t.request_items ≡ []
    → submit_request d now new_id p u ids file t ≡ ok (r, t')
    → Holds d p t r t'
unfolding submit_request
submitted_items_held d t t' now new_id p u ids file r new_r new_j h =
    let n = get_disbursement_request_count p t + 1 in
    let (_, h) = require-eq-ok (not (ltb 1 n && not (is_some file))) bad_request _ h in
    let (items, valid, h) = >>=-eq-ok (validate_and_fetch_items_for_request p u ids t) _ h in
    let (total, sum, h) =
      or_throw-eq-ok (d.stored (reduce_amounts d 0 items)) internal_server_error _ h in
    let (chosen, free) = validate-selection p u ids t items valid in
    subst (λ (c : ℕ × Tables). Holds d p t c.0 c.1) (ok-injective h)
      (created-Holds d now new_id p u ids total n file t new_r new_j
        (subst (λ is. all (λ i. is_available i.status) is ≡ true) (sym chosen) free)
        (ap (λ is. d.stored (reduce_amounts d 0 is)) chosen ∙ sum))

finance_items :
    (r : ℕ) (t t' : Tables) (f : DisbursementRequest → DisbursementRequest) (s : ItemStatus)
    → (validate_for_finance_action r t >>= λ _.
        ok (set_items (item_ids r t.request_items) s (set_request r f t)))
      ≡ ok t'
    → HaveStatus (item_ids r t'.request_items) s t'.items
unfolding set_items set_request
finance_items r t t' f s h =
    let (_, _, e) = >>=-eq-ok (validate_for_finance_action r t) _ h in
    subst (λ d. HaveStatus (item_ids r d.request_items) s d.items) (ok-injective e)
      (set_items-HaveStatus (item_ids r t.request_items) s (set_request r f t))

-- An approval leaves the request, which there was, paid, with the bank's transaction, the approver
-- and the time, for the same total, and pays every item of its junction rows.
pub approved_items_paid :
    (t t' : Tables) (now r u : ℕ) (bank : String)
    → approve_request now r u bank t ≡ ok t'
    → (x y : DisbursementRequest) × (find_request r t ≡ some x)
      × (find_request r t' ≡ some y)
      × (y.status ≡ RequestStatus.paid)
      × (y.bank_transaction_id ≡ some bank)
      × (y.finance_approved_by ≡ some u)
      × (y.paid_at ≡ some now)
      × (y.total_amount ≡ x.total_amount)
      × HaveStatus (item_ids r t'.request_items) paid t'.items
unfolding approve_request
approved_items_paid t t' now r u bank h =
    let (x, was, found) = approved_paid now r u bank t t' h in
    (
      x,
      pay now u bank x,
      was,
      found,
      refl,
      refl,
      refl,
      refl,
      refl,
      finance_items r t t' (pay now u bank) paid h,
    )

-- When a request is returned or rejected, every item of its junction rows is available again.
pub declined_items_available :
    (t t' : Tables) (now r u : ℕ) (feedback : String)
    → (return_request now r u feedback t ≡ ok t') ⊎ (reject_request now r u feedback t ≡ ok t')
    → HaveStatus (item_ids r t'.request_items) available t'.items
unfolding return_request reject_request
declined_items_available t t' now r u feedback (inl h) =
    finance_items r t t' (give_back now u feedback RequestStatus.returned) available h
declined_items_available t t' now r u feedback (inr h) =
    finance_items r t t' (give_back now u feedback RequestStatus.rejected) available h
