-- ===== src/Budget/Numbering.antt =====
-- The sequence numbers of src/budget/services/pi-budget.service.ts: the count of the project's requests, plus one.
use crmp_backend.Base.{
  ℕ, zero, suc, ◌+◌, ◌≡◌, refl, ◌∙◌, sym, ap, subst, true, Bool-cases, inl, inr, List, [], ◌∷◌,
  ◌++◌, filter, length, ◌==◌, update_where, if◌then◌else◌, ok, ◌>>=◌, internal_server_error,
  >>=-eq-ok, or_throw-eq-ok, require-eq-ok, ok-injective, state_of_ok, arith, ==_iff,
}
use crmp_backend.Budget.Model.{DisbursementRequest, RequestStatus, ItemStatus}
use crmp_backend.Budget.Requests.{
  Tables, set_request, set_items, validate_for_finance_action, validate_resubmission,
  validate_and_fetch_items_for_request, get_disbursement_request_count, create_disbursement_request,
  submit_request, reduce_amounts, resubmit_request, approve_request, return_request, reject_request,
  resubmit, pay, give_back,
}
use crmp_backend.Budget.Settled.{
  Call, Reaches, submitted, resubmitted_again, approved, returned_back, rejected_for_good, here,
  next,
}

-- The sequence numbers of a project's requests, in the order of their rows.
abbrev pub sequences : ℕ → List DisbursementRequest → List ℕ
sequences p [] = []
sequences p (x ∷ xs) =
    if x.project_id == p then x.request_sequence ∷ sequences p xs else sequences p xs

-- The numbers 1, …, n
abbrev pub up_to : ℕ → List ℕ
up_to zero = []
up_to (suc n) = up_to n ++ suc n ∷ []

abbrev row_count : ℕ → List DisbursementRequest → ℕ
row_count p xs = length (filter (λ r. r.project_id == p) xs)

-- A row that keeps the two columns counts as before.
sequences-update_where :
    (p s : ℕ) (f : DisbursementRequest → DisbursementRequest) (xs : List DisbursementRequest)
    → ((z : DisbursementRequest) → (f z).project_id ≡ z.project_id)
    → ((z : DisbursementRequest) → (f z).request_sequence ≡ z.request_sequence)
    → (sequences p (update_where (λ z. z.id == s) f xs) ≡ sequences p xs)
      × (row_count p (update_where (λ z. z.id == s) f xs) ≡ row_count p xs)
unfolding filter update_where
sequences-update_where p s f [] same_p same_n = (refl, refl)
sequences-update_where p s f (x ∷ xs) same_p same_n =
    let (e, k) = sequences-update_where p s f xs same_p same_n in
    (ground (arith, e, k, same_p x, same_n x), ground (arith, e, k, same_p x, same_n x))

sequences-append :
    (p : ℕ) (xs : List DisbursementRequest) (y : DisbursementRequest)
    → (sequences p (xs ++ y ∷ [])
        ≡ (if y.project_id == p then sequences p xs ++ y.request_sequence ∷ [] else sequences p xs))
      × (row_count p (xs ++ y ∷ [])
          ≡ (if y.project_id == p then suc (row_count p xs) else row_count p xs))
unfolding filter
sequences-append p [] y = (refl, ground arith)
sequences-append p (x ∷ xs) y =
    let (e, k) = sequences-append p xs y in (ground (arith, e), ground (arith, k))

abbrev pub IsNumbered : ℕ → List DisbursementRequest → Type 0
IsNumbered p xs = sequences p xs ≡ up_to (row_count p xs)

append-IsNumbered :
    (p : ℕ) (xs : List DisbursementRequest) (y : DisbursementRequest)
    → IsNumbered p xs
    → ((y.project_id == p) ≡ true → y.request_sequence ≡ suc (row_count p xs))
    → IsNumbered p (xs ++ y ∷ [])
append-IsNumbered p xs y h number = elim (Bool-cases (y.project_id == p)) [
  | inl e ↦
      let (a, b) = sequences-append p xs y in
      a
      ∙ ap (λ c. if c then sequences p xs ++ y.request_sequence ∷ [] else sequences p xs) e
      ∙ ap (λ s. s ++ y.request_sequence ∷ []) h
      ∙ ap (λ n. up_to (row_count p xs) ++ n ∷ []) (number e)
      ∙ sym (ap up_to (b ∙ ap (λ c. if c then suc (row_count p xs) else row_count p xs) e))
  | inr e ↦
      let (a, b) = sequences-append p xs y in
      a
      ∙ ap (λ c. if c then sequences p xs ++ y.request_sequence ∷ [] else sequences p xs) e
      ∙ h
      ∙ sym (ap up_to (b ∙ ap (λ c. if c then suc (row_count p xs) else row_count p xs) e))
]

update-IsNumbered :
    (p s : ℕ) (t : Tables) (f : DisbursementRequest → DisbursementRequest)
    → ((z : DisbursementRequest) → (f z).project_id ≡ z.project_id)
    → ((z : DisbursementRequest) → (f z).request_sequence ≡ z.request_sequence)
    → IsNumbered p t.requests
    → IsNumbered p (set_request s f t).requests
unfolding set_request
update-IsNumbered p s t f same_p same_n h =
    let (e, k) = sequences-update_where p s f t.requests same_p same_n in e ∙ h ∙ sym (ap up_to k)

finance-IsNumbered :
    (p s : ℕ) (t t' : Tables) (f : DisbursementRequest → DisbursementRequest) (ids : List ℕ)
    (to : ItemStatus)
    → (validate_for_finance_action s t >>= λ _. ok (set_items ids to (set_request s f t))) ≡ ok t'
    → ((z : DisbursementRequest) → (f z).project_id ≡ z.project_id)
    → ((z : DisbursementRequest) → (f z).request_sequence ≡ z.request_sequence)
    → IsNumbered p t.requests
    → IsNumbered p t'.requests
unfolding set_items
finance-IsNumbered p s t t' f ids to h same_p same_n c =
    let (_, _, e) = >>=-eq-ok (validate_for_finance_action s t) _ h in
    subst (λ d. IsNumbered p d.requests) (ok-injective e)
      (update-IsNumbered p s t f same_p same_n c)

plus_one : (n : ℕ) → n + 1 ≡ suc n
plus_one n = omega arith

Call-IsNumbered :
    (p : ℕ) (t t' : Tables) → Call t t' → IsNumbered p t.requests → IsNumbered p t'.requests
unfolding set_items approve_request return_request reject_request resubmit_request submit_request
    create_disbursement_request get_disbursement_request_count
Call-IsNumbered p t t' (submitted js now new_id q u ids file r h) c =
    let (_, h) = require-eq-ok _ _ _ h in
    let (items, _, h) = >>=-eq-ok (validate_and_fetch_items_for_request q u ids t) _ h in
    let (_, _, h) =
      or_throw-eq-ok (js.stored (reduce_amounts js 0 items)) internal_server_error _ h in
    subst (λ d. IsNumbered p d.requests) (state_of_ok h)
      (append-IsNumbered p t.requests _ c
        (λ e. ap (λ i. row_count i t.requests + 1) ((==_iff q p).0 e) ∙ plus_one _))
Call-IsNumbered p t t' (resubmitted_again now s u file h) c =
    let (_, _, e) = >>=-eq-ok (validate_resubmission s u t) _ h in
    subst (λ d. IsNumbered p d.requests) (ok-injective e)
      (update-IsNumbered p s t (resubmit now file) (λ z. refl) (λ z. refl) c)
Call-IsNumbered p t t' (approved now s u bank h) c =
    finance-IsNumbered p s t t' (pay now u bank) _ _ h (λ z. refl) (λ z. refl) c
Call-IsNumbered p t t' (returned_back now s u feedback h) c =
    finance-IsNumbered p s t t' (give_back now u feedback RequestStatus.returned) _ _ h (λ z. refl)
      (λ z. refl) c
Call-IsNumbered p t t' (rejected_for_good now s u feedback h) c =
    finance-IsNumbered p s t t' (give_back now u feedback RequestStatus.rejected) _ _ h (λ z. refl)
      (λ z. refl) c

Reaches-IsNumbered :
    {t t' : Tables} (p : ℕ) → Reaches t t' → IsNumbered p t.requests → IsNumbered p t'.requests
Reaches-IsNumbered p here c = c
Reaches-IsNumbered p (next steps call) c = Call-IsNumbered p _ _ call (Reaches-IsNumbered p steps c)

-- Whatever calls are made from tables without requests, the requests of a project are numbered
-- 1, 2, 3 and so on in the order of their rows, up to their number.
pub numbered_in_order :
    (t t' : Tables) (p : ℕ)
    → t.requests ≡ []
    → Reaches t t'
    → sequences p t'.requests ≡ up_to (get_disbursement_request_count p t')
unfolding get_disbursement_request_count filter
numbered_in_order t t' p empty steps =
    Reaches-IsNumbered p steps (subst (IsNumbered p) (sym empty) refl)
