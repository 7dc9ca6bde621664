-- ===== src/Budget/Resubmission.antt =====
-- What a resubmission of src/budget/services/pi-budget.service.ts leaves free for another request.
use crmp_backend.Base.{ℕ, ◌≡◌, true, some}
use crmp_backend.Budget.Model.{DisbursementRequest, available}
use crmp_backend.Budget.Requests.{Tables, is_actionable, find_request, item_ids}
use crmp_backend.Budget.Holding.{HaveStatus}

abbrev pub IsActionable : ℕ → Tables → Type 0
IsActionable r t =
    (x : DisbursementRequest) × (find_request r t ≡ some x) × (is_actionable x.status ≡ true)

abbrev pub Frees : ℕ → Tables → Type 0
Frees r t = IsActionable r t × HaveStatus (item_ids r t.request_items) available t.items
