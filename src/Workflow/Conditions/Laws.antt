-- ===== src/Workflow/Conditions/Laws.antt =====
-- Branch conditions that exclude one another.
use crmp_backend.Base.{
  ℕ, ◌≡◌, refl, String, not, some, Json, number, str, object, field, end, arith, ltb, leb,
}
use crmp_backend.Workflow.Conditions.{
  Numbers, EvaluationContext, evaluate_condition, compare_finite, gt, gte, lt, lte,
}

-- The JSON of a condition on the budget.
abbrev pub budget_condition : String → String → Json
budget_condition op n =
    object (
      field "operator" (str op) (field "field" (str "budgetAmount") (field "value" (number n) end)))

-- A comparison of the budget comes to the comparison of two finite numbers.
budget_comparisons :
    (js : Numbers) (context : EvaluationContext) (n : String)
    → let left = js.rank context.budget_amount in
      let right = js.rank n in
      let evaluate = λ (op : String). evaluate_condition js (budget_condition op n) context in
      (evaluate "gt" ≡ compare_finite gt left right)
      × (evaluate "gte" ≡ compare_finite gte left right)
      × (evaluate "lt" ≡ compare_finite lt left right)
      × (evaluate "lte" ≡ compare_finite lte left right)
unfolding evaluate_condition
budget_comparisons js context n = (refl, refl, refl, refl)

-- Where the budget and the bound are finite numbers, exactly one of the conditions `gt` and `lte` on
-- the budget holds, and exactly one of `lt` and `gte`.
pub complementary_budget_conditions :
    (js : Numbers) (context : EvaluationContext) (n : String) (a b : ℕ)
    → js.rank context.budget_amount ≡ some a
    → js.rank n ≡ some b
    → let evaluate = λ (op : String). evaluate_condition js (budget_condition op n) context in
      (evaluate "gt" ≡ not (evaluate "lte")) × (evaluate "lt" ≡ not (evaluate "gte"))
complementary_budget_conditions js context n a b left right =
    let (e1, e2, e3, e4) = budget_comparisons js context n in
    (rw (e1, e4, left, right) (complement a b).0, rw (e3, e2, left, right) (complement a b).1)
  where
    complement : (x y : ℕ) → (ltb y x ≡ not (leb x y)) × (ltb x y ≡ not (leb y x))
    complement x y = ground arith
