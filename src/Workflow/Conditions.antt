-- ===== src/Workflow/Conditions.antt =====
-- Branch conditions of routing rules: `parseBranchCondition` and `evaluateCondition` of
-- src/proposals/workflow.service.ts. A number of JavaScript stands as the text that `String(n)` gives.

pub mod Laws
use Prim.Native.String
use crmp_backend.Base.{
  ℕ, String, str_eq, Bool, true, false, not, Option, none, some, List, [], ◌∷◌, Json, null, number,
  str, array, object, items, fields, lookup, all, any, ltb, leb, if◌then◌else◌,
}

-- What the JavaScript runtime gives: `rank s` is the place of `Number(s)` among the finite numbers
-- in increasing order (`none` for NaN and the infinities), and `parse_float s` is
-- `String(parseFloat(s))`.
pub record Numbers : Type 0 where
  pub rank : String → Option ℕ
  pub parse_float : String → String

pub data Operator : Type 0 where
  gt lt gte lte eq neq in_list : Operator

pub data ContextField : Type 0 where
  budget_amount degree_level proposal_program : ContextField

-- `value`: one number or text, or an array of them, each as `String(v)` gives it.
pub data ConditionValue : Type 0 where
  one : String → ConditionValue
  many : List String → ConditionValue

pub record BranchCondition : Type 0 where
  pub operator : Operator
  pub field : ContextField
  pub value : ConditionValue

pub record EvaluationContext : Type 0 where
  pub budget_amount : String
  pub degree_level : Option String
  pub proposal_program : Option String

infixl 5 ◌>>=◌
abbrev ◌>>=◌ {ℓ κ} : {A : Type ℓ} {B : Type κ} → Option A → (A → Option B) → Option B
none >>= k = none
some a >>= k = k a

-- `typeof v === 'string'`
abbrev pub as_text : Json → Option String
as_text (str s) = some s
as_text _ = none

unfoldable pub parse_operator : String → Option Operator
parse_operator s =
    if str_eq s "gt"
    then some gt
    else if str_eq s "lt"
    then some lt
    else if str_eq s "gte"
    then some gte
    else if str_eq s "lte"
    then some lte
    else if str_eq s "eq"
    then some eq
    else if str_eq s "neq"
    then some neq
    else if str_eq s "in"
    then some in_list
    else none

unfoldable pub parse_field : String → Option ContextField
parse_field s =
    if str_eq s "budgetAmount"
    then some ContextField.budget_amount
    else if str_eq s "degreeLevel"
    then some ContextField.degree_level
    else if str_eq s "proposalProgram"
    then some ContextField.proposal_program
    else none

abbrev scalar : Json → Option String
scalar (number s) = some s
scalar (str s) = some s
scalar _ = none

abbrev scalars : List Json → Option (List String)
scalars [] = some []
scalars (v ∷ vs) = do s ← scalar v; ss ← scalars vs; some (s ∷ ss)

abbrev condition_value : Json → Option ConditionValue
condition_value (number s) = some (one s)
condition_value (str s) = some (one s)
condition_value (array vs) = do ss ← scalars (items vs); some (many ss)
condition_value _ = none

unfoldable pub parse_branch_condition : Json → Option BranchCondition
unfolding parse_operator parse_field lookup
parse_branch_condition (object fs) = do
  operator ← (lookup "operator" (fields fs) >>= as_text) >>= parse_operator
  field ← (lookup "field" (fields fs) >>= as_text) >>= parse_field
  value ← lookup "value" (fields fs) >>= condition_value
  some (record { operator = operator; field = field; value = value })
parse_branch_condition null = none
parse_branch_condition _ = none

-- `context[condition.field]`
abbrev pub context_value : EvaluationContext → ContextField → Option String
context_value c ContextField.budget_amount = some c.budget_amount
context_value c ContextField.degree_level = c.degree_level
context_value c ContextField.proposal_program = c.proposal_program

-- `String(array)` joins by commas.
abbrev join_from : String → List String → String
join_from acc [] = acc
join_from acc (s ∷ ss) = join_from (String.◌++◌ (String.◌++◌ acc ",") s) ss

abbrev pub value_text : ConditionValue → String
value_text (one s) = s
value_text (many []) = ""
value_text (many (s ∷ ss)) = join_from s ss

-- The comparisons after both sides were found finite.
abbrev pub holds_at : Operator → ℕ → ℕ → Bool
holds_at gt left right = ltb right left
holds_at gte left right = leb right left
holds_at lt left right = ltb left right
holds_at lte left right = leb left right
holds_at _ left right = false

abbrev pub compare_finite : Operator → Option ℕ → Option ℕ → Bool
compare_finite op (some left) (some right) = holds_at op left right
compare_finite op _ _ = false

module _ (js : Numbers) where
  unfoldable pub holds_for : BranchCondition → String → Bool
  unfolding any
  holds_for c v = elim c.operator [
    | in_list ↦ elim c.value [ one s ↦ false | many ss ↦ any (λ s. str_eq s v) ss ]
    | eq ↦ str_eq v (value_text c.value)
    | neq ↦ not (str_eq v (value_text c.value))
    | op ↦ compare_finite op (js.rank v) (js.rank (value_text c.value))
  ]

  unfoldable pub evaluate_condition : Json → EvaluationContext → Bool
  unfolding holds_for parse_branch_condition
  evaluate_condition raw context = elim (parse_branch_condition raw) [
    | none ↦ false
    | some c ↦ elim (context_value context c.field) [ none ↦ false | some v ↦ holds_for c v ]
  ]
