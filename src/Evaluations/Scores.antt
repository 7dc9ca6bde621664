-- ===== src/Evaluations/Scores.antt =====
-- `submitScores` of src/evaluations/evaluations.service.ts.
pub mod Laws
pub mod Rows
pub mod Accepted
pub mod Book
pub mod Submission
use Prim.Native.Char.{code}
use Prim.Native.String
use crmp_backend.Base.{
  ℕ, zero, suc, String, str_eq, Bool, true, false, ◌&&◌, ◌||◌, Option, none, some, List, [], ◌∷◌,
  ◌++◌, ◌==◌, leb, length, codes, find, update_where, mem_nat, is_some, if◌then◌else◌, Result, ok,
  err, bad_request, internal_server_error, require, or_throw, ◌>>=◌, ◌>>◌,
}
use crmp_backend.Workflow.Model.{Proposal}
use crmp_backend.Evaluations.Model.{Score, ScoreEntry, EvaluationTables, Rubric, is_score_of}

-- The groups of the entries by rubric, in the order in which the rubrics first occur.
abbrev pub Groups : Type 0
Groups = List (ℕ × List ScoreEntry)

-- One round of the loop that makes the groups.
unfoldable pub push_entry : ScoreEntry → Groups → Groups
push_entry e [] = (e.rubric_id, e ∷ []) ∷ []
push_entry e ((k, es) ∷ m) =
    if k == e.rubric_id then (k, es ++ e ∷ []) ∷ m else (k, es) ∷ push_entry e m

unfoldable pub group_from : Groups → List ScoreEntry → Groups
unfolding push_entry
group_from m [] = m
group_from m (e ∷ es) = group_from (push_entry e m) es

-- Whether only blanks come after the first characters of a text, and those first ones.
unfoldable pub is_blank : String → Bool
is_blank String.[] = true
is_blank (String.◌∷◌ c s) = code c == b' ' && is_blank s

unfoldable pub is_blank_after : ℕ → String → Bool
unfolding is_blank
is_blank_after n String.[] = true
is_blank_after zero s = is_blank s
is_blank_after (suc n) (String.◌∷◌ c s) = is_blank_after n s

unfoldable pub first_characters : ℕ → String → String
first_characters n String.[] = String.[]
first_characters zero s = String.[]
first_characters (suc n) (String.◌∷◌ c s) = String.◌∷◌ c (first_characters n s)

-- `scoreEntry.feedback || null`, as the column varchar(1000) keeps it: blanks beyond are cut off.
abbrev pub feedback_or_null : Option String → Option String
feedback_or_null none = none
feedback_or_null (some f) = if str_eq f "" then none else some (first_characters 1000 f)

-- varchar(1000) refuses a text with more characters, unless they are blanks.
abbrev pub fits : Option String → Bool
fits none = true
fits (some f) = is_blank_after 1000 f

-- `proposals.id = target OR proposals.projectId = target`
abbrev pub is_target : ℕ → Proposal → Bool
is_target target p = p.id == target || is_project p.project_id
  where
    is_project : Option ℕ → Bool
    is_project none = false
    is_project (some j) = j == target

-- `values` and `set` of the INSERT, with the score as the column keeps it.
abbrev pub new_score : ℕ → ℕ → Proposal → ℕ → ScoreEntry → String → Score
new_score now user p rubric e value = record {
  rubric_id = rubric;
  proposal_id = p.id;
  project_id = p.project_id;
  student_id = e.student_id;
  evaluator_id = user;
  score = value;
  feedback = feedback_or_null e.feedback;
  updated_at = now;
}

abbrev pub rescored : ℕ → ScoreEntry → String → Score → Score
rescored now e value x = record x {
  score = value;
  feedback = feedback_or_null e.feedback;
  updated_at = now;
}

-- INSERT … ON CONFLICT DO UPDATE, where a new row's student and evaluator must be users.
unfoldable pub put_score :
    ℕ → ℕ → Proposal → ℕ → ScoreEntry → String → EvaluationTables → Result EvaluationTables
unfolding find update_where
put_score now user p rubric e value t =
    if is_some (find (is_score_of rubric p.id e.student_id) t.scores)
    then ok (record t {
      scores = update_where (is_score_of rubric p.id e.student_id) (rescored now e value) t.scores;
    })
    else require (mem_nat e.student_id t.users && mem_nat user t.users) internal_server_error
      >> ok (record t { scores = t.scores ++ new_score now user p rubric e value ∷ [] })

-- What the column numeric(5,2) keeps of a number, by the text of the number; `none` is its overflow.
module _ (numeric : String → Option String) where
  unfoldable pub store_score :
      ℕ → ℕ → Proposal → ℕ → ScoreEntry → EvaluationTables → Result EvaluationTables
  unfolding put_score is_blank_after first_characters
  store_score now user p rubric e t = do
    value ← or_throw (numeric e.score) internal_server_error
    require (fits e.feedback) internal_server_error
    put_score now user p rubric e value t

  unfoldable pub store_entries :
      ℕ → ℕ → Proposal → ℕ → List ScoreEntry → EvaluationTables → Result EvaluationTables
  unfolding store_score
  store_entries now user p rubric [] t = ok t
  store_entries now user p rubric (e ∷ es) t =
      store_score now user p rubric e t >>= store_entries now user p rubric es

  unfoldable pub store_groups :
      ℕ → ℕ → Proposal → Groups → EvaluationTables → Result EvaluationTables
  unfolding store_entries
  store_groups now user p [] t = ok t
  store_groups now user p ((rubric, es) ∷ m) t = do
    found ← or_throw (find (λ (x : Rubric). x.id == rubric) t.rubrics) bad_request
    stored ← store_entries now user p rubric es t
    store_groups now user p m stored

  unfoldable pub submit_scores :
      ℕ → ℕ → List ScoreEntry → ℕ → EvaluationTables → Result EvaluationTables
  unfolding store_groups group_from
  submit_scores now target [] user t = ok t
  submit_scores now target (e ∷ es) user t = do
    p ← or_throw (find (is_target target) t.proposals) bad_request
    store_groups now user p (group_from [] (e ∷ es)) t
