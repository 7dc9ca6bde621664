-- ===== src/Evaluations/Scores/Rows.antt =====
-- What every submission by `submitScores` of src/evaluations/evaluations.service.ts keeps of the rows.
use crmp_backend.Base.{
  ℕ, String, false, ◌&&◌, Option, none, List, [], ◌∷◌, ◌++◌, ◌==◌, find, update_where, mem_nat, ok,
  bad_request, internal_server_error, ◌≡◌, ◌⊎◌, All, Option-cases, inl, inr, >>=-eq-ok,
  require-eq-ok, or_throw-eq-ok, ok-injective, subst,
}
use crmp_backend.Workflow.Model.{Proposal}
use crmp_backend.Evaluations.Model.{Score, ScoreEntry, EvaluationTables, Rubric, is_score_of}
use crmp_backend.Evaluations.Scores.{
  Groups, group_from, fits, is_target, new_score, rescored, put_score, store_score, store_entries,
  store_groups, submit_scores,
}

-- A submission by a user keeps what its single writes keep.
module _ (numeric : String → Option String) (now user : ℕ) (P : EvaluationTables → Type 0)
    (keep : (p : Proposal) (rubric : ℕ) (e : ScoreEntry) (value : String) (t t' : EvaluationTables)
      → put_score now user p rubric e value t ≡ ok t'
      → P t
      → P t') where
  store_entries-keep :
      (p : Proposal) (rubric : ℕ) (es : List ScoreEntry) (t t' : EvaluationTables)
      → store_entries numeric now user p rubric es t ≡ ok t'
      → P t
      → P t'
  unfolding store_entries store_score
  store_entries-keep p rubric [] t t' h k = subst P (ok-injective h) k
  store_entries-keep p rubric (e ∷ es) t t' h k =
      let (u, first, h) = >>=-eq-ok (store_score numeric now user p rubric e t) _ h in
      let (value, _, first) = or_throw-eq-ok (numeric e.score) internal_server_error _ first in
      let (_, first) = require-eq-ok (fits e.feedback) internal_server_error _ first in
      store_entries-keep p rubric es u t' h (keep p rubric e value t u first k)

  store_groups-keep :
      (p : Proposal) (m : Groups) (t t' : EvaluationTables)
      → store_groups numeric now user p m t ≡ ok t'
      → P t
      → P t'
  unfolding store_groups
  store_groups-keep p [] t t' h k = subst P (ok-injective h) k
  store_groups-keep p ((rubric, es) ∷ m) t t' h k =
      let (_, _, h) =
        or_throw-eq-ok (find (λ (x : Rubric). x.id == rubric) t.rubrics) bad_request _ h in
      let (u, first, h) = >>=-eq-ok (store_entries numeric now user p rubric es t) _ h in
      store_groups-keep p m u t' h (store_entries-keep p rubric es t u first k)

  pub submit_scores-keep :
      (target : ℕ) (scores : List ScoreEntry) (t t' : EvaluationTables)
      → submit_scores numeric now target scores user t ≡ ok t'
      → P t
      → P t'
  unfolding submit_scores
  submit_scores-keep target [] t t' h k = subst P (ok-injective h) k
  submit_scores-keep target (e ∷ es) t t' h k =
      let (p, _, h) = or_throw-eq-ok (find (is_target target) t.proposals) bad_request _ h in
      store_groups-keep p (group_from [] (e ∷ es)) t t' h k

-- The two ways in which a write succeeds.
pub put_score-eq-ok :
    (now user : ℕ) (p : Proposal) (rubric : ℕ) (e : ScoreEntry) (value : String)
    (t t' : EvaluationTables)
    → put_score now user p rubric e value t ≡ ok t'
    → (record t {
      scores = update_where (is_score_of rubric p.id e.student_id) (rescored now e value) t.scores;
    }
        ≡ t')
      ⊎ ((find (is_score_of rubric p.id e.student_id) t.scores ≡ none)
          × (record t { scores = t.scores ++ new_score now user p rubric e value ∷ [] } ≡ t'))
unfolding put_score
put_score-eq-ok now user p rubric e value t t' h =
    elim (Option-cases (find (is_score_of rubric p.id e.student_id) t.scores)) [
      | inl absent ↦
          let (_, done) =
            require-eq-ok (mem_nat e.student_id t.users && mem_nat user t.users)
              internal_server_error _ (rw absent at h) in
          inr (absent, ok-injective done)
      | inr (a, known) ↦ inl (ok-injective (rw known at h))
    ]

-- No two rows are for the same rubric, proposal and student.
abbrev pub IsUnique : List Score → Type 0
IsUnique [] = Unit
IsUnique (x ∷ xs) =
    All (λ y. is_score_of x.rubric_id x.proposal_id x.student_id y ≡ false) xs × IsUnique xs
