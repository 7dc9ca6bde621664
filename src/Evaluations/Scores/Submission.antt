-- ===== src/Evaluations/Scores/Submission.antt =====
-- A submission of scores, by `submitScores` of src/evaluations/evaluations.service.ts, in the book.
use crmp_backend.Base.{
  ℕ, String, Bool, true, false, ◌&&◌, Option, some, List, [], ◌∷◌, ◌++◌, ◌==◌, find, if◌then◌else◌,
  ok, bad_request, internal_server_error, ◌≡◌, refl, sym, ap, ◌∙◌, Bool-cases, inl, inr, >>=-eq-ok,
  require-eq-ok, or_throw-eq-ok, ok-injective, subst, All, some-injective,
}
use crmp_backend.Workflow.Model.{Proposal}
use crmp_backend.Evaluations.Model.{ScoreEntry, EvaluationTables, Rubric}
use crmp_backend.Evaluations.Scores.{
  Groups, group_from, feedback_or_null, fits, is_target, store_score, store_entries, store_groups,
  submit_scores,
}
use crmp_backend.Evaluations.Scores.Laws.{ScoreNote, recorded, put_score-recorded}
use crmp_backend.Evaluations.Scores.Book.{
  note, write_all, write_all-append, IsGrouped, all_entries, group_from-written,
}

nested_tests {ℓ} :
    {A : Type ℓ} (a b c : Bool) (x y : A)
    → (if a && b && c then x else y) ≡ (if b then (if a && c then x else y) else y)
nested_tests true true c x y = refl
nested_tests true false c x y = refl
nested_tests false true c x y = refl
nested_tests false false c x y = refl

module _ (numeric : String → Option String) where
  -- The book of a proposal: an entry of its own rubric and student.
  abbrev kept_in : Proposal → ℕ → ℕ → ℕ → List ScoreEntry → Option ScoreNote → Option ScoreNote
  kept_in p r q s es old = if p.id == q then write_all numeric r s es old else old

  note_known :
      (e : ScoreEntry) (value : String) (old : Option ScoreNote)
      → numeric e.score ≡ some value
      → note numeric e old ≡ some (value, feedback_or_null e.feedback)
  note_known e value old h = rw (h, note) refl

  kept_nothing : (p : Proposal) (r q s : ℕ) (old : Option ScoreNote) → old ≡ kept_in p r q s [] old
  unfolding write_all
  kept_nothing p r q s old = elim (Bool-cases (p.id == q)) [ inl t ↦ rw t refl | inr f ↦ rw f refl ]

  store_score-recorded :
      (now user : ℕ) (p : Proposal) (e : ScoreEntry) (t t' : EvaluationTables) (r q s : ℕ)
      → store_score numeric now user p e.rubric_id e t ≡ ok t'
      → recorded r q s t'.scores ≡ kept_in p r q s (e ∷ []) (recorded r q s t.scores)
  unfolding store_score write_all
  store_score-recorded now user p e t t' r q s h =
      let (value, kept, h) = or_throw-eq-ok (numeric e.score) internal_server_error _ h in
      let (_, h) = require-eq-ok (fits e.feedback) internal_server_error _ h in
      let old = recorded r q s t.scores in
      let new = some (value, feedback_or_null e.feedback) in
      let noted = note_known e value old kept in
      put_score-recorded now user p e.rubric_id e value t t' r q s h
      ∙ nested_tests (e.rubric_id == r) (p.id == q) (e.student_id == s) new old
      ∙ ap
          (λ n.
            if p.id == q then (if e.rubric_id == r && e.student_id == s then n else old) else old)
          (sym noted)

  kept-append :
      (p : Proposal) (r q s : ℕ) (xs ys : List ScoreEntry) (old : Option ScoreNote)
      → kept_in p r q s ys (kept_in p r q s xs old) ≡ kept_in p r q s (xs ++ ys) old
  kept-append p r q s xs ys old = elim (Bool-cases (p.id == q)) [
    | inl t ↦ rw t (sym (write_all-append numeric r s xs ys old))
    | inr f ↦ rw f refl
  ]

  store_entries-recorded :
      (now user : ℕ) (p : Proposal) (rubric : ℕ) (es : List ScoreEntry) (t t' : EvaluationTables)
      (r q s : ℕ)
      → All (λ e. e.rubric_id ≡ rubric) es
      → store_entries numeric now user p rubric es t ≡ ok t'
      → recorded r q s t'.scores ≡ kept_in p r q s es (recorded r q s t.scores)
  unfolding store_entries write_all
  store_entries-recorded now user p rubric [] t t' r q s same h =
      ap (λ (u : EvaluationTables). recorded r q s u.scores) (sym (ok-injective h))
      ∙ kept_nothing p r q s (recorded r q s t.scores)
  store_entries-recorded now user p rubric (e ∷ es) t t' r q s same h =
      let (u, first, h) = >>=-eq-ok (store_score numeric now user p rubric e t) _ h in
      let here = subst (λ k. store_score numeric now user p k e t ≡ ok u) (sym same.0) first in
      store_entries-recorded now user p rubric es u t' r q s same.1 h
      ∙ ap (kept_in p r q s es) (store_score-recorded now user p e t u r q s here)
      ∙ kept-append p r q s (e ∷ []) es (recorded r q s t.scores)

  store_groups-recorded :
      (now user : ℕ) (p : Proposal) (m : Groups) (t t' : EvaluationTables) (r q s : ℕ)
      → IsGrouped numeric m
      → store_groups numeric now user p m t ≡ ok t'
      → recorded r q s t'.scores ≡ kept_in p r q s (all_entries numeric m) (recorded r q s t.scores)
  unfolding store_groups all_entries
  store_groups-recorded now user p [] t t' r q s g h =
      ap (λ (u : EvaluationTables). recorded r q s u.scores) (sym (ok-injective h))
      ∙ kept_nothing p r q s (recorded r q s t.scores)
  store_groups-recorded now user p ((k, es) ∷ m) t t' r q s g h =
      let (_, _, h) = or_throw-eq-ok (find (λ (x : Rubric). x.id == k) t.rubrics) bad_request _ h in
      let (u, first, h) = >>=-eq-ok (store_entries numeric now user p k es t) _ h in
      store_groups-recorded now user p m u t' r q s g.2 h
      ∙ ap (kept_in p r q s (all_entries numeric m))
          (store_entries-recorded now user p k es t u r q s g.0 first)
      ∙ kept-append p r q s es (all_entries numeric m) (recorded r q s t.scores)

  -- A submission that succeeds writes its entries in the book of its proposal one after the other, in
  -- the order in which they were sent, and nothing in the book of another proposal.
  pub submit_scores-recorded :
      (now target user : ℕ) (scores : List ScoreEntry) (p : Proposal) (t t' : EvaluationTables)
      (r q s : ℕ)
      → find (is_target target) t.proposals ≡ some p
      → submit_scores numeric now target scores user t ≡ ok t'
      → recorded r q s t'.scores ≡ (
          if p.id == q
          then write_all numeric r s scores (recorded r q s t.scores)
          else recorded r q s t.scores)
  unfolding submit_scores all_entries write_all
  submit_scores-recorded now target user [] p t t' r q s known h =
      ap (λ (u : EvaluationTables). recorded r q s u.scores) (sym (ok-injective h))
      ∙ kept_nothing p r q s (recorded r q s t.scores)
  submit_scores-recorded now target user (e ∷ es) p t t' r q s known h =
      let (x, found, h) = or_throw-eq-ok (find (is_target target) t.proposals) bad_request _ h in
      let h =
        subst (λ y. store_groups numeric now user y (group_from [] (e ∷ es)) t ≡ ok t')
          (some-injective (sym found ∙ known)) h in
      let (grouped, same) =
        group_from-written numeric r s (e ∷ es) [] (recorded r q s t.scores) tt in
      store_groups-recorded now user p (group_from [] (e ∷ es)) t t' r q s grouped h
      ∙ ap (λ n. if p.id == q then n else recorded r q s t.scores) same
