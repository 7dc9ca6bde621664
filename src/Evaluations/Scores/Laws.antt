-- ===== src/Evaluations/Scores/Laws.antt =====
-- `submitScores` of src/evaluations/evaluations.service.ts against a book that keeps, for each rubric,
-- proposal and student, one score.
use crmp_backend.Base.{
  ℕ, String, Bool, true, false, ◌&&◌, Option, none, some, List, [], ◌∷◌, ◌++◌, ◌==◌, find,
  update_where, mem_nat, if◌then◌else◌, ok, internal_server_error, ◌≡◌, refl, sym, ap, ◌∙◌,
  Bool-cases, Option-cases, inl, inr, arith, require-eq-ok, ok-injective, find-update_where,
  find-update_where-none, find-append, find-append_new, find-append-none, find-Mem, some_not_none,
  subst,
}
use crmp_backend.Workflow.Model.{Proposal}
use crmp_backend.Evaluations.Model.{Score, ScoreEntry, EvaluationTables, is_score_of}
use crmp_backend.Evaluations.Scores.{feedback_or_null, new_score, rescored, put_score}

-- What is kept for a rubric, a proposal and a student.
abbrev pub ScoreNote : Type 0
ScoreNote = String × Option String

abbrev pub note_of : Option Score → Option ScoreNote
note_of none = none
note_of (some x) = some (x.score, x.feedback)

abbrev pub recorded : ℕ → ℕ → ℕ → List Score → Option ScoreNote
recorded r p s scores = note_of (find (is_score_of r p s) scores)

-- The key decides which row is found.
same_key :
    (r p s r' p' s' : ℕ) (x : Score)
    → is_score_of r p s x ≡ true
    → is_score_of r' p' s' x ≡ (r' == r && p' == p && s' == s)
same_key r p s r' p' s' x h = ground arith

-- A row of another key is not the one that is found.
other_key :
    (r p s r' p' s' : ℕ) (x : Score)
    → is_score_of r' p' s' x ≡ true
    → (r' == r && p' == p && s' == s) ≡ is_score_of r p s x
other_key r p s r' p' s' x h = ground arith

-- The row that a write leaves for a key: the new one, if the write was of that key.
module _ (now user : ℕ) (p : Proposal) (rubric : ℕ) (e : ScoreEntry) (value : String) where
  abbrev pub hit : ℕ → ℕ → ℕ → Bool
  hit r q s = rubric == r && p.id == q && e.student_id == s

  hit_keys : (r q s : ℕ) → hit r q s ≡ true → (rubric ≡ r) × (p.id ≡ q) × (e.student_id ≡ s)
  hit_keys r q s h = (ground arith, ground arith, ground arith)

  pub same_find :
      (r q s : ℕ) (scores : List Score)
      → hit r q s ≡ true
      → find (is_score_of rubric p.id e.student_id) scores ≡ find (is_score_of r q s) scores
  same_find r q s scores h =
      let (a, b, c) = hit_keys r q s h in
      ap (λ k. find (is_score_of k p.id e.student_id) scores) a
      ∙ ap (λ k. find (is_score_of r k e.student_id) scores) b
      ∙ ap (λ k. find (is_score_of r q k) scores) c

  note_of-rescored :
      (b : Bool) (x : Score)
      → note_of (some (if b then rescored now e value x else x))
        ≡ (if b then some (value, feedback_or_null e.feedback) else note_of (some x))
  note_of-rescored true x = refl
  note_of-rescored false x = refl

  update_recorded :
      (scores : List Score) (a : Score) (r q s : ℕ)
      → find (is_score_of rubric p.id e.student_id) scores ≡ some a
      → recorded r q s
          (update_where (is_score_of rubric p.id e.student_id) (rescored now e value) scores)
        ≡ (if hit r q s then some (value, feedback_or_null e.feedback) else recorded r q s scores)
  update_recorded scores a r q s known = elim (Option-cases (find (is_score_of r q s) scores)) [
    | inl absent ↦
        let miss : hit r q s ≡ false = elim (Bool-cases (hit r q s)) [
          | inl h ↦ some_not_none (sym known ∙ same_find r q s scores h ∙ absent)
          | inr h ↦ h
        ] in
        rw
          (
            find-update_where-none (is_score_of r q s) (is_score_of rubric p.id e.student_id)
                (rescored now e value) scores (λ x. refl) absent,
            absent,
            miss,
          )
          refl
    | inr (b, found) ↦
        let (_, is) = find-Mem (is_score_of r q s) scores found in
        rw
          (
            find-update_where (is_score_of r q s) (is_score_of rubric p.id e.student_id)
                (rescored now e value) scores (λ x. refl) found,
            found,
            same_key r q s rubric p.id e.student_id b is,
          )
          (note_of-rescored (hit r q s) b)
  ]

  insert_recorded :
      (scores : List Score) (r q s : ℕ)
      → find (is_score_of rubric p.id e.student_id) scores ≡ none
      → recorded r q s (scores ++ new_score now user p rubric e value ∷ [])
        ≡ (if hit r q s then some (value, feedback_or_null e.feedback) else recorded r q s scores)
  insert_recorded scores r q s absent = elim (Bool-cases (hit r q s)) [
    | inl h ↦
        rw
          (
            find-append_new (is_score_of r q s) scores (new_score now user p rubric e value)
                (sym (same_find r q s scores h) ∙ absent) h,
            h,
          )
          refl
    | inr h ↦ elim (Option-cases (find (is_score_of r q s) scores)) [
      | inl none_there ↦
          rw
            (
              find-append-none (is_score_of r q s) scores (new_score now user p rubric e value)
                  none_there h,
              h,
              none_there,
            )
            refl
      | inr (b, found) ↦
          rw
            (
              find-append (is_score_of r q s) scores (new_score now user p rubric e value ∷ [])
                  found,
              h,
              found,
            )
            refl
    ]
  ]

  pub put_score-recorded :
      (t t' : EvaluationTables) (r q s : ℕ)
      → put_score now user p rubric e value t ≡ ok t'
      → recorded r q s t'.scores
        ≡ (if hit r q s then some (value, feedback_or_null e.feedback) else recorded r q s t.scores)
  unfolding put_score
  put_score-recorded t t' r q s h =
      elim (Option-cases (find (is_score_of rubric p.id e.student_id) t.scores)) [
        | inl absent ↦
            let (_, done) =
              require-eq-ok (mem_nat e.student_id t.users && mem_nat user t.users)
                internal_server_error _ (rw absent at h) in
            subst
              (λ (u : EvaluationTables). recorded r q s u.scores ≡ (
                if hit r q s
                then some (value, feedback_or_null e.feedback)
                else recorded r q s t.scores))
              (ok-injective done) (insert_recorded t.scores r q s absent)
        | inr (a, known) ↦
            subst
              (λ (u : EvaluationTables). recorded r q s u.scores ≡ (
                if hit r q s
                then some (value, feedback_or_null e.feedback)
                else recorded r q s t.scores))
              (ok-injective (rw known at h)) (update_recorded t.scores a r q s known)
      ]
