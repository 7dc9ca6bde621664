-- ===== src/Evaluations/Listing/Laws.antt =====
-- Which rubrics `enrichWithMembersAndRubrics` of src/evaluations/evaluations.service.ts lists, before
-- and after scores are submitted.
use crmp_backend.Base.{
  ℕ, String, true, false, not, ◌&&◌, Option, none, some, List, [], ◌∷◌, ◌++◌, ◌==◌, filter, all,
  map, find, is_some, update_where, mem_nat, ◌≡◌, refl, sym, ap, ◌∙◌, ◌≢◌, All, All-append, All-map,
  All-update_where, Memᴰ, Bool-cases, Option-cases, inl, inr, arith, subst, some-injective,
  some_not_none, find-update_where, find-append, ok,
}
use mathlib.Core.List.Memᴰ
use crmp_backend.Workflow.Model.{Proposal}
use crmp_backend.Evaluations.Model.{Rubric, Score, ScoreEntry, EvaluationTables, is_score_of}
use crmp_backend.Evaluations.Scores.{put_score, rescored, new_score, submit_scores}
use crmp_backend.Evaluations.Scores.Laws.{same_find}
use crmp_backend.Evaluations.Scores.Rows.{IsUnique, put_score-eq-ok, submit_scores-keep}
use crmp_backend.Evaluations.Listing.{item_members, scored_students, lacks, is_missing}

-- All rows of a key have the evaluator of the one that is found.
only_evaluator :
    (r p s : ℕ) (xs : List Score) (x : Score)
    → IsUnique xs
    → find (is_score_of r p s) xs ≡ some x
    → All (λ y. is_score_of r p s y ≡ true → y.evaluator_id ≡ x.evaluator_id) xs
unfolding find
only_evaluator r p s [] x u h = cc
only_evaluator r p s (y ∷ ys) x u h = elim (Bool-cases (is_score_of r p s y)) [
  | inl t ↦
      let same : y ≡ x = some-injective (rw t at h) in
      (
        λ _. ap (λ (z : Score). z.evaluator_id) same,
        All-map ys (λ z apart k. absurd (clash y z t apart k)) u.0,
      )
  | inr f ↦ (λ k. cc, only_evaluator r p s ys x u.1 (rw f at h))
]
  where
    clash :
        (y z : Score)
        → is_score_of r p s y ≡ true
        → is_score_of y.rubric_id y.proposal_id y.student_id z ≡ false
        → is_score_of r p s z ≡ true
        → ⊥
    clash y z a b c = ground arith

-- The score of a student for a rubric is another evaluator's.
record IsTaken (user r p s : ℕ) (xs : List Score) : Type 0 where
  there : is_some (find (is_score_of r p s) xs) ≡ true
  others : All (λ y. is_score_of r p s y ≡ true → y.evaluator_id ≢ user) xs

module _ (now user r q s : ℕ) (p : Proposal) (rubric : ℕ) (e : ScoreEntry) (value : String) where
  update-IsTaken :
      (xs : List Score) (x : Score)
      → find (is_score_of r q s) xs ≡ some x
      → All (λ y. is_score_of r q s y ≡ true → y.evaluator_id ≢ user) xs
      → IsTaken user r q s
          (update_where (is_score_of rubric p.id e.student_id) (rescored now e value) xs)
  update-IsTaken xs x found others = record {
    there = ap is_some (
        find-update_where (is_score_of r q s) (is_score_of rubric p.id e.student_id)
          (rescored now e value) xs (λ y. refl) found);
    others =
        All-update_where {P = λ y. is_score_of r q s y ≡ true → y.evaluator_id ≢ user}
          {Q = λ y. is_score_of r q s y ≡ true → y.evaluator_id ≢ user}
          (is_score_of rubric p.id e.student_id) (rescored now e value) xs (λ y _ k. k) (λ y _ k. k)
          others;
  }

  insert-IsTaken :
      (xs : List Score) (x : Score)
      → find (is_score_of rubric p.id e.student_id) xs ≡ none
      → find (is_score_of r q s) xs ≡ some x
      → All (λ y. is_score_of r q s y ≡ true → y.evaluator_id ≢ user) xs
      → IsTaken user r q s (xs ++ new_score now user p rubric e value ∷ [])
  insert-IsTaken xs x absent found others = record {
    there =
        ap is_some
          (find-append (is_score_of r q s) xs (new_score now user p rubric e value ∷ []) found);
    others =
        All-append (λ y. is_score_of r q s y ≡ true → y.evaluator_id ≢ user) xs
          (new_score now user p rubric e value ∷ []) others
          (
            λ k.
                some_not_none
                  (sym found ∙ sym (same_find now user p rubric e value r q s xs k) ∙ absent),
            tt,
          );
  }

-- What a submission keeps: the members, the users, and that a score is another evaluator's.
abbrev Keeps : ℕ → ℕ → ℕ → ℕ → EvaluationTables → EvaluationTables → Type 0
Keeps user r q s t u =
    (u.proposal_members ≡ t.proposal_members) × (u.users ≡ t.users) × IsTaken user r q s u.scores

put_score-Keeps :
    (now user r q s : ℕ) (start : EvaluationTables) (p : Proposal) (rubric : ℕ) (e : ScoreEntry)
    (value : String) (t t' : EvaluationTables)
    → put_score now user p rubric e value t ≡ ok t'
    → Keeps user r q s start t
    → Keeps user r q s start t'
put_score-Keeps now user r q s start p rubric e value t t' h (members, users, k) =
    elim (Option-cases (find (is_score_of r q s) t.scores)) [
      | inl none_there ↦ absurd (cc (k.there, none_there))
      | inr (x, found) ↦ elim (put_score-eq-ok now user p rubric e value t t' h) [
        | inl same ↦ subst (Keeps user r q s start) same (
          members,
          users,
          update-IsTaken now user r q s p rubric e value t.scores x found k.others,
        )
        | inr (absent, same) ↦ subst (Keeps user r q s start) same (
          members,
          users,
          insert-IsTaken now user r q s p rubric e value t.scores x absent found k.others,
        )
      ]
    ]

-- Such a student is not among those that the evaluator scored.
not_scored :
    (user r p s : ℕ) (xs : List Score)
    → All (λ y. is_score_of r p s y ≡ true → y.evaluator_id ≢ user) xs
    → mem_nat s (
        map
          (λ (x : Score). x.student_id)
          (filter (λ x. x.evaluator_id == user && x.proposal_id == p && x.rubric_id == r) xs))
      ≡ false
unfolding filter
not_scored user r p s [] h = refl
not_scored user r p s (x ∷ xs) h =
    elim (Bool-cases (x.evaluator_id == user && x.proposal_id == p && x.rubric_id == r)) [
      | inl t ↦ rw (t, other_student x t h.0) (not_scored user r p s xs h.1)
      | inr f ↦ rw f (not_scored user r p s xs h.1)
    ]
  where
    other_student :
        (x : Score)
        → (x.evaluator_id == user && x.proposal_id == p && x.rubric_id == r) ≡ true
        → (is_score_of r p s x ≡ true → x.evaluator_id ≢ user)
        → (s == x.student_id) ≡ false
    other_student x t h = elim (Bool-cases (s == x.student_id)) [
      | inl e ↦ absurd (h (ground (arith, t, e)) (ground (arith, t)))
      | inr f ↦ f
    ]

not_all :
    (s : ℕ) (ms scored : List ℕ)
    → Memᴰ s ms
    → mem_nat s scored ≡ false
    → all (λ k. mem_nat k scored) ms ≡ false
unfolding all
not_all s [] scored m h = elim m [ ]
not_all s (x ∷ xs) scored m h = elim (Memᴰ.cases_cons m) [
  | inl e ↦ rw (ap (λ k. mem_nat k scored) (sym e) ∙ h) refl
  | inr n ↦ elim (Bool-cases (mem_nat x scored)) [
    | inl t ↦ rw t (not_all s xs scored n h)
    | inr f ↦ rw f refl
  ]
]

lacks-Mem :
    (s : ℕ) (ms scored : List ℕ) → Memᴰ s ms → mem_nat s scored ≡ false → lacks ms scored ≡ true
lacks-Mem s [] scored m h = elim m [ ]
lacks-Mem s (x ∷ xs) scored m h = ap not (not_all s (x ∷ xs) scored m h)

-- When another evaluator has scored a student of a proposal for a rubric, the rubric stays on the list
-- of an evaluator for this proposal after any submission that succeeds, also one that scores the
-- student for this rubric again.
pub rescored_still_missing :
    (numeric : String → Option String) (now target user : ℕ) (entries : List ScoreEntry)
    (t t' : EvaluationTables) (p s : ℕ) (r : Rubric) (x : Score)
    → IsUnique t.scores
    → Memᴰ s (item_members p t)
    → find (is_score_of r.id p s) t.scores ≡ some x
    → x.evaluator_id ≢ user
    → submit_scores numeric now target entries user t ≡ ok t'
    → is_missing user p t' r ≡ true
unfolding is_missing item_members scored_students
rescored_still_missing numeric now target user entries t t' p s r x u student found other h =
    let taken : IsTaken user r.id p s t.scores = record {
      there = ap is_some found;
      others =
          All-map t.scores (λ y same k e. other (sym (same k) ∙ e))
            (only_evaluator r.id p s t.scores x u found);
    } in
    let (members, users, k) =
      submit_scores-keep numeric now user (Keeps user r.id p s t)
        (put_score-Keeps now user r.id p s t) target entries t t' h (refl, refl, taken) in
    rw (members, users)
      (lacks-Mem s (item_members p t) (scored_students user p r.id t') student
        (not_scored user r.id p s t'.scores k.others))
