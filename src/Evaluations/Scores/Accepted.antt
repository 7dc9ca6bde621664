-- ===== src/Evaluations/Scores/Accepted.antt =====
-- Which submissions `submitScores` of src/evaluations/evaluations.service.ts accepts.
use crmp_backend.Base.{
  ℕ, String, true, Option, List, [], ◌∷◌, ◌==◌, find, mem_nat, is_some, Result, ok, ◌≡◌, refl, ◌∙◌,
  All, All-append, Bool-cases, Option-cases, inl, inr,
}
use crmp_backend.Workflow.Model.{Proposal}
use crmp_backend.Evaluations.Model.{ScoreEntry, EvaluationTables, Rubric, is_score_of}
use crmp_backend.Evaluations.Scores.{
  Groups, push_entry, group_from, fits, is_target, put_score, store_score, store_entries,
  store_groups, submit_scores,
}

-- Users and rubrics stay as they were.
abbrev SameAccounts : EvaluationTables → EvaluationTables → Type 0
SameAccounts t u = (u.users ≡ t.users) × (u.rubrics ≡ t.rubrics)

-- The call succeeds, and leaves users and rubrics as they were.
abbrev Accepts : EvaluationTables → Result EvaluationTables → Type 0
Accepts t done = (t' : EvaluationTables) × (done ≡ ok t') × SameAccounts t t'

module _ (numeric : String → Option String) where
  -- An entry whose score and feedback fit their columns, of a known rubric and for a user.
  pub record IsAcceptable (users : List ℕ) (rubrics : List Rubric) (e : ScoreEntry) : Type 0 where
    pub fits_numeric : is_some (numeric e.score) ≡ true
    pub fits_text : fits e.feedback ≡ true
    pub has_user : mem_nat e.student_id users ≡ true
    pub has_rubric : is_some (find (λ (x : Rubric). x.id == e.rubric_id) rubrics) ≡ true

  module _ (now user : ℕ) (p : Proposal) where
    put_score-Accepts :
        (rubric : ℕ) (e : ScoreEntry) (value : String) (t : EvaluationTables)
        → mem_nat e.student_id t.users ≡ true
        → mem_nat user t.users ≡ true
        → Accepts t (put_score now user p rubric e value t)
    unfolding put_score
    put_score-Accepts rubric e value t s u =
        elim (Option-cases (find (is_score_of rubric p.id e.student_id) t.scores)) [
          | inl absent ↦ rw (absent, s, u) (_, refl, (refl, refl))
          | inr (x, known) ↦ rw known (_, refl, (refl, refl))
        ]

    store_score-Accepts :
        (rubric : ℕ) (e : ScoreEntry) (t : EvaluationTables)
        → IsAcceptable t.users t.rubrics e
        → mem_nat user t.users ≡ true
        → Accepts t (store_score numeric now user p rubric e t)
    unfolding store_score
    store_score-Accepts rubric e t h u = elim (Option-cases (numeric e.score)) [
      | inl none_there ↦ absurd (cc (h.fits_numeric, none_there))
      | inr (value, kept) ↦
          let (t', done, same) = put_score-Accepts rubric e value t h.has_user u in
          (t', rw (kept, h.fits_text) done, same)
    ]

    store_entries-Accepts :
        (rubric : ℕ) (es : List ScoreEntry) (t : EvaluationTables)
        → All (IsAcceptable t.users t.rubrics) es
        → mem_nat user t.users ≡ true
        → Accepts t (store_entries numeric now user p rubric es t)
    unfolding store_entries
    store_entries-Accepts rubric [] t h u = (t, refl, (refl, refl))
    store_entries-Accepts rubric (e ∷ es) t h u =
        let (t', first, (users, rubrics)) = store_score-Accepts rubric e t h.0 u in
        let (t'', rest, (users', rubrics')) =
          store_entries-Accepts rubric es t' (rw (users, rubrics) h.1) (rw users u) in
        (t'', rw first rest, (users' ∙ users, rubrics' ∙ rubrics))

    abbrev AreAcceptable : EvaluationTables → Groups → Type 0
    AreAcceptable t = All (λ g.
        (is_some (find (λ (x : Rubric). x.id == g.0) t.rubrics) ≡ true)
        × All (IsAcceptable t.users t.rubrics) g.1)

    store_groups-Accepts :
        (m : Groups) (t : EvaluationTables)
        → AreAcceptable t m
        → mem_nat user t.users ≡ true
        → Accepts t (store_groups numeric now user p m t)
    unfolding store_groups
    store_groups-Accepts [] t h u = (t, refl, (refl, refl))
    store_groups-Accepts ((k, es) ∷ m) t h u =
        elim (Option-cases (find (λ (x : Rubric). x.id == k) t.rubrics)) [
          | inl none_there ↦ absurd (cc (h.0.0, none_there))
          | inr (x, known) ↦
              let (t', first, (users, rubrics)) = store_entries-Accepts k es t h.0.1 u in
              let (t'', rest, (users', rubrics')) =
                store_groups-Accepts m t' (rw (users, rubrics) h.1) (rw users u) in
              (t'', rw (known, first) rest, (users' ∙ users, rubrics' ∙ rubrics))
        ]

    push_entry-AreAcceptable :
        (t : EvaluationTables) (e : ScoreEntry) (m : Groups)
        → IsAcceptable t.users t.rubrics e
        → AreAcceptable t m
        → AreAcceptable t (push_entry e m)
    unfolding push_entry
    push_entry-AreAcceptable t e [] h g = ((h.has_rubric, (h, tt)), tt)
    push_entry-AreAcceptable t e ((k, es) ∷ m) h g = elim (Bool-cases (k == e.rubric_id)) [
      | inl same ↦
          rw same
            ((g.0.0, All-append (IsAcceptable t.users t.rubrics) es (e ∷ []) g.0.1 (h, tt)), g.1)
      | inr other ↦ rw other (g.0, push_entry-AreAcceptable t e m h g.1)
    ]

    group_from-AreAcceptable :
        (t : EvaluationTables) (es : List ScoreEntry) (m : Groups)
        → All (IsAcceptable t.users t.rubrics) es
        → AreAcceptable t m
        → AreAcceptable t (group_from m es)
    unfolding group_from
    group_from-AreAcceptable t [] m h g = g
    group_from-AreAcceptable t (e ∷ es) m h g =
        group_from-AreAcceptable t es (push_entry e m) h.1 (push_entry-AreAcceptable t e m h.0 g)

  -- A submission to a known target by a user succeeds when each of its entries is of a known rubric and
  -- for a user, and its score and feedback fit their columns.
  pub submit_scores-accepted :
      (now target user : ℕ) (entries : List ScoreEntry) (t : EvaluationTables)
      → is_some (find (is_target target) t.proposals) ≡ true
      → mem_nat user t.users ≡ true
      → All (IsAcceptable t.users t.rubrics) entries
      → (t' : EvaluationTables) × (submit_scores numeric now target entries user t ≡ ok t')
  unfolding submit_scores
  submit_scores-accepted now target user [] t k u h = (t, refl)
  submit_scores-accepted now target user (e ∷ es) t k u h =
      elim (Option-cases (find (is_target target) t.proposals)) [
        | inl none_there ↦ absurd (cc (k, none_there))
        | inr (p, known) ↦
            let (t', done, _) =
              store_groups-Accepts now user p (group_from [] (e ∷ es)) t
                (group_from-AreAcceptable now user p t (e ∷ es) [] h tt) u in
            (t', rw known done)
      ]
