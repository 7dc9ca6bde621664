-- ===== src/Evaluations/Scores/Book.antt =====
-- `submitScores` of src/evaluations/evaluations.service.ts implements a book in which a submission
-- writes its entries one after the other, in the order in which they were sent.
use crmp_backend.Base.{
  ℕ, String, false, ◌&&◌, Option, none, some, List, [], ◌∷◌, ◌++◌, ◌==◌, if◌then◌else◌, ◌≡◌, refl,
  sym, ap, ◌∙◌, All, All-append, All-map, Bool-cases, inl, inr, arith, ==_iff,
}
use crmp_backend.Evaluations.Model.{ScoreEntry}
use crmp_backend.Evaluations.Scores.{Groups, push_entry, group_from, feedback_or_null}
use crmp_backend.Evaluations.Scores.Laws.{ScoreNote}

module _ (numeric : String → Option String) where
  abbrev pub note : ScoreEntry → Option ScoreNote → Option ScoreNote
  note e old = elim (numeric e.score) [
    | none ↦ old
    | some v ↦ some (v, feedback_or_null e.feedback)
  ]

  -- What the book keeps for a rubric and a student after the entries were written.
  unfoldable pub write_all : ℕ → ℕ → List ScoreEntry → Option ScoreNote → Option ScoreNote
  write_all r s [] old = old
  write_all r s (e ∷ es) old =
      write_all r s es (if e.rubric_id == r && e.student_id == s then note e old else old)

  pub write_all-append :
      (r s : ℕ) (xs ys : List ScoreEntry) (old : Option ScoreNote)
      → write_all r s (xs ++ ys) old ≡ write_all r s ys (write_all r s xs old)
  unfolding write_all
  write_all-append r s [] ys old = refl
  write_all-append r s (x ∷ xs) ys old = write_all-append r s xs ys _

  -- Entries of other rubrics change nothing.
  write_all-other :
      (r s : ℕ) (es : List ScoreEntry) (old : Option ScoreNote)
      → All (λ e. (e.rubric_id == r) ≡ false) es
      → write_all r s es old ≡ old
  unfolding write_all
  write_all-other r s [] old h = refl
  write_all-other r s (e ∷ es) old h = rw (h.0) (write_all-other r s es old h.1)

  -- Each group has the entries of one rubric, and no two groups are of the same.
  abbrev pub IsGrouped : Groups → Type 0
  IsGrouped [] = Unit
  IsGrouped ((k, es) ∷ m) =
      All (λ e. e.rubric_id ≡ k) es × All (λ g. (g.0 == k) ≡ false) m × IsGrouped m

  unfoldable pub all_entries : Groups → List ScoreEntry
  all_entries [] = []
  all_entries ((k, es) ∷ m) = es ++ all_entries m

  absent_rubric :
      (r : ℕ) (m : Groups)
      → IsGrouped m
      → All (λ g. (g.0 == r) ≡ false) m
      → All (λ e. (e.rubric_id == r) ≡ false) (all_entries m)
  unfolding all_entries
  absent_rubric r [] g h = tt
  absent_rubric r ((k, es) ∷ m) g h =
      All-append (λ e. (e.rubric_id == r) ≡ false) es (all_entries m)
        (All-map es (λ e same. ap (λ n. n == r) same ∙ h.0) g.0) (absent_rubric r m g.2 h.1)

  push_entry-absent :
      (e : ScoreEntry) (k : ℕ) (m : Groups)
      → (e.rubric_id == k) ≡ false
      → All (λ g. (g.0 == k) ≡ false) m
      → All (λ g. (g.0 == k) ≡ false) (push_entry e m)
  unfolding push_entry
  push_entry-absent e k [] ne h = (ne, tt)
  push_entry-absent e k ((j, es) ∷ m) ne h = elim (Bool-cases (j == e.rubric_id)) [
    | inl t ↦ rw t h
    | inr f ↦ rw f (h.0, push_entry-absent e k m ne h.1)
  ]

  push_entry-IsGrouped : (e : ScoreEntry) (m : Groups) → IsGrouped m → IsGrouped (push_entry e m)
  unfolding push_entry
  push_entry-IsGrouped e [] g = ((refl, tt), tt, tt)
  push_entry-IsGrouped e ((k, es) ∷ m) g = elim (Bool-cases (k == e.rubric_id)) [
    | inl t ↦ rw t (
      All-append (λ x. x.rubric_id ≡ k) es (e ∷ []) g.0 (sym ((==_iff k e.rubric_id).0 t), tt),
      g.1,
      g.2,
    )
    | inr f ↦
        rw f (g.0, push_entry-absent e k m (ground (arith, f)) g.1, push_entry-IsGrouped e m g.2)
  ]

  -- An entry and groups of other rubrics can be written in either order.
  write_all-swap :
      (r s : ℕ) (e : ScoreEntry) (m : Groups) (old : Option ScoreNote)
      → IsGrouped m
      → All (λ g. (g.0 == e.rubric_id) ≡ false) m
      → write_all r s (all_entries m) (write_all r s (e ∷ []) old)
        ≡ write_all r s (e ∷ []) (write_all r s (all_entries m) old)
  write_all-swap r s e m old g apart = elim (Bool-cases (e.rubric_id == r)) [
    | inl t ↦
        let none_of =
          absent_rubric r m g
            (All-map m (λ g h. ap (λ k. g.0 == k) (sym ((==_iff e.rubric_id r).0 t)) ∙ h) apart) in
        rw
          (
            write_all-other r s (all_entries m) (write_all r s (e ∷ []) old) none_of,
            write_all-other r s (all_entries m) old none_of,
          )
          refl
    | inr f ↦
        rw
          (
            write_all-other r s (e ∷ []) old (f, tt),
            write_all-other r s (e ∷ []) (write_all r s (all_entries m) old) (f, tt),
          )
          refl
  ]

  -- A pushed entry is written last, as far as any one rubric can tell.
  push_entry-written :
      (r s : ℕ) (e : ScoreEntry) (m : Groups) (old : Option ScoreNote)
      → IsGrouped m
      → write_all r s (all_entries (push_entry e m)) old
        ≡ write_all r s (e ∷ []) (write_all r s (all_entries m) old)
  unfolding push_entry all_entries write_all
  push_entry-written r s e [] old g = refl
  push_entry-written r s e ((k, es) ∷ m) old g =
      let before = write_all r s es old in
      elim (Bool-cases (k == e.rubric_id)) [
        | inl t ↦
            let apart =
              All-map m (λ g h. ap (λ n. g.0 == n) (sym ((==_iff k e.rubric_id).0 t)) ∙ h) g.1 in
            rw t (
              write_all-append r s (es ++ e ∷ []) (all_entries m) old
              ∙ ap (write_all r s (all_entries m)) (write_all-append r s es (e ∷ []) old)
              ∙ write_all-swap r s e m before g.2 apart
              ∙ ap (write_all r s (e ∷ [])) (sym (write_all-append r s es (all_entries m) old)))
        | inr f ↦ rw f (
            write_all-append r s es (all_entries (push_entry e m)) old
            ∙ push_entry-written r s e m before g.2
            ∙ ap (write_all r s (e ∷ [])) (sym (write_all-append r s es (all_entries m) old)))
      ]

  pub group_from-written :
      (r s : ℕ) (es : List ScoreEntry) (m : Groups) (old : Option ScoreNote)
      → IsGrouped m
      → IsGrouped (group_from m es)
        × (write_all r s (all_entries (group_from m es)) old
            ≡ write_all r s es (write_all r s (all_entries m) old))
  unfolding group_from write_all
  group_from-written r s [] m old g = (g, refl)
  group_from-written r s (e ∷ es) m old g =
      let (grouped, same) =
        group_from-written r s es (push_entry e m) old (push_entry-IsGrouped e m g) in
      (grouped, same ∙ ap (write_all r s es) (push_entry-written r s e m old g))
