-- ===== src/Workflow/Consistency/Rows.antt =====
-- How an UPDATE of the steps of one proposal keeps the steps of all others as they were.
use crmp_backend.Base.{
  ℕ, ◌≡◌, ◌≢◌, refl, sym, ◌∙◌, subst, Bool, true, false, Option, some, List, [], ◌∷◌, ◌==◌,
  if◌then◌else◌, arith, inl, inr, Bool-cases, update_where, All, All-map, All-zip, All-update_where,
}
use crmp_backend.Workflow.Model.{Proposal, Approval, Status}
use crmp_backend.Workflow.Consistency.{IsStepOf, AreSteps, status_in}

module _ (p : ℕ) (failing : ℕ → ℕ) (st : ℕ → Option Status) where
  -- The steps of `p` satisfy `L`; the others fit their proposals.
  abbrev pub Splits : (Approval → Type 0) → Approval → Type 0
  Splits L a =
      (a.proposal_id ≡ p → L a)
      × (a.proposal_id ≢ p → IsStepOf (failing a.proposal_id) (st a.proposal_id) a)

  pub AreSteps-Splits :
      {s : Status} (xs : List Approval)
      → st p ≡ some s
      → AreSteps failing st xs
      → All (Splits (IsStepOf (failing p) (some s))) xs
  AreSteps-Splits {s} xs is h =
      All-map xs
        (λ a k. (
          λ e.
              subst (λ o. IsStepOf (failing p) o a) is
                (subst (λ r. IsStepOf (failing r) (st r) a) e k),
          λ _. k,
        ))
        h

  -- The rows that the UPDATE hits are steps of `p`, and go from `L` to `L'`.
  pub Splits-update_where :
      (L L' : Approval → Type 0) (t : Approval → Bool) (f : Approval → Approval)
      (xs : List Approval)
      → ((a : Approval) → (f a).proposal_id ≡ a.proposal_id)
      → All (λ a. t a ≡ true → (a.proposal_id ≡ p) × (L a → L' (f a))) xs
      → ((a : Approval) → a.proposal_id ≡ p → t a ≡ false → L a → L' a)
      → All (Splits L) xs
      → All (Splits L') (update_where t f xs)
  Splits-update_where L L' t f xs same hit miss h =
      All-update_where t f xs
        (λ a e k.
          let (mine, fits) = k.0 e in (λ _. fits (k.1.0 mine), λ ne. absurd (ne (same a ∙ mine))))
        (λ a e k. (λ mine. miss a mine e (k.1.0 mine), k.1.1)) (All-zip _ _ xs hit h)

  pub Splits-map :
      (L L' : Approval → Type 0) (xs : List Approval)
      → All (λ a. a.proposal_id ≡ p → L a → L' a) xs
      → All (Splits L) xs
      → All (Splits L') xs
  Splits-map L L' xs f h = All-map xs (λ a k. (λ e. k.0 e (k.1.0 e), k.1.1)) (All-zip _ _ xs f h)

-- `i` is the failed step of `p`.
abbrev pub reassign : ℕ → ℕ → (ℕ → ℕ) → ℕ → ℕ
reassign p i failing r = if r == p then i else failing r

pub Splits-AreSteps :
    (p : ℕ) (failing : ℕ → ℕ) (st st' : ℕ → Option Status) (i : ℕ) {s : Status} (xs : List Approval)
    → st' p ≡ some s
    → ((r : ℕ) → r ≢ p → st' r ≡ st r)
    → All (Splits p failing st (IsStepOf i (some s))) xs
    → AreSteps (reassign p i failing) st' xs
Splits-AreSteps p failing st st' i {s} xs at_p elsewhere h = All-map xs close h
  where
    close :
        (a : Approval)
        → Splits p failing st (IsStepOf i (some s)) a
        → IsStepOf (reassign p i failing a.proposal_id) (st' a.proposal_id) a
    close a k = elim (Bool-cases (a.proposal_id == p)) [
      | inl t ↦
          let e : a.proposal_id ≡ p = ground arith in
          rw t (
            subst (λ r. IsStepOf i (st' r) a) (sym e)
              (subst (λ o. IsStepOf i o a) (sym at_p) (k.0 e)))
      | inr f ↦
          let ne : a.proposal_id ≢ p = ground arith in
          rw f (
            subst (λ o. IsStepOf (failing a.proposal_id) o a) (sym (elsewhere a.proposal_id ne))
              (k.1 ne))
    ]

module _ (p : ℕ) (f : Proposal → Proposal) (same_id : (q : Proposal) → (f q).id ≡ q.id) where
  -- An UPDATE of one proposal that sets its status.
  pub status_in-update_where_self :
      (s : Status) (qs : List Proposal) (s' : Status)
      → ((q : Proposal) → (f q).current_status ≡ s)
      → status_in qs p ≡ some s'
      → status_in (update_where (λ q. q.id == p) f qs) p ≡ some s
  unfolding status_in update_where
  status_in-update_where_self s [] s' set h = cc
  status_in-update_where_self s (q ∷ qs) s' set h =
      ground (arith, same_id q, set q, status_in-update_where_self s qs s' set)

  pub status_in-update_where_ne :
      (qs : List Proposal) (r : ℕ)
      → r ≢ p
      → status_in (update_where (λ q. q.id == p) f qs) r ≡ status_in qs r
  unfolding status_in update_where
  status_in-update_where_ne [] r ne = refl
  status_in-update_where_ne (q ∷ qs) r ne =
      ground (arith, same_id q, status_in-update_where_ne qs r ne)

  -- An UPDATE of one proposal that leaves its status alone.
  pub status_in-update_where_same :
      (qs : List Proposal) (r : ℕ)
      → ((q : Proposal) → (f q).current_status ≡ q.current_status)
      → status_in (update_where (λ q. q.id == p) f qs) r ≡ status_in qs r
  unfolding status_in update_where
  status_in-update_where_same [] r same = refl
  status_in-update_where_same (q ∷ qs) r same =
      ground (arith, same_id q, same q, status_in-update_where_same qs r same)
