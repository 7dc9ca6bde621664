-- ===== src/Base/Sorting.antt =====
-- What ORDER BY promises.
use Prim.Native.Nat.{ℕ, ◌≤◌}
use mathlib.Core.Logic.{inl, inr}
use mathlib.Core.Bool.{Bool}
use mathlib.Core.List.{List, [], ◌∷◌}
use native.Mathlib.Omega.{arith}
use crmp_backend.Base.Tests.{leb, Bool-cases}
use crmp_backend.Base.Lists.{All, filter, sort_by, insert_by}
use crmp_backend.Base.Tables.{All-map, filter-All}

module _ {ℓ} {A : Type ℓ} (key : A → ℕ) where
  -- Each row's key is at most those of the rows after it.
  abbrev pub IsSorted : List A → Type 0
  IsSorted [] = Unit
  IsSorted (x ∷ xs) = All (λ y. key x ≤ key y) xs × IsSorted xs

  insert_by-All :
      (P : A → Type 0) (x : A) (xs : List A) → P x → All P xs → All P (insert_by key x xs)
  unfolding insert_by
  insert_by-All P x [] p h = (p, tt)
  insert_by-All P x (y ∷ ys) p h = elim (Bool-cases (leb (key x) (key y))) [
    | inl e ↦ rw e (p, h)
    | inr e ↦ rw e (h.0, insert_by-All P x ys p h.1)
  ]

  insert_by-IsSorted : (x : A) (xs : List A) → IsSorted xs → IsSorted (insert_by key x xs)
  unfolding insert_by
  insert_by-IsSorted x [] s = (tt, tt)
  insert_by-IsSorted x (y ∷ ys) (least, s) = elim (Bool-cases (leb (key x) (key y))) [
    | inl e ↦
        let le : key x ≤ key y = ground (arith, e) in
        rw e ((le, All-map ys (λ z k. omega (arith, le, k)) least), (least, s))
    | inr e ↦
        let le : key y ≤ key x = ground (arith, e) in
        rw e (insert_by-All (λ z. key y ≤ key z) x ys le least, insert_by-IsSorted x ys s)
  ]

  pub sort_by-IsSorted : (xs : List A) → IsSorted (sort_by key xs)
  unfolding sort_by
  sort_by-IsSorted [] = tt
  sort_by-IsSorted (x ∷ xs) = insert_by-IsSorted x (sort_by key xs) (sort_by-IsSorted xs)

  -- A selection of sorted rows is sorted.
  pub filter-IsSorted : (p : A → Bool) (xs : List A) → IsSorted xs → IsSorted (filter p xs)
  unfolding filter
  filter-IsSorted p [] s = tt
  filter-IsSorted p (x ∷ xs) (least, s) = elim (Bool-cases (p x)) [
    | inl e ↦ rw e (filter-All (λ y. key x ≤ key y) p xs least, filter-IsSorted p xs s)
    | inr e ↦ rw e (filter-IsSorted p xs s)
  ]
