-- ===== src/Base/Finding.antt =====
-- What a query for one row finds after an INSERT or an UPDATE.
use mathlib.Core.Path.{◌≡◌, sym, ap, ◌∙◌}
use mathlib.Core.Logic.{inl, inr}
use mathlib.Core.Bool.{Bool, true, false}
use mathlib.Core.Option.{none, some}
use mathlib.Core.List.{List, [], ◌∷◌, ◌++◌}
use native.Mathlib.Omega.{arith}
use crmp_backend.Base.Tests.{if◌then◌else◌, Bool-cases}
use crmp_backend.Base.Lists.{find, update_where}

pub some-injective {ℓ} : {A : Type ℓ} {a b : A} → some a ≡ some b → a ≡ b
some-injective e = cc

pub some_not_none {ℓ κ} : {A : Type ℓ} {B : Type κ} {a : A} → some a ≡ none → B
some_not_none e = cc

module _ {ℓ} {A : Type ℓ} (p : A → Bool) where
  find-at : (x : A) (xs : List A) → p x ≡ true → find p (x ∷ xs) ≡ some x
  unfolding find
  find-at x xs e = ground arith

  find-past : (x : A) (xs : List A) → p x ≡ false → find p (x ∷ xs) ≡ find p xs
  unfolding find
  find-past x xs e = ground arith

  kept :
      (t : A → Bool) (f : A → A) (x : A)
      → ((y : A) → p (f y) ≡ p y)
      → p (if t x then f x else x) ≡ p x
  kept t f x same = elim (Bool-cases (t x)) [
    | inl e ↦ ap (λ b. p (if b then f x else x)) e ∙ same x
    | inr e ↦ ap (λ b. p (if b then f x else x)) e
  ]

  -- The row that an UPDATE leaves, where it does not change whether the row is found.
  pub find-update_where :
      (t : A → Bool) (f : A → A) (xs : List A) {a : A}
      → ((x : A) → p (f x) ≡ p x)
      → find p xs ≡ some a
      → find p (update_where t f xs) ≡ some (if t a then f a else a)
  unfolding find update_where
  find-update_where t f [] same h = cc
  find-update_where t f (x ∷ xs) {a} same h = elim (Bool-cases (p x)) [
    | inl e ↦
        find-at (if t x then f x else x) _ (kept t f x same ∙ e)
        ∙ ap (λ y. some (if t y then f y else y)) (some-injective (sym (find-at x xs e) ∙ h))
    | inr e ↦
        find-past (if t x then f x else x) _ (kept t f x same ∙ e)
        ∙ find-update_where t f xs same (sym (find-past x xs e) ∙ h)
  ]

  -- New rows come after the old ones.
  pub find-append : (xs ys : List A) {a : A} → find p xs ≡ some a → find p (xs ++ ys) ≡ some a
  unfolding find
  find-append [] ys h = cc
  find-append (x ∷ xs) ys h = elim (Bool-cases (p x)) [
    | inl e ↦ find-at x _ e ∙ sym (find-at x xs e) ∙ h
    | inr e ↦ find-past x _ e ∙ find-append xs ys (sym (find-past x xs e) ∙ h)
  ]

  pub find-append_new :
      (xs : List A) (y : A) → find p xs ≡ none → p y ≡ true → find p (xs ++ y ∷ []) ≡ some y
  unfolding find
  find-append_new [] y h e = find-at y [] e
  find-append_new (x ∷ xs) y h e = elim (Bool-cases (p x)) [
    | inl k ↦ some_not_none (sym (find-at x xs k) ∙ h)
    | inr k ↦ find-past x _ k ∙ find-append_new xs y (sym (find-past x xs k) ∙ h) e
  ]

  -- No row is found after an UPDATE or an INSERT that could not be found before it.
  pub find-update_where-none :
      (t : A → Bool) (f : A → A) (xs : List A)
      → ((x : A) → p (f x) ≡ p x)
      → find p xs ≡ none
      → find p (update_where t f xs) ≡ none
  unfolding find update_where
  find-update_where-none t f [] same h = h
  find-update_where-none t f (x ∷ xs) same h = elim (Bool-cases (p x)) [
    | inl e ↦ some_not_none (sym (find-at x xs e) ∙ h)
    | inr e ↦
        find-past (if t x then f x else x) _ (kept t f x same ∙ e)
        ∙ find-update_where-none t f xs same (sym (find-past x xs e) ∙ h)
  ]

  pub find-append-none :
      (xs : List A) (y : A) → find p xs ≡ none → p y ≡ false → find p (xs ++ y ∷ []) ≡ none
  unfolding find
  find-append-none [] y h e = find-past y [] e
  find-append-none (x ∷ xs) y h e = elim (Bool-cases (p x)) [
    | inl k ↦ some_not_none (sym (find-at x xs k) ∙ h)
    | inr k ↦ find-past x _ k ∙ find-append-none xs y (sym (find-past x xs k) ∙ h) e
  ]
