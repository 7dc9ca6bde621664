-- ===== src/Base/Tables.antt =====
-- What SELECT, UPDATE and ORDER BY do to the rows of a table.
use Prim.Native.Nat.{ℕ}
use mathlib.Core.Path.{◌≡◌, refl, sym, ap, ◌∙◌}
use mathlib.Core.Logic.{◌≢◌, inl, inr}
use mathlib.Core.Bool.{Bool, true, false}
use mathlib.Core.Option.{none, some}
use mathlib.Core.List.{List, [], ◌∷◌, ◌++◌, Memᴰ}
use mathlib.Core.List.Memᴰ
use native.Mathlib.Omega.{arith}
use crmp_backend.Base.Tests.{leb, Bool-cases}
use crmp_backend.Base.Lists.{All, filter, find, update_where, sort_by, insert_by, head?}

module _ {ℓ} {A : Type ℓ} where
  pub find-Mem :
      (p : A → Bool) (xs : List A) {a : A} → find p xs ≡ some a → Memᴰ a xs × (p a ≡ true)
  unfolding find
  find-Mem p [] h = cc
  find-Mem p (x ∷ xs) {a} h = elim (Bool-cases (p x)) [
    | inl t ↦ let e : a ≡ x = ground arith in (Memᴰ.head e, ap p e ∙ t)
    | inr f ↦ let (m, t) = find-Mem p xs (ground arith) in (Memᴰ.tail m, t)
  ]

  pub filter-Mem :
      (p : A → Bool) (xs : List A) {a : A} → Memᴰ a (filter p xs) → Memᴰ a xs × (p a ≡ true)
  unfolding filter
  filter-Mem p [] h = elim h [ ]
  filter-Mem p (x ∷ xs) {a} h = elim (Bool-cases (p x)) [
    | inl t ↦ elim (Memᴰ.cases_cons (rw t at h)) [
      | inl e ↦ (Memᴰ.head e, ap p e ∙ t)
      | inr m ↦ let (n, s) = filter-Mem p xs m in (Memᴰ.tail n, s)
    ]
    | inr f ↦ let (n, s) = filter-Mem p xs (rw f at h) in (Memᴰ.tail n, s)
  ]

  insert_by-Mem :
      (key : A → ℕ) (x : A) (ys : List A) {a : A} → Memᴰ a (insert_by key x ys) → Memᴰ a (x ∷ ys)
  unfolding insert_by
  insert_by-Mem key x [] h = h
  insert_by-Mem key x (y ∷ ys) {a} h = elim (Bool-cases (leb (key x) (key y))) [
    | inl t ↦ rw t at h
    | inr f ↦ elim (Memᴰ.cases_cons (rw f at h)) [
      | inl e ↦ Memᴰ.tail (Memᴰ.head e)
      | inr m ↦ elim (Memᴰ.cases_cons (insert_by-Mem key x ys m)) [
        | inl e ↦ Memᴰ.head e
        | inr n ↦ Memᴰ.tail (Memᴰ.tail n)
      ]
    ]
  ]

  pub sort_by-Mem : (key : A → ℕ) (xs : List A) {a : A} → Memᴰ a (sort_by key xs) → Memᴰ a xs
  unfolding sort_by
  sort_by-Mem key [] h = h
  sort_by-Mem key (x ∷ xs) h = elim (Memᴰ.cases_cons (insert_by-Mem key x (sort_by key xs) h)) [
    | inl e ↦ Memᴰ.head e
    | inr m ↦ Memᴰ.tail (sort_by-Mem key xs m)
  ]

  pub head?-Mem : (xs : List A) {a : A} → head? xs ≡ some a → Memᴰ a xs
  head?-Mem [] h = cc
  head?-Mem (x ∷ xs) h = Memᴰ.head (ground arith)

  -- A sorted table is empty only if the table is.
  pub sort_by-nil : (key : A → ℕ) (xs : List A) → head? (sort_by key xs) ≡ none → xs ≡ []
  unfolding sort_by
  sort_by-nil key [] h = refl
  sort_by-nil key (x ∷ xs) h = absurd (no_nil (sort_by key xs) h)
    where
      no_nil : (ys : List A) → head? (insert_by key x ys) ≡ none → ⊥
      no_nil [] h = cc
      no_nil (y ∷ ys) h = ground arith

module _ {ℓ κ} {A : Type ℓ} (P : A → Type κ) where
  pub All-Mem : {xs : List A} {a : A} → All P xs → Memᴰ a xs → P a
  All-Mem {xs = []} h m = elim m [ ]
  All-Mem {xs = x ∷ xs} {a} (p, h) m = elim (Memᴰ.cases_cons m) [
    | inl e ↦ rw e p
    | inr n ↦ All-Mem {xs = xs} h n
  ]

  pub All-universal : (xs : List A) → ((a : A) → P a) → All P xs
  All-universal [] h = tt
  All-universal (x ∷ xs) h = (h x, All-universal xs h)

  pub All-of_Mem : (xs : List A) → ((a : A) → Memᴰ a xs → P a) → All P xs
  All-of_Mem [] h = tt
  All-of_Mem (x ∷ xs) h = (h x (Memᴰ.head refl), All-of_Mem xs (λ a m. h a (Memᴰ.tail m)))

  pub All-append : (xs ys : List A) → All P xs → All P ys → All P (xs ++ ys)
  All-append [] ys h k = k
  All-append (x ∷ xs) ys (p, h) k = (p, All-append xs ys h k)

  pub filter-All : (p : A → Bool) (xs : List A) → All P xs → All P (filter p xs)
  unfolding filter
  filter-All p [] h = tt
  filter-All p (x ∷ xs) h = elim (Bool-cases (p x)) [
    | inl e ↦ rw e (h.0, filter-All p xs h.1)
    | inr e ↦ rw e (filter-All p xs h.1)
  ]

  pub All-split : (xs ys : List A) → All P (xs ++ ys) → All P xs × All P ys
  All-split [] ys h = (tt, h)
  All-split (x ∷ xs) ys (p, h) = let (k, l) = All-split xs ys h in ((p, k), l)

module _ {ℓ κ κ'} {A : Type ℓ} {P : A → Type κ} {Q : A → Type κ'} where
  pub All-map : (xs : List A) → ((a : A) → P a → Q a) → All P xs → All Q xs
  All-map [] f h = tt
  All-map (x ∷ xs) f (p, h) = (f x p, All-map xs f h)

  -- An UPDATE, row by row.
  pub All-update_where :
      (t : A → Bool) (f : A → A) (xs : List A)
      → ((a : A) → t a ≡ true → P a → Q (f a))
      → ((a : A) → t a ≡ false → P a → Q a)
      → All P xs
      → All Q (update_where t f xs)
  unfolding update_where
  All-update_where t f [] hit miss h = tt
  All-update_where t f (x ∷ xs) hit miss (p, h) = (
    elim (Bool-cases (t x)) [ inl e ↦ rw e (hit x e p) | inr e ↦ rw e (miss x e p) ],
    All-update_where t f xs hit miss h,
  )

module _ {ℓ κ κ'} {A : Type ℓ} (P : A → Type κ) (Q : A → Type κ') where
  pub All-zip : (xs : List A) → All P xs → All Q xs → All (λ a. P a × Q a) xs
  All-zip [] h k = tt
  All-zip (x ∷ xs) (p, h) (q, k) = ((p, q), All-zip xs h k)

-- No two rows have the same key.
module _ {ℓ} {A : Type ℓ} (key : A → ℕ) where
  abbrev pub HasUnique : List A → Type 0
  HasUnique [] = Unit
  HasUnique (x ∷ xs) = All (λ y. key y ≢ key x) xs × HasUnique xs

  -- The row with its key is the only one.
  pub HasUnique-only :
      (xs : List A) {a : A} → HasUnique xs → Memᴰ a xs → All (λ b. key b ≡ key a → b ≡ a) xs
  HasUnique-only [] u m = tt
  HasUnique-only (x ∷ xs) {a} (apart, u) m = elim (Memᴰ.cases_cons m) [
    | inl e ↦ (λ _. sym e, All-map xs (λ y ne same. absurd (ne (same ∙ ap key e))) apart)
    | inr n ↦ (λ same. absurd (All-Mem _ apart n (sym same)), HasUnique-only xs u n)
  ]

  pub HasUnique-update_where :
      (t : A → Bool) (f : A → A) (xs : List A)
      → ((a : A) → key (f a) ≡ key a)
      → HasUnique xs
      → HasUnique (update_where t f xs)
  unfolding update_where
  HasUnique-update_where t f [] same u = tt
  HasUnique-update_where t f (x ∷ xs) same (apart, u) = (
    elim (Bool-cases (t x)) [
      | inl e ↦ rw e (
          All-update_where t f xs (λ a _ ne eq. ne (sym (same a) ∙ eq ∙ same x))
            (λ a _ ne eq. ne (eq ∙ same x)) apart)
      | inr e ↦
          rw e (All-update_where t f xs (λ a _ ne eq. ne (sym (same a) ∙ eq)) (λ a _ ne. ne) apart)
    ],
    HasUnique-update_where t f xs same u,
  )

  pub HasUnique-append :
      (xs ys : List A)
      → HasUnique xs
      → HasUnique ys
      → All (λ y. All (λ x. key x ≢ key y) xs) ys
      → HasUnique (xs ++ ys)
  HasUnique-append [] ys u v apart = v
  HasUnique-append (x ∷ xs) ys (ax, u) v apart = (
    All-append _ xs ys ax (All-map ys (λ y h e. h.0 (sym e)) apart),
    HasUnique-append xs ys u v (All-map ys (λ y h. h.1) apart),
  )

module _ {ℓ} {A : Type ℓ} where
  -- A row that an UPDATE hits is there after it, changed.
  pub update_where-Mem :
      (t : A → Bool) (f : A → A) (xs : List A) {a : A}
      → t a ≡ true
      → Memᴰ a xs
      → Memᴰ (f a) (update_where t f xs)
  unfolding update_where
  update_where-Mem t f [] e m = elim m [ ]
  update_where-Mem t f (x ∷ xs) {a} e m = elim (Memᴰ.cases_cons m) [
    | inl same ↦ let hit : t x ≡ true = ap t (sym same) ∙ e in rw hit (Memᴰ.head (ap f same))
    | inr n ↦ Memᴰ.tail (update_where-Mem t f xs e n)
  ]

  -- An empty selection means that no row passes the test.
  pub filter-nil : (p : A → Bool) (xs : List A) → filter p xs ≡ [] → All (λ a. p a ≡ false) xs
  unfolding filter
  filter-nil p [] h = tt
  filter-nil p (x ∷ xs) h = elim (Bool-cases (p x)) [
    | inl t ↦ cc
    | inr f ↦ (f, filter-nil p xs (rw f at h))
  ]

  -- So does a query for one row that finds none.
  pub find-none : (p : A → Bool) (xs : List A) → find p xs ≡ none → All (λ a. p a ≡ false) xs
  unfolding find
  find-none p [] h = tt
  find-none p (x ∷ xs) h = elim (Bool-cases (p x)) [
    | inl t ↦ cc (rw t at h)
    | inr f ↦ (f, find-none p xs (rw f at h))
  ]
