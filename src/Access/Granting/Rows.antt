-- ===== src/Access/Granting/Rows.antt =====
-- The rows that `replaceRolePermissions` of src/access-control/access.service.ts deletes and inserts, and
-- the ids that it looks up.
use crmp_backend.Base.{
  ℕ, Bool, true, false, not, ◌&&◌, ◌||◌, List, [], ◌∷◌, ◌++◌, ◌==◌, map, filter, find, mem_nat,
  is_some, if◌then◌else◌, ◌≡◌, refl, sym, ap, ◌∙◌, Bool-cases, inl, inr, arith, ==_iff,
}
use crmp_backend.Access.Roles.{PermissionRow, RolePermission, distinct_after, inserted}

pub and_false : (b : Bool) → (b && false) ≡ false
and_false true = refl
and_false false = refl

or_assoc : (a b c : Bool) → (a || (b || c)) ≡ (a || b || c)
or_assoc true b c = refl
or_assoc false b c = refl

if_same : (b : Bool) → (if b then false else false) ≡ false
if_same true = refl
if_same false = refl

pub mem-distinct :
    (q : ℕ) (seen xs : List ℕ)
    → mem_nat q (distinct_after seen xs) ≡ (mem_nat q xs && not (mem_nat q seen))
unfolding distinct_after
mem-distinct q seen [] = refl
mem-distinct q seen (x ∷ xs) = elim (Bool-cases (q == x)) [
  | inl e ↦
      let here : mem_nat q seen ≡ mem_nat x seen = ap (λ k. mem_nat k seen) ((==_iff q x).0 e) in
      elim (Bool-cases (mem_nat x seen)) [
        | inl t ↦ rw (t, e, mem-distinct q seen xs, here, t) (and_false (mem_nat q xs))
        | inr f ↦ rw (f, e, here, f) refl
      ]
  | inr e ↦ elim (Bool-cases (mem_nat x seen)) [
    | inl t ↦ rw (t, e) (mem-distinct q seen xs)
    | inr f ↦ rw (f, e) (mem-distinct q (x ∷ seen) xs ∙ rw e refl)
  ]
]

pub mem-existing :
    (q : ℕ) (ids : List ℕ) (ps : List PermissionRow)
    → mem_nat q (map (λ (x : PermissionRow). x.id) (filter (λ x. mem_nat x.id ids) ps))
      ≡ (mem_nat q ids && is_some (find (λ (y : PermissionRow). y.id == q) ps))
unfolding filter find
mem-existing q ids [] = sym (and_false (mem_nat q ids))
mem-existing q ids (x ∷ xs) = elim (Bool-cases (q == x.id)) [
  | inl e ↦
      let here : mem_nat q ids ≡ mem_nat x.id ids = ap (λ k. mem_nat k ids) ((==_iff q x.id).0 e) in
      let back : (x.id == q) ≡ true = ground (arith, e) in
      elim (Bool-cases (mem_nat x.id ids)) [
        | inl t ↦ rw (t, e, here, t, back) refl
        | inr f ↦ rw (f, mem-existing q ids xs, here, f) refl
      ]
  | inr e ↦
      let back : (x.id == q) ≡ false = ground (arith, e) in
      elim (Bool-cases (mem_nat x.id ids)) [
        | inl t ↦ rw (t, e, back) (mem-existing q ids xs)
        | inr f ↦ rw (f, back) (mem-existing q ids xs)
      ]
]

-- Whether a role has a known permission, by its rows.
module _ (known : ℕ → Bool) (q : ℕ) where
  unfoldable pub has : ℕ → List RolePermission → Bool
  unfolding filter
  has r xs = mem_nat q (
      map (λ (x : RolePermission). x.permission_id)
        (filter (λ x. x.role_id == r && known x.permission_id) xs))

  has-cons :
      (r : ℕ) (x : RolePermission) (xs : List RolePermission)
      → has r (x ∷ xs)
        ≡ ((x.role_id == r && known x.permission_id && q == x.permission_id) || has r xs)
  unfolding has
  has-cons r x xs = elim (Bool-cases (x.role_id == r && known x.permission_id)) [
    | inl t ↦ rw t refl
    | inr f ↦ rw f refl
  ]

  pub has-append : (r : ℕ) (xs ys : List RolePermission) → has r (xs ++ ys) ≡ (has r xs || has r ys)
  unfolding has
  has-append r [] ys = refl
  has-append r (x ∷ xs) ys =
      has-cons r x (xs ++ ys)
      ∙ rw (has-cons r x xs, has-append r xs ys)
          (or_assoc (x.role_id == r && known x.permission_id && q == x.permission_id) (has r xs)
            (has r ys))

  pub has-removed :
      (r role : ℕ) (xs : List RolePermission)
      → has r (filter (λ (y : RolePermission). not (y.role_id == role)) xs)
        ≡ (if r == role then false else has r xs)
  unfolding has filter
  has-removed r role [] = sym (if_same (r == role))
  has-removed r role (x ∷ xs) = elim (Bool-cases (x.role_id == role)) [
    | inl t ↦ elim (Bool-cases (r == role)) [
      | inl e ↦ rw (t, has-removed r role xs, e) refl
      | inr e ↦
          let other : (x.role_id == r) ≡ false = ground (arith, t, e) in
          rw (t, has-removed r role xs, e, has-cons r x xs, other) refl
    ]
    | inr f ↦ elim (Bool-cases (r == role)) [
      | inl e ↦
          let other : (x.role_id == r) ≡ false = ground (arith, f, e) in
          rw
            (
              f,
              has-cons r x (filter (λ (y : RolePermission). not (y.role_id == role)) xs),
              has-removed r role xs,
              e,
              other,
            )
            refl
      | inr e ↦
          rw
            (
              f,
              has-cons r x (filter (λ (y : RolePermission). not (y.role_id == role)) xs),
              has-removed r role xs,
              e,
              has-cons r x xs,
            )
            refl
    ]
  ]

  pub has-inserted :
      (r role : ℕ) (ids : List ℕ)
      → has r (inserted role ids) ≡ (role == r && (mem_nat q ids && known q))
  unfolding has filter
  has-inserted r role [] = sym (and_false (role == r))
  has-inserted r role (x ∷ xs) =
      has-cons r (record { role_id = role; permission_id = x }) (inserted role xs)
      ∙ elim (Bool-cases (role == r)) [
        | inl e ↦ elim (Bool-cases (q == x)) [
          | inl same ↦
              let k : known x ≡ known q = ap known (sym ((==_iff q x).0 same)) in
              rw (has-inserted r role xs, e, same, k) (or_and (known q) (mem_nat q xs))
          | inr f ↦ rw (has-inserted r role xs, e, f, and_false (known x)) refl
        ]
        | inr e ↦ rw (has-inserted r role xs, e) refl
      ]
    where
      or_and : (k m : Bool) → ((k && true) || (m && k)) ≡ k
      or_and true m = refl
      or_and false m = and_false m
