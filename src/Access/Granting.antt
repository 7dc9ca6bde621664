-- ===== src/Access/Granting.antt =====
-- Which permissions `replaceRolePermissions` of src/access-control/access.service.ts leaves to whom.
pub mod Rows
use crmp_backend.Base.{
  ℕ, Bool, true, false, not, ◌&&◌, ◌||◌, List, [], ◌∷◌, ◌++◌, ◌==◌, map, filter, find, mem_nat,
  is_some, if◌then◌else◌, ok, not_found, ◌≡◌, refl, sym, ap, ◌∙◌, Bool-cases, inl, inr, arith,
  or_throw-eq-ok, ok-injective, subst, ==_iff, ==_refl,
}
use crmp_backend.Access.Roles.{
  PermissionRow, RolePermission, RoleTables, find_role_by_id, distinct_after,
  find_permissions_by_ids, find_role_permissions, inserted, Replaced, with_permissions,
  replace_role_permissions,
}
use crmp_backend.Access.Granting.Rows.{
  and_false, mem-distinct, mem-existing, has, has-append, has-removed, has-inserted,
}

unfoldable pub is_permission : ℕ → RoleTables → Bool
unfolding find
is_permission q t = is_some (find (λ (y : PermissionRow). y.id == q) t.permissions)

and_true : (b : Bool) → (b && true) ≡ b
and_true true = refl
and_true false = refl

or_false : (b : Bool) → (b || false) ≡ b
or_false true = refl
or_false false = refl

and_twice : (a b : Bool) → ((a && b) && b) ≡ (a && b)
and_twice true true = refl
and_twice true false = refl
and_twice false b = refl

and_not : (a b : Bool) → (a && not (a && b)) ≡ (a && not b)
and_not true b = refl
and_not false b = refl

mem_unique : (q : ℕ) (ids : List ℕ) → mem_nat q (distinct_after [] ids) ≡ mem_nat q ids
mem_unique q ids = mem-distinct q [] ids ∙ and_true (mem_nat q ids)

existing_lem :
    (q : ℕ) (ids : List ℕ) (t : RoleTables)
    → mem_nat q (find_permissions_by_ids (distinct_after [] ids) t)
      ≡ (mem_nat q ids && is_permission q t)
unfolding find_permissions_by_ids is_permission
existing_lem q ids t =
    mem-existing q (distinct_after [] ids) t.permissions
    ∙ ap (λ b. b && is_permission q t) (mem_unique q ids)

mem-ignored :
    (q : ℕ) (existing xs : List ℕ)
    → mem_nat q (filter (λ i. not (mem_nat i existing)) xs)
      ≡ (mem_nat q xs && not (mem_nat q existing))
unfolding filter
mem-ignored q existing [] = refl
mem-ignored q existing (x ∷ xs) = elim (Bool-cases (q == x)) [
  | inl e ↦
      let here : mem_nat q existing ≡ mem_nat x existing =
        ap (λ k. mem_nat k existing) ((==_iff q x).0 e) in
      elim (Bool-cases (mem_nat x existing)) [
        | inl t ↦ rw (t, mem-ignored q existing xs, here, t, e) (and_false (mem_nat q xs))
        | inr f ↦ rw (f, e, here, f) refl
      ]
  | inr e ↦ elim (Bool-cases (mem_nat x existing)) [
    | inl t ↦ rw (t, e) (mem-ignored q existing xs)
    | inr f ↦ rw (f, e) (mem-ignored q existing xs)
  ]
]

granted_lem :
    (role : ℕ) (ids : List ℕ) (t : RoleTables) (r q : ℕ)
    → mem_nat q (
        find_role_permissions r
          (with_permissions role (find_permissions_by_ids (distinct_after [] ids) t) t))
      ≡ (if r == role
          then mem_nat q ids && is_permission q t
          else mem_nat q (find_role_permissions r t))
unfolding find_role_permissions has is_permission
granted_lem role ids t r q =
    let known : ℕ → Bool = λ p. is_permission p t in
    let existing = find_permissions_by_ids (distinct_after [] ids) t in
    let kept = filter (λ (y : RolePermission). not (y.role_id == role)) t.role_permissions in
    has-append known q r kept (inserted role existing) ∙ elim (Bool-cases (r == role)) [
      | inl e ↦
          let back : (role == r) ≡ true = ground (arith, e) in
          rw
            (
              has-removed known q r role t.role_permissions,
              has-inserted known q r role existing,
              e,
              back,
              existing_lem q ids t,
            )
            (and_twice (mem_nat q ids) (is_permission q t))
      | inr e ↦
          let back : (role == r) ≡ false = ground (arith, e) in
          rw
            (
              has-removed known q r role t.role_permissions,
              has-inserted known q r role existing,
              e,
              back,
            )
            (or_false (has known q r t.role_permissions))
    ]

-- A replacement leaves the role with exactly those permissions that were asked for and exist, every
-- other role with what it had, and answers with those that do not exist.
pub replace_role_permissions_lem :
    (role : ℕ) (ids : List ℕ) (t t' : RoleTables) (a : Replaced) (r q : ℕ)
    → replace_role_permissions role ids t ≡ ok (a, t')
    → (mem_nat q (find_role_permissions r t') ≡ (
        if r == role
        then mem_nat q ids && is_permission q t
        else mem_nat q (find_role_permissions r t)))
      × (mem_nat q a.permissions ≡ (mem_nat q ids && is_permission q t))
      × (mem_nat q a.ignored_permission_ids ≡ (mem_nat q ids && not (is_permission q t)))
unfolding replace_role_permissions
replace_role_permissions_lem role ids t t' a r q h =
    let (_, _, h) = or_throw-eq-ok (find_role_by_id role t) not_found _ h in
    let answer = ap (λ (p : Replaced × RoleTables). p.0) (ok-injective h) in
    let left = ap (λ (p : Replaced × RoleTables). p.1) (ok-injective h) in
    let unique = distinct_after [] ids in
    let existing = find_permissions_by_ids unique t in
    (
      subst
          (λ (u : RoleTables). mem_nat q (find_role_permissions r u) ≡ (
            if r == role
            then mem_nat q ids && is_permission q t
            else mem_nat q (find_role_permissions r t)))
          left (granted_lem role ids t r q),
      subst (λ (b : Replaced). mem_nat q b.permissions ≡ (mem_nat q ids && is_permission q t))
          answer (granted_lem role ids t role q ∙ rw (==_refl role) refl),
      subst
          (λ (b : Replaced).
            mem_nat q b.ignored_permission_ids ≡ (mem_nat q ids && not (is_permission q t)))
          answer
          (mem-ignored q existing unique
            ∙ rw (mem_unique q ids, existing_lem q ids t)
                (and_not (mem_nat q ids) (is_permission q t))),
    )
