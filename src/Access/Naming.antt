-- ===== src/Access/Naming.antt =====
-- The names of roles under the operations of src/access-control/access.service.ts.
use crmp_backend.Base.{
  ℕ, String, str_eq, eq_iff, Bool, true, false, not, ◌&&◌, Option, some, none, List, [], ◌∷◌, ◌++◌,
  ◌==◌, filter, find, update_where, Given, omitted, given, ok, internal_server_error, not_found,
  conflict, is_some, ◌≡◌, ◌≢◌, refl, sym, ap, ◌∙◌, All, All-map, All-append, All-update_where,
  All-zip, HasUnique, HasUnique-update_where, HasUnique-append, find-none, Bool-cases, Option-cases,
  inl, inr, arith, require-eq-ok, or_throw-eq-ok, >>=-eq-ok, ok-injective, state_of_ok, subst,
  ==_iff, filter-All,
}
use crmp_backend.Access.Roles.{
  RoleRow, RoleTables, Replaced, UpdateRole, find_role_by_name, find_role_by_id, create_role,
  update_role, delete_role, replace_role_permissions, is_name_free, is_new_name, new_name,
  new_description, description_or_null, check_name,
}

str_eq-false : (a b : String) → str_eq a b ≡ false → str_eq b a ≡ false
str_eq-false a b h = elim (Bool-cases (str_eq b a)) [
  | inl e ↦ ground (arith, eq_iff a b, eq_iff b a)
  | inr f ↦ f
]

-- No two roles have the same name, and no two the same id.
abbrev pub AreNamed : List RoleRow → Type 0
AreNamed [] = Unit
AreNamed (x ∷ xs) = All (λ (y : RoleRow). str_eq y.name x.name ≡ false) xs × AreNamed xs

abbrev pub AreDistinct : List RoleRow → Type 0
AreDistinct xs = AreNamed xs × HasUnique (λ (x : RoleRow). x.id) xs

append-AreNamed :
    (y : RoleRow) (xs : List RoleRow)
    → All (λ (x : RoleRow). str_eq x.name y.name ≡ false) xs
    → AreNamed xs
    → AreNamed (xs ++ y ∷ [])
append-AreNamed y [] h k = (tt, tt)
append-AreNamed y (x ∷ xs) h k = (
  All-append (λ (z : RoleRow). str_eq z.name x.name ≡ false) xs (y ∷ []) k.0
      (str_eq-false x.name y.name h.0, tt),
  append-AreNamed y xs h.1 k.1,
)

filter-AreNamed : (p : RoleRow → Bool) (xs : List RoleRow) → AreNamed xs → AreNamed (filter p xs)
unfolding filter
filter-AreNamed p [] h = tt
filter-AreNamed p (x ∷ xs) h = elim (Bool-cases (p x)) [
  | inl t ↦ rw t (
    filter-All (λ (y : RoleRow). str_eq y.name x.name ≡ false) p xs h.0,
    filter-AreNamed p xs h.1,
  )
  | inr f ↦ rw f (filter-AreNamed p xs h.1)
]

filter-HasUnique :
    (p : RoleRow → Bool) (xs : List RoleRow)
    → HasUnique (λ (x : RoleRow). x.id) xs
    → HasUnique (λ (x : RoleRow). x.id) (filter p xs)
unfolding filter
filter-HasUnique p [] h = tt
filter-HasUnique p (x ∷ xs) h = elim (Bool-cases (p x)) [
  | inl t ↦ rw t (filter-All (λ (y : RoleRow). y.id ≢ x.id) p xs h.0, filter-HasUnique p xs h.1)
  | inr f ↦ rw f (filter-HasUnique p xs h.1)
]

-- A role is given a name that no other role has.
rename-AreNamed :
    (role : ℕ) (n : String) (f : RoleRow → RoleRow) (xs : List RoleRow)
    → ((y : RoleRow) → (f y).name ≡ n)
    → All (λ (y : RoleRow). (str_eq y.name n && not (y.id == role)) ≡ false) xs
    → AreDistinct xs
    → AreNamed (update_where (λ (y : RoleRow). y.id == role) f xs)
unfolding update_where
rename-AreNamed role n f [] named free u = tt
rename-AreNamed role n f (x ∷ xs) named free (k, u) =
    let rest = rename-AreNamed role n f xs named free.1 (k.1, u.1) in
    elim (Bool-cases (x.id == role)) [
      | inl e ↦
          let apart =
            All-update_where
              {P = λ (y : RoleRow).
                (y.id ≢ x.id) × ((str_eq y.name n && not (y.id == role)) ≡ false)}
              {Q = λ (y : RoleRow). str_eq y.name n ≡ false} (λ (y : RoleRow). y.id == role) f xs
              (λ y t p. absurd (p.0 ((==_iff y.id role).0 t ∙ sym ((==_iff x.id role).0 e))))
              (λ y t p. ground (arith, t, p.1)) (All-zip _ _ xs u.0 free.1) in
          rw (e, named x) (apart, rest)
      | inr e ↦
          let mine : str_eq x.name n ≡ false = ground (arith, e, free.0) in
          let apart =
            All-update_where {P = λ (y : RoleRow). str_eq y.name x.name ≡ false}
              {Q = λ (y : RoleRow). str_eq y.name x.name ≡ false} (λ (y : RoleRow). y.id == role) f
              xs (λ y _ _. ap (λ m. str_eq m x.name) (named y) ∙ str_eq-false x.name n mine)
              (λ y _ p. p) k.0 in
          rw e (apart, rest)
    ]

-- An UPDATE that keeps the names.
same-AreNamed :
    (t : RoleRow → Bool) (f : RoleRow → RoleRow) (xs : List RoleRow)
    → ((y : RoleRow) → (f y).name ≡ y.name)
    → AreNamed xs
    → AreNamed (update_where t f xs)
unfolding update_where
same-AreNamed t f [] same k = tt
same-AreNamed t f (x ∷ xs) same k =
    let keep =
      All-update_where {P = λ (y : RoleRow). str_eq y.name x.name ≡ false}
        {Q = λ (y : RoleRow). str_eq y.name x.name ≡ false} t f xs
        (λ y _ p. ap (λ m. str_eq m x.name) (same y) ∙ p) (λ y _ p. p) k.0 in
    (
      elim (Bool-cases (t x)) [ inl e ↦ rw (e, same x) keep | inr e ↦ rw e keep ],
      same-AreNamed t f xs same k.1,
    )

-- One call that succeeded. The database gives a new role an id that no role has.
pub data Call (t : RoleTables) : RoleTables → Type 0 where
  role_created :
      {t' : RoleTables} (new_id : ℕ) (name : String) (description : Option String)
      → All (λ (x : RoleRow). new_id ≢ x.id) t.roles
      → create_role new_id name description t ≡ ok t'
      → Call t t'
  role_updated :
      {t' : RoleTables} (role : ℕ) (dto : UpdateRole) → update_role role dto t ≡ ok t' → Call t t'
  role_deleted : {t' : RoleTables} (role : ℕ) → delete_role role t ≡ ok t' → Call t t'
  permissions_replaced :
      {t' : RoleTables} (role : ℕ) (ids : List ℕ) (a : Replaced)
      → replace_role_permissions role ids t ≡ ok (a, t')
      → Call t t'

pub data Reaches (t : RoleTables) : RoleTables → Type 0 where
  here : Reaches t t
  next : {t' t'' : RoleTables} → Reaches t t' → Call t' t'' → Reaches t t''

create_role-AreDistinct :
    (new_id : ℕ) (name : String) (d : Option String) (t t' : RoleTables)
    → All (λ (x : RoleRow). new_id ≢ x.id) t.roles
    → create_role new_id name d t ≡ ok t'
    → AreDistinct t.roles
    → AreDistinct t'.roles
unfolding create_role find_role_by_name
create_role-AreDistinct new_id name d t t' fresh h (k, u) =
    elim (Option-cases (find_role_by_name name t)) [
      | inr (x, found) ↦ cc (rw found at h)
      | inl absent ↦
          let new : RoleRow = record {
            id = new_id;
            name = name;
            description = description_or_null d;
          } in
          let (_, rest) = require-eq-ok (not (is_some (find_role_by_name name t))) conflict _ h in
          let (_, last) = require-eq-ok (is_new_name name t) internal_server_error _ rest in
          let done = ok-injective last in
          subst (λ (v : RoleTables). AreDistinct v.roles) done
            (
              append-AreNamed new t.roles
                  (find-none (λ (x : RoleRow). str_eq x.name name) t.roles absent) k,
              HasUnique-append (λ (x : RoleRow). x.id) t.roles (new ∷ []) u (tt, tt)
                  (All-map t.roles (λ y ne e. ne (sym e)) fresh, tt),
            )
    ]

updated-AreNamed :
    (role : ℕ) (g d : Given String) (t : RoleTables)
    → is_name_free role g t ≡ true
    → AreDistinct t.roles
    → AreNamed (
        update_where
          (λ (y : RoleRow). y.id == role)
          (λ y. record y {
            name = new_name g y.name;
            description = new_description d y.description;
          })
          t.roles)
unfolding is_name_free
updated-AreNamed role omitted d t free u = same-AreNamed _ _ t.roles (λ y. refl) u.0
updated-AreNamed role (given none) d t free u = cc
updated-AreNamed role (given (some n)) d t free u =
    elim (Option-cases (find (λ (x : RoleRow). str_eq x.name n && not (x.id == role)) t.roles)) [
      | inl absent ↦
          rename-AreNamed role n _ t.roles (λ y. refl)
            (find-none (λ (x : RoleRow). str_eq x.name n && not (x.id == role)) t.roles absent) u
      | inr (x, found) ↦ cc (rw found at free)
    ]

update_role-AreDistinct :
    (role : ℕ) (dto : UpdateRole) (t t' : RoleTables)
    → update_role role dto t ≡ ok t'
    → AreDistinct t.roles
    → AreDistinct t'.roles
unfolding update_role
update_role-AreDistinct role dto t t' h (k, u) =
    let (x, _, h) = or_throw-eq-ok (find_role_by_id role t) not_found _ h in
    let (_, _, h) = >>=-eq-ok (check_name role dto.name x t) _ h in
    let (_, h) = require-eq-ok _ internal_server_error _ h in
    let (free, h) = require-eq-ok (is_name_free role dto.name t) internal_server_error _ h in
    subst (λ (v : RoleTables). AreDistinct v.roles) (ok-injective h)
      (
        updated-AreNamed role dto.name dto.description t free (k, u),
        HasUnique-update_where (λ (x : RoleRow). x.id) (λ (y : RoleRow). y.id == role)
            (λ y. record y {
              name = new_name dto.name y.name;
              description = new_description dto.description y.description;
            })
            t.roles (λ _. refl) u,
      )

Call-AreDistinct : {t t' : RoleTables} → Call t t' → AreDistinct t.roles → AreDistinct t'.roles
unfolding delete_role replace_role_permissions
Call-AreDistinct {t} {t'} (role_created new_id name d fresh h) u =
    create_role-AreDistinct new_id name d t t' fresh h u
Call-AreDistinct {t} {t'} (role_updated role dto h) u = update_role-AreDistinct role dto t t' h u
Call-AreDistinct {t} {t'} (role_deleted role h) (k, u) =
    let (_, _, h) = or_throw-eq-ok (find_role_by_id role t) not_found _ h in
    subst (λ (v : RoleTables). AreDistinct v.roles) (ok-injective h)
      (filter-AreNamed _ t.roles k, filter-HasUnique _ t.roles u)
Call-AreDistinct {t} {t'} (permissions_replaced role ids a h) u =
    let (_, _, h) = or_throw-eq-ok (find_role_by_id role t) not_found _ h in
    subst (λ (v : RoleTables). AreDistinct v.roles) (state_of_ok h) u

-- Calls keep the names and the ids of the roles distinct.
pub names_stay_distinct :
    {t t' : RoleTables} → Reaches t t' → AreDistinct t.roles → AreDistinct t'.roles
names_stay_distinct here u = u
names_stay_distinct (next r c) u = Call-AreDistinct c (names_stay_distinct r u)
