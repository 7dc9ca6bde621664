-- ===== src/Access/Taken.antt =====
-- Names that are in use, under src/access-control/access.service.ts.
use crmp_backend.Base.{
  ℕ, String, str_eq, eq_iff, false, Option, some, List, [], ◌∷◌, ◌==◌, find, Given, given, err,
  conflict, ◌≡◌, ◌≢◌, refl, sym, ap, ◌∙◌, Memᴰ, find-Mem, All-Mem, Bool-cases, inl, inr, arith,
  subst, ==_iff, some-injective,
}
use mathlib.Core.List.Memᴰ
use crmp_backend.Access.Roles.{
  RoleRow, RoleTables, find_role_by_name, find_role_by_id, create_role, update_role, check_name,
}
use crmp_backend.Access.Naming.{AreNamed, AreDistinct, Reaches, names_stay_distinct}

-- Where the names are distinct, a role is found by its name, and where the ids are, by its id.
find-name :
    (xs : List RoleRow) (y : RoleRow)
    → AreNamed xs
    → Memᴰ y xs
    → find (λ (x : RoleRow). str_eq x.name y.name) xs ≡ some y
unfolding find
find-name [] y h m = elim m [ ]
find-name (x ∷ xs) y h m = elim (Memᴰ.cases_cons m) [
  | inl e ↦ rw ((eq_iff x.name y.name).1 (ap (λ (z : RoleRow). z.name) (sym e))) (ap some (sym e))
  | inr n ↦
      let other : str_eq x.name y.name ≡ false = ground (
        arith,
        All-Mem (λ (z : RoleRow). str_eq z.name x.name ≡ false) h.0 n,
        eq_iff x.name y.name,
        eq_iff y.name x.name,
      ) in
      rw other (find-name xs y h.1 n)
]

module _ (t : RoleTables) (u : AreDistinct t.roles) (y : RoleRow) (there : Memᴰ y t.roles) where
  pub create-taken : (new_id : ℕ) (d : Option String) → create_role new_id y.name d t ≡ err conflict
  unfolding create_role find_role_by_name
  create-taken new_id d = rw (find-name t.roles y u.0 there) refl

  -- The role that is renamed is another one, so that it has another name.
  pub update-taken :
      (role : ℕ) (d : Given String) (x : RoleRow)
      → find_role_by_id role t ≡ some x
      → role ≢ y.id
      → y.name ≢ ""
      → update_role role (record { name = given (some y.name); description = d }) t ≡ err conflict
  unfolding update_role find_role_by_id find_role_by_name check_name
  update-taken role d x known other named =
      let (mine, its) = find-Mem (λ (z : RoleRow). z.id == role) t.roles known in
      let full : str_eq y.name "" ≡ false = differ y.name "" named in
      let new : str_eq y.name x.name ≡ false = differ y.name x.name (λ e. other (
        sym ((==_iff x.id role).0 its)
        ∙ ap (λ (z : RoleRow). z.id)
            (some-injective (
              sym (find-name t.roles x u.0 mine)
              ∙ subst (λ n. find (λ (z : RoleRow). str_eq z.name n) t.roles ≡ some y) e
                  (find-name t.roles y u.0 there))))) in
      let apart : (y.id == role) ≡ false = ground (arith, other) in
      rw (known, full, new, find-name t.roles y u.0 there, apart) refl
    where
      differ : (a b : String) → a ≢ b → str_eq a b ≡ false
      differ a b ne = elim (Bool-cases (str_eq a b)) [
        | inl e ↦ absurd (ne ((eq_iff a b).0 e))
        | inr f ↦ f
      ]

-- Whatever calls were made on roles, from tables in which no two roles have the same name or the same
-- id: a new role under the name of an existing one is refused as a conflict, and so is the renaming
-- of an existing role to the name of another one, if that name is not empty.
pub taken_name_refused :
    {t t' : RoleTables} (y x : RoleRow) (new_id role : ℕ) (d : Option String) (d' : Given String)
    → AreDistinct t.roles
    → Reaches t t'
    → Memᴰ y t'.roles
    → find_role_by_id role t' ≡ some x
    → role ≢ y.id
    → y.name ≢ ""
    → (create_role new_id y.name d t' ≡ err conflict)
      × (update_role role (record { name = given (some y.name); description = d' }) t'
          ≡ err conflict)
taken_name_refused {t} {t'} y x new_id role d d' u steps there known other named =
    let still = names_stay_distinct steps u in
    (
      create-taken t' still y there new_id d,
      update-taken t' still y there role d' x known other named,
    )
