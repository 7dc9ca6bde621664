-- ===== src/Workflow/Forms/Validation.antt =====
-- Which forms `validateFormSubmission` of src/proposals/workflow.service.ts lets pass.
use crmp_backend.Base.{
  ℕ, ◌≡◌, ◌↔◌, refl, ap, ◌∙◌, sym, String, str_eq, Bool, true, false, not, Option, none, some, List,
  [], ◌∷◌, All, Json, str, lookup, mem_str, find, if◌then◌else◌, Result, ok, bad_request, require,
  or_throw-eq-ok, both_iff, require_iff,
}
use crmp_backend.Workflow.Model.{SchemaField, FormSchema, FormData, File}
use crmp_backend.Workflow.Forms.{
  is_valid_uuid, same_uuid, is_empty, uploaded_by_user, valid_uuid_text, check_file, check_field,
  check_fields, field_names, check_names, schema_fields, validate_form_submission,
}

-- The value is the id, a UUID, of a stored file that the user uploaded.
abbrev pub IsOwnFile : Option Json → ℕ → List File → Type 0
IsOwnFile value user files =
    (id : String) × (file : File) × (value ≡ some (str id))
    × (is_valid_uuid id ≡ true)
    × (find (λ f. same_uuid f.id id) files ≡ some file)
    × (uploaded_by_user file user ≡ true)

-- A missing value is that of an optional field, and the value of a file field is a file of the user.
abbrev pub IsFilled : FormData → ℕ → List File → SchemaField → Type 0
IsFilled submitted user files f =
    (is_empty (lookup f.name submitted) ≡ true → f.required ≡ false)
    × (is_empty (lookup f.name submitted) ≡ false
        → str_eq f.type "file" ≡ true
        → IsOwnFile (lookup f.name submitted) user files)

guarded_iff :
    (b : Bool) (s t : String) → ((if b then some s else none) ≡ some t) ↔ ((b ≡ true) × (s ≡ t))
guarded_iff true s t = (λ h. (refl, cc), λ k. ap some k.1)
guarded_iff false s t = (λ h. cc, λ k. cc)

same_text : (s t : String) → ◌≡◌ {A = Option Json} (some (str s)) (some (str t)) → s ≡ t
same_text s t h = cc

valid_uuid_text_iff :
    (v : Option Json) (id : String)
    → (valid_uuid_text v ≡ some id) ↔ ((v ≡ some (str id)) × (is_valid_uuid id ≡ true))
valid_uuid_text_iff none id = (λ h. cc, λ h. cc)
valid_uuid_text_iff (some (str s)) id = (
  λ h.
      let (valid, e) = (guarded_iff (is_valid_uuid s) s id).0 h in
      (ap (λ k. some (str k)) e, ap is_valid_uuid (sym e) ∙ valid),
  λ k.
      let e : s ≡ id = same_text s id k.0 in
      (guarded_iff (is_valid_uuid s) s id).1 (ap is_valid_uuid e ∙ k.1, e),
)
valid_uuid_text_iff (some _) id = (λ h. cc, λ h. cc)

check_file_iff :
    (v : Option Json) (user : ℕ) (files : List File)
    → (check_file v user files ≡ ok tt) ↔ IsOwnFile v user files
unfolding check_file
check_file_iff v user files = (
  λ h.
      let (id, text, h) = or_throw-eq-ok (valid_uuid_text v) bad_request _ h in
      let (file, found, h) = or_throw-eq-ok (find (λ f. same_uuid f.id id) files) bad_request _ h in
      let (is, valid) = (valid_uuid_text_iff v id).0 text in
      (id, file, is, valid, found, (require_iff (uploaded_by_user file user)).0 h),
  λ k.
      let (id, file, is, valid, found, mine) = k in
      rw ((valid_uuid_text_iff v id).1 (is, valid), found)
        ((require_iff (uploaded_by_user file user)).1 mine),
)

-- The checks of a field, over what they test.
cases_iff :
    (missing required is_file : Bool) (check : Result (Unit {0}))
    → ((if missing then require (not required) bad_request else if is_file then check else ok tt)
        ≡ ok tt)
      ↔ ((missing ≡ true → required ≡ false) × (missing ≡ false → is_file ≡ true → check ≡ ok tt))
cases_iff true true is_file check = (λ h. cc, λ k. absurd (no_true (k.0 refl)))
  where
    no_true : true ≡ false → ⊥
    no_true e = cc
cases_iff true false is_file check = (λ h. (λ e. refl, λ e. cc), λ k. refl)
cases_iff false required true check = (λ h. (λ e. cc, λ e t. h), λ k. k.1 refl refl)
cases_iff false required false check = (λ h. (λ e. cc, λ e t. cc), λ k. refl)

check_field_iff :
    (f : SchemaField) (submitted : FormData) (user : ℕ) (files : List File)
    → (check_field f submitted user files ≡ ok tt) ↔ IsFilled submitted user files f
unfolding check_field
check_field_iff f submitted user files =
    let value = lookup f.name submitted in
    let cases =
      cases_iff (is_empty value) f.required (str_eq f.type "file") (check_file value user files) in
    let own = check_file_iff value user files in
    (
      λ h. ((cases.0 h).0, λ present is_file. own.0 ((cases.0 h).1 present is_file)),
      λ k. cases.1 (k.0, λ present is_file. own.1 (k.1 present is_file)),
    )

check_fields_iff :
    (fs : List SchemaField) (submitted : FormData) (user : ℕ) (files : List File)
    → (check_fields fs submitted user files ≡ ok tt) ↔ All (IsFilled submitted user files) fs
unfolding check_fields
check_fields_iff [] submitted user files = (λ h. tt, λ h. refl)
check_fields_iff (f ∷ fs) submitted user files =
    let one = check_field_iff f submitted user files in
    let rest = check_fields_iff fs submitted user files in
    let both =
      both_iff (check_field f submitted user files) (check_fields fs submitted user files) in
    (λ h. (one.0 (both.0 h).0, rest.0 (both.0 h).1), λ k. both.1 (one.1 k.0, rest.1 k.1))

check_names_iff :
    (submitted : FormData) (names : List String)
    → (check_names submitted names ≡ ok tt) ↔ All (λ e. mem_str e.0 names ≡ true) submitted
unfolding check_names
check_names_iff [] names = (λ h. tt, λ h. refl)
check_names_iff ((k, v) ∷ rest) names =
    let one = require_iff (mem_str k names) in
    let more = check_names_iff rest names in
    let both = both_iff (require (mem_str k names) bad_request) (check_names rest names) in
    (λ h. (one.0 (both.0 h).0, more.0 (both.0 h).1), λ h. both.1 (one.1 h.0, more.1 h.1))

-- A form passes against a schema that has fields exactly when each submitted key is the name of a
-- field, each required field has a value, and the value of each file field that has one is the id of a
-- file that the user uploaded.
pub validate_form_submission-eq-ok_iff :
    (submitted : FormData) (schema : Option FormSchema) (fs : List SchemaField) (user : ℕ)
    (files : List File)
    → schema_fields schema ≡ some fs
    → (validate_form_submission submitted schema user files ≡ ok tt) ↔ (
        All (λ e. mem_str e.0 (field_names fs) ≡ true) submitted
        × All (IsFilled submitted user files) fs)
unfolding validate_form_submission
validate_form_submission-eq-ok_iff submitted schema fs user files has =
    let names = check_names_iff submitted (field_names fs) in
    let fields = check_fields_iff fs submitted user files in
    let both =
      both_iff (check_names submitted (field_names fs)) (check_fields fs submitted user files) in
    rw has (
      (λ h. (names.0 (both.0 h).0, fields.0 (both.0 h).1), λ k. both.1 (names.1 k.0, fields.1 k.1)))
