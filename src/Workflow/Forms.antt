-- ===== src/Workflow/Forms.antt =====
-- Form steps: `validateFormSubmission`, `isValidUUID` and the attachment of files in
-- `handleFormStep` of src/proposals/workflow.service.ts.
pub mod Validation
use crmp_backend.Base.{
  codes_eq, ℕ, zero, suc, ◌+◌, String, str_eq, Bool, true, false, not, ◌&&◌, ◌||◌, Option, none,
  some, List, [], ◌∷◌, map, Json, null, str, lookup, mem_str, find, update_where, leb, ◌==◌,
  if◌then◌else◌, Result, ok, bad_request, require, or_throw, ◌>>=◌, ◌>>◌, codes,
}
use crmp_backend.Workflow.Model.{SchemaField, FormSchema, FormData, File, attached}

abbrev between : ℕ → ℕ → ℕ → Bool
between lo hi c = leb lo c && leb c hi

abbrev lower : ℕ → ℕ
lower c = if between b'A' b'Z' c then c + 32 else c

-- `[0-9a-f]` under the flag `i`
abbrev is_hex : ℕ → Bool
is_hex c = between b'0' b'9' c || between b'a' b'f' (lower c)

-- `n` hexadecimal digits, then what `rest` accepts
abbrev hex_then : ℕ → (List ℕ → Bool) → List ℕ → Bool
hex_then zero rest cs = rest cs
hex_then (suc n) rest [] = false
hex_then (suc n) rest (c ∷ cs) = is_hex c && hex_then n rest cs

abbrev dash_then : (List ℕ → Bool) → List ℕ → Bool
dash_then rest [] = false
dash_then rest (c ∷ cs) = c == b'-' && rest cs

abbrev at_end : List ℕ → Bool
at_end [] = true
at_end (_ ∷ _) = false

unfoldable pub is_valid_uuid : String → Bool
is_valid_uuid s =
    hex_then 8
      (dash_then (
        hex_then 4
          (dash_then (hex_then 4 (dash_then (hex_then 4 (dash_then (hex_then 12 at_end))))))))
      (codes s)

-- The database compares UUIDs whatever their letters' case.
unfoldable pub same_uuid : String → String → Bool
same_uuid a b = codes_eq (map lower (codes a)) (map lower (codes b))

-- `value === undefined || value === null || value === ''`
abbrev pub is_empty : Option Json → Bool
is_empty none = true
is_empty (some null) = true
is_empty (some (str s)) = str_eq s ""
is_empty (some _) = false

abbrev pub uploaded_by_user : File → ℕ → Bool
uploaded_by_user f user = elim f.uploaded_by [ none ↦ false | some u ↦ u == user ]

abbrev pub text_value : Option Json → Option String
text_value (some (str s)) = some s
text_value _ = none

abbrev pub valid_uuid_text : Option Json → Option String
valid_uuid_text v = elim (text_value v) [
  | none ↦ none
  | some s ↦ if is_valid_uuid s then some s else none
]

-- The checks on the value of a field of type `file`.
unfoldable pub check_file : Option Json → ℕ → List File → Result (Unit {0})
unfolding find
check_file value user files = do
  id ← or_throw (valid_uuid_text value) bad_request
  file ← or_throw (find (λ f. same_uuid f.id id) files) bad_request
  require (uploaded_by_user file user) bad_request

-- One round of the loop over the schema's fields.
unfoldable pub check_field : SchemaField → FormData → ℕ → List File → Result (Unit {0})
unfolding check_file lookup
check_field f submitted user files =
    let value = lookup f.name submitted in
    if is_empty value
    then require (not f.required) bad_request
    else if str_eq f.type "file"
    then check_file value user files
    else ok tt

unfoldable pub check_fields : List SchemaField → FormData → ℕ → List File → Result (Unit {0})
check_fields [] submitted user files = ok tt
check_fields (f ∷ fs) submitted user files =
    check_field f submitted user files >> check_fields fs submitted user files

abbrev pub field_names : List SchemaField → List String
field_names [] = []
field_names (f ∷ fs) = f.name ∷ field_names fs

-- The loop over the submitted keys.
unfoldable pub check_names : FormData → List String → Result (Unit {0})
check_names [] names = ok tt
check_names ((k, _) ∷ rest) names = require (mem_str k names) bad_request >> check_names rest names

abbrev pub schema_fields : Option FormSchema → Option (List SchemaField)
schema_fields none = none
schema_fields (some s) = s.fields

unfoldable pub validate_form_submission :
    FormData → Option FormSchema → ℕ → List File → Result (Unit {0})
validate_form_submission submitted form_schema user files = do
  fs ← or_throw (schema_fields form_schema) bad_request
  check_names submitted (field_names fs)
  check_fields fs submitted user files

abbrev attach : ℕ → String → File → File
attach step name f = record f {
  resource_type = some "PROPOSAL_APPROVAL_STEP";
  resource_id = some step;
  purpose = some name;
  status = attached;
}

-- `fileId && typeof fileId === 'string'`
abbrev file_reference : Option Json → Option String
file_reference v = elim (text_value v) [
  | none ↦ none
  | some s ↦ if str_eq s "" then none else some s
]

-- One round of the loop over the schema's file fields.
unfoldable pub attach_field : SchemaField → FormData → ℕ → List File → List File
unfolding update_where lookup
attach_field f submitted step files =
    if str_eq f.type "file"
    then elim (file_reference (lookup f.name submitted)) [
      | none ↦ files
      | some id ↦ update_where (λ g. same_uuid g.id id) (attach step f.name) files
    ]
    else files

unfoldable pub attach_files : List SchemaField → FormData → ℕ → List File → List File
attach_files [] submitted step files = files
attach_files (f ∷ fs) submitted step files =
    attach_files fs submitted step (attach_field f submitted step files)
