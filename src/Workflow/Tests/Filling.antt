-- ===== src/Workflow/Tests/Filling.antt =====
-- A form with a text and a file, and the theorem about forms at it.
use crmp_backend.Base.{
  ◌≡◌, ◌↔◌, refl, String, true, false, Option, none, some, List, [], ◌∷◌, All, str, mem_str, ok,
}
use crmp_backend.Workflow.Model.{SchemaField, FormSchema, FormData, File, attached}
use crmp_backend.Workflow.Forms.{
  validate_form_submission, check_names, check_fields, check_field, is_valid_uuid, same_uuid,
  field_names,
}
use crmp_backend.Workflow.Forms.Validation.{IsFilled, validate_form_submission-eq-ok_iff}

abbrev fields : List SchemaField
fields =
    record { name = "score"; type = "text"; required = true }
    ∷ record { name = "report"; type = "file"; required = false }
    ∷ []

abbrev schema : Option FormSchema
schema = some (record { fields = some fields })

abbrev report : String
report = "123e4567-e89b-12d3-a456-426614174000"

abbrev submitted : FormData
submitted = ("score", str "8") ∷ ("report", str report) ∷ []

abbrev files : List File
files =
    record {
      id = report;
      uploaded_by = some 3;
      resource_type = none;
      resource_id = none;
      purpose = none;
      status = attached;
    }
    ∷ []

passes : validate_form_submission submitted schema 3 files ≡ ok tt
unfolding validate_form_submission check_names check_fields check_field is_valid_uuid same_uuid
passes = refl

validate_form_submission-eq-ok_iff_example :
    (validate_form_submission submitted schema 3 files ≡ ok tt) ↔ (
      All (λ e. mem_str e.0 (field_names fields) ≡ true) submitted
      × All (IsFilled submitted 3 files) fields)
validate_form_submission-eq-ok_iff_example =
    validate_form_submission-eq-ok_iff submitted schema fields 3 files refl
