-- ===== src/Documents/Validator/MarkChecks.antt =====
-- The tests of src/documents/tiptap-validator.service.ts on marks decide their shapes.
use crmp_backend.Base.{
  ◌≡◌, ◌↔◌, ◌∙◌, refl, ap, String, true, Option, none, some, [], ◌∷◌, mem_str, inl, inr, Bool-cases,
  Json, null, bool, number, str, array, object, Items, nil, cons, fields, lookup, is_truthy, ok,
  bad_request, or_throw-eq-ok, require-eq-ok, require_iff, both_iff, subst, some-injective,
}
use crmp_backend.Workflow.Conditions.{Numbers}
use crmp_backend.Documents.Validator.{
  allowed_marks, text_of, mark_schema, validate_mark, validate_mark_list, validate_marks,
  check_marks,
}
use crmp_backend.Documents.Validator.Shapes.{
  NodeKind, text, node_name, MarkName, bold, italic, strike, code, link, highlight, underline,
  subscript, superscript, text_style, mark_name, HasMarkAttrs, IsMark, EachMark, HasMarks,
}
use crmp_backend.Documents.Validator.Checks.{named_iff, is_text_iff}

allowed_mark : (s : String) → mem_str s allowed_marks ≡ true → (k : MarkName) × (s ≡ mark_name k)
allowed_mark s h =
    let (k, _, same) =
      (named_iff mark_name
          (bold ∷ italic ∷ strike ∷ code ∷ link ∷ highlight ∷ underline ∷ subscript ∷ superscript
            ∷ text_style ∷ [])
          s).0
        h in
    (k, same)

mark_allowed : (k : MarkName) → mem_str (mark_name k) allowed_marks ≡ true
mark_allowed bold = refl
mark_allowed _ = refl

pub text_of_iff : (v : Option Json) (s : String) → (text_of v ≡ some s) ↔ (v ≡ some (str s))
text_of_iff none s = (λ h. cc, λ h. cc)
text_of_iff (some (str t)) s = (λ h. ap (λ k. some (str k)) (some-injective h), λ h. ap text_of h)
text_of_iff (some _) s = (λ h. cc, λ h. cc)

module _ (js : Numbers) where
  mark_schema_iff :
      (k : MarkName) (attrs : Option Json)
      → (mark_schema js (mark_name k) attrs ≡ true) ↔ HasMarkAttrs k attrs
  unfolding mark_schema
  mark_schema_iff link attrs = is_text_iff _
  mark_schema_iff _ attrs = (λ h. tt, λ h. refl)

  validate_mark_iff : (m : Json) → (validate_mark js m ≡ ok tt) ↔ IsMark m
  unfolding validate_mark
  validate_mark_iff null = (λ h. cc, λ k. cc (k.1))
  validate_mark_iff (object fs) = (
    λ h.
        let (s, kind, h) = or_throw-eq-ok (text_of (lookup "type" (fields fs))) bad_request _ h in
        let (known, h) = require-eq-ok (mem_str s allowed_marks) bad_request _ h in
        let (k, same) = allowed_mark s known in
        let shaped = (require_iff (mark_schema js s (lookup "attrs" (fields fs)))).0 h in
        (
          fs,
          refl,
          k,
          (text_of_iff (lookup "type" (fields fs)) s).0 kind ∙ ap (λ t. some (str t)) same,
          (mark_schema_iff k (lookup "attrs" (fields fs))).0
              (subst (λ t. mark_schema js t (lookup "attrs" (fields fs)) ≡ true) same shaped),
        ),
    λ (gs, e, k, kind, attrs).
        let same : gs ≡ fs = cc (e) in
        let here = subst (λ f. lookup "type" (fields f) ≡ some (str (mark_name k))) same kind in
        let shaped =
          (mark_schema_iff k (lookup "attrs" (fields fs))).1
            (subst (λ f. HasMarkAttrs k (lookup "attrs" (fields f))) same attrs) in
        rw (here, mark_allowed k, shaped) refl,
  )
  validate_mark_iff (bool b) = (λ h. cc, λ k. cc (k.1))
  validate_mark_iff (number b) = (λ h. cc, λ k. cc (k.1))
  validate_mark_iff (str b) = (λ h. cc, λ k. cc (k.1))
  validate_mark_iff (array b) = (λ h. cc, λ k. cc (k.1))

  validate_mark_list_iff : (ms : Items) → (validate_mark_list js ms ≡ ok tt) ↔ EachMark ms
  unfolding validate_mark_list
  validate_mark_list_iff nil = (λ h. tt, λ k. refl)
  validate_mark_list_iff (cons m ms) =
      let both = both_iff (validate_mark js m) (validate_mark_list js ms) in
      let one = validate_mark_iff m in
      let more = validate_mark_list_iff ms in
      (λ h. (one.0 (both.0 h).0, more.0 (both.0 h).1), λ k. both.1 (one.1 k.0, more.1 k.1))

  validate_marks_iff :
      (v : Option Json)
      → (validate_marks js v ≡ ok tt) ↔ ((ms : Items) × (v ≡ some (array ms)) × EachMark ms)
  unfolding validate_marks
  validate_marks_iff none = (λ h. cc, λ k. cc (k.1))
  validate_marks_iff (some (array ms)) =
      let all = validate_mark_list_iff ms in
      (
        λ h. (ms, refl, all.0 h),
        λ k. let same : k.0 ≡ ms = cc (k.1) in all.1 (subst EachMark same k.2),
      )
  validate_marks_iff (some _) = (λ h. cc, λ k. cc (k.1))

  pub check_marks_iff :
      (k : NodeKind) (v : Option Json) → (check_marks js (node_name k) v ≡ ok tt) ↔ HasMarks k v
  unfolding check_marks
  check_marks_iff text v = elim (Bool-cases (is_truthy v)) [
    | inl e ↦
        let all = validate_marks_iff v in
        (λ h. inr (all.0 (rw e at h)), λ k. elim k [ inl f ↦ cc | inr m ↦ rw e (all.1 m) ])
    | inr f ↦ (λ h. inl f, λ k. rw f refl)
  ]
  check_marks_iff _ v = (λ h. tt, λ k. refl)
