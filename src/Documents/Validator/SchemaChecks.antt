-- ===== src/Documents/Validator/SchemaChecks.antt =====
-- The schemas of nodes of src/documents/tiptap-validator.service.ts decide the shapes.
use crmp_backend.Base.{
  ℕ, ◌≤◌, ◌≡◌, ◌↔◌, refl, ap, Bool, true, ◌&&◌, ◌||◌, Option, none, some, [], ◌∷◌, inl, inr,
  and_iff, Json, number, attr, ok, ok-injective, arith, subst,
}
use crmp_backend.Workflow.Conditions.{Numbers, compare_finite, gte, lte}
use crmp_backend.Documents.Node.{NodeData, Content}
use crmp_backend.Documents.Validator.{
  is_text, is_text_or_undefined, has_no_content, is_array, cell_content, is_level, is_span,
  node_schema,
}
use crmp_backend.Documents.Validator.Shapes.{
  NodeKind, doc, paragraph, heading, text, blockquote, bullet_list, ordered_list, list_item,
  code_block, hard_break, horizontal_rule, image, image_resize, resizable_image, table, table_row,
  table_header, table_cell, task_list, task_item, node_name, HasCell, AtLeast, IsLevel, IsSpan,
  HasShape,
}
use crmp_backend.Documents.Validator.Checks.{
  is_text_iff, is_text_or_undefined_iff, is_array_iff, optional_array_iff, has_children_iff,
  cell_content_iff, rows_of_iff,
}

pair_iff {ℓ κ} :
    {P : Type ℓ} {Q : Type κ} (a b : Bool)
    → ((a ≡ true) ↔ P)
    → ((b ≡ true) ↔ Q)
    → ((a && b) ≡ true) ↔ (P × Q)
pair_iff a b p q =
    let both = and_iff a b in
    (λ h. (p.0 (both.0 h).0, q.0 (both.0 h).1), λ k. both.1 (p.1 k.0, q.1 k.1))

-- Comparisons of finite numbers.
at_least_iff :
    (x y : Option ℕ)
    → (compare_finite gte x y ≡ true) ↔ ((a b : ℕ) × (y ≡ some a) × (x ≡ some b) × (a ≤ b))
at_least_iff none y = (λ h. cc, λ k. cc (k.3))
at_least_iff (some x) none = (λ h. cc, λ k. cc (k.2))
at_least_iff (some x) (some y) = (
  λ h. (y, x, refl, refl, ground arith),
  λ (a, b, e, e', le).
      let low : y ≡ a = cc (e) in
      let high : x ≡ b = cc (e') in
      let same : y ≤ x = omega (arith, low, high, le) in ground (arith, same),
)

at_most_iff :
    (x y : Option ℕ)
    → (compare_finite lte x y ≡ true) ↔ ((a b : ℕ) × (x ≡ some a) × (y ≡ some b) × (a ≤ b))
at_most_iff none y = (λ h. cc, λ k. cc (k.2))
at_most_iff (some x) none = (λ h. cc, λ k. cc (k.3))
at_most_iff (some x) (some y) = (
  λ h. (x, y, refl, refl, ground arith),
  λ (a, b, e, e', le).
      let low : x ≡ a = cc (e) in
      let high : y ≡ b = cc (e') in
      let same : x ≤ y = omega (arith, low, high, le) in ground (arith, same),
)

decides {ℓ} : {P : Type ℓ} (b : Bool) → ((b ≡ true) ↔ P) → (ok b ≡ ok true) ↔ P
decides b p = (λ h. p.0 (ok-injective h), λ k. ap ok (p.1 k))

module _ (js : Numbers) where
  is_level_iff : (v : Option Json) → (is_level js v ≡ true) ↔ IsLevel js v
  is_level_iff none = (λ h. cc, λ k. cc (k.1))
  is_level_iff (some (number s)) =
      let both =
        and_iff (compare_finite gte (js.rank s) (js.rank "1"))
          (compare_finite lte (js.rank s) (js.rank "6")) in
      let low = at_least_iff (js.rank s) (js.rank "1") in
      let high = at_most_iff (js.rank s) (js.rank "6") in
      (
        λ h. (s, refl, low.0 (both.0 h).0, high.0 (both.0 h).1),
        λ (t, e, from, to).
            let same : t ≡ s = cc (e) in
            both.1 (
              low.1 (subst (AtLeast js "1") same from),
              high.1 (subst (λ u. AtLeast js u "6") same to),
            ),
      )
  is_level_iff (some _) = (λ h. cc, λ k. cc (k.1))

  is_span_iff : (v : Option Json) → (is_span js v ≡ true) ↔ IsSpan js v
  is_span_iff none = (λ h. inl refl, λ k. refl)
  is_span_iff (some (number s)) =
      let low = at_least_iff (js.rank s) (js.rank "1") in
      (
        λ h. inr (s, refl, low.0 h),
        λ k. elim k [
          | inl e ↦ cc
          | inr t ↦ let same : t.0 ≡ s = cc (t.1) in low.1 (subst (AtLeast js "1") same t.2)
        ],
      )
  is_span_iff (some _) = (λ h. cc, λ k. elim k [ inl e ↦ cc | inr t ↦ cc (t.1) ])

  cell_iff :
      (d : NodeData) (c : Content)
      → (ok (
            is_span js (attr "colspan" d.attrs)
            && is_span js (attr "rowspan" d.attrs)
            && cell_content c)
          ≡ ok true)
        ↔ (IsSpan js (attr "colspan" d.attrs) × IsSpan js (attr "rowspan" d.attrs) × HasCell c)
  cell_iff d c =
      let test = decides _ (
        pair_iff (is_span js (attr "colspan" d.attrs) && is_span js (attr "rowspan" d.attrs))
          (cell_content c)
          (pair_iff (is_span js (attr "colspan" d.attrs)) (is_span js (attr "rowspan" d.attrs))
            (is_span_iff (attr "colspan" d.attrs)) (is_span_iff (attr "rowspan" d.attrs)))
          (cell_content_iff c)) in
      (λ h. let ((a, b), e) = test.0 h in (a, b, e), λ (a, b, e). test.1 ((a, b), e))

  pub node_schema_iff :
      (k : NodeKind) (d : NodeData) (c : Content)
      → (node_schema js (node_name k) d c ≡ ok true) ↔ HasShape js k d c
  unfolding node_schema
  node_schema_iff doc d c = decides _ (has_children_iff c)
  node_schema_iff paragraph d c = decides _ (optional_array_iff c)
  node_schema_iff heading d c = decides _ (
      pair_iff (is_level js (attr "level" d.attrs)) (has_no_content c || is_array c)
        (is_level_iff (attr "level" d.attrs)) (optional_array_iff c))
  node_schema_iff text d c = decides _ (is_text_iff d.text)
  node_schema_iff blockquote d c = decides _ (is_array_iff c)
  node_schema_iff bullet_list d c = decides _ (is_array_iff c)
  node_schema_iff ordered_list d c = decides _ (is_array_iff c)
  node_schema_iff list_item d c = decides _ (is_array_iff c)
  node_schema_iff code_block d c = decides _ (optional_array_iff c)
  node_schema_iff hard_break d c = (λ h. tt, λ k. refl)
  node_schema_iff horizontal_rule d c = (λ h. tt, λ k. refl)
  node_schema_iff image d c = decides _ (
      pair_iff (is_text (attr "src" d.attrs)) (is_text_or_undefined (attr "alt" d.attrs))
        (is_text_iff (attr "src" d.attrs)) (is_text_or_undefined_iff (attr "alt" d.attrs)))
  node_schema_iff image_resize d c = decides _ (is_text_iff (attr "src" d.attrs))
  node_schema_iff resizable_image d c = (λ h. tt, λ k. refl)
  node_schema_iff table d c = rows_of_iff (table_row ∷ []) c
  node_schema_iff table_row d c = rows_of_iff (table_header ∷ table_cell ∷ []) c
  node_schema_iff table_header d c = cell_iff d c
  node_schema_iff table_cell d c = cell_iff d c
  node_schema_iff task_list d c = decides _ (is_array_iff c)
  node_schema_iff task_item d c = decides _ (is_array_iff c)
