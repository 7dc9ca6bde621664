-- ===== src/Documents/Validator/Laws.antt =====
-- Which documents `validateDocument` of src/documents/tiptap-validator.service.ts lets pass.
use crmp_backend.Base.{
  ◌≡◌, ◌↔◌, refl, ◌∙◌, ap, subst, Bool, true, false, not, some, mem_str, Json, str, is_truthy, All,
  All-append, All-split, Result, ok, err, bad_request, require, ◌>>=◌, >>=-eq-ok, require-eq-ok,
  or_throw-eq-ok, null, both_iff, require_iff,
}
use crmp_backend.Workflow.Conditions.{Numbers}
use crmp_backend.Documents.Node.{
  NodeData, Node, node, scalar, Content, missing, other, children, Nodes, all_nodes, nodes_in,
  nodes_of,
}
use crmp_backend.Documents.Node
use crmp_backend.Documents.Validator.Shapes.{NodeKind, node_name, HasShape, HasMarks}
use crmp_backend.Documents.Validator.Checks.{allowed_node, node_allowed}
use crmp_backend.Documents.Validator.SchemaChecks.{node_schema_iff}
use crmp_backend.Documents.Validator.MarkChecks.{text_of_iff, check_marks_iff}
use crmp_backend.Documents.Validator.{
  allowed_nodes, text_of, check_node, check_marks, node_schema, validate_node, validate_content,
  validate_nodes,
}

-- A content that is not an array counts as false.
abbrev pub IsClean : Content → Type 0
IsClean missing = Unit
IsClean (other v) = is_truthy (some v) ≡ false
IsClean (children ns) = Unit

not-false_iff : (b : Bool) → (not b ≡ true) ↔ (b ≡ false)
not-false_iff true = (λ h. cc, λ h. cc)
not-false_iff false = (λ h. refl, λ h. refl)

abbrev pub IsDoc : Node → Type 0
IsDoc (scalar v) = ⊥
IsDoc (node d c) = d.type ≡ some (str "doc")

module _ (js : Numbers) where
  -- A node on its own: its type is the name of one of the kinds, it has the shape of its kind, and if
  -- it is a text then its marks are marks.
  abbrev pub IsWellFormed : Node → Type 0
  IsWellFormed (scalar v) = ⊥
  IsWellFormed (node d c) =
      (k : NodeKind) × (d.type ≡ some (str (node_name k)))
      × HasShape js k d c
      × HasMarks k d.marks
      × IsClean c

  shaped_iff : (r : Result Bool) → ((r >>= λ b. require b bad_request) ≡ ok tt) ↔ (r ≡ ok true)
  shaped_iff (ok true) = (λ h. refl, λ h. refl)
  shaped_iff (ok false) = (λ h. cc, λ h. cc)
  shaped_iff (err e) = (λ h. cc, λ h. cc)

  check_node-eq-ok :
      (d : NodeData) (c : Content)
      → (check_node js (node d c) ≡ ok tt)
      → IsClean c
      → IsWellFormed (node d c)
  unfolding check_node
  check_node-eq-ok d c h clean =
      let (kind, is, h) = or_throw-eq-ok (text_of d.type) bad_request _ h in
      let (known, h) = require-eq-ok (mem_str kind allowed_nodes) bad_request _ h in
      let (shaped, has, h) = >>=-eq-ok (node_schema js kind d c) _ h in
      let (right, h) = require-eq-ok shaped bad_request _ h in
      let (k, same) = allowed_node kind known in
      (
        k,
        (text_of_iff d.type kind).0 is ∙ ap (λ t. some (str t)) same,
        (node_schema_iff js k d c).0
            (subst (λ t. node_schema js t d c ≡ ok true) same (has ∙ ap ok right)),
        (check_marks_iff js k d.marks).0 (subst (λ t. check_marks js t d.marks ≡ ok tt) same h),
        clean,
      )

  check_node-of_IsWellFormed :
      (d : NodeData) (c : Content)
      → IsWellFormed (node d c)
      → (check_node js (node d c) ≡ ok tt) × IsClean c
  unfolding check_node
  check_node-of_IsWellFormed d c (k, is, shape, marks, clean) = (
    rw ((text_of_iff d.type (node_name k)).1 is, node_allowed k, (node_schema_iff js k d c).1 shape)
        ((check_marks_iff js k d.marks).1 marks),
    clean,
  )

  scalar_fails : (v : Json) → check_node js (scalar v) ≡ ok tt → ⊥
  unfolding check_node
  scalar_fails null h = cc
  scalar_fails _ h = cc

  mutual
    unfolding validate_node all_nodes

    validate_node_iff : (n : Node) → (validate_node js n ≡ ok tt) ↔ All IsWellFormed (all_nodes n)
    validate_node_iff (scalar v) = (λ h. absurd (scalar_fails v h), λ k. absurd k.0)
    validate_node_iff (node d c) =
        let both = both_iff (check_node js (node d c)) (validate_content js c) in
        let content = validate_content_iff c in
        (
          λ h.
              let (clean, under) = content.0 (both.0 h).1 in
              (check_node-eq-ok d c (both.0 h).0 clean, under),
          λ k.
              let (checked, clean) = check_node-of_IsWellFormed d c k.0 in
              both.1 (checked, content.1 (clean, k.1)),
        )

    validate_content_iff :
        (c : Content)
        → (validate_content js c ≡ ok tt) ↔ (IsClean c × All IsWellFormed (nodes_in c))
    validate_content_iff missing = (λ h. (tt, tt), λ h. refl)
    validate_content_iff (other v) =
        let test = require_iff (not (is_truthy (some v))) in
        let flip = not-false_iff (is_truthy (some v)) in
        (λ h. (flip.0 (test.0 h), tt), λ k. test.1 (flip.1 k.0))
    validate_content_iff (children ns) =
        let all = validate_nodes_iff ns in (λ h. (tt, all.0 h), λ k. all.1 k.1)

    validate_nodes_iff :
        (ns : Nodes) → (validate_nodes js ns ≡ ok tt) ↔ All IsWellFormed (nodes_of ns)
    validate_nodes_iff Node.nil = (λ h. tt, λ h. refl)
    validate_nodes_iff (Node.cons n ns) =
        let both = both_iff (validate_node js n) (validate_nodes js ns) in
        let first = validate_node_iff n in
        let rest = validate_nodes_iff ns in
        (
          λ h.
              All-append IsWellFormed (all_nodes n) (nodes_of ns) (first.0 (both.0 h).0)
                (rest.0 (both.0 h).1),
          λ k.
              let (one, more) = All-split IsWellFormed (all_nodes n) (nodes_of ns) k in
              both.1 (first.1 one, rest.1 more),
        )
