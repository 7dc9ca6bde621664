-- ===== src/Documents/Validator/Checks.antt =====
-- The tests of src/documents/tiptap-validator.service.ts decide the shapes.
use crmp_backend.Base.{
  ◌≡◌, ◌↔◌, ◌∙◌, refl, ap, String, str_eq, eq_iff, true, ◌||◌, Option, none, some, List, [], ◌∷◌,
  map, mem_str, ◌⊎◌, inl, inr, Memᴰ, Bool-cases, and_iff, or_iff, Json, null, bool, number, str,
  array, object, ok, ok-injective, subst,
}
use mathlib.Core.List.Memᴰ
use crmp_backend.Documents.Node.{
  NodeData, Node, node, scalar, Content, missing, other, children, Nodes, type_of,
}
use crmp_backend.Documents.Node
use crmp_backend.Documents.Validator.{
  allowed_nodes, is_text, is_text_or_undefined, has_no_content, is_array, has_children, is_object,
  every_object, is_one_of, every_type, rows_of, cell_content,
}
use crmp_backend.Documents.Validator.Shapes.{
  NodeKind, doc, paragraph, heading, text, blockquote, bullet_list, ordered_list, list_item,
  code_block, hard_break, horizontal_rule, image, image_resize, resizable_image, table, table_row,
  table_header, table_cell, task_list, task_item, node_name, IsTextValue, IsArray, IsArrayOrMissing,
  IsObject, HasType, EachNode, HasNodes, HasCell,
}

-- A name of a list is the name of one of its kinds.
pub named_iff {ℓ} :
    {K : Type ℓ} (name : K → String) (ks : List K) (s : String)
    → (mem_str s (map name ks) ≡ true) ↔ ((k : K) × Memᴰ k ks × (s ≡ name k))
named_iff name [] s = (λ h. cc, λ k. elim k.1 [ ])
named_iff name (k ∷ ks) s =
    let test = or_iff (str_eq s (name k)) (mem_str s (map name ks)) in
    let more = named_iff name ks s in
    (
      λ h. elim (test.0 h) [
        | inl e ↦ (k, Memᴰ.head refl, (eq_iff s (name k)).0 e)
        | inr m ↦ let (j, there, same) = more.0 m in (j, Memᴰ.tail there, same)
      ],
      λ (j, there, same). elim (Memᴰ.cases_cons there) [
        | inl e ↦ test.1 (inl ((eq_iff s (name k)).1 (same ∙ ap name e)))
        | inr n ↦ test.1 (inr (more.1 (j, n, same)))
      ],
    )

pub allowed_node :
    (s : String) → mem_str s allowed_nodes ≡ true → (k : NodeKind) × (s ≡ node_name k)
allowed_node s h =
    let (k, _, same) =
      (named_iff node_name
          (doc ∷ paragraph ∷ heading ∷ text ∷ blockquote ∷ bullet_list ∷ ordered_list ∷ list_item
            ∷ code_block ∷ hard_break ∷ horizontal_rule ∷ image ∷ image_resize ∷ resizable_image
            ∷ table ∷ table_row ∷ table_header ∷ table_cell ∷ task_list ∷ task_item ∷ [])
          s).0
        h in
    (k, same)

pub node_allowed : (k : NodeKind) → mem_str (node_name k) allowed_nodes ≡ true
node_allowed doc = refl
node_allowed _ = refl

pub is_text_iff : (v : Option Json) → (is_text v ≡ true) ↔ IsTextValue v
is_text_iff (some (str s)) = (λ h. (s, refl), λ k. refl)
is_text_iff none = (λ h. cc, λ k. cc (k.1))
is_text_iff (some _) = (λ h. cc, λ k. cc (k.1))

pub is_text_or_undefined_iff :
    (v : Option Json) → (is_text_or_undefined v ≡ true) ↔ ((v ≡ none) ⊎ IsTextValue v)
is_text_or_undefined_iff none = (λ h. inl refl, λ k. refl)
is_text_or_undefined_iff (some v) =
    let own = is_text_iff (some v) in
    (λ h. inr (own.0 h), λ k. elim k [ inl e ↦ cc | inr t ↦ own.1 t ])

pub is_array_iff : (c : Content) → (is_array c ≡ true) ↔ IsArray c
is_array_iff (children ns) = (λ h. (ns, refl), λ k. refl)
is_array_iff missing = (λ h. cc, λ k. cc (k.1))
is_array_iff (other v) = (λ h. cc, λ k. cc (k.1))

pub optional_array_iff :
    (c : Content) → ((has_no_content c || is_array c) ≡ true) ↔ IsArrayOrMissing c
optional_array_iff missing = (λ h. inl refl, λ k. refl)
optional_array_iff (children ns) = (λ h. inr (ns, refl), λ k. refl)
optional_array_iff (other v) = (λ h. cc, λ k. elim k [ inl e ↦ cc | inr t ↦ cc (t.1) ])

pub has_children_iff :
    (c : Content)
    → (has_children c ≡ true) ↔ ((n : Node) × (ns : Nodes) × (c ≡ children (Node.cons n ns)))
has_children_iff missing = (λ h. cc, λ k. cc (k.2))
has_children_iff (other v) = (λ h. cc, λ k. cc (k.2))
has_children_iff (children Node.nil) = (λ h. cc, λ k. cc (k.2))
has_children_iff (children (Node.cons n ns)) = (λ h. (n, ns, refl), λ k. refl)

is_object_iff : (n : Node) → (is_object n ≡ true) ↔ IsObject n
is_object_iff (node d c) = (λ h. tt, λ k. refl)
is_object_iff (scalar null) = (λ h. tt, λ k. refl)
is_object_iff (scalar (array is)) = (λ h. tt, λ k. refl)
is_object_iff (scalar (object fs)) = (λ h. tt, λ k. refl)
is_object_iff (scalar (bool b)) = (λ h. cc, λ k. absurd k)
is_object_iff (scalar (number s)) = (λ h. cc, λ k. absurd k)
is_object_iff (scalar (str s)) = (λ h. cc, λ k. absurd k)

every_object_iff : (ns : Nodes) → (every_object ns ≡ true) ↔ EachNode IsObject ns
unfolding every_object
every_object_iff Node.nil = (λ h. tt, λ k. refl)
every_object_iff (Node.cons n ns) =
    let both = and_iff (is_object n) (every_object ns) in
    let one = is_object_iff n in
    let more = every_object_iff ns in
    (λ h. (one.0 (both.0 h).0, more.0 (both.0 h).1), λ k. both.1 (one.1 k.0, more.1 k.1))

pub cell_content_iff : (c : Content) → (cell_content c ≡ true) ↔ HasCell c
cell_content_iff missing = (λ h. inl refl, λ k. refl)
cell_content_iff (other v) = (λ h. cc, λ k. elim k [ inl e ↦ cc | inr t ↦ cc (t.1) ])
cell_content_iff (children ns) =
    let all = every_object_iff ns in
    (
      λ h. inr (ns, refl, all.0 h),
      λ k. elim k [
        | inl e ↦ cc
        | inr t ↦ let same : t.0 ≡ ns = cc (t.1) in all.1 (subst (EachNode IsObject) same t.2)
      ],
    )

-- One round of `every`.
typed_iff :
    (ks : List NodeKind) (v : Option Json)
    → (is_one_of (map node_name ks) v ≡ true)
      ↔ ((k : NodeKind) × Memᴰ k ks × (v ≡ some (str (node_name k))))
typed_iff ks none = (λ h. cc, λ k. cc (k.2))
typed_iff ks (some (str s)) =
    let test = named_iff node_name ks s in
    (
      λ h. let (k, there, same) = test.0 h in (k, there, ap (λ t. some (str t)) same),
      λ (k, there, e). let same : s ≡ node_name k = cc (e) in test.1 (k, there, same),
    )
typed_iff ks (some _) = (λ h. cc, λ k. cc (k.2))

every_type_iff :
    (ks : List NodeKind) (ns : Nodes)
    → (every_type (map node_name ks) ns ≡ ok true) ↔ EachNode (HasType ks) ns
unfolding every_type
every_type_iff ks Node.nil = (λ h. tt, λ k. refl)
every_type_iff ks (Node.cons (scalar null) ns) = (λ h. cc, λ k. absurd k.0)
every_type_iff ks (Node.cons (scalar _) ns) = (λ h. cc (ok-injective h), λ k. absurd k.0)
every_type_iff ks (Node.cons (node d c) ns) =
    let one = typed_iff ks d.type in
    let more = every_type_iff ks ns in
    (
      λ h. elim (Bool-cases (is_one_of (map node_name ks) d.type)) [
        | inl e ↦ (one.0 e, more.0 (rw e at h))
        | inr f ↦ cc (ok-injective (rw f at h))
      ],
      λ k. rw (one.1 k.0) (more.1 k.1),
    )

pub rows_of_iff :
    (ks : List NodeKind) (c : Content)
    → (rows_of (map node_name ks) c ≡ ok true) ↔ HasNodes (HasType ks) c
unfolding rows_of
rows_of_iff ks missing = (λ h. cc (ok-injective h), λ k. cc (k.2))
rows_of_iff ks (other v) = (λ h. cc (ok-injective h), λ k. cc (k.2))
rows_of_iff ks (children Node.nil) = (λ h. cc (ok-injective h), λ k. cc (k.2))
rows_of_iff ks (children (Node.cons n ns)) =
    let all = every_type_iff ks (Node.cons n ns) in
    (
      λ h. (n, ns, refl, (all.0 h).0, (all.0 h).1),
      λ k.
          let first : k.0 ≡ n = cc (k.2) in
          let rest : k.1 ≡ ns = cc (k.2) in
          all.1 (subst (HasType ks) first k.3, subst (EachNode (HasType ks)) rest k.4),
    )
