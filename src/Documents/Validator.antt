-- ===== src/Documents/Validator.antt =====
-- src/documents/tiptap-validator.service.ts. A failed check is a bad request; a property of null cannot
-- be read, which is an internal error.
pub mod Shapes
pub mod Checks
pub mod SchemaChecks
pub mod MarkChecks
pub mod Laws
use crmp_backend.Base.{
  String, str_eq, Bool, true, false, not, ◌&&◌, ◌||◌, Option, none, some, List, [], ◌∷◌, mem_str,
  if◌then◌else◌, Json, null, bool, number, str, array, object, Items, nil, cons, lookup, fields,
  is_truthy, attr, Result, ok, err, bad_request, internal_server_error, require, or_throw, ◌>>=◌,
  ◌>>◌,
}
use crmp_backend.Workflow.Conditions.{Numbers, compare_finite, gte, lte}
use crmp_backend.Documents.Node.{
  NodeData, Node, node, scalar, Content, missing, other, children, Nodes, type_of,
}
use crmp_backend.Documents.Node

abbrev pub allowed_nodes : List String
allowed_nodes =
    "doc" ∷ "paragraph" ∷ "heading" ∷ "text" ∷ "blockquote" ∷ "bulletList" ∷ "orderedList"
    ∷ "listItem" ∷ "codeBlock" ∷ "hardBreak" ∷ "horizontalRule" ∷ "image" ∷ "imageResize"
    ∷ "resizableImage" ∷ "table" ∷ "tableRow" ∷ "tableHeader" ∷ "tableCell" ∷ "taskList"
    ∷ "taskItem" ∷ []

abbrev pub allowed_marks : List String
allowed_marks =
    "bold" ∷ "italic" ∷ "strike" ∷ "code" ∷ "link" ∷ "highlight" ∷ "underline" ∷ "subscript"
    ∷ "superscript" ∷ "textStyle" ∷ []

-- `typeof v === 'string'`, and the text if so
abbrev pub text_of : Option Json → Option String
text_of (some (str s)) = some s
text_of _ = none

abbrev pub is_text : Option Json → Bool
is_text (some (str s)) = true
is_text _ = false

abbrev pub is_text_or_undefined : Option Json → Bool
is_text_or_undefined none = true
is_text_or_undefined v = is_text v

abbrev pub has_no_content : Content → Bool
has_no_content missing = true
has_no_content _ = false

-- `Array.isArray(node.content)`
abbrev pub is_array : Content → Bool
is_array (children ns) = true
is_array _ = false

-- `… && node.content.length > 0`
abbrev pub has_children : Content → Bool
has_children (children (Node.cons n ns)) = true
has_children _ = false

-- `typeof child === 'object'`
abbrev pub is_object : Node → Bool
is_object (node d c) = true
is_object (scalar null) = true
is_object (scalar (array is)) = true
is_object (scalar (object fs)) = true
is_object (scalar _) = false

unfoldable pub every_object : Nodes → Bool
every_object Node.nil = true
every_object (Node.cons n ns) = is_object n && every_object ns

abbrev pub is_one_of : List String → Option Json → Bool
is_one_of names (some (str s)) = mem_str s names
is_one_of names _ = false

-- `nodes.every((n) => names.includes(n.type))`
unfoldable pub every_type : List String → Nodes → Result Bool
every_type names Node.nil = ok true
every_type names (Node.cons n ns) =
    let rest = every_type names ns in
    type_of n >>= λ t. if is_one_of names t then rest else ok false

-- A table and a row hold children of their kinds, at least one.
unfoldable pub rows_of : List String → Content → Result Bool
unfolding every_type
rows_of names (children (Node.cons n ns)) = every_type names (Node.cons n ns)
rows_of names _ = ok false

abbrev pub cell_content : Content → Bool
cell_content missing = true
cell_content (other v) = false
cell_content (children ns) = every_object ns

module _ (js : Numbers) where
  -- `typeof v === 'number' && v >= n`
  abbrev pub at_least : Json → String → Bool
  at_least (number s) n = compare_finite gte (js.rank s) (js.rank n)
  at_least _ n = false

  abbrev pub at_most : Json → String → Bool
  at_most (number s) n = compare_finite lte (js.rank s) (js.rank n)
  at_most _ n = false

  abbrev pub is_level : Option Json → Bool
  is_level none = false
  is_level (some v) = at_least v "1" && at_most v "6"

  abbrev pub is_span : Option Json → Bool
  is_span none = true
  is_span (some v) = at_least v "1"

  -- `nodeSchemas[kind]`; a kind without an entry passes.
  unfoldable pub node_schema : String → NodeData → Content → Result Bool
  unfolding rows_of every_object attr
  node_schema kind d c =
      if str_eq kind "doc"
      then ok (has_children c)
      else if str_eq kind "paragraph"
      then ok (has_no_content c || is_array c)
      else if str_eq kind "heading"
      then ok (is_level (attr "level" d.attrs) && (has_no_content c || is_array c))
      else if str_eq kind "text"
      then ok (is_text d.text)
      else if mem_str kind
          ("blockquote" ∷ "bulletList" ∷ "orderedList" ∷ "listItem" ∷ "taskList" ∷ "taskItem" ∷ [])
      then ok (is_array c)
      else if str_eq kind "codeBlock"
      then ok (has_no_content c || is_array c)
      else if str_eq kind "image"
      then ok (is_text (attr "src" d.attrs) && is_text_or_undefined (attr "alt" d.attrs))
      else if str_eq kind "imageResize"
      then ok (is_text (attr "src" d.attrs))
      else if str_eq kind "table"
      then rows_of ("tableRow" ∷ []) c
      else if str_eq kind "tableRow"
      then rows_of ("tableHeader" ∷ "tableCell" ∷ []) c
      else if mem_str kind ("tableHeader" ∷ "tableCell" ∷ [])
      then ok
          (is_span (attr "colspan" d.attrs) && is_span (attr "rowspan" d.attrs) && cell_content c)
      else ok true

  -- `markSchemas[kind]`
  unfoldable pub mark_schema : String → Option Json → Bool
  mark_schema kind attrs = if str_eq kind "link" then is_text (attr "href" attrs) else true

  -- One round of the loop over the marks.
  unfoldable pub validate_mark : Json → Result (Unit {0})
  unfolding mark_schema lookup
  validate_mark null = err internal_server_error
  validate_mark (object fs) = do
    kind ← or_throw (text_of (lookup "type" (fields fs))) bad_request
    require (mem_str kind allowed_marks) bad_request
    require (mark_schema kind (lookup "attrs" (fields fs))) bad_request
  validate_mark _ = err bad_request

  unfoldable pub validate_mark_list : Items → Result (Unit {0})
  unfolding validate_mark
  validate_mark_list nil = ok tt
  validate_mark_list (cons m ms) = validate_mark m >> validate_mark_list ms

  unfoldable pub validate_marks : Option Json → Result (Unit {0})
  unfolding validate_mark_list
  validate_marks (some (array ms)) = validate_mark_list ms
  validate_marks _ = err bad_request

  -- `if (node.type === 'text' && node.marks) …`
  unfoldable pub check_marks : String → Option Json → Result (Unit {0})
  unfolding validate_marks
  check_marks kind marks =
      if str_eq kind "text" && is_truthy marks then validate_marks marks else ok tt

  -- The checks of a node before those of its children. An empty type is not an allowed one.
  unfoldable pub check_node : Node → Result (Unit {0})
  unfolding node_schema check_marks
  check_node (scalar null) = err internal_server_error
  check_node (scalar _) = err bad_request
  check_node (node d c) = do
    kind ← or_throw (text_of d.type) bad_request
    require (mem_str kind allowed_nodes) bad_request
    shaped ← node_schema kind d c
    require shaped bad_request
    check_marks kind d.marks

  unfoldable mutual
    unfolding check_node

    pub validate_node : Node → Result (Unit {0})
    validate_node (scalar v) = check_node (scalar v)
    validate_node (node d c) = check_node (node d c) >> validate_content c

    pub validate_content : Content → Result (Unit {0})
    validate_content missing = ok tt
    validate_content (other v) = require (not (is_truthy (some v))) bad_request
    validate_content (children ns) = validate_nodes ns

    pub validate_nodes : Nodes → Result (Unit {0})
    validate_nodes Node.nil = ok tt
    validate_nodes (Node.cons n ns) = validate_node n >> validate_nodes ns

  unfoldable pub validate_document : Node → Result (Unit {0})
  unfolding validate_node
  validate_document (scalar v) = err bad_request
  validate_document (node d c) = do
    require (is_one_of ("doc" ∷ []) d.type) bad_request
    validate_node (node d c)
    require (has_children c) bad_request
