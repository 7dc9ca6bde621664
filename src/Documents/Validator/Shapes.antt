-- ===== src/Documents/Validator/Shapes.antt =====
-- What src/documents asks of each kind of node and mark, said without the tests of
-- tiptap-validator.service.ts.
use crmp_backend.Base.{
  ℕ, ◌≤◌, ◌≡◌, String, Option, none, some, ◌⊎◌, List, [], ◌∷◌, Memᴰ, Json, null, number, str, array,
  object, Items, Fields, nil, cons, fields, lookup, attr, is_truthy, false,
}
use crmp_backend.Workflow.Conditions.{Numbers}
use crmp_backend.Documents.Node.{NodeData, Node, node, scalar, Content, missing, children, Nodes}
use crmp_backend.Documents.Node

pub data NodeKind : Type 0 where
  doc paragraph heading text blockquote bullet_list ordered_list list_item code_block : NodeKind
  hard_break horizontal_rule image image_resize resizable_image : NodeKind
  table table_row table_header table_cell task_list task_item : NodeKind

abbrev pub node_name : NodeKind → String
node_name doc = "doc"
node_name paragraph = "paragraph"
node_name heading = "heading"
node_name text = "text"
node_name blockquote = "blockquote"
node_name bullet_list = "bulletList"
node_name ordered_list = "orderedList"
node_name list_item = "listItem"
node_name code_block = "codeBlock"
node_name hard_break = "hardBreak"
node_name horizontal_rule = "horizontalRule"
node_name image = "image"
node_name image_resize = "imageResize"
node_name resizable_image = "resizableImage"
node_name table = "table"
node_name table_row = "tableRow"
node_name table_header = "tableHeader"
node_name table_cell = "tableCell"
node_name task_list = "taskList"
node_name task_item = "taskItem"

pub data MarkName : Type 0 where
  bold italic strike code link highlight underline subscript superscript text_style : MarkName

abbrev pub mark_name : MarkName → String
mark_name bold = "bold"
mark_name italic = "italic"
mark_name strike = "strike"
mark_name code = "code"
mark_name link = "link"
mark_name highlight = "highlight"
mark_name underline = "underline"
mark_name subscript = "subscript"
mark_name superscript = "superscript"
mark_name text_style = "textStyle"

abbrev pub IsTextValue : Option Json → Type 0
IsTextValue v = (s : String) × (v ≡ some (str s))

abbrev pub IsArray : Content → Type 0
IsArray c = (ns : Nodes) × (c ≡ children ns)

abbrev pub IsArrayOrMissing : Content → Type 0
IsArrayOrMissing c = (c ≡ missing) ⊎ IsArray c

abbrev pub IsObject : Node → Type 0
IsObject (node d c) = Unit
IsObject (scalar null) = Unit
IsObject (scalar (array is)) = Unit
IsObject (scalar (object fs)) = Unit
IsObject (scalar _) = ⊥

-- A node of one of these kinds.
abbrev pub HasType : List NodeKind → Node → Type 0
HasType ks (scalar v) = ⊥
HasType ks (node d c) = (k : NodeKind) × Memᴰ k ks × (d.type ≡ some (str (node_name k)))

abbrev pub EachNode : (Node → Type 0) → Nodes → Type 0
EachNode P Node.nil = Unit
EachNode P (Node.cons n ns) = P n × EachNode P ns

-- An array of nodes, at least one.
abbrev pub HasNodes : (Node → Type 0) → Content → Type 0
HasNodes P c = (n : Node) × (ns : Nodes) × (c ≡ children (Node.cons n ns)) × P n × EachNode P ns

-- The content of a cell: nothing, or an array of objects.
abbrev pub HasCell : Content → Type 0
HasCell c = (c ≡ missing) ⊎ ((ns : Nodes) × (c ≡ children ns) × EachNode IsObject ns)

-- The attributes of a mark that are looked at.
abbrev pub HasMarkAttrs : MarkName → Option Json → Type 0
HasMarkAttrs link attrs = IsTextValue (attr "href" attrs)
HasMarkAttrs _ attrs = Unit

abbrev pub IsMark : Json → Type 0
IsMark m =
    (fs : Fields) × (m ≡ object fs)
    × (k : MarkName) × (lookup "type" (fields fs) ≡ some (str (mark_name k)))
    × HasMarkAttrs k (lookup "attrs" (fields fs))

abbrev pub EachMark : Items → Type 0
EachMark nil = Unit
EachMark (cons m ms) = IsMark m × EachMark ms

-- Only a text is asked for its marks, and only if `marks` counts as true.
abbrev pub HasMarks : NodeKind → Option Json → Type 0
HasMarks text marks =
    (is_truthy marks ≡ false) ⊎ ((ms : Items) × (marks ≡ some (array ms)) × EachMark ms)
HasMarks _ marks = Unit

module _ (js : Numbers) where
  -- The number that a text of JavaScript stands for is at least, or at most, another.
  abbrev pub AtLeast : String → String → Type 0
  AtLeast n s = (a b : ℕ) × (js.rank n ≡ some a) × (js.rank s ≡ some b) × (a ≤ b)

  abbrev pub IsLevel : Option Json → Type 0
  IsLevel v = (s : String) × (v ≡ some (number s)) × AtLeast "1" s × AtLeast s "6"

  abbrev pub IsSpan : Option Json → Type 0
  IsSpan v = (v ≡ none) ⊎ ((s : String) × (v ≡ some (number s)) × AtLeast "1" s)

  abbrev pub HasShape : NodeKind → NodeData → Content → Type 0
  HasShape doc d c = (n : Node) × (ns : Nodes) × (c ≡ children (Node.cons n ns))
  HasShape paragraph d c = IsArrayOrMissing c
  HasShape heading d c = IsLevel (attr "level" d.attrs) × IsArrayOrMissing c
  HasShape text d c = IsTextValue d.text
  HasShape blockquote d c = IsArray c
  HasShape bullet_list d c = IsArray c
  HasShape ordered_list d c = IsArray c
  HasShape list_item d c = IsArray c
  HasShape code_block d c = IsArrayOrMissing c
  HasShape hard_break d c = Unit
  HasShape horizontal_rule d c = Unit
  HasShape image d c =
      IsTextValue (attr "src" d.attrs)
      × ((attr "alt" d.attrs ≡ none) ⊎ IsTextValue (attr "alt" d.attrs))
  HasShape image_resize d c = IsTextValue (attr "src" d.attrs)
  HasShape resizable_image d c = Unit
  HasShape table d c = HasNodes (HasType (table_row ∷ [])) c
  HasShape table_row d c = HasNodes (HasType (table_header ∷ table_cell ∷ [])) c
  HasShape table_header d c =
      IsSpan (attr "colspan" d.attrs) × IsSpan (attr "rowspan" d.attrs) × HasCell c
  HasShape table_cell d c =
      IsSpan (attr "colspan" d.attrs) × IsSpan (attr "rowspan" d.attrs) × HasCell c
  HasShape task_list d c = IsArray c
  HasShape task_item d c = IsArray c
