-- ===== src/Documents/Renderer/Visible.antt =====
-- The text of a document, in order, which the pages of src/documents/tiptap-renderer.service.ts are to
-- have.
use crmp_backend.Base.{ℕ, Option, some, List, [], ◌++◌, Json, str, is_truthy, codes, if◌then◌else◌}
use crmp_backend.Documents.Node.{NodeData, Node, node, scalar, Content, children, Nodes}
use crmp_backend.Documents.Node
use crmp_backend.Documents.Marks.{string_of}
use crmp_backend.Documents.Renderer.{
  Kind, text, code_block, hard_break, horizontal_rule, image, kind_of,
}

-- The text of a text node.
abbrev pub plain_text : Option Json → List ℕ
plain_text (some (str s)) = codes s
plain_text _ = []

module _ (to_string : Json → List ℕ) where
  unfoldable pub code_of : Nodes → List ℕ
  code_of Node.nil = []
  code_of (Node.cons (scalar v) ns) = code_of ns
  code_of (Node.cons (node d c) ns) =
      (if is_truthy d.text then string_of to_string d.text else []) ++ code_of ns

  abbrev pub code_in : Content → List ℕ
  code_in (children ns) = code_of ns
  code_in _ = []

  -- The text that an element shows, given the text that its children show: a text node its text, a
  -- block of code its code, a break, a rule or an image none.
  unfoldable pub own_text : Kind → NodeData → Content → List ℕ → List ℕ
  unfolding code_of
  own_text text d c under = plain_text d.text
  own_text code_block d c under = code_in c
  own_text hard_break d c under = []
  own_text horizontal_rule d c under = []
  own_text image d c under = []
  own_text _ d c under = under

  -- The text of a document, in order.
  unfoldable mutual
    unfolding own_text kind_of

    pub visible : Node → List ℕ
    visible (scalar v) = []
    visible (node d c) = own_text (kind_of d.type) d c (visible_in c)

    pub visible_in : Content → List ℕ
    visible_in (children ns) = visible_of ns
    visible_in _ = []

    pub visible_of : Nodes → List ℕ
    visible_of Node.nil = []
    visible_of (Node.cons n ns) = visible n ++ visible_of ns
