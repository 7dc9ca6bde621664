-- ===== src/Documents/Tests.antt =====
-- Documents on which the theorems on src/documents are applied.
use crmp_backend.Base.{
  ℕ, String, Option, none, some, List, [], ◌∷◌, ◌≡◌, refl, Json, str, number, array, object, nil,
  cons, end, field, All, ok, codes, attr, lookup, str_eq, if◌then◌else◌,
}
use crmp_backend.Workflow.Conditions.{Numbers}
use crmp_backend.Documents.Node.{
  NodeData, Node, node, scalar, Content, missing, children, Nodes, all_nodes,
}
use crmp_backend.Documents.Node
use crmp_backend.Documents.Html.{escape_html, shown}
use crmp_backend.Documents.Html.Reading.{IsQuotable, has_no_quote-IsQuotable, shown-escape_html}
use crmp_backend.Documents.Validator.{validate_document}
use crmp_backend.Documents.Renderer.{render_node}
use crmp_backend.Documents.Renderer.Visible.{visible}
use crmp_backend.Documents.Renderer.Laws.{IsRenderable}
use crmp_backend.Documents.Marks.Laws.{IsPrintableMark}
use crmp_backend.Documents.Renderer.Attributes.{IsPrintableNode}
use crmp_backend.Documents.Renderer.Shown.{render_node-shown}

abbrev place : String → Option ℕ
place s =
    if str_eq s "1"
    then some 1
    else if str_eq s "2"
    then some 2
    else if str_eq s "6"
    then some 6
    else none

abbrev numbers : Numbers
numbers = record { rank = place; parse_float = λ s. s }

abbrev no_objects : Json → List ℕ
no_objects v = []

abbrev plain : String → Option Json → Content → Node
plain type attrs c =
    node (record { type = some (str type); text = none; marks = none; attrs = attrs }) c

abbrev bold : Json
bold = object (field "type" (str "bold") end)

abbrev words : Node
words =
    node
      (record {
        type = some (str "text");
        text = some (str "a<b");
        marks = some (array (cons bold nil));
        attrs = none;
      })
      missing

abbrev second_level : Json
second_level = object (field "level" (number "2") end)

abbrev page : Node
page = plain "doc" none (
    children (
      Node.cons (plain "heading" (some second_level) (children (Node.cons words Node.nil)))
        (Node.cons (plain "horizontalRule" none missing) Node.nil)))

page_html : render_node no_objects page ≡ ok (codes "<h2><strong>a&lt;b</strong></h2><hr />")
unfolding render_node
page_html = refl

page_text : visible no_objects page ≡ codes "a<b"
unfolding visible
page_text = refl

shown-escape_html_example : shown (escape_html (codes "a<b & 'c'")) ≡ codes "a<b & 'c'"
shown-escape_html_example = shown-escape_html (codes "a<b & 'c'")

page_valid : validate_document numbers page ≡ ok tt
unfolding validate_document
page_valid = refl

unknown : IsQuotable (codes "undefined")
unknown = has_no_quote-IsQuotable (codes "undefined") refl

no_attrs : IsPrintableNode no_objects none
unfolding attr
no_attrs = record {
  level_text = (refl, tt);
  text_align = unknown;
  line_height = unknown;
  plain_align = unknown;
  vertical_align = unknown;
  background_color = unknown;
  colspan = unknown;
  rowspan = unknown;
  width = unknown;
  height = unknown;
  class_text = ([], refl);
  style_text = ([], refl);
  source_text = ([], refl);
  alt_text = ([], refl);
  title_text = ([], refl);
  language_text = ([], refl);
}

level_attrs : IsPrintableNode no_objects (some second_level)
unfolding attr
level_attrs = record {
  level_text = (refl, tt);
  text_align = unknown;
  line_height = unknown;
  plain_align = unknown;
  vertical_align = unknown;
  background_color = unknown;
  colspan = unknown;
  rowspan = unknown;
  width = unknown;
  height = unknown;
  class_text = ([], refl);
  style_text = ([], refl);
  source_text = ([], refl);
  alt_text = ([], refl);
  title_text = ([], refl);
  language_text = ([], refl);
}

no_mark_attrs : IsPrintableMark no_objects none
unfolding attr
no_mark_attrs = record {
  font_family = unknown;
  color = unknown;
  font_size = unknown;
  href_text = ([], refl);
  color_text = ([], refl);
}

page-IsRenderable : All (IsRenderable no_objects) (all_nodes page)
unfolding all_nodes lookup
page-IsRenderable = (
  (([], refl), no_attrs, ([], refl, tt), tt),
  (
    (([], refl), level_attrs, ([], refl, tt), tt),
    (
      ((codes "a<b", refl), no_attrs, (bold ∷ [], refl, (no_mark_attrs, tt)), tt),
      ((([], refl), no_attrs, ([], refl, tt), tt), tt),
    ),
  ),
)

render_node-shown_example :
    (html : List ℕ) × (render_node no_objects page ≡ ok html)
    × (shown html ≡ visible no_objects page)
render_node-shown_example = render_node-shown no_objects page page-IsRenderable
