-- ===== src/Documents/Renderer.antt =====
-- Nodes in HTML: `renderNode` of src/documents/tiptap-renderer.service.ts.
pub mod Visible
pub mod Attributes
pub mod Laws
pub mod Shown
use crmp_backend.Base.{
  ℕ, String, str_eq, Bool, true, false, ◌&&◌, ◌||◌, Option, none, some, List, [], ◌∷◌, ◌++◌, Json,
  null, str, attr, is_truthy, codes, join, includes, if◌then◌else◌, Result, ok, err,
  internal_server_error, ◌>>=◌, map_result,
}
use crmp_backend.Documents.Node.{
  NodeData, Node, node, scalar, Content, missing, other, children, Nodes,
}
use crmp_backend.Documents.Node
use crmp_backend.Documents.Html.{escape_html, escape_attribute}
use crmp_backend.Documents.Marks.{
  text_or_empty, is_not, part_if, mark_list, wrap, string_of, declared, build_block_style,
  build_cell_style, build_table_attrs, escaped, apply_marks,
}

-- `switch (node.type)`
pub data Kind : Type 0 where
  doc paragraph heading text blockquote bullet_list ordered_list list_item code_block hard_break
        horizontal_rule table table_row table_header table_cell image other_kind :
      Kind

unfoldable pub kind_of : Option Json → Kind
kind_of (some (str s)) =
    if str_eq s "doc"
    then doc
    else if str_eq s "paragraph"
    then paragraph
    else if str_eq s "heading"
    then heading
    else if str_eq s "text"
    then text
    else if str_eq s "blockquote"
    then blockquote
    else if str_eq s "bulletList"
    then bullet_list
    else if str_eq s "orderedList"
    then ordered_list
    else if str_eq s "listItem"
    then list_item
    else if str_eq s "codeBlock"
    then code_block
    else if str_eq s "hardBreak"
    then hard_break
    else if str_eq s "horizontalRule"
    then horizontal_rule
    else if str_eq s "table"
    then table
    else if str_eq s "tableRow"
    then table_row
    else if str_eq s "tableHeader"
    then table_header
    else if str_eq s "tableCell"
    then table_cell
    else if str_eq s "image" || str_eq s "resizableImage" || str_eq s "imageResize"
    then image
    else other_kind
kind_of _ = other_kind

-- `inner || '&nbsp;'`
abbrev pub or_blank : List ℕ → List ℕ
or_blank [] = codes "&nbsp;"
or_blank (c ∷ cs) = c ∷ cs

unfoldable pub in_pixels : List ℕ → List ℕ
unfolding includes
in_pixels w = if includes (codes "%") w || includes (codes "px") w then w else w ++ codes "px"

module _ (to_string : Json → List ℕ) where
  -- `(node.content || []).map((c) => c.text || '').join('')`
  unfoldable pub code_nodes : Nodes → Result (List ℕ)
  code_nodes Node.nil = ok []
  code_nodes (Node.cons (scalar null) ns) = err internal_server_error
  code_nodes (Node.cons (scalar _) ns) = code_nodes ns
  code_nodes (Node.cons (node d c) ns) =
      map_result (λ rest. (if is_truthy d.text then string_of to_string d.text else []) ++ rest)
        (code_nodes ns)

  unfoldable pub code_text : Content → Result (List ℕ)
  unfolding code_nodes
  code_text missing = ok []
  code_text (other v) = if is_truthy (some v) then err internal_server_error else ok []
  code_text (children ns) = code_nodes ns

  -- ` name="${v}"`, unescaped
  abbrev pub span_attribute : String → Option Json → List ℕ
  span_attribute start v =
      if is_truthy v then codes start ++ string_of to_string v ++ codes "\"" else []

  abbrev pub level : Option Json → List ℕ
  level v = if is_truthy v then string_of to_string v else codes "1"

  -- The style of an image.
  unfoldable pub image_style : Option Json → List ℕ
  unfolding attr in_pixels
  image_style attrs =
      let width = attr "width" attrs in
      let height = attr "height" attrs in
      join (codes "; ") (
        codes "max-width: 100%"
        ∷ codes "height: auto"
        ∷ codes "display: block"
        ∷ (part_if (is_truthy width) (codes "width: " ++ in_pixels (string_of to_string width))
            ++ part_if (is_truthy width) (codes "height: auto")
            ++ part_if (is_truthy height && is_not height "auto")
                (codes "height: " ++ in_pixels (string_of to_string height))))

  unfoldable pub render_image : Option Json → Result (List ℕ)
  unfolding attr image_style escape_attribute
  render_image attrs = do
    src ← text_or_empty (attr "src" attrs)
    alt ← text_or_empty (attr "alt" attrs)
    title ← escaped " title" (attr "title" attrs)
    ok (
        codes "<figure style=\"margin: 0.5em 0;\"><img src=\""
        ++ escape_attribute src
        ++ codes "\" alt=\""
        ++ escape_attribute alt
        ++ codes "\""
        ++ join [] title
        ++ codes " style=\""
        ++ image_style attrs
        ++ codes "\" /></figure>")

  -- A table cell or a header cell, with the names of its tag.
  unfoldable pub render_cell : String → String → Option Json → List ℕ → List ℕ
  unfolding attr build_cell_style
  render_cell start finish attrs inner =
      codes start
      ++ span_attribute " colspan=\"" (attr "colspan" attrs)
      ++ span_attribute " rowspan=\"" (attr "rowspan" attrs)
      ++ build_cell_style to_string attrs
      ++ codes ">"
      ++ or_blank inner
      ++ codes finish

  unfoldable pub render_text : NodeData → Result (List ℕ)
  unfolding apply_marks escape_html
  render_text d = do
    plain ← text_or_empty d.text
    marks ← mark_list d.marks
    apply_marks to_string plain marks

  unfoldable pub render_code : Option Json → Content → Result (List ℕ)
  unfolding attr code_text escape_html
  render_code attrs c = do
    raw ← code_text c
    language ← text_or_empty (attr "language" attrs)
    ok (
        codes "<pre><code"
        ++ (if is_truthy (attr "language" attrs)
            then codes " class=\"language-" ++ escape_attribute language ++ codes "\""
            else [])
        ++ codes ">"
        ++ escape_html raw
        ++ codes "</code></pre>")

  -- The branch of the `switch` for a node's type, given what its children render to.
  unfoldable pub element : Kind → NodeData → Content → Result (List ℕ) → Result (List ℕ)
  unfolding build_block_style build_table_attrs attr render_image render_cell render_text
      render_code
  element doc d c inner = inner
  element paragraph d c inner =
      map_result
        (λ t. codes "<p" ++ build_block_style to_string d.attrs ++ codes ">" ++ t ++ codes "</p>")
        inner
  element heading d c inner =
      let n = level (attr "level" d.attrs) in
      map_result
        (λ t.
          codes "<h"
          ++ n
          ++ build_block_style to_string d.attrs
          ++ codes ">"
          ++ t
          ++ codes "</h"
          ++ n
          ++ codes ">")
        inner
  element text d c inner = render_text d
  element blockquote d c inner = map_result (λ t. wrap "<blockquote>" t "</blockquote>") inner
  element bullet_list d c inner = map_result (λ t. wrap "<ul>" t "</ul>") inner
  element ordered_list d c inner = map_result (λ t. wrap "<ol>" t "</ol>") inner
  element list_item d c inner = map_result (λ t. wrap "<li>" t "</li>") inner
  element code_block d c inner = render_code d.attrs c
  element hard_break d c inner = ok (codes "<br />")
  element horizontal_rule d c inner = ok (codes "<hr />")
  element table d c inner = do
    table_attrs ← build_table_attrs d.attrs
    map_result (λ t. codes "<table" ++ table_attrs ++ codes ">" ++ t ++ codes "</table>") inner
  element table_row d c inner = map_result (λ t. wrap "<tr>" t "</tr>") inner
  element table_header d c inner = map_result (render_cell "<th" "</th>" d.attrs) inner
  element table_cell d c inner = map_result (render_cell "<td" "</td>" d.attrs) inner
  element image d c inner = render_image d.attrs
  element other_kind d c inner = inner

  unfoldable mutual
    unfolding element kind_of

    pub render_node : Node → Result (List ℕ)
    render_node (scalar null) = err internal_server_error
    render_node (scalar _) = ok []
    render_node (node d c) = element (kind_of d.type) d c (render_content c)

    pub render_content : Content → Result (List ℕ)
    render_content missing = ok []
    render_content (other v) = if is_truthy (some v) then err internal_server_error else ok []
    render_content (children ns) = render_nodes ns

    pub render_nodes : Nodes → Result (List ℕ)
    render_nodes Node.nil = ok []
    render_nodes (Node.cons n ns) = do
      first ← render_node n
      rest ← render_nodes ns
      ok (first ++ rest)
