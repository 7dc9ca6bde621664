-- ===== src/Documents/Renderer/Shown.antt =====
-- The text of the page that src/documents/tiptap-renderer.service.ts makes of a document.
use mathlib.Core.List.{append-nil}
use crmp_backend.Base.{
  ℕ, String, Option, List, [], ◌∷◌, ◌++◌, Json, null, bool, number, str, array, object, attr, codes,
  ok, ◌≡◌, refl, subst, ◌∙◌, All, All-split,
}
use crmp_backend.Documents.Node.{
  NodeData, Node, node, scalar, Content, missing, other, children, Nodes, all_nodes, nodes_in,
  nodes_of,
}
use crmp_backend.Documents.Node
use crmp_backend.Documents.Html.{read, shown}
use crmp_backend.Documents.Html
use crmp_backend.Documents.Html.Reading.{
  Reads, Reads-append, IsTagText-Reads, IsDigits-IsTagText, shown-eq,
}
use crmp_backend.Documents.Validator.Laws.{IsClean}
use crmp_backend.Documents.Marks.Laws.{silent, Reads-silent, wrap-Reads}
use crmp_backend.Documents.Renderer.{
  Kind, doc, paragraph, heading, text, blockquote, bullet_list, ordered_list, list_item, code_block,
  hard_break, horizontal_rule, table, table_row, table_header, table_cell, image, other_kind,
  kind_of, or_blank, level, render_cell, element, render_node, render_content, render_nodes,
}
use crmp_backend.Documents.Renderer.Visible.{own_text, visible, visible_in, visible_of}
use crmp_backend.Documents.Renderer.Attributes.{
  IsPrintableNode, build_block_style-Reads, build_cell_style-Reads, build_table_attrs-Reads,
  span_attribute-Reads, render_image-Reads,
}
use crmp_backend.Documents.Renderer.Laws.{IsRenderable, Shows, render_text-Shows, render_code-Shows}

or_blank-Reads :
    (t : List ℕ) {out : List ℕ}
    → Reads Html.text t Html.text out
    → Reads Html.text (or_blank t) Html.text out
unfolding read
or_blank-Reads [] {out} r =
    subst (λ o. Reads Html.text (codes "&nbsp;") Html.text o) (r.reads [] ∙ append-nil out)
      (silent "&nbsp;" (λ _. refl))
or_blank-Reads (c ∷ cs) r = r

module _ (to_string : Json → List ℕ) where
  render_cell-Reads :
      (start finish : String) (attrs : Option Json) (t : List ℕ) {out : List ℕ}
      → ((rest : List ℕ) → read Html.text (codes start ++ rest) ≡ read Html.tag rest)
      → ((rest : List ℕ) → read Html.text (codes finish ++ rest) ≡ read Html.text rest)
      → IsPrintableNode to_string attrs
      → Reads Html.text t Html.text out
      → Reads Html.text (render_cell to_string start finish attrs t) Html.text out
  unfolding render_cell read
  render_cell-Reads start finish attrs t s f h r =
      Reads-silent
        (Reads-append
          (Reads-append
            (Reads-append
              (Reads-append
                (Reads-append (silent start s)
                  (span_attribute-Reads to_string " colspan=\"" _ (λ _. refl) h.colspan))
                (span_attribute-Reads to_string " rowspan=\"" _ (λ _. refl) h.rowspan))
              (build_cell_style-Reads to_string attrs h))
            (silent ">" (λ _. refl)))
          (or_blank-Reads t r))
        (silent finish f)

  -- An element shows its own text, given that its children show theirs.
  element-Shows :
      (k : Kind) (d : NodeData) (c : Content) (t : List ℕ) {under : List ℕ}
      → IsRenderable to_string (node d c)
      → All (IsRenderable to_string) (nodes_in c)
      → Reads Html.text t Html.text under
      → Shows to_string (element to_string k d c (ok t)) (own_text to_string k d c under)
  unfolding element own_text read
  element-Shows doc d c t h all r = (t, refl, r)
  element-Shows paragraph d c t h all r = (
    _,
    refl,
    Reads-silent
        (Reads-append
          (Reads-append
            (Reads-append (silent "<p" (λ _. refl)) (build_block_style-Reads to_string d.attrs h.1))
            (silent ">" (λ _. refl)))
          r)
        (silent "</p>" (λ _. refl)),
  )
  element-Shows heading d c t h all r =
      let n =
        IsTagText-Reads (level to_string (attr "level" d.attrs))
          (IsDigits-IsTagText (level to_string (attr "level" d.attrs)) h.1.level_text) in
      (
        _,
        refl,
        Reads-silent
            (Reads-silent
              (Reads-silent
                (Reads-append
                  (Reads-append
                    (Reads-append (Reads-append (silent "<h" (λ _. refl)) n)
                      (build_block_style-Reads to_string d.attrs h.1))
                    (silent ">" (λ _. refl)))
                  r)
                (silent "</h" (λ _. refl)))
              n)
            (silent ">" (λ _. refl)),
      )
  element-Shows text d c t h all r = render_text-Shows to_string d h.0 h.2
  element-Shows blockquote d c t h all r =
      (_, refl, wrap-Reads "<blockquote>" t "</blockquote>" (λ _. refl) (λ _. refl) r)
  element-Shows bullet_list d c t h all r =
      (_, refl, wrap-Reads "<ul>" t "</ul>" (λ _. refl) (λ _. refl) r)
  element-Shows ordered_list d c t h all r =
      (_, refl, wrap-Reads "<ol>" t "</ol>" (λ _. refl) (λ _. refl) r)
  element-Shows list_item d c t h all r =
      (_, refl, wrap-Reads "<li>" t "</li>" (λ _. refl) (λ _. refl) r)
  element-Shows code_block d c t h all r = render_code-Shows to_string d.attrs c h.1 h.3 all
  element-Shows hard_break d c t h all r = (_, refl, silent "<br />" (λ _. refl))
  element-Shows horizontal_rule d c t h all r = (_, refl, silent "<hr />" (λ _. refl))
  element-Shows table d c t h all r =
      let (html, e, attrs) = build_table_attrs-Reads d.attrs h.1.class_text h.1.style_text in
      (
        _,
        rw e refl,
        Reads-silent
            (Reads-append
              (Reads-append (Reads-append (silent "<table" (λ _. refl)) attrs)
                (silent ">" (λ _. refl)))
              r)
            (silent "</table>" (λ _. refl)),
      )
  element-Shows table_row d c t h all r =
      (_, refl, wrap-Reads "<tr>" t "</tr>" (λ _. refl) (λ _. refl) r)
  element-Shows table_header d c t h all r =
      (_, refl, render_cell-Reads "<th" "</th>" d.attrs t (λ _. refl) (λ _. refl) h.1 r)
  element-Shows table_cell d c t h all r =
      (_, refl, render_cell-Reads "<td" "</td>" d.attrs t (λ _. refl) (λ _. refl) h.1 r)
  element-Shows image d c t h all r = render_image-Reads to_string d.attrs h.1
  element-Shows other_kind d c t h all r = (t, refl, r)

  mutual
    unfolding render_node visible all_nodes read

    render_node-Shows :
        (n : Node)
        → All (IsRenderable to_string) (all_nodes n)
        → Shows to_string (render_node to_string n) (visible to_string n)
    render_node-Shows (scalar null) h = absurd h.0
    render_node-Shows (scalar (bool b)) h = ([], refl, record { reads = λ _. refl })
    render_node-Shows (scalar (number b)) h = ([], refl, record { reads = λ _. refl })
    render_node-Shows (scalar (str b)) h = ([], refl, record { reads = λ _. refl })
    render_node-Shows (scalar (array b)) h = ([], refl, record { reads = λ _. refl })
    render_node-Shows (scalar (object b)) h = ([], refl, record { reads = λ _. refl })
    render_node-Shows (node d c) h =
        let (t, e, r) = render_content-Shows c h.0.3 h.1 in
        let (html, e', s) = element-Shows (kind_of d.type) d c t h.0 h.1 r in (html, rw e e', s)

    render_content-Shows :
        (c : Content)
        → IsClean c
        → All (IsRenderable to_string) (nodes_in c)
        → Shows to_string (render_content to_string c) (visible_in to_string c)
    render_content-Shows missing clean h = ([], refl, record { reads = λ _. refl })
    render_content-Shows (other v) clean h = ([], rw clean refl, record { reads = λ _. refl })
    render_content-Shows (children ns) clean h = render_nodes-Shows ns h

    render_nodes-Shows :
        (ns : Nodes)
        → All (IsRenderable to_string) (nodes_of ns)
        → Shows to_string (render_nodes to_string ns) (visible_of to_string ns)
    render_nodes-Shows Node.nil h = ([], refl, record { reads = λ _. refl })
    render_nodes-Shows (Node.cons n ns) h =
        let (one, more) = All-split (IsRenderable to_string) (all_nodes n) (nodes_of ns) h in
        let (first, e, r) = render_node-Shows n one in
        let (rest, e', s) = render_nodes-Shows ns more in
        (first ++ rest, rw (e, e') refl, Reads-append r s)

  -- A document is rendered, and what stands outside the tags of its HTML, with the character references
  -- resolved, is the text of the document, in order, when each of its nodes is renderable: no node is
  -- null or has content that is not a list, the values that go into a tag as they are have no double
  -- quotation mark, the levels of headings are digits, the values that are escaped are texts or false,
  -- and its marks are a list of marks of which the same holds.
  pub render_node-shown :
      (n : Node)
      → All (IsRenderable to_string) (all_nodes n)
      → (html : List ℕ) × (render_node to_string n ≡ ok html) × (shown html ≡ visible to_string n)
  render_node-shown n h = let (html, e, r) = render_node-Shows n h in (html, e, shown-eq r)
