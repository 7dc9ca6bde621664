-- ===== src/Documents/Renderer/Laws.antt =====
-- What src/documents/tiptap-renderer.service.ts needs of a node, and how texts and code are read.
use crmp_backend.Base.{
  ℕ, true, false, Option, none, some, List, [], ◌++◌, Json, null, bool, number, str, array, object,
  attr, is_truthy, codes, Result, ok, ◌≡◌, refl, subst, sym, All, All-split, Bool-cases, inl, inr,
  if◌then◌else◌, ok-injective,
}
use crmp_backend.Documents.Node.{
  NodeData, Node, node, scalar, Content, missing, other, children, Nodes, all_nodes, nodes_in,
  nodes_of,
}
use crmp_backend.Documents.Node
use crmp_backend.Documents.Html.{escape_html, escape_attribute, tag, quoted, read, shown}
use crmp_backend.Documents.Html
use crmp_backend.Documents.Html.Reading.{
  Reads, Reads-append, escape_html-Reads, escape_attribute-Reads,
}
use crmp_backend.Documents.Marks.{text_or_empty, mark_list}
use crmp_backend.Documents.Marks.Laws.{IsText, IsPrintable, silent, Reads-silent, apply_marks-Reads}
use crmp_backend.Documents.Renderer.{code_nodes, code_text, render_text, render_code}
use crmp_backend.Documents.Validator.Laws.{IsClean}
use crmp_backend.Documents.Renderer.Visible.{plain_text, code_of, code_in}
use crmp_backend.Documents.Renderer.Attributes.{IsPrintableNode}

module _ (to_string : Json → List ℕ) where
  -- Marks are a list of printable ones.
  abbrev pub ArePrintable : Option Json → Type 0
  ArePrintable marks = (ms : List Json) × (mark_list marks ≡ ok ms) × All (IsPrintable to_string) ms

  -- What the renderer needs of a node: not to be null, a text that is one, printable attributes and
  -- marks, and children in a list.
  abbrev pub IsRenderable : Node → Type 0
  IsRenderable (scalar null) = ⊥
  IsRenderable (scalar _) = Unit
  IsRenderable (node d c) =
      IsText d.text × IsPrintableNode to_string d.attrs × ArePrintable d.marks × IsClean c

  text_or_empty-eq : (v : Option Json) {s : List ℕ} → text_or_empty v ≡ ok s → s ≡ plain_text v
  text_or_empty-eq none h = sym (ok-injective h)
  text_or_empty-eq (some (str s)) h = sym (ok-injective h)
  text_or_empty-eq (some null) h = sym (ok-injective h)
  text_or_empty-eq (some (bool true)) h = cc
  text_or_empty-eq (some (bool false)) h = sym (ok-injective h)
  text_or_empty-eq (some (number n)) h = elim (Bool-cases (is_truthy (some (number n)))) [
    | inl e ↦ cc (rw e at h)
    | inr e ↦ sym (ok-injective (rw e at h))
  ]
  text_or_empty-eq (some (array _)) h = cc
  text_or_empty-eq (some (object _)) h = cc

  code_nodes-ok :
      (ns : Nodes)
      → All IsRenderable (nodes_of ns)
      → code_nodes to_string ns ≡ ok (code_of to_string ns)
  unfolding code_nodes code_of nodes_of
  code_nodes-ok Node.nil h = refl
  code_nodes-ok (Node.cons (scalar null) ns) h = absurd h.0
  code_nodes-ok (Node.cons (scalar (bool b)) ns) h = code_nodes-ok ns h.1
  code_nodes-ok (Node.cons (scalar (number b)) ns) h = code_nodes-ok ns h.1
  code_nodes-ok (Node.cons (scalar (str b)) ns) h = code_nodes-ok ns h.1
  code_nodes-ok (Node.cons (scalar (array b)) ns) h = code_nodes-ok ns h.1
  code_nodes-ok (Node.cons (scalar (object b)) ns) h = code_nodes-ok ns h.1
  code_nodes-ok (Node.cons (node d c) ns) h =
      let (_, rest) = All-split IsRenderable (all_nodes (node d c)) (nodes_of ns) h in
      rw (code_nodes-ok ns rest) refl

  code_text-ok :
      (c : Content)
      → IsClean c
      → All IsRenderable (nodes_in c)
      → code_text to_string c ≡ ok (code_in to_string c)
  unfolding code_text nodes_in
  code_text-ok missing clean h = refl
  code_text-ok (other v) clean h = rw clean refl
  code_text-ok (children ns) clean h = code_nodes-ok ns h

  -- The rendering of a part, and what it shows.
  abbrev pub Shows : Result (List ℕ) → List ℕ → Type 0
  Shows done out = (html : List ℕ) × (done ≡ ok html) × Reads Html.text html Html.text out

  pub render_text-Shows :
      (d : NodeData)
      → IsText d.text
      → ArePrintable d.marks
      → Shows (render_text to_string d) (plain_text d.text)
  unfolding render_text
  render_text-Shows d (s, e) (ms, e', h) =
      let (html, e'', r) = apply_marks-Reads to_string s ms h in
      (
        html,
        rw (e, e') e'',
        subst (λ o. Reads Html.text html Html.text o) (text_or_empty-eq d.text e) r,
      )

  class_of_language :
      (v : Option Json) (s : List ℕ)
      → Reads tag
          (if is_truthy v
            then codes " class=\"language-" ++ escape_attribute s ++ codes "\""
            else [])
          tag
          []
  unfolding read
  class_of_language v s = elim (Bool-cases (is_truthy v)) [
    | inl t ↦ rw t (
        Reads-append
          (Reads-append (silent " class=\"language-" (λ _. refl)) (escape_attribute-Reads s))
          (silent "\"" (λ _. refl)))
    | inr f ↦ rw f (record { reads = λ rest. refl })
  ]

  pub render_code-Shows :
      (attrs : Option Json) (c : Content)
      → IsPrintableNode to_string attrs
      → IsClean c
      → All IsRenderable (nodes_in c)
      → Shows (render_code to_string attrs c) (code_in to_string c)
  unfolding render_code read
  render_code-Shows attrs c h clean under =
      let (language, e) = h.language_text in
      let raw = code_in to_string c in
      (
        _,
        rw (code_text-ok c clean under, e) refl,
        Reads-silent
            (Reads-append
              (Reads-append
                (Reads-append (silent "<pre><code" (λ _. refl))
                  (class_of_language (attr "language" attrs) language))
                (silent ">" (λ _. refl)))
              (escape_html-Reads raw))
            (silent "</code></pre>" (λ _. refl)),
      )
