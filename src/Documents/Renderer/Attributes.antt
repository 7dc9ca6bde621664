-- ===== src/Documents/Renderer/Attributes.antt =====
-- How the attributes that src/documents/tiptap-renderer.service.ts writes are read.
use crmp_backend.Base.{
  ℕ, String, Bool, true, not, ◌&&◌, Option, List, [], ◌∷◌, ◌++◌, Json, attr, is_truthy, codes, join,
  includes, ok, ◌≡◌, refl, All, All-append, Bool-cases, inl, inr, ◌||◌,
}
use crmp_backend.Documents.Html.{escape_attribute, text, tag, quoted, read}
use crmp_backend.Documents.Html.Reading.{
  Reads, Reads-append, IsQuotable, IsDigits, IsQuotable-Reads, escape_attribute-Reads, has_no_quote,
  has_no_quote-IsQuotable,
}
use crmp_backend.Documents.Marks.{
  is_not, part_if, string_of, alignment, build_block_style, build_cell_style, build_table_attrs,
  escaped, spaced,
}
use crmp_backend.Documents.Marks.Laws.{
  IsText, silent, style_attribute-Reads, part_if-IsQuotable, join-IsQuotable, separator,
}
use crmp_backend.Documents.Renderer.{span_attribute, level, in_pixels, image_style, render_image}

-- `name="…"` in a tag
attribute-Reads :
    (start : String) (value : List ℕ)
    → ((rest : List ℕ) → read tag (codes start ++ rest) ≡ read quoted rest)
    → IsQuotable value
    → Reads tag (codes start ++ value ++ codes "\"") tag []
unfolding read
attribute-Reads start value s h =
    Reads-append (Reads-append (silent start s) (IsQuotable-Reads value h))
      (silent "\"" (λ _. refl))

opened :
    {name : List ℕ}
    → ((rest : List ℕ) → read tag (name ++ rest) ≡ read quoted rest)
    → Reads tag name quoted []
opened same = record { reads = same }

pub escaped-Reads :
    (name : String) (v : Option Json)
    → ((rest : List ℕ) → read tag (codes name ++ codes "=\"" ++ rest) ≡ read quoted rest)
    → IsText v
    → (parts : List (List ℕ)) × (escaped name v ≡ ok parts) × All (λ s. Reads tag s tag []) parts
unfolding read
escaped-Reads name v start (s, e) = elim (Bool-cases (is_truthy v)) [
  | inl t ↦ (
    (codes name ++ codes "=\"" ++ escape_attribute s ++ codes "\"") ∷ [],
    rw (t, e) refl,
    (
      Reads-append
          (Reads-append (opened {name = codes name ++ codes "=\""} start)
            (escape_attribute-Reads s))
          (silent "\"" (λ _. refl)),
      tt,
    ),
  )
  | inr f ↦ ([], rw f refl, tt)
]

join-Reads :
    (sep : List ℕ) (parts : List (List ℕ))
    → Reads tag sep tag []
    → All (λ s. Reads tag s tag []) parts
    → Reads tag (join sep parts) tag []
unfolding join read
join-Reads sep [] q h = record { reads = λ rest. refl }
join-Reads sep (s ∷ []) q h = h.0
join-Reads sep (s ∷ t ∷ ss) q h = Reads-append (Reads-append h.0 q) (join-Reads sep (t ∷ ss) q h.1)

spaced-Reads :
    (parts : List (List ℕ)) → All (λ s. Reads tag s tag []) parts → Reads tag (spaced parts) tag []
unfolding read
spaced-Reads [] h = record { reads = λ rest. refl }
spaced-Reads (s ∷ ss) h =
    Reads-append (silent " " (λ _. refl))
      (join-Reads (codes " ") (s ∷ ss) (silent " " (λ _. refl)) h)

pub build_table_attrs-Reads :
    (attrs : Option Json)
    → IsText (attr "class" attrs)
    → IsText (attr "style" attrs)
    → (html : List ℕ) × (build_table_attrs attrs ≡ ok html) × Reads tag html tag []
unfolding build_table_attrs read
build_table_attrs-Reads attrs c s =
    let (cls, e, rc) = escaped-Reads "class" (attr "class" attrs) (λ _. refl) c in
    let (style, e', rs) = escaped-Reads "style" (attr "style" attrs) (λ _. refl) s in
    (_, rw (e, e') refl, spaced-Reads (cls ++ style) (All-append _ cls style rc rs))

in_pixels-IsQuotable : (s : List ℕ) → IsQuotable s → IsQuotable (in_pixels s)
unfolding in_pixels
in_pixels-IsQuotable s h = elim (Bool-cases (includes (codes "%") s || includes (codes "px") s)) [
  | inl t ↦ rw t h
  | inr f ↦ rw f (All-append _ s (codes "px") h (refl, (refl, tt)))
]

module _ (to_string : Json → List ℕ) where
  -- The values that are put in a tag as they are cannot end their quotation, the level of a heading is
  -- one of digits, and the values that are escaped are texts.
  pub record IsPrintableNode (attrs : Option Json) : Type 0 where
    pub level_text : IsDigits (level to_string (attr "level" attrs))
    pub text_align : IsQuotable (string_of to_string (attr "textAlign" attrs))
    pub line_height : IsQuotable (string_of to_string (attr "lineHeight" attrs))
    pub plain_align : IsQuotable (string_of to_string (attr "text-align" attrs))
    pub vertical_align : IsQuotable (string_of to_string (attr "verticalAlign" attrs))
    pub background_color : IsQuotable (string_of to_string (attr "backgroundColor" attrs))
    pub colspan : IsQuotable (string_of to_string (attr "colspan" attrs))
    pub rowspan : IsQuotable (string_of to_string (attr "rowspan" attrs))
    pub width : IsQuotable (string_of to_string (attr "width" attrs))
    pub height : IsQuotable (string_of to_string (attr "height" attrs))
    pub class_text : IsText (attr "class" attrs)
    pub style_text : IsText (attr "style" attrs)
    pub source_text : IsText (attr "src" attrs)
    pub alt_text : IsText (attr "alt" attrs)
    pub title_text : IsText (attr "title" attrs)
    pub language_text : IsText (attr "language" attrs)

  record AreQuotable (parts : List (List ℕ)) : Type 0 where
    each : All IsQuotable parts

  AreQuotable-append :
      {ss ts : List (List ℕ)} → AreQuotable ss → AreQuotable ts → AreQuotable (ss ++ ts)
  AreQuotable-append {ss} {ts} h k = record { each = All-append IsQuotable ss ts h.each k.each }

  written :
      (test : Bool) (name : String) (s : List ℕ)
      → has_no_quote (codes name) ≡ true
      → IsQuotable s
      → AreQuotable (part_if test (codes name ++ s))
  written test name s n h = record {
    each =
        part_if-IsQuotable test (codes name ++ s)
          (All-append _ (codes name) s (has_no_quote-IsQuotable (codes name) n) h);
  }

  aligned :
      (attrs : Option Json)
      → IsPrintableNode attrs
      → AreQuotable (alignment to_string (attr "textAlign" attrs))
  aligned attrs h =
      let align = attr "textAlign" attrs in
      written (is_truthy align && is_not align "left") "text-align: " (string_of to_string align)
        refl h.text_align

  pub build_block_style-Reads :
      (attrs : Option Json)
      → IsPrintableNode attrs
      → Reads tag (build_block_style to_string attrs) tag []
  unfolding build_block_style
  build_block_style-Reads attrs h =
      style_attribute-Reads _
        (AreQuotable-append
          (AreQuotable-append (aligned attrs h) (
            written (is_truthy (attr "lineHeight" attrs)) "line-height: "
              (string_of to_string (attr "lineHeight" attrs)) refl h.line_height))
          (written (is_truthy (attr "text-align" attrs) && not (is_truthy (attr "textAlign" attrs)))
            "text-align: " (string_of to_string (attr "text-align" attrs)) refl h.plain_align)).each

  pub build_cell_style-Reads :
      (attrs : Option Json)
      → IsPrintableNode attrs
      → Reads tag (build_cell_style to_string attrs) tag []
  unfolding build_cell_style
  build_cell_style-Reads attrs h =
      style_attribute-Reads _
        (AreQuotable-append
          (AreQuotable-append (aligned attrs h) (
            written (is_truthy (attr "verticalAlign" attrs)) "vertical-align: "
              (string_of to_string (attr "verticalAlign" attrs)) refl h.vertical_align))
          (written (is_truthy (attr "backgroundColor" attrs)) "background-color: "
            (string_of to_string (attr "backgroundColor" attrs)) refl h.background_color)).each

  pub span_attribute-Reads :
      (start : String) (v : Option Json)
      → ((rest : List ℕ) → read tag (codes start ++ rest) ≡ read quoted rest)
      → IsQuotable (string_of to_string v)
      → Reads tag (span_attribute to_string start v) tag []
  unfolding read
  span_attribute-Reads start v s h = elim (Bool-cases (is_truthy v)) [
    | inl t ↦ rw t (attribute-Reads start (string_of to_string v) s h)
    | inr f ↦ rw f (record { reads = λ rest. refl })
  ]

  image_style-IsQuotable :
      (attrs : Option Json) → IsPrintableNode attrs → IsQuotable (image_style to_string attrs)
  unfolding image_style
  image_style-IsQuotable attrs h =
      let width = attr "width" attrs in
      let height = attr "height" attrs in
      join-IsQuotable (codes "; ") _ separator (
        has_no_quote-IsQuotable (codes "max-width: 100%") refl,
        (
          has_no_quote-IsQuotable (codes "height: auto") refl,
          (
            has_no_quote-IsQuotable (codes "display: block") refl,
            (AreQuotable-append
                (AreQuotable-append
                  (written (is_truthy width) "width: " (in_pixels (string_of to_string width)) refl
                    (in_pixels-IsQuotable (string_of to_string width) h.width))
                  (written (is_truthy width) "height: auto" [] refl tt))
                (written (is_truthy height && is_not height "auto") "height: "
                  (in_pixels (string_of to_string height)) refl
                  (in_pixels-IsQuotable (string_of to_string height) h.height))).each,
          ),
        ),
      )

  pub render_image-Reads :
      (attrs : Option Json)
      → IsPrintableNode attrs
      → (html : List ℕ) × (render_image to_string attrs ≡ ok html) × Reads text html text []
  unfolding render_image read
  render_image-Reads attrs h =
      let (src, e) = h.source_text in
      let (alt, e') = h.alt_text in
      let (title, e'', r) = escaped-Reads " title" (attr "title" attrs) (λ _. refl) h.title_text in
      (
        _,
        rw (e, e', e'') refl,
        Reads-append
            (Reads-append
              (Reads-append
                (Reads-append
                  (Reads-append
                    (Reads-append
                      (Reads-append
                        (Reads-append
                          (silent "<figure style=\"margin: 0.5em 0;\"><img src=\"" (λ _. refl))
                          (escape_attribute-Reads src))
                        (silent "\" alt=\"" (λ _. refl)))
                      (escape_attribute-Reads alt))
                    (silent "\"" (λ _. refl)))
                  (join-Reads [] title (record { reads = λ rest. refl }) r))
                (silent " style=\"" (λ _. refl)))
              (IsQuotable-Reads (image_style to_string attrs) (image_style-IsQuotable attrs h)))
            (silent "\" /></figure>" (λ _. refl)),
      )
