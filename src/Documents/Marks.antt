-- ===== src/Documents/Marks.antt =====
-- Marks and attributes in HTML: `applyMarks`, `buildBlockStyle`, `buildTableAttrs` and
-- `buildCellStyle` of src/documents/tiptap-renderer.service.ts.
pub mod Laws
use mathlib.Core.List.{reverse}
use crmp_backend.Base.{
  ℕ, String, str_eq, Bool, true, false, not, ◌&&◌, Option, none, some, List, [], ◌∷◌, ◌++◌, Json,
  null, bool, number, str, array, object, items, fields, lookup, attr, is_truthy, codes, join,
  if◌then◌else◌, Result, ok, err, internal_server_error, ◌>>=◌, map_result,
}
use crmp_backend.Documents.Html.{escape_html, escape_attribute}

-- `v || ''` where `.replace` is called on it next, which only a text has.
abbrev pub text_or_empty : Option Json → Result (List ℕ)
text_or_empty (some (str s)) = ok (codes s)
text_or_empty v = if is_truthy v then err internal_server_error else ok []

-- `v !== text`
abbrev pub is_not : Option Json → String → Bool
is_not (some (str s)) t = not (str_eq s t)
is_not _ t = true

-- `parts.push(…)` under `if (test)`
abbrev pub part_if : Bool → List ℕ → List (List ℕ)
part_if true part = part ∷ []
part_if false part = []

-- ` style="…"`, unless there are no parts
abbrev pub style_attribute : List (List ℕ) → List ℕ
style_attribute [] = []
style_attribute (s ∷ ss) = codes " style=\"" ++ join (codes "; ") (s ∷ ss) ++ codes "\""

-- `[...marks]` where `marks?.length` is not 0. The characters of a text are no marks with a type.
abbrev pub mark_list : Option Json → Result (List Json)
mark_list (some (array ms)) = ok (items ms)
mark_list (some (object fs)) =
    if is_truthy (lookup "length" (fields fs)) then err internal_server_error else ok []
mark_list _ = ok []

-- `switch (mark.type)`
pub data MarkKind : Type 0 where
  bold italic strike code link highlight text_style underline subscript superscript other_mark :
      MarkKind

unfoldable pub mark_kind : Option Json → MarkKind
mark_kind (some (str s)) =
    if str_eq s "bold"
    then bold
    else if str_eq s "italic"
    then italic
    else if str_eq s "strike"
    then strike
    else if str_eq s "code"
    then code
    else if str_eq s "link"
    then link
    else if str_eq s "highlight"
    then highlight
    else if str_eq s "textStyle"
    then text_style
    else if str_eq s "underline"
    then underline
    else if str_eq s "subscript"
    then subscript
    else if str_eq s "superscript"
    then superscript
    else other_mark
mark_kind _ = other_mark

abbrev pub wrap : String → List ℕ → String → List ℕ
wrap open_tag inner close_tag = codes open_tag ++ inner ++ codes close_tag

-- `name="…"` with an escaped value, if there is one
abbrev pub escaped : String → Option Json → Result (List (List ℕ))
escaped name v =
    if is_truthy v
    then map_result (λ s. (codes name ++ codes "=\"" ++ escape_attribute s ++ codes "\"") ∷ [])
        (text_or_empty v)
    else ok []

abbrev pub spaced : List (List ℕ) → List ℕ
spaced [] = []
spaced (s ∷ ss) = codes " " ++ join (codes " ") (s ∷ ss)

unfoldable pub build_table_attrs : Option Json → Result (List ℕ)
unfolding attr escape_attribute
build_table_attrs attrs = do
  cls ← escaped "class" (attr "class" attrs)
  style ← escaped "style" (attr "style" attrs)
  ok (spaced (cls ++ style))

-- A `span` around the text, unless there are no parts.
abbrev pub styled : List (List ℕ) → List ℕ → Result (List ℕ)
styled [] result = ok result
styled (s ∷ ss) result = ok (
    codes "<span style=\""
    ++ join (codes "; ") (s ∷ ss)
    ++ codes "\">"
    ++ result
    ++ codes "</span>")

abbrev pub color_or_yellow : Option Json → Result (List ℕ)
color_or_yellow v = if is_truthy v then text_or_empty v else ok (codes "yellow")

-- `String(v)` of an array or an object is the runtime's.
module _ (to_string : Json → List ℕ) where
  -- `${v}`
  abbrev pub string_of : Option Json → List ℕ
  string_of none = codes "undefined"
  string_of (some null) = codes "null"
  string_of (some (bool true)) = codes "true"
  string_of (some (bool false)) = codes "false"
  string_of (some (number s)) = codes s
  string_of (some (str s)) = codes s
  string_of (some v) = to_string v

  -- `if (attrs.key) parts.push(`name: ${attrs.key}`)`
  abbrev pub declared : String → Option Json → List (List ℕ)
  declared name v = part_if (is_truthy v) (codes name ++ string_of v)

  abbrev pub alignment : Option Json → List (List ℕ)
  alignment v = part_if (is_truthy v && is_not v "left") (codes "text-align: " ++ string_of v)

  -- Missing attributes have no parts.
  unfoldable pub build_block_style : Option Json → List ℕ
  unfolding attr
  build_block_style attrs = style_attribute (
      alignment (attr "textAlign" attrs)
      ++ declared "line-height: " (attr "lineHeight" attrs)
      ++ part_if (is_truthy (attr "text-align" attrs) && not (is_truthy (attr "textAlign" attrs)))
          (codes "text-align: " ++ string_of (attr "text-align" attrs)))

  unfoldable pub build_cell_style : Option Json → List ℕ
  unfolding attr
  build_cell_style attrs = style_attribute (
      alignment (attr "textAlign" attrs)
      ++ declared "vertical-align: " (attr "verticalAlign" attrs)
      ++ declared "background-color: " (attr "backgroundColor" attrs))

  -- The branch of the `switch` for a mark's type.
  unfoldable pub apply_kind : MarkKind → Option Json → List ℕ → Result (List ℕ)
  unfolding attr escape_attribute
  apply_kind bold attrs result = ok (wrap "<strong>" result "</strong>")
  apply_kind italic attrs result = ok (wrap "<em>" result "</em>")
  apply_kind strike attrs result = ok (wrap "<del>" result "</del>")
  apply_kind code attrs result = ok (wrap "<code>" result "</code>")
  apply_kind link attrs result =
      map_result
        (λ href.
          codes "<a href=\"" ++ escape_attribute href ++ codes "\">" ++ result ++ codes "</a>")
        (text_or_empty (attr "href" attrs))
  apply_kind highlight attrs result =
      map_result
        (λ color.
          codes "<mark style=\"background-color: "
          ++ escape_attribute color
          ++ codes ";\">"
          ++ result
          ++ codes "</mark>")
        (color_or_yellow (attr "color" attrs))
  apply_kind text_style attrs result =
      styled
        (declared "font-family: " (attr "fontFamily" attrs)
          ++ declared "color: " (attr "color" attrs)
          ++ declared "font-size: " (attr "fontSize" attrs))
        result
  apply_kind underline attrs result = ok (wrap "<u>" result "</u>")
  apply_kind subscript attrs result = ok (wrap "<sub>" result "</sub>")
  apply_kind superscript attrs result = ok (wrap "<sup>" result "</sup>")
  apply_kind other_mark attrs result = ok result

  -- One round of the loop over the marks.
  unfoldable pub apply_mark : Json → List ℕ → Result (List ℕ)
  unfolding apply_kind lookup mark_kind
  apply_mark null result = err internal_server_error
  apply_mark (object fs) result =
      apply_kind (mark_kind (lookup "type" (fields fs))) (lookup "attrs" (fields fs)) result
  apply_mark _ result = ok result

  unfoldable pub apply_all : List Json → List ℕ → Result (List ℕ)
  unfolding apply_mark
  apply_all [] result = ok result
  apply_all (m ∷ ms) result = apply_mark m result >>= apply_all ms

  unfoldable pub apply_marks : List ℕ → List Json → Result (List ℕ)
  unfolding apply_all escape_html
  apply_marks text marks = apply_all (reverse marks) (escape_html text)
