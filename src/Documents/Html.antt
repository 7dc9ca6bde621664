-- ===== src/Documents/Html.antt =====
-- HTML text: `escapeHtml` and `escapeAttribute` of src/documents/tiptap-renderer.service.ts, and how
-- the text of a page is told from its tags, against which the renderer is judged.
pub mod Reading
use crmp_backend.Base.{
  codes_eq, ℕ, List, [], ◌∷◌, ◌++◌, codes, replace_all, ◌==◌, if◌then◌else◌, Bool, true, false,
  ◌&&◌, ◌||◌,
}

unfoldable pub escape_html : List ℕ → List ℕ
unfolding replace_all
escape_html text = replace_all b'\'' (codes "&#39;") (
    replace_all b'"' (codes "&quot;") (
      replace_all b'>' (codes "&gt;")
        (replace_all b'<' (codes "&lt;") (replace_all b'&' (codes "&amp;") text))))

unfoldable pub escape_attribute : List ℕ → List ℕ
unfolding escape_html
escape_attribute value = escape_html value

-- Where a reader is: in the text, in a tag, in a value of a tag in either kind of quotation marks, or in a character reference of
-- which it has read the name so far.
pub data Mode : Type 0 where
  text tag quoted single_quoted : Mode
  reference : List ℕ → Mode

-- The character that a reference names. The blank and unknown ones show nothing.
unfoldable pub referred : List ℕ → List ℕ
referred name =
    if codes_eq name (codes "amp")
    then b'&' ∷ []
    else if codes_eq name (codes "lt")
    then b'<' ∷ []
    else if codes_eq name (codes "gt")
    then b'>' ∷ []
    else if codes_eq name (codes "quot")
    then b'"' ∷ []
    else if codes_eq name (codes "#39")
    then b'\'' ∷ []
    else []

unfoldable pub next_mode : Mode → ℕ → Mode
next_mode text c = if c == b'<' then tag else if c == b'&' then reference [] else text
next_mode tag c =
    if c == b'>'
    then text
    else if c == b'"'
    then quoted
    else if c == b'\''
    then single_quoted
    else tag
next_mode quoted c = if c == b'"' then tag else quoted
next_mode single_quoted c = if c == b'\'' then tag else single_quoted
next_mode (reference name) c = if c == b';' then text else reference (name ++ c ∷ [])

unfoldable pub shown_by : Mode → ℕ → List ℕ
unfolding referred
shown_by text c = if c == b'<' || c == b'&' then [] else c ∷ []
shown_by tag c = []
shown_by quoted c = []
shown_by single_quoted c = []
shown_by (reference name) c = if c == b';' then referred name else []

unfoldable pub read : Mode → List ℕ → List ℕ
unfolding next_mode shown_by
read m [] = []
read m (c ∷ cs) = shown_by m c ++ read (next_mode m c) cs

-- The text of a page: what stands outside its tags, in its order, with the references resolved. That a
-- style may hide a part, or that a browser moves text out of a table, is not looked at.
unfoldable pub shown : List ℕ → List ℕ
unfolding read
shown html = read text html
