-- ===== src/Documents/Marks/Laws.antt =====
-- How the styles and the marks of src/documents/tiptap-renderer.service.ts are read.
use mathlib.Core.List.{reverse, reverse-cons, append-nil}
use crmp_backend.Base.{
  ℕ, String, Bool, true, false, Option, List, [], ◌∷◌, ◌++◌, Json, null, object, fields, lookup,
  attr, is_truthy, codes, join, ok, ◌≡◌, refl, sym, subst, All, All-append, Bool-cases, inl, inr,
}
use crmp_backend.Documents.Html.{escape_html, escape_attribute, Mode, text, tag, quoted, read}
use crmp_backend.Documents.Html.Reading.{
  Reads, Reads-append, IsQuotable, IsQuotable-Reads, escape_html-Reads, escape_attribute-IsQuotable,
  has_no_quote, has_no_quote-IsQuotable,
}
use crmp_backend.Documents.Marks.{
  text_or_empty, part_if, style_attribute, wrap, string_of, declared, apply_kind, apply_mark,
  apply_all, apply_marks, mark_kind, MarkKind, color_or_yellow, bold, italic, strike, code, link,
  highlight, text_style, underline, subscript, superscript, other_mark, styled,
}

-- What comes after a part and shows nothing.
pub Reads-silent :
    {m m' m'' : Mode} {s t out : List ℕ}
    → Reads m s m' out
    → Reads m' t m'' []
    → Reads m (s ++ t) m'' out
Reads-silent {m} {m'} {m''} {s} {t} {out} p q =
    subst (λ o. Reads m (s ++ t) m'' o) (append-nil out) (Reads-append p q)

-- A fixed part that shows nothing.
pub silent :
    {m m' : Mode} (part : String)
    → ((rest : List ℕ) → read m (codes part ++ rest) ≡ read m' rest)
    → Reads m (codes part) m' []
silent part same = record { reads = same }

pub join-IsQuotable :
    (sep : List ℕ) (parts : List (List ℕ))
    → IsQuotable sep
    → All IsQuotable parts
    → IsQuotable (join sep parts)
unfolding join
join-IsQuotable sep [] q h = tt
join-IsQuotable sep (s ∷ []) q h = h.0
join-IsQuotable sep (s ∷ t ∷ ss) q h =
    All-append _ (s ++ sep) _ (All-append _ s sep h.0 q) (join-IsQuotable sep (t ∷ ss) q h.1)

pub part_if-IsQuotable : (b : Bool) (s : List ℕ) → IsQuotable s → All IsQuotable (part_if b s)
part_if-IsQuotable true s h = (h, tt)
part_if-IsQuotable false s h = tt

pub separator : IsQuotable (codes "; ")
separator = (refl, (refl, tt))

pub style_attribute-Reads :
    (parts : List (List ℕ)) → All IsQuotable parts → Reads tag (style_attribute parts) tag []
unfolding read
style_attribute-Reads [] h = record { reads = λ rest. refl }
style_attribute-Reads (s ∷ ss) h =
    Reads-append
      (Reads-append (silent " style=\"" (λ rest. refl))
        (IsQuotable-Reads _ (join-IsQuotable (codes "; ") (s ∷ ss) separator h)))
      (silent "\"" (λ rest. refl))

-- A tag with a quoted value around a text shows the text.
tagged-Reads :
    (start value middle result finish : List ℕ) {out : List ℕ}
    → Reads text start quoted []
    → IsQuotable value
    → Reads quoted middle text []
    → Reads text result text out
    → Reads text finish text []
    → Reads text (start ++ value ++ middle ++ result ++ finish) text out
tagged-Reads start value middle result finish s v m r f =
    Reads-silent (Reads-append (Reads-append (Reads-append s (IsQuotable-Reads value v)) m) r) f

pub wrap-Reads :
    (start : String) (result : List ℕ) (finish : String) {out : List ℕ}
    → ((rest : List ℕ) → read text (codes start ++ rest) ≡ read text rest)
    → ((rest : List ℕ) → read text (codes finish ++ rest) ≡ read text rest)
    → Reads text result text out
    → Reads text (wrap start result finish) text out
wrap-Reads start result finish s f r =
    Reads-silent (Reads-append (silent start s) r) (silent finish f)

-- A value on which the renderer can call `.replace`, or a false one.
abbrev pub IsText : Option Json → Type 0
IsText v = (s : List ℕ) × (text_or_empty v ≡ ok s)

color_or_yellow-ok : (v : Option Json) → IsText v → (s : List ℕ) × (color_or_yellow v ≡ ok s)
color_or_yellow-ok v (s, e) = elim (Bool-cases (is_truthy v)) [
  | inl t ↦ (s, rw t e)
  | inr f ↦ (codes "yellow", rw f refl)
]

module _ (to_string : Json → List ℕ) where
  -- The values that are put in a tag as they are have no quotation mark in them, and those that are
  -- escaped are texts.
  pub record IsPrintableMark (attrs : Option Json) : Type 0 where
    pub font_family : IsQuotable (string_of to_string (attr "fontFamily" attrs))
    pub color : IsQuotable (string_of to_string (attr "color" attrs))
    pub font_size : IsQuotable (string_of to_string (attr "fontSize" attrs))
    pub href_text : IsText (attr "href" attrs)
    pub color_text : IsText (attr "color" attrs)

  pub declared-IsQuotable :
      (name : String) (v : Option Json)
      → has_no_quote (codes name) ≡ true
      → IsQuotable (string_of to_string v)
      → All IsQuotable (declared to_string name v)
  declared-IsQuotable name v n h =
      part_if-IsQuotable (is_truthy v) (codes name ++ string_of to_string v) (
        All-append _ (codes name) (string_of to_string v) (has_no_quote-IsQuotable (codes name) n)
          h)

  styled-Reads :
      (parts : List (List ℕ)) (result : List ℕ) {out : List ℕ}
      → All IsQuotable parts
      → Reads text result text out
      → (html : List ℕ) × (styled parts result ≡ ok html) × Reads text html text out
  unfolding read
  styled-Reads [] result q r = (result, refl, r)
  styled-Reads (s ∷ ss) result q r = (
    _,
    refl,
    tagged-Reads (codes "<span style=\"") (join (codes "; ") (s ∷ ss)) (codes "\">") result
        (codes "</span>") (silent "<span style=\"" (λ rest. refl))
        (join-IsQuotable (codes "; ") (s ∷ ss) separator q) (silent "\">" (λ rest. refl)) r
        (silent "</span>" (λ rest. refl)),
  )

  wrapped :
      (start : String) (result : List ℕ) (finish : String) {out : List ℕ}
      → ((rest : List ℕ) → read text (codes start ++ rest) ≡ read text rest)
      → ((rest : List ℕ) → read text (codes finish ++ rest) ≡ read text rest)
      → Reads text result text out
      → (html : List ℕ) × (ok (wrap start result finish) ≡ ok html) × Reads text html text out
  wrapped start result finish s f r = (_, refl, wrap-Reads start result finish s f r)

  apply_kind-Reads :
      (k : MarkKind) (attrs : Option Json) (result : List ℕ) {out : List ℕ}
      → IsPrintableMark attrs
      → Reads text result text out
      → (html : List ℕ) × (apply_kind to_string k attrs result ≡ ok html) × Reads text html text out
  unfolding apply_kind read
  apply_kind-Reads bold attrs result h r =
      wrapped "<strong>" result "</strong>" (λ _. refl) (λ _. refl) r
  apply_kind-Reads italic attrs result h r = wrapped "<em>" result "</em>" (λ _. refl) (λ _. refl) r
  apply_kind-Reads strike attrs result h r =
      wrapped "<del>" result "</del>" (λ _. refl) (λ _. refl) r
  apply_kind-Reads code attrs result h r =
      wrapped "<code>" result "</code>" (λ _. refl) (λ _. refl) r
  apply_kind-Reads link attrs result h r =
      let (href, e) = h.href_text in
      (
        _,
        rw e refl,
        tagged-Reads (codes "<a href=\"") (escape_attribute href) (codes "\">") result
            (codes "</a>") (silent "<a href=\"" (λ _. refl)) (escape_attribute-IsQuotable href)
            (silent "\">" (λ _. refl)) r (silent "</a>" (λ _. refl)),
      )
  apply_kind-Reads highlight attrs result h r =
      let (color, e) = color_or_yellow-ok (attr "color" attrs) h.color_text in
      (
        _,
        rw e refl,
        tagged-Reads (codes "<mark style=\"background-color: ") (escape_attribute color)
            (codes ";\">") result (codes "</mark>")
            (silent "<mark style=\"background-color: " (λ _. refl))
            (escape_attribute-IsQuotable color) (silent ";\">" (λ _. refl)) r
            (silent "</mark>" (λ _. refl)),
      )
  apply_kind-Reads text_style attrs result h r =
      styled-Reads
        (declared to_string "font-family: " (attr "fontFamily" attrs)
          ++ declared to_string "color: " (attr "color" attrs)
          ++ declared to_string "font-size: " (attr "fontSize" attrs))
        result
        (All-append _ _ _
          (All-append _ _ _ (declared-IsQuotable "font-family: " _ refl h.font_family)
            (declared-IsQuotable "color: " _ refl h.color))
          (declared-IsQuotable "font-size: " _ refl h.font_size))
        r
  apply_kind-Reads underline attrs result h r =
      wrapped "<u>" result "</u>" (λ _. refl) (λ _. refl) r
  apply_kind-Reads subscript attrs result h r =
      wrapped "<sub>" result "</sub>" (λ _. refl) (λ _. refl) r
  apply_kind-Reads superscript attrs result h r =
      wrapped "<sup>" result "</sup>" (λ _. refl) (λ _. refl) r
  apply_kind-Reads other_mark attrs result h r = (result, refl, r)

  -- What the renderer needs of a mark: not to be null, and printable attributes.
  abbrev pub IsPrintable : Json → Type 0
  IsPrintable null = ⊥
  IsPrintable (object fs) = IsPrintableMark (lookup "attrs" (fields fs))
  IsPrintable _ = Unit

  apply_mark-Reads :
      (m : Json) (result : List ℕ) {out : List ℕ}
      → IsPrintable m
      → Reads text result text out
      → (html : List ℕ) × (apply_mark to_string m result ≡ ok html) × Reads text html text out
  unfolding apply_mark
  apply_mark-Reads null result h r = absurd h
  apply_mark-Reads (object fs) result h r =
      apply_kind-Reads (mark_kind (lookup "type" (fields fs))) (lookup "attrs" (fields fs)) result h
        r
  apply_mark-Reads _ result h r = (result, refl, r)

  apply_all-Reads :
      (ms : List Json) (result : List ℕ) {out : List ℕ}
      → All IsPrintable ms
      → Reads text result text out
      → (html : List ℕ) × (apply_all to_string ms result ≡ ok html) × Reads text html text out
  unfolding apply_all
  apply_all-Reads [] result h r = (result, refl, r)
  apply_all-Reads (m ∷ ms) result h r =
      let (marked, e, r) = apply_mark-Reads m result h.0 r in
      let (html, e', r) = apply_all-Reads ms marked h.1 r in (html, rw e e', r)

  reverse-All : (ms : List Json) → All IsPrintable ms → All IsPrintable (reverse ms)
  reverse-All [] h = tt
  reverse-All (m ∷ ms) h =
      subst (All IsPrintable) (sym (reverse-cons m ms))
        (All-append IsPrintable (reverse ms) (m ∷ []) (reverse-All ms h.1) (h.0, tt))

  -- Marked text shows the text.
  pub apply_marks-Reads :
      (s : List ℕ) (ms : List Json)
      → All IsPrintable ms
      → (html : List ℕ) × (apply_marks to_string s ms ≡ ok html) × Reads text html text s
  unfolding apply_marks
  apply_marks-Reads s ms h =
      apply_all-Reads (reverse ms) (escape_html s) (reverse-All ms h) (escape_html-Reads s)
