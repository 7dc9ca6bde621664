-- ===== src/Documents/Html/Reading.antt =====
-- What the reader of a page finds in the escaped text and the tags of
-- src/documents/tiptap-renderer.service.ts.
use mathlib.Core.List.{append_assoc, append-nil}
use crmp_backend.Base.{
  ℕ, List, [], ◌∷◌, ◌++◌, codes, replace_all, ◌==◌, leb, arith, if◌then◌else◌, ◌≡◌, refl, ap, ◌∙◌,
  sym, All, Bool-cases, inl, inr, Bool, true, false, not, ◌&&◌, ==_iff, subst, All-append,
}
use crmp_backend.Documents.Html.{
  escape_html, escape_attribute, Mode, text, tag, quoted, read, shown,
}

-- The reader goes through a part from one place to another and shows something of it.
pub record Reads (m : Mode) (part : List ℕ) (m' : Mode) (out : List ℕ) : Type 0 where
  pub reads : (rest : List ℕ) → read m (part ++ rest) ≡ out ++ read m' rest

pub Reads-append :
    {m m' m'' : Mode} {s t out out' : List ℕ}
    → Reads m s m' out
    → Reads m' t m'' out'
    → Reads m (s ++ t) m'' (out ++ out')
Reads-append {m} {m'} {m''} {s} {t} {out} {out'} p q = record {
  reads = λ rest.
      rw (append_assoc s t rest, p.reads (t ++ rest), q.reads rest)
        (sym (append_assoc out out' (read m'' rest)));
}

replace_all-append :
    (c : ℕ) (by xs ys : List ℕ)
    → replace_all c by (xs ++ ys) ≡ replace_all c by xs ++ replace_all c by ys
unfolding replace_all
replace_all-append c by [] ys = refl
replace_all-append c by (x ∷ xs) ys =
    let put = if x == c then by else x ∷ [] in
    ap (λ s. put ++ s) (replace_all-append c by xs ys)
    ∙ sym (append_assoc put (replace_all c by xs) (replace_all c by ys))

pub escape_html-append :
    (xs ys : List ℕ) → escape_html (xs ++ ys) ≡ escape_html xs ++ escape_html ys
unfolding escape_html
escape_html-append xs ys = simp replace_all-append

-- A special character comes back from its reference.
special :
    (x c : ℕ)
    → (x == c) ≡ true
    → Reads text (escape_html (c ∷ [])) text (c ∷ [])
    → Reads text (escape_html (x ∷ [])) text (x ∷ [])
special x c e shows =
    subst (λ k. Reads text (escape_html (k ∷ [])) text (k ∷ [])) (sym ((==_iff x c).0 e)) shows

plain :
    (x : ℕ)
    → (x == b'&') ≡ false
    → (x == b'<') ≡ false
    → (x == b'>') ≡ false
    → (x == b'"') ≡ false
    → (x == b'\'') ≡ false
    → Reads text (escape_html (x ∷ [])) text (x ∷ [])
unfolding escape_html read
plain x a l g d s = record { reads = λ rest. rw (a, l, g, d, s, a, l) refl }

escaped_character : (x : ℕ) → Reads text (escape_html (x ∷ [])) text (x ∷ [])
unfolding escape_html read
escaped_character x = elim (Bool-cases (x == b'&')) [
  | inl e ↦ special x b'&' e (record { reads = λ rest. refl })
  | inr a ↦ elim (Bool-cases (x == b'<')) [
    | inl e ↦ special x b'<' e (record { reads = λ rest. refl })
    | inr l ↦ elim (Bool-cases (x == b'>')) [
      | inl e ↦ special x b'>' e (record { reads = λ rest. refl })
      | inr g ↦ elim (Bool-cases (x == b'"')) [
        | inl e ↦ special x b'"' e (record { reads = λ rest. refl })
        | inr d ↦ elim (Bool-cases (x == b'\'')) [
          | inl e ↦ special x b'\'' e (record { reads = λ rest. refl })
          | inr s ↦ plain x a l g d s
        ]
      ]
    ]
  ]
]

-- Escaped text is shown as it was.
pub escape_html-Reads : (s : List ℕ) → Reads text (escape_html s) text s
unfolding escape_html read
escape_html-Reads [] = record { reads = λ rest. refl }
escape_html-Reads (x ∷ xs) =
    subst (λ e. Reads text e text (x ∷ xs)) (sym (escape_html-append (x ∷ []) xs))
      (Reads-append (escaped_character x) (escape_html-Reads xs))

pub shown-eq : {html out : List ℕ} → Reads text html text out → shown html ≡ out
unfolding shown read
shown-eq {html} {out} r = ap (read text) (sym (append-nil html)) ∙ r.reads [] ∙ append-nil out

-- A page that is an escaped text, with nothing around it, is read as the text itself.
pub shown-escape_html : (s : List ℕ) → shown (escape_html s) ≡ s
shown-escape_html s = shown-eq (escape_html-Reads s)

-- Text that cannot end a quoted value, and text that cannot end a tag or begin a quoted value in it.
abbrev pub IsQuotable : List ℕ → Type 0
IsQuotable = All (λ c. (c == b'"') ≡ false)

abbrev pub IsTagText : List ℕ → Type 0
IsTagText = All (λ c. ((c == b'>') ≡ false) × ((c == b'"') ≡ false) × ((c == b'\'') ≡ false))

abbrev pub IsDigits : List ℕ → Type 0
IsDigits = All (λ c. (leb b'0' c && leb c b'9') ≡ true)

pub IsDigits-IsTagText : (s : List ℕ) → IsDigits s → IsTagText s
IsDigits-IsTagText [] h = tt
IsDigits-IsTagText (c ∷ cs) (one, more) =
    ((ground (arith, one), ground (arith, one), ground (arith, one)), IsDigits-IsTagText cs more)

-- The same as tests.
abbrev pub has_no_quote : List ℕ → Bool
has_no_quote [] = true
has_no_quote (c ∷ cs) = not (c == b'"') && has_no_quote cs

pub has_no_quote-IsQuotable : (s : List ℕ) → has_no_quote s ≡ true → IsQuotable s
has_no_quote-IsQuotable [] h = tt
has_no_quote-IsQuotable (c ∷ cs) h = elim (Bool-cases (c == b'"')) [
  | inl e ↦ cc (rw e at h)
  | inr e ↦ (e, has_no_quote-IsQuotable cs (rw e at h))
]

pub IsQuotable-Reads : (s : List ℕ) → IsQuotable s → Reads quoted s quoted []
unfolding read
IsQuotable-Reads [] h = record { reads = λ rest. refl }
IsQuotable-Reads (x ∷ xs) h =
    let more = IsQuotable-Reads xs h.1 in record { reads = λ rest. rw (h.0) (more.reads rest) }

pub IsTagText-Reads : (s : List ℕ) → IsTagText s → Reads tag s tag []
unfolding read
IsTagText-Reads [] h = record { reads = λ rest. refl }
IsTagText-Reads (x ∷ xs) h =
    let more = IsTagText-Reads xs h.1 in
    record { reads = λ rest. rw (h.0.0, h.0.1, h.0.2) (more.reads rest) }

replace_all-IsQuotable :
    (c : ℕ) (by s : List ℕ) → IsQuotable by → IsQuotable s → IsQuotable (replace_all c by s)
unfolding replace_all
replace_all-IsQuotable c by [] b h = tt
replace_all-IsQuotable c by (x ∷ xs) b h = elim (Bool-cases (x == c)) [
  | inl e ↦ rw e (All-append _ by _ b (replace_all-IsQuotable c by xs b h.1))
  | inr e ↦ rw e (h.0, replace_all-IsQuotable c by xs b h.1)
]

no_quotes : (s : List ℕ) → IsQuotable (replace_all b'"' (codes "&quot;") s)
unfolding replace_all
no_quotes [] = tt
no_quotes (x ∷ xs) = elim (Bool-cases (x == b'"')) [
  | inl e ↦ rw e (refl, (refl, (refl, (refl, (refl, (refl, no_quotes xs))))))
  | inr e ↦ rw e (e, no_quotes xs)
]

-- An escaped value stays within its quotation marks, whatever it is.
pub escape_attribute-IsQuotable : (s : List ℕ) → IsQuotable (escape_attribute s)
unfolding escape_attribute
escape_attribute-IsQuotable s =
    let before =
      replace_all b'>' (codes "&gt;")
        (replace_all b'<' (codes "&lt;") (replace_all b'&' (codes "&amp;") s)) in
    replace_all-IsQuotable b'\'' (codes "&#39;") (replace_all b'"' (codes "&quot;") before)
      (refl, (refl, (refl, (refl, (refl, tt))))) (no_quotes before)

pub escape_attribute-Reads : (s : List ℕ) → Reads quoted (escape_attribute s) quoted []
escape_attribute-Reads s = IsQuotable-Reads (escape_attribute s) (escape_attribute-IsQuotable s)
