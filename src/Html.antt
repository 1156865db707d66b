-- ===== src/Html.antt =====
-- static/js/utils.js, `escapeHtml`: what turns user text into text that is safe between the tags and
-- in the attribute values of the html that the views write.
use wuflow.Base.{
  ℕ, Bool, false, ◌||◌, Option, none, some, [], ◌∷◌, ◌++◌, ◌==◌, if◌then◌else◌, ◌≡◌, refl, ap, ◌∙◌,
  All, All-append, Bool-cases, inl, inr,
}
use wuflow.Model.{Text}
use wuflow.StatusConfig.{text}

-- `text.replaceAll(c, by)` for a string `c` of one character
unfoldable pub replace_all : ℕ → Text → Text → Text
replace_all c by [] = []
replace_all c by (d ∷ ds) =
    let rest = replace_all c by ds in if d == c then by ++ rest else d ∷ rest

-- `escapeHtml`; null and undefined give ''.
unfoldable pub escape_html : Option Text → Text
unfolding replace_all
escape_html none = []
escape_html (some t) = replace_all 39 (text "&#039;") (
    replace_all 34 (text "&quot;") (
      replace_all 62 (text "&gt;")
        (replace_all 60 (text "&lt;") (replace_all 38 (text "&amp;") t))))

-- What stands for one character.
abbrev pub escaped : ℕ → Text
escaped c =
    if c == 38
    then text "&amp;"
    else if c == 60
    then text "&lt;"
    else if c == 62
    then text "&gt;"
    else if c == 34
    then text "&quot;"
    else if c == 39
    then text "&#039;"
    else c ∷ []

abbrev pub escaped_text : Text → Text
escaped_text [] = []
escaped_text (c ∷ cs) = escaped c ++ escaped_text cs

-- The five replacements of a text that starts with one character.
escape_html-cons :
    (c : ℕ) (cs : Text) → escape_html (some (c ∷ cs)) ≡ escaped c ++ escape_html (some cs)
unfolding escape_html
escape_html-cons c cs = elim (Bool-cases (c == 38)) [
  | inl t ↦ rw t refl
  | inr t ↦ rw t (elim (Bool-cases (c == 60)) [
    | inl t ↦ rw t refl
    | inr t ↦ rw t (elim (Bool-cases (c == 62)) [
      | inl t ↦ rw t refl
      | inr t ↦ rw t (elim (Bool-cases (c == 34)) [
        | inl t ↦ rw t refl
        | inr t ↦ rw t (elim (Bool-cases (c == 39)) [ inl t ↦ rw t refl | inr t ↦ rw t refl ])
      ])
    ])
  ])
]

escape_html-empty : escape_html (some []) ≡ []
unfolding escape_html
escape_html-empty = refl

escape_html-escaped : (t : Text) → escape_html (some t) ≡ escaped_text t
escape_html-escaped [] = escape_html-empty
escape_html-escaped (c ∷ cs) = escape_html-cons c cs ∙ ap (escaped c ++◌) (escape_html-escaped cs)

-- The characters that end a text or an attribute value.
abbrev pub is_markup : ℕ → Bool
is_markup c = c == 60 || c == 62 || c == 34 || c == 39

abbrev IsPlain : ℕ → Type 0
IsPlain c = is_markup c ≡ false

escaped-IsPlain : (c : ℕ) → All IsPlain (escaped c)
escaped-IsPlain c = elim (Bool-cases (c == 38)) [
  | inl t ↦ rw t (refl, (refl, (refl, (refl, (refl, tt)))))
  | inr t ↦ rw t (elim (Bool-cases (c == 60)) [
    | inl t ↦ rw t (refl, (refl, (refl, (refl, tt))))
    | inr t ↦ rw t (elim (Bool-cases (c == 62)) [
      | inl u ↦ rw u (refl, (refl, (refl, (refl, tt))))
      | inr u ↦ rw u (elim (Bool-cases (c == 34)) [
        | inl v ↦ rw v (refl, (refl, (refl, (refl, (refl, (refl, tt))))))
        | inr v ↦ rw v (elim (Bool-cases (c == 39)) [
          | inl w ↦ rw w (refl, (refl, (refl, (refl, (refl, (refl, tt))))))
          | inr w ↦ rw w (rw (t, u, v, w) refl, tt)
        ])
      ])
    ])
  ])
]

escaped_text-IsPlain : (t : Text) → All IsPlain (escaped_text t)
escaped_text-IsPlain [] = tt
escaped_text-IsPlain (c ∷ cs) =
    All-append IsPlain (escaped c) (escaped_text cs) (escaped-IsPlain c) (escaped_text-IsPlain cs)

-- The five replacements, one behind the other, are one pass that replaces each of the five
-- characters by its reference and no character of a reference again, and the result has no `<`,
-- `>`, `"` or `'`.
pub escape_html-IsPlain :
    (t : Text)
    → (escape_html (some t) ≡ escaped_text t)
      × All (λ c. is_markup c ≡ false) (escape_html (some t))
escape_html-IsPlain t = let e = escape_html-escaped t in (e, rw e (escaped_text-IsPlain t))
