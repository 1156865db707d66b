-- ===== src/Users/Password/Agree.antt =====
-- The two password policies agree.
use wuflow.Base.{
  ℕ, suc, ◌+◌, ◌≤◌, ◌<◌, Bool, true, false, not, ◌&&◌, List, [], ◌∷◌, map, any, ◌==◌, leb, ltb,
  if◌then◌else◌, length, All, ◌≡◌, refl, sym, ap, subst, ◌∙◌, Bool-cases, inl, inr, arith,
}
use wuflow.Model.{Text}
use wuflow.Text.{is_empty, text_eq}
use wuflow.Tasks.{count_codepoints, codepoints_behind, is_high_surrogate, is_low_surrogate}
use wuflow.Users.Password.{
  min_password_length, password_blacklist, replace_leet, leet_replacements, blocks,
  is_blacklisted_password, validate_password_policy,
}
use wuflow.Users.Password.Backend.{replaced, is_blacklisted, validate_password}

-- One replacement after the other is the same as each character replaced once.
replace_leet_step :
    (c : ℕ) (s : Text)
    → replace_leet leet_replacements (c ∷ s) ≡ replaced c ∷ replace_leet leet_replacements s
replace_leet_step c s = elim (Bool-cases (c == 48)) [
  | inl h ↦ rw h refl
  | inr h ↦ elim (Bool-cases (c == 49)) [
    | inl i ↦ rw (h, i) refl
    | inr i ↦ elim (Bool-cases (c == 51)) [
      | inl j ↦ rw (h, i, j) refl
      | inr j ↦ elim (Bool-cases (c == 52)) [
        | inl k ↦ rw (h, i, j, k) refl
        | inr k ↦ elim (Bool-cases (c == 53)) [
          | inl l ↦ rw (h, i, j, k, l) refl
          | inr l ↦ elim (Bool-cases (c == 64)) [
            | inl m ↦ rw (h, i, j, k, l, m) refl
            | inr m ↦ elim (Bool-cases (c == 36)) [
              | inl n ↦ rw (h, i, j, k, l, m, n) refl
              | inr n ↦ elim (Bool-cases (c == 33)) [
                | inl o ↦ rw (h, i, j, k, l, m, n, o) refl
                | inr o ↦ rw (h, i, j, k, l, m, n, o) refl
              ]
            ]
          ]
        ]
      ]
    ]
  ]
]

replace_leet-replaced : (s : Text) → replace_leet leet_replacements s ≡ map replaced s
replace_leet-replaced [] = refl
replace_leet-replaced (c ∷ s) = replace_leet_step c s ∙ ap (replaced c ∷◌) (replace_leet-replaced s)

-- A text has at most as many characters as code units.
codepoints_behind-length : (high : Bool) (s : Text) → codepoints_behind high s ≤ length s
codepoints_behind-length high [] = omega arith
codepoints_behind-length high (c ∷ s) = elim (Bool-cases (high && is_low_surrogate c)) [
  | inl t ↦ rw t (omega (arith, codepoints_behind-length false s))
  | inr t ↦ rw t (omega (arith, codepoints_behind-length (is_high_surrogate c) s))
]

count_codepoints-length : (s : Text) → count_codepoints s ≤ length s
unfolding count_codepoints
count_codepoints-length s = codepoints_behind-length false s

text_eq-length : (a b : Text) → text_eq a b ≡ true → length a ≡ length b
unfolding text_eq
text_eq-length [] [] h = refl
text_eq-length [] (d ∷ b) h = cc
text_eq-length (c ∷ a) [] h = cc
text_eq-length (c ∷ a) (d ∷ b) h = elim (Bool-cases (c == d)) [
  | inl k ↦ ap suc (text_eq-length a b (subst (λ (x : Bool). x && text_eq a b ≡ true) k h))
  | inr k ↦ absurd (ground (arith, h, k))
]

-- No word of the list is as long as a password.
no_long_word :
    (ws : List Text) (s : Text)
    → any (λ (w : Text). leb 12 (length w)) ws ≡ false
    → 12 ≤ length s
    → any (λ (w : Text). text_eq w s) ws ≡ false
no_long_word [] s a h = refl
no_long_word (w ∷ ws) s a h = elim (Bool-cases (text_eq w s)) [
  | inl t ↦ let same = text_eq-length w s t in absurd (ground arith)
  | inr t ↦ rw t (no_long_word ws s (ground arith) h)
]

map-length : (f : ℕ → ℕ) (s : Text) → length (map f s) ≡ length s
map-length f [] = refl
map-length f (c ∷ s) = ap suc (map-length f s)

abbrev pub IsAscii : Text → Type 0
IsAscii t = All (λ (c : ℕ). c < 128) t

abbrev pub ascii_lower : ℕ → ℕ
ascii_lower c = if leb 65 c && leb c 90 then c + 32 else c

module _ (lower to_lower : Text → Text) (equal_fold : Text → Text → Bool)
    (lower_ascii : (t : Text) → IsAscii t → lower t ≡ map ascii_lower t)
    (to_lower_ascii : (t : Text) → IsAscii t → to_lower t ≡ map ascii_lower t)
    (equal_fold_ascii : (a b : Text)
      → IsAscii a
      → IsAscii b
      → equal_fold a b ≡ text_eq (map ascii_lower a) (map ascii_lower b)) where
  same_blacklist :
      (password : Text)
      → IsAscii password
      → 12 ≤ length password
      → is_blacklisted_password lower password ≡ is_blacklisted to_lower password
  unfolding is_blacklisted_password is_blacklisted
  same_blacklist password a long =
      let small = map ascii_lower password in
      rw
        (
          lower_ascii password a,
          to_lower_ascii password a,
          no_long_word password_blacklist small refl (rw (map-length ascii_lower password) long),
        )
        (ap (λ (s : Text). any (blocks s) password_blacklist) (replace_leet-replaced small))

  same_email :
      (password email : Text)
      → IsAscii password
      → IsAscii email
      → 12 ≤ length password
      → (not (is_empty email) && text_eq (lower password) (lower email)) ≡ equal_fold password email
  unfolding text_eq
  same_email [] email a b long = absurd (omega arith)
  same_email (c ∷ s) [] a b long = sym (equal_fold_ascii (c ∷ s) [] a b)
  same_email (c ∷ s) (d ∷ t) a b long =
      rw (lower_ascii (c ∷ s) a, lower_ascii (d ∷ t) b) (sym (equal_fold_ascii (c ∷ s) (d ∷ t) a b))

  -- The browser and the server judge every password alike, and for the same reason, where it and the
  -- email are in ASCII. The three functions that fold the case of letters do on ASCII texts what their
  -- documentation says.
  pub validate_password_policy-eq-backend :
      (password email : Text)
      → IsAscii password
      → IsAscii email
      → validate_password_policy lower password email
        ≡ validate_password to_lower equal_fold password email
  unfolding validate_password_policy validate_password
  validate_password_policy-eq-backend password email a b =
      elim (Bool-cases (ltb (count_codepoints password) min_password_length)) [
        | inl t ↦ rw t refl
        | inr t ↦
            let fits = count_codepoints-length password in
            let long : 12 ≤ length password = ground arith in
            rw (t, same_email password email a b long, same_blacklist password a long) refl
      ]
