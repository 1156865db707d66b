-- ===== src/Text/Occurs.antt =====
-- `s.includes(term)`, against what it means.
use wuflow.Base.{
  ℕ, true, [], ◌∷◌, ◌++◌, ◌≡◌, ◌↔◌, refl, sym, ap, ap₂, ==_refl, Bool-cases, inl, inr, arith,
}
use wuflow.Model.{Text}
use wuflow.Text.{starts_with, contains}

abbrev pub Occurs : Text → Text → Type 0
Occurs term s = (before : Text) × ((after : Text) × (s ≡ before ++ (term ++ after)))

starts_with-prefix :
    (term s : Text) → starts_with term s ≡ true → (after : Text) × (s ≡ term ++ after)
unfolding starts_with
starts_with-prefix [] s h = (s, refl)
starts_with-prefix (c ∷ cs) [] h = absurd (ground arith)
starts_with-prefix (c ∷ cs) (d ∷ ds) h =
    let e : c ≡ d = ground arith in
    let (after, q) = starts_with-prefix cs ds (ground arith) in
    (after, ap₂ (λ (x : ℕ) (t : Text). x ∷ t) (sym e) q)

prefix-starts_with : (term after : Text) → starts_with term (term ++ after) ≡ true
unfolding starts_with
prefix-starts_with [] after = refl
prefix-starts_with (c ∷ cs) after = rw (==_refl c, prefix-starts_with cs after) refl

contains-Occurs : (term s : Text) → contains term s ≡ true → Occurs term s
unfolding contains
contains-Occurs [] [] h = ([], ([], refl))
contains-Occurs (c ∷ cs) [] h = absurd (ground arith)
contains-Occurs term (d ∷ ds) h = elim (Bool-cases (starts_with term (d ∷ ds))) [
  | inl t ↦ let (after, e) = starts_with-prefix term (d ∷ ds) t in ([], (after, e))
  | inr t ↦
      let (before, (after, e)) = contains-Occurs term ds (ground arith) in
      (d ∷ before, (after, ap (λ (t : Text). d ∷ t) e))
]

Occurs-contains : (term before after : Text) → contains term (before ++ (term ++ after)) ≡ true
unfolding contains starts_with
Occurs-contains [] [] [] = refl
Occurs-contains [] [] (a ∷ after) = refl
Occurs-contains (c ∷ cs) [] after = rw (==_refl c, prefix-starts_with cs after) refl
Occurs-contains term (d ∷ ds) after =
    let rest : contains term (ds ++ (term ++ after)) ≡ true = Occurs-contains term ds after in
    ground arith

pub contains_iff : (term s : Text) → (contains term s ≡ true) ↔ Occurs term s
contains_iff term s =
    (contains-Occurs term s, λ (before, (after, e)). rw e (Occurs-contains term before after))
