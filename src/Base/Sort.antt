-- ===== src/Base/Sort.antt =====
-- `Array.prototype.sort` with a numeric key: a stable sort, here by insertion.
use Prim.Native.Nat.{ℕ, ◌≤◌, ◌<◌}
use mathlib.Core.Path.{◌≡◌, refl, sym, ap, ◌∙◌}
use mathlib.Core.Bool.{Bool, true, false, ◌||◌}
use mathlib.Core.Logic.{inl, inr}
use mathlib.Core.List.{List, [], ◌∷◌, ◌++◌, Perm}
use mathlib.Core.List.Perm
use native.Mathlib.Omega.{arith}
use wuflow.Base.Tests.{if◌then◌else◌, ◌==◌, leb, Bool-cases}
use wuflow.Base.Lists.{All, filter_by, includes, Distinct}

module _ {ℓ} {A : Type ℓ} (key : A → ℕ) where
  -- `x` goes before the first element whose key is not smaller, so equals keep their order.
  unfoldable pub insert_by : A → List A → List A
  insert_by x [] = x ∷ []
  insert_by x (y ∷ ys) = if leb (key x) (key y) then x ∷ y ∷ ys else y ∷ insert_by x ys

  unfoldable pub sort_by : List A → List A
  unfolding insert_by
  sort_by [] = []
  sort_by (x ∷ xs) = insert_by x (sort_by xs)

  abbrev pub SortedBy : List A → Type 0
  SortedBy [] = Unit
  SortedBy (x ∷ xs) = All (λ y. key x ≤ key y) xs × SortedBy xs

  insert_by-perm : (x : A) (ys : List A) → Perm (insert_by x ys) (x ∷ ys)
  unfolding insert_by
  insert_by-perm x [] = Perm.refl _
  insert_by-perm x (y ∷ ys) = elim (Bool-cases (leb (key x) (key y))) [
    | inl h ↦ rw h (Perm.refl _)
    | inr h ↦ rw h (Perm.trans (Perm.cons y (insert_by-perm x ys)) (Perm.swap x y ys))
  ]

  -- Sorting loses and adds nothing.
  pub sort_by-perm : (xs : List A) → Perm (sort_by xs) xs
  unfolding sort_by
  sort_by-perm [] = Perm.refl _
  sort_by-perm (x ∷ xs) = Perm.trans (insert_by-perm x (sort_by xs)) (Perm.cons x (sort_by-perm xs))

  All-le_trans : (a b : ℕ) (xs : List A) → a ≤ b → All (λ y. b ≤ key y) xs → All (λ y. a ≤ key y) xs
  All-le_trans a b [] h k = tt
  All-le_trans a b (x ∷ xs) h (k, ks) = (omega arith, All-le_trans a b xs h ks)

  All-insert_by :
      (n : ℕ) (x : A) (ys : List A)
      → n ≤ key x
      → All (λ y. n ≤ key y) ys
      → All (λ y. n ≤ key y) (insert_by x ys)
  unfolding insert_by
  All-insert_by n x [] h k = (h, tt)
  All-insert_by n x (y ∷ ys) h (k, ks) = elim (Bool-cases (leb (key x) (key y))) [
    | inl t ↦ rw t (h, (k, ks))
    | inr t ↦ rw t (k, All-insert_by n x ys h ks)
  ]

  insert_by-SortedBy : (x : A) (ys : List A) → SortedBy ys → SortedBy (insert_by x ys)
  unfolding insert_by
  insert_by-SortedBy x [] s = (tt, tt)
  insert_by-SortedBy x (y ∷ ys) (k, s) = elim (Bool-cases (leb (key x) (key y))) [
    | inl t ↦ let le : key x ≤ key y = ground arith in rw t ((le, All-le_trans _ _ ys le k), (k, s))
    | inr t ↦ rw t (All-insert_by _ x ys (ground arith) k, insert_by-SortedBy x ys s)
  ]

  pub sort_by-SortedBy : (xs : List A) → SortedBy (sort_by xs)
  unfolding sort_by
  sort_by-SortedBy [] = tt
  sort_by-SortedBy (x ∷ xs) = insert_by-SortedBy x (sort_by xs) (sort_by-SortedBy xs)

  -- The elements with one key, in their order.
  abbrev pub with_key : ℕ → List A → List A
  with_key k = filter_by (λ y. key y == k)

  insert_by-with_key :
      (k : ℕ) (x : A) (ys : List A) → with_key k (insert_by x ys) ≡ with_key k (x ∷ ys)
  unfolding insert_by
  insert_by-with_key k x [] = refl
  insert_by-with_key k x (y ∷ ys) = elim (Bool-cases (leb (key x) (key y))) [
    | inl t ↦ rw t
    | inr t ↦ rw t (ground (arith, insert_by-with_key k x ys))
  ]

  -- Stability: elements with equal keys keep their order.
  pub sort_by-with_key : (k : ℕ) (xs : List A) → with_key k (sort_by xs) ≡ with_key k xs
  unfolding sort_by
  sort_by-with_key k [] = refl
  sort_by-with_key k (x ∷ xs) =
      ground (arith, insert_by-with_key k x (sort_by xs), sort_by-with_key k xs)

  -- A list in order is left as it is.
  pub sort_by-of_SortedBy : (xs : List A) → SortedBy xs → sort_by xs ≡ xs
  unfolding sort_by
  sort_by-of_SortedBy [] s = refl
  sort_by-of_SortedBy (x ∷ []) s = refl
  sort_by-of_SortedBy (x ∷ y ∷ ys) (k, s) =
      rw (sort_by-of_SortedBy (y ∷ ys) s) (ground (arith, k.0))

  pub sort_by-cons : (x : A) (xs : List A) → sort_by (x ∷ xs) ≡ insert_by x (sort_by xs)
  unfolding sort_by
  sort_by-cons x xs = refl

  -- Where an element goes in, in three cases.
  pub insert_by-head : (x : A) (ys : List A) → All (λ y. key x ≤ key y) ys → insert_by x ys ≡ x ∷ ys
  unfolding insert_by
  insert_by-head x [] h = refl
  insert_by-head x (y ∷ ys) (h, _) = ground arith

  pub insert_by-skip :
      (x y : A) (ys : List A) → key y < key x → insert_by x (y ∷ ys) ≡ y ∷ insert_by x ys
  unfolding insert_by
  insert_by-skip x y ys h = ground arith

  pub insert_by-last :
      (x : A) (ys : List A) → All (λ y. key y < key x) ys → insert_by x ys ≡ ys ++ x ∷ []
  insert_by-last x [] h = insert_by-head x [] tt
  insert_by-last x (y ∷ ys) (h, hs) = insert_by-skip x y ys h ∙ ap (y ∷◌) (insert_by-last x ys hs)

-- Filtering a sorted list is sorting the filtered one.
module _ {ℓ} {A : Type ℓ} (key : A → ℕ) (p : A → Bool) where
  insert_by-before :
      (x : A) (ys : List A)
      → All (λ y. key x ≤ key y) ys
      → insert_by key x (filter_by p ys) ≡ x ∷ filter_by p ys
  unfolding insert_by
  insert_by-before x [] a = refl
  insert_by-before x (y ∷ ys) (l, a) = elim (Bool-cases (p y)) [
    | inl t ↦ let first : leb (key x) (key y) ≡ true = ground arith in rw t (rw first refl)
    | inr t ↦ rw t (insert_by-before x ys a)
  ]

  filter_by-insert_by :
      (x : A) (ys : List A)
      → SortedBy key ys
      → filter_by p (insert_by key x ys)
        ≡ (if p x then insert_by key x (filter_by p ys) else filter_by p ys)
  unfolding insert_by
  filter_by-insert_by x [] s = refl
  filter_by-insert_by x (y ∷ ys) (l, s) = elim (Bool-cases (leb (key x) (key y))) [
    | inl t ↦
        let below : All (λ z. key x ≤ key z) (y ∷ ys) =
          (ground arith, All-le_trans key (key x) (key y) ys (ground arith) l) in
        elim (Bool-cases (p x)) [
          | inl u ↦ rw (t, u) (sym (insert_by-before x (y ∷ ys) below))
          | inr u ↦ rw (t, u) refl
        ]
    | inr t ↦ elim (Bool-cases (p y)) [
      | inl u ↦ elim (Bool-cases (p x)) [
        | inl v ↦ rw (t, u, v) (rw t (ap (y ∷◌) (filter_by-insert_by x ys s ∙ rw v refl)))
        | inr v ↦ rw (t, u, v) (ap (y ∷◌) (filter_by-insert_by x ys s ∙ rw v refl))
      ]
      | inr u ↦ rw (t, u) (filter_by-insert_by x ys s)
    ]
  ]

  pub filter_by-sort_by :
      (xs : List A) → filter_by p (sort_by key xs) ≡ sort_by key (filter_by p xs)
  unfolding sort_by
  filter_by-sort_by [] = refl
  filter_by-sort_by (x ∷ xs) =
      filter_by-insert_by x (sort_by key xs) (sort_by-SortedBy key xs) ∙ elim (Bool-cases (p x)) [
        | inl t ↦ rw t (ap (insert_by key x) (filter_by-sort_by xs))
        | inr t ↦ rw t (filter_by-sort_by xs)
      ]

-- Numbers sorted by themselves.
includes-insert_by :
    (x a : ℕ) (ys : List ℕ)
    → includes (insert_by (λ (d : ℕ). d) x ys) a ≡ ((x == a) || includes ys a)
unfolding insert_by
includes-insert_by x a [] = refl
includes-insert_by x a (y ∷ ys) = elim (Bool-cases (leb x y)) [
  | inl t ↦ rw t refl
  | inr t ↦ rw (t, includes-insert_by x a ys) (ground arith)
]

Distinct-insert_by :
    (x : ℕ) (ys : List ℕ)
    → includes ys x ≡ false
    → Distinct ys
    → Distinct (insert_by (λ (d : ℕ). d) x ys)
unfolding insert_by
Distinct-insert_by x [] n d = (refl, tt)
Distinct-insert_by x (y ∷ ys) n (m, d) = elim (Bool-cases (leb x y)) [
  | inl t ↦ rw t (n, (m, d))
  | inr t ↦
      rw t (rw (includes-insert_by x y ys) (ground arith), Distinct-insert_by x ys (ground arith) d)
]

pub includes-sort_by :
    (xs : List ℕ) (a : ℕ) → includes (sort_by (λ (d : ℕ). d) xs) a ≡ includes xs a
unfolding sort_by
includes-sort_by [] a = refl
includes-sort_by (x ∷ xs) a =
    rw (includes-insert_by x a (sort_by (λ (d : ℕ). d) xs), includes-sort_by xs a) refl

pub Distinct-sort_by : (xs : List ℕ) → Distinct xs → Distinct (sort_by (λ (d : ℕ). d) xs)
unfolding sort_by
Distinct-sort_by [] d = tt
Distinct-sort_by (x ∷ xs) (n, d) =
    Distinct-insert_by x (sort_by (λ (d : ℕ). d) xs) (includes-sort_by xs x ∙ n)
      (Distinct-sort_by xs d)
