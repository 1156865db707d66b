-- ===== src/Base/Compare.antt =====
-- `Array.prototype.sort` with a comparison of two elements, stable as the one by keys, and grouping.
use Prim.Native.Nat.{ℕ, ◌≤◌}
use mathlib.Core.Path.{◌≡◌, refl, sym, ap, ◌∙◌}
use mathlib.Core.Bool.{Bool, true, false}
use mathlib.Core.Logic.{inl, inr}
use mathlib.Core.List.{List, [], ◌∷◌, ◌++◌, append-nil, append_assoc, Perm}
use mathlib.Core.List.Perm
use native.Mathlib.Omega.{arith}
use wuflow.Base.Tests.{if◌then◌else◌, ◌==◌, leb, Bool-cases}
use wuflow.Base.Lists.{filter_by, All, All-map}

module _ {ℓ} {A : Type ℓ} (before : A → A → Bool) where
  -- `before x y` says that the comparison of x and y is not positive.
  abbrev pub insert_with : A → List A → List A
  insert_with x [] = x ∷ []
  insert_with x (y ∷ ys) = if before x y then x ∷ y ∷ ys else y ∷ insert_with x ys

  abbrev pub sort_with : List A → List A
  sort_with [] = []
  sort_with (x ∷ xs) = insert_with x (sort_with xs)

module _ {ℓ} {A : Type ℓ} (key : A → ℕ) where
  -- An object with a list for each key, the keys in the order in which they come up.
  abbrev add_to : A → List (ℕ × List A) → List (ℕ × List A)
  add_to x [] = (key x, x ∷ []) ∷ []
  add_to x ((k, xs) ∷ gs) = if k == key x then (k, xs ++ x ∷ []) ∷ gs else (k, xs) ∷ add_to x gs

  abbrev groups_from : List (ℕ × List A) → List A → List (ℕ × List A)
  groups_from gs [] = gs
  groups_from gs (x ∷ xs) = groups_from (add_to x gs) xs

  unfoldable pub group_by : List A → List (ℕ × List A)
  group_by = groups_from []

  -- The list of a key
  abbrev pub group_of : ℕ → List (ℕ × List A) → List A
  group_of k [] = []
  group_of k ((j, xs) ∷ gs) = if j == k then xs else group_of k gs

  add_to-group_of :
      (x : A) (gs : List (ℕ × List A)) (k : ℕ)
      → group_of k (add_to x gs) ≡ group_of k gs ++ (if key x == k then x ∷ [] else [])
  add_to-group_of x [] k = elim (Bool-cases (key x == k)) [ inl t ↦ rw t refl | inr t ↦ rw t refl ]
  add_to-group_of x ((j, xs) ∷ gs) k = elim (Bool-cases (j == key x)) [
    | inl t ↦ elim (Bool-cases (j == k)) [
      | inl u ↦ let same : (key x == k) ≡ true = ground arith in rw (t, u, same) refl
      | inr u ↦
          let other : (key x == k) ≡ false = ground arith in
          rw (t, u, other) (sym (append-nil (group_of k gs)))
    ]
    | inr t ↦ elim (Bool-cases (j == k)) [
      | inl u ↦
          let other : (key x == k) ≡ false = ground arith in rw (t, u, other) (sym (append-nil xs))
      | inr u ↦ rw (t, u) (add_to-group_of x gs k)
    ]
  ]

  groups_from-group_of :
      (xs : List A) (gs : List (ℕ × List A)) (k : ℕ)
      → group_of k (groups_from gs xs) ≡ group_of k gs ++ filter_by (λ (x : A). key x == k) xs
  groups_from-group_of [] gs k = sym (append-nil (group_of k gs))
  groups_from-group_of (x ∷ xs) gs k =
      groups_from-group_of xs (add_to x gs) k
      ∙ ap (◌++ filter_by (λ (y : A). key y == k) xs) (add_to-group_of x gs k)
      ∙ elim (Bool-cases (key x == k)) [
        | inl t ↦ rw t (append_assoc (group_of k gs) (x ∷ []) _)
        | inr t ↦ rw t (ap (◌++ filter_by (λ (y : A). key y == k) xs) (append-nil (group_of k gs)))
      ]

  -- A group holds the elements with its key, in their order.
  pub group_by-group_of :
      (xs : List A) (k : ℕ) → group_of k (group_by xs) ≡ filter_by (λ (x : A). key x == k) xs
  unfolding group_by
  group_by-group_of xs k = groups_from-group_of xs [] k

module _ {ℓ} {A : Type ℓ} (key : A → ℕ) where
  -- The largest key comes first.
  abbrev pub descending : A → A → Bool
  descending a b = leb (key b) (key a)

  abbrev pub SortedDown : List A → Type 0
  SortedDown [] = Unit
  SortedDown (x ∷ xs) = All (λ y. key y ≤ key x) xs × SortedDown xs

  All-insert_with :
      (n : ℕ) (x : A) (ys : List A)
      → key x ≤ n
      → All (λ y. key y ≤ n) ys
      → All (λ y. key y ≤ n) (insert_with descending x ys)
  All-insert_with n x [] h a = (h, tt)
  All-insert_with n x (y ∷ ys) h (k, a) = elim (Bool-cases (descending x y)) [
    | inl t ↦ rw t (h, (k, a))
    | inr t ↦ rw t (k, All-insert_with n x ys h a)
  ]

  All-le_below : (m n : ℕ) (ys : List A) → m ≤ n → All (λ y. key y ≤ m) ys → All (λ y. key y ≤ n) ys
  All-le_below m n ys h a = All-map (λ y. key y ≤ m) (λ y. key y ≤ n) ys (λ y k. omega arith) a

  insert_with-SortedDown :
      (x : A) (ys : List A) → SortedDown ys → SortedDown (insert_with descending x ys)
  insert_with-SortedDown x [] s = (tt, tt)
  insert_with-SortedDown x (y ∷ ys) (a, s) = elim (Bool-cases (descending x y)) [
    | inl t ↦
        let le : key y ≤ key x = ground arith in
        rw t ((le, All-le_below (key y) (key x) ys le a), (a, s))
    | inr t ↦ rw t (All-insert_with (key y) x ys (ground arith) a, insert_with-SortedDown x ys s)
  ]

  pub sort_with-SortedDown : (xs : List A) → SortedDown (sort_with descending xs)
  sort_with-SortedDown [] = tt
  sort_with-SortedDown (x ∷ xs) =
      insert_with-SortedDown x (sort_with descending xs) (sort_with-SortedDown xs)

module _ {ℓ} {A : Type ℓ} (before : A → A → Bool) where
  insert_with-perm : (x : A) (ys : List A) → Perm (insert_with before x ys) (x ∷ ys)
  insert_with-perm x [] = Perm.refl _
  insert_with-perm x (y ∷ ys) = elim (Bool-cases (before x y)) [
    | inl h ↦ rw h (Perm.refl _)
    | inr h ↦ rw h (Perm.trans (Perm.cons y (insert_with-perm x ys)) (Perm.swap x y ys))
  ]

  pub sort_with-perm : (xs : List A) → Perm (sort_with before xs) xs
  sort_with-perm [] = Perm.refl _
  sort_with-perm (x ∷ xs) =
      Perm.trans (insert_with-perm x (sort_with before xs)) (Perm.cons x (sort_with-perm xs))
