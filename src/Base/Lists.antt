-- ===== src/Base/Lists.antt =====
-- Lists measured and indexed by native numbers, and predicates on them, under the library's names.
use Prim.Native.Nat.{ℕ, zero, suc, ◌+◌}
use mathlib.Core.Path.{◌≡◌, refl, ap}
use mathlib.Core.Bool.{Bool, true, false, ◌&&◌, ◌||◌}
use mathlib.Core.Logic.{inl, inr}
use mathlib.Core.List.{List, [], ◌∷◌, ◌++◌}
use mathlib.Core.Option.{Option, none, some}
use native.Mathlib.Omega.{arith}
use wuflow.Base.Tests.{if◌then◌else◌, ◌==◌, Bool-cases, ==_iff, ==_refl}

module _ {ℓ} {A : Type ℓ} where
  abbrev pub length : List A → ℕ
  length [] = 0
  length (x ∷ xs) = suc (length xs)

  abbrev pub get_elem? : List A → ℕ → Option A
  get_elem? [] i = none
  get_elem? (x ∷ xs) zero = some x
  get_elem? (x ∷ xs) (suc i) = get_elem? xs i

  -- `xs.length > 0`
  abbrev pub is_filled : List A → Bool
  is_filled [] = false
  is_filled (x ∷ xs) = true

  -- `xs.filter(p)`, `xs.some(p)`, `xs.find(p)`
  abbrev pub filter_by : (A → Bool) → List A → List A
  filter_by p [] = []
  filter_by p (x ∷ xs) = if p x then x ∷ filter_by p xs else filter_by p xs

  abbrev pub any : (A → Bool) → List A → Bool
  any p [] = false
  any p (x ∷ xs) = p x || any p xs

  abbrev pub find : (A → Bool) → List A → Option A
  find p [] = none
  find p (x ∷ xs) = if p x then some x else find p xs

  pub length-append : (xs ys : List A) → length (xs ++ ys) ≡ length xs + length ys
  length-append [] ys = omega arith
  length-append (x ∷ xs) ys = omega (arith, length-append xs ys)

module _ {ℓ} {A : Type ℓ} where
  -- Two filters in a row are one filter by both tests.
  pub filter_by-filter_by :
      (p q : A → Bool) (xs : List A) → filter_by q (filter_by p xs) ≡ filter_by (λ x. p x && q x) xs
  filter_by-filter_by p q [] = refl
  filter_by-filter_by p q (x ∷ xs) = elim (Bool-cases (p x)) [
    | inl h ↦ rw (h, filter_by-filter_by p q xs)
    | inr h ↦ rw (h, filter_by-filter_by p q xs)
  ]

  pub filter_by_all : (xs : List A) → filter_by (λ _. true) xs ≡ xs
  filter_by_all [] = refl
  filter_by_all (x ∷ xs) = ap (x ∷◌) (filter_by_all xs)

-- Membership and predicates by recursion, which the tactics read and build.
abbrev pub All {ℓ κ} : {A : Type ℓ} → (A → Type κ) → List A → Type κ
All P [] = Unit
All P (x ∷ xs) = P x × All P xs

pub All-map {ℓ κ μ} :
    {A : Type ℓ} (P : A → Type κ) (Q : A → Type μ) (xs : List A)
    → ((a : A) → P a → Q a)
    → All P xs
    → All Q xs
All-map P Q [] f h = tt
All-map P Q (x ∷ xs) f (h, hs) = (f x h, All-map P Q xs f hs)

pub All-append {ℓ κ} :
    {A : Type ℓ} (P : A → Type κ) (xs ys : List A) → All P xs → All P ys → All P (xs ++ ys)
All-append P [] ys hx hy = hy
All-append P (x ∷ xs) ys (h, hs) hy = (h, All-append P xs ys hs hy)

-- `xs.includes(a)` on numbers
abbrev pub includes : List ℕ → ℕ → Bool
includes [] a = false
includes (x ∷ xs) a = (x == a) || includes xs a

-- No number twice.
abbrev pub Distinct : List ℕ → Type 0
Distinct [] = Unit
Distinct (x ∷ xs) = (includes xs x ≡ false) × Distinct xs

pub includes-filter_by :
    (p : ℕ → Bool) (xs : List ℕ) (a : ℕ) → includes (filter_by p xs) a ≡ (includes xs a && p a)
includes-filter_by p [] a = refl
includes-filter_by p (x ∷ xs) a = elim (Bool-cases (x == a)) [
  | inl h ↦
      let e : x ≡ a = (==_iff x a).0 h in
      elim (Bool-cases (p x)) [
        | inl k ↦ let k' : p a ≡ true = rw (← e) k in rw (h, k, k') (rw h)
        | inr k ↦
            let k' : p a ≡ false = rw (← e) k in
            rw (h, k, k') (ground (arith, includes-filter_by p xs a))
      ]
  | inr h ↦ elim (Bool-cases (p x)) [
    | inl k ↦ rw (h, k) (rw h (includes-filter_by p xs a))
    | inr k ↦ rw (h, k) (includes-filter_by p xs a)
  ]
]

pub Distinct-filter_by : (p : ℕ → Bool) (xs : List ℕ) → Distinct xs → Distinct (filter_by p xs)
Distinct-filter_by p [] d = tt
Distinct-filter_by p (x ∷ xs) (n, d) = elim (Bool-cases (p x)) [
  | inl k ↦ rw k (ground (arith, includes-filter_by p xs x), Distinct-filter_by p xs d)
  | inr k ↦ rw k (Distinct-filter_by p xs d)
]

pub includes-append :
    (xs ys : List ℕ) (a : ℕ) → includes (xs ++ ys) a ≡ (includes xs a || includes ys a)
includes-append [] ys a = refl
includes-append (x ∷ xs) ys a = rw (includes-append xs ys a) (ground arith)

-- Two lists that share no number, one behind the other.
pub Distinct-append :
    (xs ys : List ℕ)
    → Distinct xs
    → Distinct ys
    → ((a : ℕ) → includes ys a ≡ true → includes xs a ≡ false)
    → Distinct (xs ++ ys)
Distinct-append [] ys dx dy apart = dy
Distinct-append (x ∷ xs) ys (n, dx) dy apart =
    (rw (includes-append xs ys x, n) absent, Distinct-append xs ys dx dy rest)
  where
    rest : (a : ℕ) → includes ys a ≡ true → includes xs a ≡ false
    rest a h = let k = apart a h in ground arith

    absent : includes ys x ≡ false
    absent = elim (Bool-cases (includes ys x)) [
      | inl t ↦ let k = apart x t in ground (arith, ==_refl x)
      | inr t ↦ t
    ]
