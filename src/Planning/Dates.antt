-- ===== src/Planning/Dates.antt =====
-- The days of an issue after a drop on the plan.
use wuflow.Base.{
  ℕ, true, false, not, ◌&&◌, ◌||◌, Option, none, some, List, [], ◌∷◌, ◌++◌, ◌==◌, ==_iff, opt_eq,
  includes, Distinct, includes-append, Distinct-append, includes-sort_by, Distinct-sort_by, sort_by,
  SortedBy, sort_by-SortedBy, ◌≡◌, refl, subst, ◌∙◌, Bool-cases, inl, inr, arith,
}
use wuflow.Planning.{without_first, without_source, moved_dates}

includes-without_first :
    (d : ℕ) (xs : List ℕ) (a : ℕ)
    → Distinct xs
    → includes (without_first d xs) a ≡ (includes xs a && not (d == a))
includes-without_first d [] a k = refl
includes-without_first d (x ∷ xs) a (n, k) = elim (Bool-cases (x == d)) [
  | inl t ↦
      let e : x ≡ d = (==_iff x d).0 t in
      let absent : includes xs d ≡ false = rw (← e) n in
      elim (Bool-cases (d == a)) [
        | inl u ↦
            let gone : includes xs a ≡ false = rw (← (==_iff d a).0 u) absent in
            rw (t, u, gone) (ground arith)
        | inr u ↦ let apart : (x == a) ≡ false = rw e u in rw (t, u, apart) (ground arith)
      ]
  | inr t ↦ rw (t, includes-without_first d xs a k) (ground arith)
]

Distinct-without_first : (d : ℕ) (xs : List ℕ) → Distinct xs → Distinct (without_first d xs)
Distinct-without_first d [] k = tt
Distinct-without_first d (x ∷ xs) (n, k) = elim (Bool-cases (x == d)) [
  | inl t ↦ rw t k
  | inr t ↦ rw t (rw (includes-without_first d xs x k) (rw n refl), Distinct-without_first d xs k)
]

includes-without_source :
    (source : Option ℕ) (xs : List ℕ) (a : ℕ)
    → Distinct xs
    → includes (without_source source xs) a ≡ (includes xs a && not (opt_eq source (some a)))
includes-without_source none xs a k = ground arith
includes-without_source (some d) xs a k = includes-without_first d xs a k

Distinct-without_source :
    (source : Option ℕ) (xs : List ℕ) → Distinct xs → Distinct (without_source source xs)
Distinct-without_source none xs k = k
Distinct-without_source (some d) xs k = Distinct-without_first d xs k

-- A card that is dropped on a day on which its issue is not planned yet: the issue is planned on
-- that day, no longer on the day that the card comes from, and on every other day as before; its
-- days are in order, and none is there twice, as before.
pub moved_dates-includes :
    (source : Option ℕ) (target : ℕ) (dates : List ℕ)
    → Distinct dates
    → includes dates target ≡ false
    → Distinct (moved_dates source target dates)
      × (SortedBy (λ (d : ℕ). d) (moved_dates source target dates)
          × ((a : ℕ)
              → includes (moved_dates source target dates) a
                ≡ ((includes dates a && not (opt_eq source (some a))) || (target == a))))
unfolding moved_dates
moved_dates-includes source target dates k n =
    (Distinct-sort_by (kept ++ target ∷ []) dist, (sort_by-SortedBy (λ (d : ℕ). d) _, incl))
  where
    kept : List ℕ
    kept = without_source source dates

    apart : (a : ℕ) → includes (target ∷ []) a ≡ true → includes kept a ≡ false
    apart a h =
        let e : target ≡ a = (==_iff target a).0 (ground arith) in
        let gone : includes dates a ≡ false = subst (λ (t : ℕ). includes dates t ≡ false) e n in
        ground (arith, includes-without_source source dates a k)

    dist : Distinct (kept ++ target ∷ [])
    dist =
        Distinct-append kept (target ∷ []) (Distinct-without_source source dates k) (refl, tt) apart

    incl :
        (a : ℕ)
        → includes (sort_by (λ (d : ℕ). d) (kept ++ target ∷ [])) a
          ≡ ((includes dates a && not (opt_eq source (some a))) || (target == a))
    incl a =
        includes-sort_by (kept ++ target ∷ []) a
        ∙ ground
            (arith, includes-append kept (target ∷ []) a, includes-without_source source dates a k)
