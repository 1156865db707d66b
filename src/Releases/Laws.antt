-- ===== src/Releases/Laws.antt =====
-- The order of the releases, and what their dialog sends.
use wuflow.Base.{
  ℕ, Bool, true, false, not, Option, none, some, List, [], ◌∷◌, ◌++◌, leb, filter_by, sort_by,
  insert_by, insert_with, All, ◌≡◌, refl, ap, ◌∙◌, Bool-cases, inl, inr,
}
use wuflow.Model.{Release}
use wuflow.Releases.{by_dates, comes_before, sort_releases_by_date}

abbrev pub is_dated : Option ℕ → Bool
is_dated none = false
is_dated (some d) = true

abbrev pub date_of : Option ℕ → ℕ
date_of none = 0
date_of (some d) = d

abbrev pub dated : List Release → List Release
dated = filter_by (λ (r : Release). is_dated r.release_date)

abbrev pub undated : List Release → List Release
undated = filter_by (λ (r : Release). not (is_dated r.release_date))

abbrev Dated : Release → Type 0
Dated r = is_dated r.release_date ≡ true

abbrev Undated : Release → Type 0
Undated r = is_dated r.release_date ≡ false

abbrev release_date_of : Release → ℕ
release_date_of r = date_of r.release_date

abbrev creation_of : Release → ℕ
creation_of r = r.created_at

All-insert_by :
    (P : Release → Type 0) (key : Release → ℕ) (x : Release) (ys : List Release)
    → P x
    → All P ys
    → All P (insert_by key x ys)
unfolding insert_by
All-insert_by P key x [] p a = (p, tt)
All-insert_by P key x (y ∷ ys) p (q, a) = elim (Bool-cases (leb (key x) (key y))) [
  | inl t ↦ rw t (p, (q, a))
  | inr t ↦ rw t (q, All-insert_by P key x ys p a)
]

both_dated :
    (a b : Option ℕ) (m n : ℕ)
    → is_dated a ≡ true
    → is_dated b ≡ true
    → by_dates a m b n ≡ leb (date_of a) (date_of b)
both_dated none b m n h k = cc
both_dated (some a) none m n h k = cc
both_dated (some a) (some b) m n h k = refl

dated_first :
    (a b : Option ℕ) (m n : ℕ) → is_dated a ≡ true → is_dated b ≡ false → by_dates a m b n ≡ true
dated_first none b m n h k = cc
dated_first (some a) none m n h k = refl
dated_first (some a) (some b) m n h k = cc

undated_last :
    (a b : Option ℕ) (m n : ℕ) → is_dated a ≡ false → is_dated b ≡ true → by_dates a m b n ≡ false
undated_last none none m n h k = cc
undated_last none (some b) m n h k = refl
undated_last (some a) b m n h k = cc

both_undated :
    (a b : Option ℕ) (m n : ℕ)
    → is_dated a ≡ false
    → is_dated b ≡ false
    → by_dates a m b n ≡ leb m n
both_undated none none m n h k = refl
both_undated none (some b) m n h k = cc
both_undated (some a) b m n h k = cc

insert_with_day :
    (x : Release) (ds us : List Release)
    → Dated x
    → All Dated ds
    → All Undated us
    → insert_with comes_before x (ds ++ us) ≡ insert_by release_date_of x ds ++ us
unfolding insert_by
insert_with_day x [] [] h a b = refl
insert_with_day x [] (u ∷ us) h a b =
    rw (dated_first x.release_date u.release_date x.created_at u.created_at h b.0)
insert_with_day x (d ∷ ds) us h (k, a) b =
    rw (both_dated x.release_date d.release_date x.created_at d.created_at h k)
      (elim (Bool-cases (leb (release_date_of x) (release_date_of d))) [
        | inl t ↦ rw t refl
        | inr t ↦ rw t (ap (d ∷◌) (insert_with_day x ds us h a b))
      ])

insert_without_day :
    (x : Release) (ds us : List Release)
    → Undated x
    → All Dated ds
    → All Undated us
    → insert_with comes_before x (ds ++ us) ≡ ds ++ insert_by creation_of x us
unfolding insert_by
insert_without_day x [] [] h a b = refl
insert_without_day x [] (u ∷ us) h a (k, b) =
    rw (both_undated x.release_date u.release_date x.created_at u.created_at h k)
      (elim (Bool-cases (leb x.created_at u.created_at)) [
        | inl t ↦ rw t refl
        | inr t ↦ rw t (ap (u ∷◌) (insert_without_day x [] us h tt b))
      ])
insert_without_day x (d ∷ ds) us h (k, a) b =
    rw (undated_last x.release_date d.release_date x.created_at d.created_at h k)
      (ap (d ∷◌) (insert_without_day x ds us h a b))

sorted_dated : (rs : List Release) → All Dated (sort_by release_date_of (dated rs))
unfolding sort_by
sorted_dated [] = tt
sorted_dated (r ∷ rs) = elim (Bool-cases (is_dated r.release_date)) [
  | inl t ↦ rw t (All-insert_by Dated release_date_of r _ t (sorted_dated rs))
  | inr t ↦ rw t (sorted_dated rs)
]

sorted_undated : (rs : List Release) → All Undated (sort_by creation_of (undated rs))
unfolding sort_by
sorted_undated [] = tt
sorted_undated (r ∷ rs) = elim (Bool-cases (is_dated r.release_date)) [
  | inl t ↦ rw t (sorted_undated rs)
  | inr t ↦ rw t (All-insert_by Undated creation_of r _ t (sorted_undated rs))
]

-- The releases in the order of `sortReleasesByDate` are those with a date, sorted by it, and behind them
-- those without, sorted by their creation; both sorts are stable.
pub sort_releases_by_date-sorts :
    (rs : List Release)
    → sort_releases_by_date rs
      ≡ sort_by (λ (r : Release). date_of r.release_date) (dated rs)
        ++ sort_by (λ (r : Release). r.created_at) (undated rs)
unfolding sort_releases_by_date sort_by
sort_releases_by_date-sorts [] = refl
sort_releases_by_date-sorts (r ∷ rs) =
    ap (insert_with comes_before r) (sort_releases_by_date-sorts rs)
    ∙ elim (Bool-cases (is_dated r.release_date)) [
      | inl t ↦ rw t (
          insert_with_day r (sort_by release_date_of (dated rs)) (sort_by creation_of (undated rs))
            t (sorted_dated rs) (sorted_undated rs))
      | inr t ↦ rw t (
          insert_without_day r (sort_by release_date_of (dated rs))
            (sort_by creation_of (undated rs)) t (sorted_dated rs) (sorted_undated rs))
    ]
