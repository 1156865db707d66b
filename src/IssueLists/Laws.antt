-- ===== src/IssueLists/Laws.antt =====
-- Whatever the order of the answers, the page shows each issue once, and none is lost.
pub mod AnyOrder
use wuflow.Base.{
  ℕ, suc, Bool, true, false, not, ◌&&◌, ◌||◌, Option, none, some, List, [], ◌∷◌, ◌++◌, map, ◌==◌,
  opt_eq, if◌then◌else◌, filter_by, includes, Distinct, includes-filter_by, Distinct-filter_by,
  Distinct-append, All, ◌≡◌, refl, sym, ap, subst, ◌∙◌, Bool-cases, inl, inr, arith,
}
use wuflow.Model.{Issue}
use wuflow.IssueLists.{
  Kind, open_issues, archived_issues, Phase, idle, fetching, loaded, failed, waiting, Load, Cache,
  set_at, ids, merge_into, list_of, set_list, ensure_list, ensure_issue_lists, load_issues,
  reset_issue_lists, active_settles, list_settles, list_goes_on, set_phase, forget_list, put_active,
  answered, merged, Event, load, ensure, reset, active_answer, list_answer, list_merge, step, play,
}

ids-filter_by :
    (p : ℕ → Bool) (is : List Issue)
    → ids (filter_by (λ (i : Issue). p i.id) is) ≡ filter_by p (ids is)
ids-filter_by p [] = refl
ids-filter_by p (i ∷ is) = elim (Bool-cases (p i.id)) [
  | inl t ↦ rw (t, ids-filter_by p is)
  | inr t ↦ rw (t, ids-filter_by p is)
]

ids-append : (is js : List Issue) → ids (is ++ js) ≡ ids is ++ ids js
ids-append [] js = refl
ids-append (i ∷ is) js = ap (i.id ∷◌) (ids-append is js)

ids-merge_into :
    (is js : List Issue)
    → ids (merge_into is js) ≡ ids is ++ filter_by (λ k. not (includes (ids is) k)) (ids js)
unfolding merge_into
ids-merge_into is js =
    ids-append is (filter_by (λ (i : Issue). not (includes (ids is) i.id)) js)
    ∙ ap (ids is ++◌) (ids-filter_by (λ k. not (includes (ids is) k)) js)

merge_into-Distinct :
    (is js : List Issue) → Distinct (ids is) → Distinct (ids js) → Distinct (ids (merge_into is js))
merge_into-Distinct is js di dj =
    subst Distinct (sym (ids-merge_into is js))
      (Distinct-append (ids is) _ di (Distinct-filter_by _ (ids js) dj) apart)
  where
    apart :
        (a : ℕ)
        → includes (filter_by (λ k. not (includes (ids is) k)) (ids js)) a ≡ true
        → includes (ids is) a ≡ false
    apart a h =
        let e = includes-filter_by (λ k. not (includes (ids is) k)) (ids js) a in ground arith

-- Each answer names every issue once, and so do the issues of the page and of every load.
abbrev pub WaitsDistinct : Phase → Type 0
WaitsDistinct (waiting is) = Distinct (ids is)
WaitsDistinct _ = Unit

abbrev pub AnswerDistinct : Event → Type 0
AnswerDistinct (active_answer g (some is)) = Distinct (ids is)
AnswerDistinct (list_answer n (some is)) = Distinct (ids is)
AnswerDistinct _ = Unit

abbrev pub NoDuplicates : Cache → Type 0
NoDuplicates c = Distinct (ids c.issues) × ((n : ℕ) → WaitsDistinct (c.loads n).phase)

set_at-Waits :
    (n : ℕ) (l : Load) (f : ℕ → Load)
    → WaitsDistinct l.phase
    → ((j : ℕ) → WaitsDistinct (f j).phase)
    → (j : ℕ) → WaitsDistinct (set_at n l f j).phase
set_at-Waits n l f w h j = elim (Bool-cases (n == j)) [ inl t ↦ rw t w | inr t ↦ rw t (h j) ]

ensure-NoDuplicates :
    (kinds : List Kind) (c : Cache) → NoDuplicates c → NoDuplicates (ensure_issue_lists kinds c)
unfolding ensure_issue_lists
ensure-NoDuplicates [] c h = h
ensure-NoDuplicates (kind ∷ kinds) c h =
    ensure-NoDuplicates kinds (ensure_list kind (list_of kind c) c) (one kind (list_of kind c))
  where
    one : (kind : Kind) (l : Option ℕ) → NoDuplicates (ensure_list kind l c)
    one kind (some n) = h
    one open_issues none = (h.0, set_at-Waits c.next _ c.loads tt h.1)
    one archived_issues none = (h.0, set_at-Waits c.next _ c.loads tt h.1)

forget_list-NoDuplicates :
    (n : ℕ) (kind : Kind) (c : Cache) → NoDuplicates c → NoDuplicates (forget_list n kind c)
forget_list-NoDuplicates n open_issues c h = elim (Bool-cases (opt_eq c.open_list (some n))) [
  | inl t ↦ rw t h
  | inr t ↦ rw t h
]
forget_list-NoDuplicates n archived_issues c h =
    elim (Bool-cases (opt_eq c.archived_list (some n))) [ inl t ↦ rw t h | inr t ↦ rw t h ]

set_phase-NoDuplicates :
    (n : ℕ) (p : Phase) (c : Cache)
    → WaitsDistinct p
    → NoDuplicates c
    → NoDuplicates (set_phase n p c)
set_phase-NoDuplicates n p c w h = (h.0, set_at-Waits n _ c.loads w h.1)

answered-NoDuplicates :
    (n : ℕ) (p : Phase) (a : Option (List Issue)) (c : Cache)
    → AnswerDistinct (list_answer n a)
    → NoDuplicates c
    → NoDuplicates (answered n p a c)
answered-NoDuplicates n fetching (some is) c d h = set_phase-NoDuplicates n (waiting is) c d h
answered-NoDuplicates n fetching none c d h =
    forget_list-NoDuplicates n (c.loads n).kind (set_phase n failed c)
      (set_phase-NoDuplicates n failed c tt h)
answered-NoDuplicates n idle a c d h = h
answered-NoDuplicates n loaded a c d h = h
answered-NoDuplicates n failed a c d h = h
answered-NoDuplicates n (waiting is) a c d h = h

put_active-NoDuplicates :
    (g : ℕ) (a : Option (List Issue)) (c : Cache)
    → AnswerDistinct (active_answer g a)
    → NoDuplicates c
    → NoDuplicates (put_active g a c)
put_active-NoDuplicates g none c d h = h
put_active-NoDuplicates g (some is) c d h = elim (Bool-cases (g == c.generation)) [
  | inl t ↦ rw t (d, h.1)
  | inr t ↦ rw t h
]

merged-NoDuplicates :
    (n : ℕ) (p : Phase) (c : Cache) → WaitsDistinct p → NoDuplicates c → NoDuplicates (merged n p c)
merged-NoDuplicates n (waiting is) c w h = elim (Bool-cases (c.awaited (c.loads n).generation)) [
  | inl t ↦ rw t h
  | inr t ↦ elim (Bool-cases ((c.loads n).generation == c.generation)) [
    | inl k ↦ rw (t, k) (merge_into-Distinct c.issues is h.0 w, set_at-Waits n _ c.loads tt h.1)
    | inr k ↦ rw (t, k) (set_phase-NoDuplicates n loaded c tt h)
  ]
]
merged-NoDuplicates n idle c w h = h
merged-NoDuplicates n fetching c w h = h
merged-NoDuplicates n loaded c w h = h
merged-NoDuplicates n failed c w h = h

step-NoDuplicates :
    (e : Event) (c : Cache) → AnswerDistinct e → NoDuplicates c → NoDuplicates (step e c)
unfolding step load_issues reset_issue_lists active_settles list_settles list_goes_on
step-NoDuplicates (load kinds) c d h = ensure-NoDuplicates kinds _ h
step-NoDuplicates (ensure kinds) c d h = ensure-NoDuplicates kinds c h
step-NoDuplicates reset c d h = h
step-NoDuplicates (active_answer g a) c d h = elim (Bool-cases (c.awaited g)) [
  | inl t ↦ rw t (put_active-NoDuplicates g a _ d h)
  | inr t ↦ rw t h
]
step-NoDuplicates (list_answer n a) c d h = answered-NoDuplicates n (c.loads n).phase a c d h
step-NoDuplicates (list_merge n) c d h = merged-NoDuplicates n (c.loads n).phase c (h.1 n) h

-- Whatever calls and answers come in whatever order, no issue is on the page twice, if none of the
-- server's lists names one twice.
pub play-NoDuplicates :
    (es : List Event) (c : Cache)
    → All AnswerDistinct es
    → NoDuplicates c
    → NoDuplicates (play es c)
unfolding play
play-NoDuplicates [] c d h = h
play-NoDuplicates (e ∷ es) c (d, ds) h =
    play-NoDuplicates es (step e c) ds (step-NoDuplicates e c d h)

ensure_list-stays :
    (kind other : Kind) (l : Option ℕ) (c : Cache) (n : ℕ)
    → list_of other c ≡ some n
    → list_of kind c ≡ l
    → list_of other (ensure_list kind l c) ≡ some n
ensure_list-stays kind other (some m) c n h e = h
ensure_list-stays open_issues archived_issues none c n h e = h
ensure_list-stays archived_issues open_issues none c n h e = h
ensure_list-stays open_issues open_issues none c n h e = cc
ensure_list-stays archived_issues archived_issues none c n h e = cc

-- Every kind of the list has its load.
abbrev HasLoads : List Kind → Cache → Type 0
HasLoads kinds c = All (λ kind. (n : ℕ) × (list_of kind c ≡ some n)) kinds

ensure_list-has :
    (kind : Kind) (l : Option ℕ) (c : Cache)
    → list_of kind c ≡ l
    → (n : ℕ) × (list_of kind (ensure_list kind l c) ≡ some n)
ensure_list-has kind (some n) c e = (n, e)
ensure_list-has open_issues none c e = (c.next, refl)
ensure_list-has archived_issues none c e = (c.next, refl)

ensure_issue_lists-stays :
    (kinds : List Kind) (other : Kind) (c : Cache) (n : ℕ)
    → list_of other c ≡ some n
    → list_of other (ensure_issue_lists kinds c) ≡ some n
unfolding ensure_issue_lists
ensure_issue_lists-stays [] other c n h = h
ensure_issue_lists-stays (kind ∷ kinds) other c n h =
    ensure_issue_lists-stays kinds other _ n
      (ensure_list-stays kind other (list_of kind c) c n h refl)

ensure_issue_lists-has :
    (kinds : List Kind) (c : Cache) → HasLoads kinds (ensure_issue_lists kinds c)
unfolding ensure_issue_lists
ensure_issue_lists-has [] c = tt
ensure_issue_lists-has (kind ∷ kinds) c =
    let (n, h) = ensure_list-has kind (list_of kind c) c refl in
    ((n, ensure_issue_lists-stays kinds kind _ n h), ensure_issue_lists-has kinds _)

has-ensure_issue_lists :
    (kinds : List Kind) (c : Cache) → HasLoads kinds c → ensure_issue_lists kinds c ≡ c
unfolding ensure_issue_lists
has-ensure_issue_lists [] c h = refl
has-ensure_issue_lists (kind ∷ kinds) c ((n, h), hs) = rw h (has-ensure_issue_lists kinds c hs)

-- A list that is loaded or on its way is not fetched again: a second call changes nothing.
pub ensure_issue_lists_twice :
    (kinds : List Kind) (c : Cache)
    → ensure_issue_lists kinds (ensure_issue_lists kinds c) ≡ ensure_issue_lists kinds c
ensure_issue_lists_twice kinds c =
    has-ensure_issue_lists kinds (ensure_issue_lists kinds c) (ensure_issue_lists-has kinds c)
