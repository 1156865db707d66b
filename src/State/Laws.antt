-- ===== src/State/Laws.antt =====
-- The release filter of the backlog is a set of ids, and a filter that is not active hides nothing.
use wuflow.Base.{
  ℕ, Bool, true, false, not, ◌&&◌, ◌||◌, Option, none, some, List, [], ◌∷◌, ◌++◌, ◌≡◌, refl, sym,
  ap, ◌∙◌, opt_eq, opt_eq_iff, if◌then◌else◌, filter_by, is_filled, Bool-cases, inl, inr, arith,
}
use wuflow.Model.{Text, Issue}
use wuflow.Text.{trim}
use wuflow.Filters.{Filter, filter_issues}
use wuflow.Filters.Laws.{if_set, if_any, if_search, passes, filter_issues-passes}
use wuflow.State.{
  State, has_id, remove_first, toggle_backlog_release_filter, prune_release_filter_ids,
  is_filter_active, is_set,
}

-- No id twice.
abbrev pub NoRepeat : List (Option ℕ) → Type 0
NoRepeat [] = Unit
NoRepeat (x ∷ xs) = (has_id xs x ≡ false) × NoRepeat xs

opt_eq_refl : (a : Option ℕ) → opt_eq a a ≡ true
opt_eq_refl a = (opt_eq_iff a a).1 refl

opt_eq_sym : (a b : Option ℕ) → opt_eq a b ≡ opt_eq b a
opt_eq_sym none none = refl
opt_eq_sym none (some _) = refl
opt_eq_sym (some _) none = refl
opt_eq_sym (some a) (some b) = grind arith

has_id-append :
    (xs : List (Option ℕ)) (a b : Option ℕ) → has_id (xs ++ a ∷ []) b ≡ (has_id xs b || opt_eq b a)
has_id-append [] a b = ground arith
has_id-append (x ∷ xs) a b = rw (has_id-append xs a b) (ground arith)

-- A new id at the end repeats nothing.
NoRepeat-append :
    (xs : List (Option ℕ)) (a : Option ℕ)
    → has_id xs a ≡ false
    → NoRepeat xs
    → NoRepeat (xs ++ a ∷ [])
NoRepeat-append [] a h d = (refl, tt)
NoRepeat-append (x ∷ xs) a h (n, d) =
    (ground (arith, has_id-append xs a x, opt_eq_sym x a), NoRepeat-append xs a (ground arith) d)

has_id-remove_first :
    (xs : List (Option ℕ)) (a b : Option ℕ)
    → NoRepeat xs
    → has_id (remove_first a xs) b ≡ (has_id xs b && not (opt_eq a b))
has_id-remove_first [] a b d = refl
has_id-remove_first (x ∷ xs) a b (n, d) = elim (Bool-cases (opt_eq a x)) [
  | inl k ↦ elim (Bool-cases (opt_eq a b)) [
    | inl l ↦
        let e : x ≡ b = sym ((opt_eq_iff a x).0 k) ∙ (opt_eq_iff a b).0 l in
        let n' : has_id xs b ≡ false = rw (← e) n in rw (k, l, n') (ground arith)
    | inr l ↦
        let e : a ≡ x = (opt_eq_iff a x).0 k in
        let m : opt_eq b x ≡ false = rw (← e) (opt_eq_sym b a ∙ l) in rw (k, l, m) (ground arith)
  ]
  | inr k ↦ elim (Bool-cases (opt_eq a b)) [
    | inl l ↦
        let e : a ≡ b = (opt_eq_iff a b).0 l in
        let m : opt_eq b x ≡ false = rw (← e) k in
        rw (k, m) (rw (has_id-remove_first xs a b d) refl)
    | inr l ↦ rw k (rw (has_id-remove_first xs a b d) (rw l (ground arith)))
  ]
]

Distinct-remove : (xs : List (Option ℕ)) (a : Option ℕ) → NoRepeat xs → NoRepeat (remove_first a xs)
Distinct-remove [] a d = tt
Distinct-remove (x ∷ xs) a (n, d) = elim (Bool-cases (opt_eq a x)) [
  | inl k ↦ rw k d
  | inr k ↦ rw k (rw (has_id-remove_first xs a x d) (rw n refl), Distinct-remove xs a d)
]

has_id-toggled :
    (id : Option ℕ) (ids : List (Option ℕ)) (b : Option ℕ) (after : List (Option ℕ))
    → has_id after b ≡ (if opt_eq id b then not (has_id ids id) else has_id ids b)
    → has_id after b ≡ (if opt_eq id b then not (has_id ids b) else has_id ids b)
has_id-toggled id ids b after h = elim (Bool-cases (opt_eq id b)) [
  | inl k ↦
      let e : id ≡ b = (opt_eq_iff id b).0 k in
      let h' : has_id after b ≡ not (has_id ids id) = rw (h, k) refl in
      rw k (h' ∙ ap (λ c. not (has_id ids c)) e)
  | inr k ↦ rw (h, k)
]

-- If no release is in the release filter twice, then after a click on a release of the backlog, or on
-- "No Release", that one has changed sides and nothing else has, and still none is there twice.
pub toggle_backlog_release_filter-has_id :
    (id : Option ℕ) (s : State)
    → NoRepeat s.filter.release_ids
    → let after = (toggle_backlog_release_filter id s).filter.release_ids in
      NoRepeat after
      × ((b : Option ℕ)
          → has_id after b ≡ (
              if opt_eq id b
              then not (has_id s.filter.release_ids b)
              else has_id s.filter.release_ids b))
unfolding toggle_backlog_release_filter
toggle_backlog_release_filter-has_id id s d = elim (Bool-cases (has_id s.filter.release_ids id)) [
  | inl k ↦ rw k (
    Distinct-remove s.filter.release_ids id d,
    λ b.
        has_id-toggled id s.filter.release_ids b (remove_first id s.filter.release_ids)
          (ground (arith, has_id-remove_first s.filter.release_ids id b d)),
  )
  | inr k ↦ rw k (
    NoRepeat-append s.filter.release_ids id k d,
    λ b.
        has_id-toggled id s.filter.release_ids b (s.filter.release_ids ++ id ∷ [])
          (ground (arith, has_id-append s.filter.release_ids id b, opt_eq_sym id b)),
  )
]

pub has_id-filter_by :
    (p : Option ℕ → Bool) (xs : List (Option ℕ)) (b : Option ℕ)
    → has_id (filter_by p xs) b ≡ (has_id xs b && p b)
has_id-filter_by p [] b = refl
has_id-filter_by p (x ∷ xs) b = elim (Bool-cases (opt_eq b x)) [
  | inl k ↦
      let e : p b ≡ p x = ap p ((opt_eq_iff b x).0 k) in
      elim (Bool-cases (p x)) [
        | inl l ↦ rw (k, l) (rw (e ∙ l) (rw k refl))
        | inr l ↦ rw (k, l) (rw (has_id-filter_by p xs b, e ∙ l) (ground arith))
      ]
  | inr k ↦ elim (Bool-cases (p x)) [
    | inl l ↦ rw (k, l) (rw k (has_id-filter_by p xs b))
    | inr l ↦ rw (k, l) (has_id-filter_by p xs b)
  ]
]

NoRepeat-filter_by :
    (p : Option ℕ → Bool) (xs : List (Option ℕ)) → NoRepeat xs → NoRepeat (filter_by p xs)
NoRepeat-filter_by p [] d = tt
NoRepeat-filter_by p (x ∷ xs) (n, d) = elim (Bool-cases (p x)) [
  | inl k ↦ rw k (rw (has_id-filter_by p xs x) (rw n refl), NoRepeat-filter_by p xs d)
  | inr k ↦ rw k (NoRepeat-filter_by p xs d)
]

-- If no release is in the release filter twice, then after pruning the filter has exactly those of its
-- releases that are valid, and still none twice.
pub prune_release_filter_ids-has_id :
    (valid : List (Option ℕ)) (s : State)
    → NoRepeat s.filter.release_ids
    → let after = (prune_release_filter_ids valid s).filter.release_ids in
      NoRepeat after
      × ((b : Option ℕ) → has_id after b ≡ (has_id s.filter.release_ids b && has_id valid b))
unfolding prune_release_filter_ids
prune_release_filter_ids-has_id valid s d = (
  NoRepeat-filter_by (has_id valid) s.filter.release_ids d,
  has_id-filter_by (has_id valid) s.filter.release_ids,
)

not_filled : (t : Text) → is_filled t ≡ false → t ≡ []
not_filled [] h = refl
not_filled (_ ∷ _) h = ground arith

if_set-none {ℓ} : {A : Type ℓ} (o : Option A) (p : A → Bool) → is_set o ≡ false → if_set o p ≡ true
if_set-none none p h = refl
if_set-none (some a) p h = ground arith

if_any-none : (ids : List (Option ℕ)) (r : Option ℕ) → is_filled ids ≡ false → if_any ids r ≡ true
if_any-none [] r h = refl
if_any-none (_ ∷ _) r h = ground arith

if_search-none :
    (lower : Text → Text) (search : Text) (i : Issue)
    → lower [] ≡ []
    → is_filled (trim search) ≡ false
    → if_search lower search i ≡ true
if_search-none lower [] i e h = refl
if_search-none lower (c ∷ cs) i e h =
    let t : trim (c ∷ cs) ≡ [] = not_filled (trim (c ∷ cs)) h in rw t (rw e refl)

filter_by-always {ℓ} :
    {A : Type ℓ} (p : A → Bool) (xs : List A) → ((a : A) → p a ≡ true) → filter_by p xs ≡ xs
filter_by-always p [] h = refl
filter_by-always p (x ∷ xs) h = rw (h x) (ap (x ∷◌) (filter_by-always p xs h))

both : (a b : Bool) → a ≡ true → b ≡ true → (a && b) ≡ true
both a b h k = rw (h, k)

passes-not_active :
    (lower : Text → Text) (f : Filter) (u : Option ℕ) (i : Issue)
    → lower [] ≡ []
    → is_filter_active f ≡ false
    → passes lower f u i ≡ true
unfolding is_filter_active
passes-not_active lower f u i e h =
    both _ _
      (both _ _
        (both _ _
          (both _ _
            (both _ _ (if_set-none f.label _ (ground arith))
              (if_set-none f.priority _ (ground arith)))
            (if_set-none f.assignee _ (ground arith)))
          (if_set-none f.release _ (ground arith)))
        (if_any-none f.release_ids _ (ground arith)))
      (if_search-none lower f.search i e (ground arith))

-- A filter that counts as not active shows every issue, if the empty text has no other lower case.
pub is_filter_active-shows_all :
    (lower : Text → Text) (is : List Issue) (f : Filter) (u : Option ℕ)
    → lower [] ≡ []
    → is_filter_active f ≡ false
    → filter_issues lower (some is) f u ≡ is
unfolding is_filter_active
is_filter_active-shows_all lower is f u e h =
    filter_issues-passes lower is f u
    ∙ filter_by-always (passes lower f u) is (λ i. passes-not_active lower f u i e h)
