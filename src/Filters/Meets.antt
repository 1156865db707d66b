-- ===== src/Filters/Meets.antt =====
-- The filter against the criteria as the page names them.
use wuflow.Base.{
  ℕ, Bool, true, ◌&&◌, ◌||◌, Option, none, some, List, [], ◌∷◌, ◌==◌, ==_iff, opt_eq, opt_eq_iff,
  ◌≡◌, ◌↔◌, ◌⊎◌, inl, inr, refl, sym, ap, subst, ◌∙◌, Bool-cases, filter_by, arith,
}
use wuflow.Model.{Text, Issue, Label, Priority, high, normal, priority_eq}
use wuflow.Text.{trim, decimal}
use wuflow.Text.Occurs.{Occurs, contains_iff}
use wuflow.Filters.{
  LabelChoice, no_label, with_label, AssigneeChoice, me, unassigned, not_a_number, with_id,
  ReleaseChoice, no_release, with_release, Filter, has_label, has_assignee, matches_release,
  matches_release_ids, description_contains, filter_issues,
}
use wuflow.Filters.Laws.{if_set, if_any, if_term, if_search, passes, filter_issues-passes}

abbrev WhereSet {ℓ} : {A : Type ℓ} → Option A → (A → Type 0) → Type 0
WhereSet none p = Unit
WhereSet (some a) p = p a

abbrev MeetsLabel : LabelChoice → Option Label → Type 0
MeetsLabel no_label l = l ≡ none
MeetsLabel (with_label id) l = (m : Label) × ((l ≡ some m) × (m.id ≡ id))

-- `u` is the user who is logged in.
abbrev MeetsAssignee : Option ℕ → AssigneeChoice → Option ℕ → Type 0
MeetsAssignee u me a = (v : ℕ) × ((u ≡ some v) × (a ≡ some v))
MeetsAssignee u unassigned a = a ≡ none
MeetsAssignee u not_a_number a = ⊥
MeetsAssignee u (with_id id) a = a ≡ some id

abbrev MeetsRelease : ReleaseChoice → Option ℕ → Type 0
MeetsRelease no_release r = (r ≡ none) ⊎ (r ≡ some 0)
MeetsRelease (with_release id) r = r ≡ some id

abbrev IsAmong : List (Option ℕ) → Option ℕ → Type 0
IsAmong [] r = ⊥
IsAmong (id ∷ ids) r = (r ≡ id) ⊎ IsAmong ids r

abbrev MeetsReleaseIds : List (Option ℕ) → Option ℕ → Type 0
MeetsReleaseIds [] r = Unit
MeetsReleaseIds (id ∷ ids) r = IsAmong (id ∷ ids) r

module _ (lower : Text → Text) where
  abbrev MeetsTerm : Text → Issue → Type 0
  MeetsTerm [] i = Unit
  MeetsTerm (c ∷ cs) i =
      (Occurs (c ∷ cs) (decimal i.id) ⊎ Occurs (c ∷ cs) (lower i.title))
      ⊎ ((d : Text) × ((i.description ≡ some d) × Occurs (c ∷ cs) (lower d)))

  abbrev MeetsSearch : Text → Issue → Type 0
  MeetsSearch [] i = Unit
  MeetsSearch (c ∷ cs) i = MeetsTerm (lower (trim (c ∷ cs))) i

  abbrev pub Meets : Filter → Option ℕ → Issue → Type 0
  Meets f u i =
      WhereSet f.label (λ c. MeetsLabel c i.label)
      × (WhereSet f.priority (λ p. i.priority ≡ p)
          × (WhereSet f.assignee (λ c. MeetsAssignee u c i.assignee_id)
              × (WhereSet f.release (λ c. MeetsRelease c i.release_id)
                  × (MeetsReleaseIds f.release_ids i.release_id × MeetsSearch f.search i))))

-- Whether a test agrees with what it stands for
abbrev Decides : Bool → Type 0 → Type 0
Decides b P = (b ≡ true) ↔ P

both : {P Q : Type 0} (a b : Bool) → Decides a P → Decides b Q → Decides (a && b) (P × Q)
both a b p q = (
  λ h. (p.0 (ground arith), q.0 (ground arith)),
  λ (x, y). let ha : a ≡ true = p.1 x in let hb : b ≡ true = q.1 y in rw (ha, hb) refl,
)

either : {P Q : Type 0} (a b : Bool) → Decides a P → Decides b Q → Decides (a || b) (P ⊎ Q)
either {P} {Q} a b p q = (forward, backward)
  where
    forward : (a || b) ≡ true → P ⊎ Q
    forward h = elim (Bool-cases a) [ inl t ↦ inl (p.0 t) | inr t ↦ inr (q.0 (ground arith)) ]

    backward : P ⊎ Q → (a || b) ≡ true
    backward (inl x) = let ha : a ≡ true = p.1 x in rw ha refl
    backward (inr y) = let hb : b ≡ true = q.1 y in ground arith

set-Decides :
    {A : Type 0} (o : Option A) (test : A → Bool) (P : A → Type 0)
    → ((a : A) → Decides (test a) (P a))
    → Decides (if_set o test) (WhereSet o P)
set-Decides none test P d = (λ _. tt, λ _. refl)
set-Decides (some a) test P d = d a

label-Decides : (c : LabelChoice) (l : Option Label) → Decides (has_label c l) (MeetsLabel c l)
label-Decides no_label none = (λ _. refl, λ _. refl)
label-Decides no_label (some l) = (λ h. cc, λ h. cc)
label-Decides (with_label id) none = (λ h. cc, λ (m, (e, _)). cc)
label-Decides (with_label id) (some l) = (
  λ h. (l, (refl, (==_iff l.id id).0 h)),
  λ (m, (e, k)).
      (==_iff l.id id).1 (ap (λ (o : Option Label). elim o [ none ↦ l.id | some x ↦ x.id ]) e ∙ k),
)

priority-Decides : (p q : Priority) → Decides (priority_eq p q) (p ≡ q)
priority-Decides high high = (λ _. refl, λ _. refl)
priority-Decides high normal = (λ h. cc, λ h. cc)
priority-Decides normal high = (λ h. cc, λ h. cc)
priority-Decides normal normal = (λ _. refl, λ _. refl)

assignee-Decides :
    (u : Option ℕ) (c : AssigneeChoice) (a : Option ℕ)
    → Decides (has_assignee u c a) (MeetsAssignee u c a)
assignee-Decides none me a = (λ h. cc, λ (v, (e, _)). cc)
assignee-Decides (some v) me a = (
  λ h. (v, (refl, (opt_eq_iff a (some v)).0 h)),
  λ (w, (e, k)). (opt_eq_iff a (some v)).1 (k ∙ sym e),
)
assignee-Decides none unassigned a = opt_eq_iff a none
assignee-Decides (some v) unassigned a = opt_eq_iff a none
assignee-Decides none not_a_number a = (λ h. cc, λ h. absurd h)
assignee-Decides (some v) not_a_number a = (λ h. cc, λ h. absurd h)
assignee-Decides none (with_id id) a = opt_eq_iff a (some id)
assignee-Decides (some v) (with_id id) a = opt_eq_iff a (some id)

release-Decides :
    (c : ReleaseChoice) (r : Option ℕ) → Decides (matches_release c r) (MeetsRelease c r)
release-Decides no_release none = (λ _. inl refl, λ _. refl)
release-Decides no_release (some n) = (λ h. inr (ap some ((==_iff n 0).0 h)), zero_of)
  where
    zero_of : (some n ≡ none) ⊎ (some n ≡ some 0) → (n == 0) ≡ true
    zero_of (inl e) = cc
    zero_of (inr e) = ground arith
release-Decides (with_release id) r = opt_eq_iff r (some id)

matches_release_ids-Decides :
    (ids : List (Option ℕ)) (r : Option ℕ) → Decides (matches_release_ids ids r) (IsAmong ids r)
matches_release_ids-Decides [] r = (λ h. cc, λ h. absurd h)
matches_release_ids-Decides (id ∷ ids) r =
    either (opt_eq id r) (matches_release_ids ids r)
      (λ h. sym ((opt_eq_iff id r).0 h), λ e. (opt_eq_iff id r).1 (sym e))
      (matches_release_ids-Decides ids r)

ids-Decides :
    (ids : List (Option ℕ)) (r : Option ℕ) → Decides (if_any ids r) (MeetsReleaseIds ids r)
ids-Decides [] r = (λ _. tt, λ _. refl)
ids-Decides (id ∷ ids) r = matches_release_ids-Decides (id ∷ ids) r

module _ (lower : Text → Text) where
  description-Decides :
      (term : Text) (o : Option Text)
      → Decides
          (description_contains lower term o)
          ((d : Text) × ((o ≡ some d) × Occurs term (lower d)))
  description-Decides term none = (λ h. cc, λ (d, (e, _)). cc)
  description-Decides term (some d) = (
    λ h. (d, (refl, (contains_iff term (lower d)).0 h)),
    λ (b, (e, o)). (contains_iff term (lower d)).1 (
        subst (λ (t : Text). Occurs term (lower t))
          (sym (ap (λ (x : Option Text). elim x [ none ↦ d | some y ↦ y ]) e)) o),
  )

  term-Decides : (term : Text) (i : Issue) → Decides (if_term lower term i) (MeetsTerm lower term i)
  term-Decides [] i = (λ _. tt, λ _. refl)
  term-Decides (c ∷ cs) i =
      either _ _
        (either _ _ (contains_iff (c ∷ cs) (decimal i.id)) (contains_iff (c ∷ cs) (lower i.title)))
        (description-Decides (c ∷ cs) i.description)

  search-Decides :
      (search : Text) (i : Issue) → Decides (if_search lower search i) (MeetsSearch lower search i)
  search-Decides [] i = (λ _. tt, λ _. refl)
  search-Decides (c ∷ cs) i = term-Decides (lower (trim (c ∷ cs))) i

  abbrev Grouped : Filter → Option ℕ → Issue → Type 0
  Grouped f u i =
      ((((WhereSet f.label (λ c. MeetsLabel c i.label) × WhereSet f.priority (λ p. i.priority ≡ p))
            × WhereSet f.assignee (λ c. MeetsAssignee u c i.assignee_id))
          × WhereSet f.release (λ c. MeetsRelease c i.release_id))
        × MeetsReleaseIds f.release_ids i.release_id)
      × MeetsSearch lower f.search i

  -- What `passes` puts to the left, `Meets` puts to the right.
  passes-Decides :
      (f : Filter) (u : Option ℕ) (i : Issue) → Decides (passes lower f u i) (Meets lower f u i)
  passes-Decides f u i = (λ h. regroup (all.0 h), λ m. all.1 (group m))
    where
      all : Decides (passes lower f u i) (Grouped f u i)
      all =
          both _ _
            (both _ _
              (both _ _
                (both _ _
                  (both _ _ (set-Decides f.label _ _ (λ c. label-Decides c i.label))
                    (set-Decides f.priority _ _ (λ p. priority-Decides i.priority p)))
                  (set-Decides f.assignee _ _ (λ c. assignee-Decides u c i.assignee_id)))
                (set-Decides f.release _ _ (λ c. release-Decides c i.release_id)))
              (ids-Decides f.release_ids i.release_id))
            (search-Decides f.search i)

      regroup : Grouped f u i → Meets lower f u i
      regroup (((((l, p), a), r), ids), s) = (l, (p, (a, (r, (ids, s)))))

      group : Meets lower f u i → Grouped f u i
      group (l, (p, (a, (r, (ids, s))))) = (((((l, p), a), r), ids), s)

  -- A view shows exactly the issues that meet every criterion that is set, each once for each time it is in
  -- the list, in the order of the list. The criteria: the label, or none; the priority; the assignee,
  -- none, or the user who is logged in, and nobody meets a text that is no number; the release, or no
  -- release, which 0 is too; one of the ticked releases; and the search, trimmed and in lower case,
  -- somewhere in the number, the title or the description.
  pub filter_issues-Meets :
      (is : List Issue) (f : Filter) (u : Option ℕ)
      → (filter_issues lower (some is) f u ≡ filter_by (passes lower f u) is)
        × ((i : Issue) → (passes lower f u i ≡ true) ↔ Meets lower f u i)
  filter_issues-Meets is f u = (filter_issues-passes lower is f u, passes-Decides f u)
