-- ===== src/Filters/Laws.antt =====
-- The filter is one test of each issue, and a view's order is by position.
use wuflow.Base.{
  ℕ, Bool, true, ◌&&◌, ◌||◌, Option, none, some, List, [], ◌∷◌, ◌≡◌, refl, sym, ap, ◌∙◌, filter_by,
  filter_by-filter_by, filter_by_all,
}
use wuflow.Model.{Text, Issue, Priority, priority_eq}
use wuflow.Text.{trim, is_empty}
use wuflow.Filters.{
  LabelChoice, AssigneeChoice, ReleaseChoice, Filter, has_label, has_assignee, matches_release,
  matches_release_ids, matches_term, by_label, by_priority, by_assignee, by_release, by_release_ids,
  by_term, by_search, filter_issues,
}

-- What an issue must satisfy: each criterion that is set.
abbrev pub if_set {ℓ} : {A : Type ℓ} → Option A → (A → Bool) → Bool
if_set none p = true
if_set (some a) p = p a

abbrev pub if_any : List (Option ℕ) → Option ℕ → Bool
if_any [] r = true
if_any (id ∷ ids) r = matches_release_ids (id ∷ ids) r

module _ (lower : Text → Text) where
  abbrev pub if_term : Text → Issue → Bool
  if_term term i = is_empty term || matches_term lower term i

  abbrev pub if_search : Text → Issue → Bool
  if_search search i = is_empty search || if_term (lower (trim search)) i

  abbrev pub passes : Filter → Option ℕ → Issue → Bool
  passes f u i =
      ((((if_set f.label (λ c. has_label c i.label)
              && if_set f.priority (λ p. priority_eq i.priority p))
            && if_set f.assignee (λ c. has_assignee u c i.assignee_id))
          && if_set f.release (λ c. matches_release c i.release_id))
        && if_any f.release_ids i.release_id)
      && if_search f.search i

-- A stage behind a filter narrows its test.
narrow :
    (stage : List Issue → List Issue) (p q : Issue → Bool) (is js : List Issue)
    → ((ks : List Issue) → stage ks ≡ filter_by q ks)
    → js ≡ filter_by p is
    → stage js ≡ filter_by (λ i. p i && q i) is
narrow stage p q is js s e = s js ∙ ap (filter_by q) e ∙ filter_by-filter_by p q is

by_label-test :
    (c : Option LabelChoice) (is : List Issue)
    → by_label c is ≡ filter_by (λ i. if_set c (λ d. has_label d i.label)) is
by_label-test none is = sym (filter_by_all is)
by_label-test (some c) is = refl

by_priority-test :
    (c : Option Priority) (is : List Issue)
    → by_priority c is ≡ filter_by (λ i. if_set c (λ p. priority_eq i.priority p)) is
by_priority-test none is = sym (filter_by_all is)
by_priority-test (some c) is = refl

by_assignee-test :
    (u : Option ℕ) (c : Option AssigneeChoice) (is : List Issue)
    → by_assignee u c is ≡ filter_by (λ i. if_set c (λ d. has_assignee u d i.assignee_id)) is
by_assignee-test u none is = sym (filter_by_all is)
by_assignee-test u (some c) is = refl

by_release-test :
    (c : Option ReleaseChoice) (is : List Issue)
    → by_release c is ≡ filter_by (λ i. if_set c (λ d. matches_release d i.release_id)) is
by_release-test none is = sym (filter_by_all is)
by_release-test (some c) is = refl

by_release_ids-test :
    (ids : List (Option ℕ)) (is : List Issue)
    → by_release_ids ids is ≡ filter_by (λ i. if_any ids i.release_id) is
by_release_ids-test [] is = sym (filter_by_all is)
by_release_ids-test (_ ∷ _) is = refl

module _ (lower : Text → Text) where
  by_term-test :
      (term : Text) (is : List Issue) → by_term lower term is ≡ filter_by (if_term lower term) is
  by_term-test [] is = sym (filter_by_all is)
  by_term-test (_ ∷ _) is = refl

  by_search-test :
      (search : Text) (is : List Issue)
      → by_search lower search is ≡ filter_by (if_search lower search) is
  by_search-test [] is = sym (filter_by_all is)
  by_search-test (c ∷ cs) is = by_term-test (lower (trim (c ∷ cs))) is

  -- A view shows exactly the issues that meet every criterion that is set, each once for each time
  -- it is in the list, in the order of the list.
  pub filter_issues-passes :
      (is : List Issue) (f : Filter) (u : Option ℕ)
      → filter_issues lower (some is) f u ≡ filter_by (passes lower f u) is
  unfolding filter_issues
  filter_issues-passes is f u =
      narrow (by_search lower f.search) _ _ is _ (by_search-test f.search) (
        narrow (by_release_ids f.release_ids) _ _ is _ (by_release_ids-test f.release_ids) (
          narrow (by_release f.release) _ _ is _ (by_release-test f.release) (
            narrow (by_assignee u f.assignee) _ _ is _ (by_assignee-test u f.assignee) (
              narrow (by_priority f.priority) _ _ is _ (by_priority-test f.priority)
                (by_label-test f.label is)))))
