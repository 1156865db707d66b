-- ===== src/Filters.antt =====
-- static/js/filters.js: which issues a view shows, and in which order. `lower` is
-- `String.prototype.toLowerCase`, whose tables belong to the browser.
pub mod Laws
pub mod Meets
use wuflow.Base.{
  ℕ, Bool, true, false, not, ◌&&◌, ◌||◌, Option, none, some, List, [], ◌∷◌, ◌==◌, opt_eq,
  if◌then◌else◌, filter_by, sort_by,
}
use wuflow.Model.{Text, Issue, Label, Priority, priority_eq, Status, status_eq}
use wuflow.Text.{trim, is_empty, contains, decimal}

-- The values of `filter.labelId`, `filter.assigneeId` and `filter.releaseId` besides null.
pub data LabelChoice : Type 0 where
  no_label : LabelChoice
  with_label : ℕ → LabelChoice

-- '', 'unassigned', 'me' and a number in a text; a text that is no number is NaN.
pub data AssigneeChoice : Type 0 where
  me unassigned not_a_number : AssigneeChoice
  with_id : ℕ → AssigneeChoice

pub data ReleaseChoice : Type 0 where
  no_release : ReleaseChoice
  with_release : ℕ → ReleaseChoice

pub record Filter : Type 0 where
  pub label : Option LabelChoice
  pub priority : Option Priority
  pub assignee : Option AssigneeChoice
  pub release : Option ReleaseChoice
  pub release_owner : Option AssigneeChoice
  pub release_search : Text
  pub release_ids : List (Option ℕ)
  pub search : Text

abbrev pub has_label : LabelChoice → Option Label → Bool
has_label no_label none = true
has_label no_label (some l) = false
has_label (with_label id) none = false
has_label (with_label id) (some l) = l.id == id

abbrev pub has_assignee : Option ℕ → AssigneeChoice → Option ℕ → Bool
has_assignee none me a = false
has_assignee (some u) me a = opt_eq a (some u)
has_assignee u unassigned a = opt_eq a none
has_assignee u not_a_number a = false
has_assignee u (with_id id) a = opt_eq a (some id)

-- `!issue.release_id` is true of null and of 0.
abbrev pub is_falsy : Option ℕ → Bool
is_falsy none = true
is_falsy (some n) = n == 0

abbrev pub matches_release : ReleaseChoice → Option ℕ → Bool
matches_release no_release r = is_falsy r
matches_release (with_release id) r = opt_eq r (some id)

abbrev pub matches_release_ids : List (Option ℕ) → Option ℕ → Bool
matches_release_ids [] r = false
matches_release_ids (id ∷ ids) r = opt_eq id r || matches_release_ids ids r

-- One stage for each criterion, which leaves the list alone where the criterion is not set.
abbrev by_label : Option LabelChoice → List Issue → List Issue
by_label none is = is
by_label (some c) is = filter_by (λ i. has_label c i.label) is

abbrev by_priority : Option Priority → List Issue → List Issue
by_priority none is = is
by_priority (some p) is = filter_by (λ i. priority_eq i.priority p) is

abbrev by_assignee : Option ℕ → Option AssigneeChoice → List Issue → List Issue
by_assignee u none is = is
by_assignee u (some c) is = filter_by (λ i. has_assignee u c i.assignee_id) is

abbrev by_release : Option ReleaseChoice → List Issue → List Issue
by_release none is = is
by_release (some c) is = filter_by (λ i. matches_release c i.release_id) is

abbrev by_release_ids : List (Option ℕ) → List Issue → List Issue
by_release_ids [] is = is
by_release_ids (id ∷ ids) is = filter_by (λ i. matches_release_ids (id ∷ ids) i.release_id) is

module _ (lower : Text → Text) where
  abbrev pub description_contains : Text → Option Text → Bool
  description_contains term none = false
  description_contains term (some d) = contains term (lower d)

  abbrev pub matches_term : Text → Issue → Bool
  matches_term term i =
      contains term (decimal i.id)
      || contains term (lower i.title)
      || description_contains term i.description

  -- `if (filter.search) { const term = filter.search.trim().toLowerCase(); if (term) … }`
  abbrev by_term : Text → List Issue → List Issue
  by_term [] is = is
  by_term (c ∷ cs) is = filter_by (matches_term (c ∷ cs)) is

  abbrev by_search : Text → List Issue → List Issue
  by_search [] is = is
  by_search (c ∷ cs) is = by_term (lower (trim (c ∷ cs))) is

  abbrev apply_filter : Filter → Option ℕ → List Issue → List Issue
  apply_filter f u is = by_search f.search (
      by_release_ids f.release_ids (
        by_release f.release
          (by_assignee u f.assignee (by_priority f.priority (by_label f.label is)))))

  -- `filterIssues`; what is no array gives no issues.
  unfoldable pub filter_issues : Option (List Issue) → Filter → Option ℕ → List Issue
  filter_issues none f u = []
  filter_issues (some is) f u = apply_filter f u is

-- `filterByStatus`
unfoldable pub filter_by_status : Option (List Issue) → Status → List Issue
filter_by_status none s = []
filter_by_status (some is) s = filter_by (λ i. status_eq i.status s) is

-- `sortByPosition`
unfoldable pub sort_by_position : Option (List Issue) → List Issue
sort_by_position none = []
sort_by_position (some is) = sort_by (λ i. i.position) is
