-- ===== src/Tests/Views.antt =====
-- Filters, the status menu and the release filter.
use wuflow.Base.{true, false, ◌↔◌, none, some, List, [], ◌∷◌, ◌≡◌, refl, filter_by}
use wuflow.Model.{Text, Issue, user}
use wuflow.Text.{trim, contains, decimal}
use wuflow.StatusConfig.{text, Config}
use wuflow.Permissions.{delete_issue, can}
use wuflow.Permissions.Backend.{backend_can}
use wuflow.Permissions.Laws.{can-eq-backend}
use wuflow.Filters.{Filter, filter_issues}
use wuflow.Filters.Laws.{passes}
use wuflow.Filters.Meets.{Meets, filter_issues-Meets}
use wuflow.State.{State, initial_state, cleared, is_filter_active}
use wuflow.Tests.Data.{page}

abbrev issues : List Issue
issues = page 0 ∷ page 1 ∷ page 12 ∷ []

abbrev same_case : Text → Text
same_case t = t

-- The search for "2" finds issue 12 by its id.
abbrev searching : Filter
searching = record cleared { search = text " 2 " }

filter_issues-Meets_example :
    (filter_issues same_case (some issues) searching none
      ≡ filter_by (passes same_case searching none) issues)
    × ((i : Issue) → (passes same_case searching none i ≡ true) ↔ Meets same_case searching none i)
filter_issues-Meets_example = filter_issues-Meets same_case issues searching none

found_by_id : filter_issues same_case (some issues) searching none ≡ page 12 ∷ []
unfolding filter_issues trim contains decimal
found_by_id = refl

abbrev named : Config
named = record {
  project_id = some 7;
  stage1_name = some (text " Review ");
  stage2_name = some (text "  ");
  stage3_name = none;
  stage4_name = some [];
}

can-eq-backend_example :
    can (some user) (some delete_issue) ≡ backend_can (some user) (some delete_issue)
can-eq-backend_example = can-eq-backend (some user) (some delete_issue)

-- Release 5 and "No Release" are ticked.
abbrev ticked : State
ticked = record initial_state { filter = record cleared { release_ids = some 5 ∷ none ∷ [] } }

-- A search for blanks is no filter.
abbrev blank : Filter
blank = record cleared { search = text "  " }

blank_not_active : is_filter_active blank ≡ false
unfolding is_filter_active trim
blank_not_active = refl
