-- ===== src/Planning/Panel.antt =====
-- static/js/components/planning.js, `renderPlanningPanel` and the badges: what the plan lists. The text of
-- a planned day is read as midnight of Greenwich, so that its local day is the day before where the
-- browser's clock is behind Greenwich (`west`).
use wuflow.Base.{
  ℕ, ◌+◌, ◌-◌, Bool, true, false, not, ◌&&◌, ◌||◌, Option, none, some, List, [], ◌∷◌, ◌++◌, leb,
  ltb, if◌then◌else◌, length, filter_by, any, is_filled, includes, sort_by,
}
use wuflow.Model.{Text, Issue, done, archive, status_eq}
use wuflow.Filters.{filter_issues}
use wuflow.State.{State, is_filter_active}
use wuflow.Board.{user_id}
use wuflow.Planning.{Info, get_effective_deadline_info}

-- The boxes of the plan: one for the past, one for each of ten days, one for the far future.
pub data Box : Type 0 where
  past : Box
  day : ℕ → Box
  future : Box

-- An issue in a box, with its day of the plan
pub record Item : Type 0 where
  pub box : Box
  pub issue : Issue
  pub date : ℕ

-- The items so far, and the issues that the past and the future hold already
pub record Shown : Type 0 where
  pub items : List Item
  pub past_ids : List ℕ
  pub future_ids : List ℕ

abbrev pub local_day : Bool → ℕ → ℕ
local_day west d = if west then d - 1 else d

abbrev pub in_past : Bool → ℕ → ℕ → Bool
in_past west today d = ltb (local_day west d) today

abbrev pub in_future : Bool → ℕ → ℕ → Bool
in_future west today d = leb (today + 10) (local_day west d)

-- `document.getElementById` finds the boxes of the ten days by their texts.
abbrev pub has_box : ℕ → ℕ → Bool
has_box today d = leb today d && ltb d (today + 10)

abbrev append_item : Box → Issue → ℕ → Shown → Shown
append_item box i d s = record s {
  items = s.items ++ record { box = box; issue = i; date = d } ∷ [];
}

abbrev pub show_date : Bool → ℕ → Issue → ℕ → Shown → Shown
show_date west today i d s =
    if in_past west today d
    then if includes s.past_ids i.id
      then s
      else append_item past i d (record s { past_ids = i.id ∷ s.past_ids })
    else if in_future west today d
    then if includes s.future_ids i.id
      then s
      else append_item future i d (record s { future_ids = i.id ∷ s.future_ids })
    else if has_box today d
    then append_item (day d) i d s
    else s

abbrev pub show_dates : Bool → ℕ → Issue → List ℕ → Shown → Shown
show_dates west today i [] s = s
show_dates west today i (d ∷ ds) s = show_dates west today i ds (show_date west today i d s)

abbrev pub show_issues : Bool → ℕ → List Issue → Shown → Shown
show_issues west today [] s = s
show_issues west today (i ∷ is) s =
    show_issues west today is (show_dates west today i i.planned_dates s)

abbrev pub nothing_shown : Shown
nothing_shown = record { items = []; past_ids = []; future_ids = [] }

unfoldable pub planned_items : Bool → ℕ → List Issue → List Item
planned_items west today is = (show_issues west today is nothing_shown).items

abbrev is_over : Issue → Bool
is_over i = status_eq i.status done || status_eq i.status archive

abbrev pub has_info : Option Info → Bool
has_info none = false
has_info (some info) = true

-- The issues with a deadline and no planned day
abbrev pub is_unscheduled : Issue → Bool
is_unscheduled i = has_info (get_effective_deadline_info i) && not (is_filled i.planned_dates)

abbrev pub deadline_key : Option Info → ℕ
deadline_key none = 0
deadline_key (some info) = info.date

unfoldable pub unscheduled_issues : List Issue → List Issue
unscheduled_issues is =
    sort_by (λ (i : Issue). deadline_key (get_effective_deadline_info i))
      (filter_by (λ (i : Issue). is_unscheduled i && not (is_over i)) is)

-- What counts behind the slash while a filter is active
abbrev counted : Issue → ℕ
counted i = if is_over i then 0 else (if is_unscheduled i then 1 else 0) + length i.planned_dates

abbrev pub total_count : List Issue → ℕ
total_count [] = 0
total_count (i ∷ is) = counted i + total_count is

pub record Panel : Type 0 where
  pub unscheduled : List Issue
  pub has_past : Bool
  pub has_future : Bool
  pub items : List Item
  pub count : ℕ
  pub total : Option ℕ

abbrev some_date : (ℕ → Bool) → List Issue → Bool
some_date p is = any (λ (i : Issue). any p i.planned_dates) is

-- `toLowerCase` of the browser, whether its clock is behind Greenwich, and its day
unfoldable pub render_planning_panel : (Text → Text) → Bool → ℕ → State → Panel
unfolding planned_items unscheduled_issues
render_planning_panel lower west today s =
    let shown = filter_issues lower (some s.issues) s.filter (user_id s.current_user) in
    let unscheduled = unscheduled_issues shown in
    let items = planned_items west today shown in
    record {
      unscheduled = unscheduled;
      has_past = some_date (in_past west today) shown;
      has_future = some_date (in_future west today) shown;
      items = items;
      count = length unscheduled + length items;
      total = if is_filter_active s.filter then some (total_count s.issues) else none;
    }

-- `createUnscheduledSection`: the deadlines within ten days, and those behind a heading that opens.
abbrev pub is_far : ℕ → Issue → Bool
is_far today i = elim (get_effective_deadline_info i) [
  | none ↦ false
  | some info ↦ ltb (today + 10) info.date
]

unfoldable pub unscheduled_section : ℕ → List Issue → List Issue × List Issue
unscheduled_section today is =
    (filter_by (λ (i : Issue). not (is_far today i)) is, filter_by (is_far today) is)

-- The badge of an effective deadline, with its tooltip
pub data Badge : Type 0 where
  no_badge overdue planned_late task_deadline own_deadline : Badge

abbrev unless_late : ℕ → Info → Badge
unless_late today info =
    if ltb info.date today then overdue else if info.is_task then task_deadline else own_deadline

abbrev pub last_date : List ℕ → Option ℕ
last_date [] = none
last_date (d ∷ []) = some d
last_date (d ∷ e ∷ ds) = last_date (e ∷ ds)

abbrev late_if : Bool → Option ℕ → ℕ → Info → Badge
late_if west none today info = unless_late today info
late_if west (some d) today info =
    if ltb info.date (local_day west d) then planned_late else unless_late today info

abbrev badge_of : Bool → ℕ → List ℕ → Option ℕ → Option Info → Badge
badge_of west today dates instance_day none = no_badge
badge_of west today dates (some d) (some info) = late_if west (some d) today info
badge_of west today dates none (some info) =
    late_if west (last_date (sort_by (λ (d : ℕ). d) dates)) today info

-- `createDeadlineBadge`; the item of a planned day goes by that day, any other by the last one.
unfoldable pub create_deadline_badge : Bool → ℕ → Issue → Option ℕ → Badge
create_deadline_badge west today i instance_day =
    badge_of west today i.planned_dates instance_day (get_effective_deadline_info i)
