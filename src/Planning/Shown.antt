-- ===== src/Planning/Shown.antt =====
-- What stands in the boxes of the plan.
use wuflow.Base.{
  ℕ, ◌+◌, ◌≤◌, Bool, true, false, some, List, [], ◌∷◌, ◌++◌, ◌==◌, if◌then◌else◌, includes,
  filter_by, All, All-append, ◌≡◌, ◌≢◌, refl, sym, ap, ◌∙◌, Bool-cases, inl, inr, arith,
}
use mathlib.Core.List.{append-nil, append_assoc}
use wuflow.Model.{Text, Issue}
use wuflow.Filters.{filter_issues}
use wuflow.Filters.Laws.{passes, filter_issues-passes}
use wuflow.State.{State}
use wuflow.Board.{user_id}
use wuflow.Planning.Panel.{
  Box, past, day, future, Item, Shown, in_past, in_future, has_box, show_date, show_dates,
  show_issues, nothing_shown, planned_items, render_planning_panel,
}

abbrev is_day : ℕ → Box → Bool
is_day d past = false
is_day d (day e) = e == d
is_day d future = false

-- The issues in the box of a day, and those that are planned on it, once for each time.
abbrev pub issues_on : ℕ → List Item → List Issue
issues_on d [] = []
issues_on d (it ∷ its) = if is_day d it.box then it.issue ∷ issues_on d its else issues_on d its

abbrev pub times : ℕ → Issue → List ℕ → List Issue
times d i [] = []
times d i (e ∷ es) = if e == d then i ∷ times d i es else times d i es

abbrev pub planned_on : ℕ → List Issue → List Issue
planned_on d [] = []
planned_on d (i ∷ is) = times d i i.planned_dates ++ planned_on d is

issues_on-append :
    (d : ℕ) (xs ys : List Item) → issues_on d (xs ++ ys) ≡ issues_on d xs ++ issues_on d ys
issues_on-append d [] ys = refl
issues_on-append d (x ∷ xs) ys = elim (Bool-cases (is_day d x.box)) [
  | inl t ↦ rw t (ap (x.issue ∷◌) (issues_on-append d xs ys))
  | inr t ↦ rw t (issues_on-append d xs ys)
]

module _ (today d : ℕ) (window : has_box today d ≡ true) where
  show_date-issues_on :
      (i : Issue) (e : ℕ) (s : Shown)
      → issues_on d (show_date false today i e s).items
        ≡ issues_on d s.items ++ (if e == d then i ∷ [] else [])
  show_date-issues_on i e s = elim (Bool-cases (in_past false today e)) [
    | inl t ↦
        let other : (e == d) ≡ false = ground arith in
        elim (Bool-cases (includes s.past_ids i.id)) [
          | inl u ↦ rw (t, u, other) (sym (append-nil (issues_on d s.items)))
          | inr u ↦ rw (t, u, other) (issues_on-append d s.items _)
        ]
    | inr t ↦ elim (Bool-cases (in_future false today e)) [
      | inl u ↦
          let other : (e == d) ≡ false = ground arith in
          elim (Bool-cases (includes s.future_ids i.id)) [
            | inl v ↦ rw (t, u, v, other) (sym (append-nil (issues_on d s.items)))
            | inr v ↦ rw (t, u, v, other) (issues_on-append d s.items _)
          ]
      | inr u ↦
          let boxed : has_box today e ≡ true = ground arith in
          rw (t, u, boxed) (issues_on-append d s.items _)
    ]
  ]

  show_dates-issues_on :
      (i : Issue) (es : List ℕ) (s : Shown)
      → issues_on d (show_dates false today i es s).items ≡ issues_on d s.items ++ times d i es
  show_dates-issues_on i [] s = sym (append-nil (issues_on d s.items))
  show_dates-issues_on i (e ∷ es) s =
      show_dates-issues_on i es (show_date false today i e s)
      ∙ ap (◌++ times d i es) (show_date-issues_on i e s)
      ∙ elim (Bool-cases (e == d)) [
        | inl t ↦ rw t (append_assoc (issues_on d s.items) (i ∷ []) (times d i es))
        | inr t ↦ rw t (ap (◌++ times d i es) (append-nil (issues_on d s.items)))
      ]

  show_issues-issues_on :
      (is : List Issue) (s : Shown)
      → issues_on d (show_issues false today is s).items ≡ issues_on d s.items ++ planned_on d is
  show_issues-issues_on [] s = sym (append-nil (issues_on d s.items))
  show_issues-issues_on (i ∷ is) s =
      show_issues-issues_on is (show_dates false today i i.planned_dates s)
      ∙ ap (◌++ planned_on d is) (show_dates-issues_on i i.planned_dates s)
      ∙ append_assoc (issues_on d s.items) (times d i i.planned_dates) (planned_on d is)

-- Where the browser's clock is not behind Greenwich, the box of each of the next ten days shows
-- exactly the issues that pass the filter and are planned on that day, in the order of the list, once
-- for each time they are.
pub render_planning_panel-days :
    (lower : Text → Text) (today d : ℕ) (s : State)
    → has_box today d ≡ true
    → issues_on d (render_planning_panel lower false today s).items
      ≡ planned_on d (filter_by (passes lower s.filter (user_id s.current_user)) s.issues)
unfolding render_planning_panel
render_planning_panel-days lower today d s window =
    show_issues-issues_on today d window
      (filter_issues lower (some s.issues) s.filter (user_id s.current_user)) nothing_shown
    ∙ ap (planned_on d) (filter_issues-passes lower s.issues s.filter (user_id s.current_user))

-- Behind Greenwich
module _ (today : ℕ) (late : 1 ≤ today) where
  abbrev pub Misplaced : Item → Type 0
  Misplaced it = (it.date ≢ today + 10) × (it.date ≡ today → it.box ≡ past)

  show_date-Misplaced :
      (i : Issue) (e : ℕ) (s : Shown)
      → All Misplaced s.items
      → All Misplaced (show_date true today i e s).items
  show_date-Misplaced i e s a = elim (Bool-cases (in_past true today e)) [
    | inl t ↦ elim (Bool-cases (includes s.past_ids i.id)) [
      | inl u ↦ rw (t, u) a
      | inr u ↦
          rw (t, u)
            (All-append Misplaced s.items _ a ((λ x. absurd (ground (arith, x)), λ x. refl), tt))
    ]
    | inr t ↦ elim (Bool-cases (in_future true today e)) [
      | inl u ↦ elim (Bool-cases (includes s.future_ids i.id)) [
        | inl v ↦ rw (t, u, v) a
        | inr v ↦
            rw (t, u, v)
              (All-append Misplaced s.items _ a
                ((λ x. ground (arith, x), λ x. absurd (ground (arith, x))), tt))
      ]
      | inr u ↦ elim (Bool-cases (has_box today e)) [
        | inl v ↦
            rw (t, u, v)
              (All-append Misplaced s.items _ a
                ((λ x. ground (arith, x), λ x. absurd (ground (arith, x))), tt))
        | inr v ↦ rw (t, u, v) a
      ]
    ]
  ]

  show_dates-Misplaced :
      (i : Issue) (es : List ℕ) (s : Shown)
      → All Misplaced s.items
      → All Misplaced (show_dates true today i es s).items
  show_dates-Misplaced i [] s a = a
  show_dates-Misplaced i (e ∷ es) s a =
      show_dates-Misplaced i es (show_date true today i e s) (show_date-Misplaced i e s a)

  show_issues-Misplaced :
      (is : List Issue) (s : Shown)
      → All Misplaced s.items
      → All Misplaced (show_issues true today is s).items
  show_issues-Misplaced [] s a = a
  show_issues-Misplaced (i ∷ is) s a =
      show_issues-Misplaced is (show_dates true today i i.planned_dates s)
        (show_dates-Misplaced i i.planned_dates s a)

-- Where the browser's clock is behind Greenwich, and today is not the first day of the count, the plan
-- shows no item of the day ten days ahead, and every item of today stands in the box of the past.
pub planned_items-west :
    (today : ℕ) (is : List Issue)
    → 1 ≤ today
    → All
        (λ it. (it.date ≢ today + 10) × (it.date ≡ today → it.box ≡ past))
        (planned_items true today is)
unfolding planned_items
planned_items-west today is late = show_issues-Misplaced today late is nothing_shown tt
