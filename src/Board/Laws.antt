-- ===== src/Board/Laws.antt =====
-- The board shows every issue that it has to show, once for each time it is loaded, and in order.
use wuflow.Base.{
  ℕ, Bool, false, not, ◌&&◌, Option, none, some, List, [], ◌∷◌, map, length, filter_by,
  filter_by-filter_by, sort_by, filter_by-sort_by, suc, ◌++◌, All, All-append, ◌≡◌, refl, sym, ap,
  ◌∙◌, Bool-cases, inl, inr, arith,
}
use wuflow.Model.{Text, Issue, Status, open_, todo, status_eq, status_eq→eq}
use wuflow.Text.{trim, is_empty}
use wuflow.StatusConfig.{
  text, Config, active_status_config, status_slots, Column, shown_slot, push_slots,
  get_board_columns,
}
use wuflow.Filters.{filter_issues, sort_by_position}
use wuflow.Filters.Laws.{passes, filter_issues-passes}
use wuflow.State.{State}
use wuflow.Board.{
  CardView, ColumnView, user_id, non_backlog, column_cards, column_view, render_board,
}

pub map-issue :
    (f : Issue → CardView) (is : List Issue)
    → ((i : Issue) → (f i).issue ≡ i)
    → map (λ (c : CardView). c.issue) (map f is) ≡ is
map-issue f [] h = refl
map-issue f (i ∷ is) h = λ k. h i k ∷ map-issue f is h k

filter_by-same :
    (p q : Issue → Bool) (is : List Issue)
    → ((i : Issue) → p i ≡ q i)
    → filter_by p is ≡ filter_by q is
filter_by-same p q [] h = refl
filter_by-same p q (i ∷ is) h = rw (h i, filter_by-same p q is h) refl

-- What a column has to show, in the order of the positions.
abbrev pub due : (Text → Text) → State → Status → List Issue
due lower s status =
    sort_by (λ (i : Issue). i.position)
      (filter_by
        (λ (i : Issue).
          passes lower s.filter (user_id s.current_user) i && status_eq i.status status)
        s.issues)

not_open :
    (a : Bool) (i : Issue) (status : Status)
    → status_eq status open_ ≡ false
    → ((not (status_eq i.status open_) && a) && status_eq i.status status)
      ≡ (a && status_eq i.status status)
not_open a i status h = elim (Bool-cases (status_eq i.status status)) [
  | inl t ↦
      let e : i.status ≡ status = status_eq→eq i.status status t in
      let o : status_eq i.status open_ ≡ false = rw e h in rw (t, o) refl
  | inr t ↦ rw t (ground arith)
]

column_cards-due :
    (lower : Text → Text) (s : State) (status : Status)
    → status_eq status open_ ≡ false
    → map (λ (c : CardView). c.issue) (column_cards lower s status) ≡ due lower s status
unfolding sort_by_position
column_cards-due lower s status h =
    map-issue _ _ (λ i. refl)
    ∙ filter_by-sort_by key of_status (filter_issues lower (some (non_backlog s)) s.filter user)
    ∙ ap (sort_by key) (
        ap (filter_by of_status) (filter_issues-passes lower (non_backlog s) s.filter user)
        ∙ ap (filter_by of_status) (filter_by-filter_by in_play pass s.issues)
        ∙ filter_by-filter_by (λ (i : Issue). in_play i && pass i) of_status s.issues
        ∙ filter_by-same _ _ s.issues (λ i. not_open (pass i) i status h))
  where
    key : Issue → ℕ
    key i = i.position

    of_status : Issue → Bool
    of_status i = status_eq i.status status

    in_play : Issue → Bool
    in_play i = not (status_eq i.status open_)

    user : Option ℕ
    user = user_id s.current_user

    pass : Issue → Bool
    pass = passes lower s.filter user

pub length-map {ℓ κ} :
    {A : Type ℓ} {B : Type κ} (f : A → B) (xs : List A) → length (map f xs) ≡ length xs
length-map f [] = refl
length-map f (x ∷ xs) = ap suc (length-map f xs)

-- No column of the board is that of the open issues, which are in the backlog.
abbrev OffBacklog : List Column → Type 0
OffBacklog = All (λ c. status_eq c.0 open_ ≡ false)

shown_slot-OffBacklog :
    (status : Status) (name : Option Text)
    → status_eq status open_ ≡ false
    → OffBacklog (shown_slot status name)
shown_slot-OffBacklog status none h = tt
shown_slot-OffBacklog status (some name) h =
    elim (Bool-cases (not (is_empty name) && not (is_empty (trim name)))) [
      | inl t ↦ rw t (h, tt)
      | inr t ↦ rw t tt
    ]

push_slots-OffBacklog :
    (slots : List (Status × Option Text)) (cols : List Column)
    → All (λ slot. status_eq slot.0 open_ ≡ false) slots
    → OffBacklog cols
    → OffBacklog (push_slots slots cols)
push_slots-OffBacklog [] cols h k = k
push_slots-OffBacklog ((status, name) ∷ slots) cols (h, hs) k =
    push_slots-OffBacklog slots (cols ++ shown_slot status name) hs
      (All-append _ cols (shown_slot status name) k (shown_slot-OffBacklog status name h))

get_board_columns-OffBacklog : (cfg : Option Config) → OffBacklog (get_board_columns cfg)
unfolding get_board_columns
get_board_columns-OffBacklog cfg =
    All-append _ (push_slots (status_slots (active_status_config cfg)) ((todo, text "Todo") ∷ [])) _
      (push_slots-OffBacklog (status_slots (active_status_config cfg)) ((todo, text "Todo") ∷ [])
        (refl, (refl, (refl, (refl, tt)))) (refl, tt))
      (refl, tt)

-- What a column shows: its issues, and how many they are.
abbrev pub shown : ColumnView → Column × (List Issue × ℕ)
shown v = (v.column, (map (λ (c : CardView). c.issue) v.cards, v.count))

abbrev pub due_in : (Text → Text) → State → Column → Column × (List Issue × ℕ)
due_in lower s c = (c, (due lower s c.0, length (due lower s c.0)))

columns-due :
    (lower : Text → Text) (s : State) (cols : List Column)
    → OffBacklog cols
    → map shown (map (column_view lower s) cols) ≡ map (due_in lower s) cols
columns-due lower s [] h = refl
columns-due lower s (c ∷ cols) (h, hs) =
    let cards = column_cards-due lower s c.0 h in
    let count =
      sym (length-map (λ (v : CardView). v.issue) (column_cards lower s c.0)) ∙ ap length cards in
    λ k. (c, (cards k, count k)) ∷ columns-due lower s cols hs k

-- The board shows in each of its columns exactly the loaded issues that have the column's status and
-- pass the filter, in the order of their positions, and the number above the column is theirs.
pub render_board-due :
    (lower : Text → Text) (s : State)
    → map shown (render_board lower s) ≡ map (due_in lower s) (get_board_columns s.status_config)
unfolding render_board
render_board-due lower s =
    columns-due lower s (get_board_columns s.status_config)
      (get_board_columns-OffBacklog s.status_config)
