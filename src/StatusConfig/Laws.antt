-- ===== src/StatusConfig/Laws.antt =====
-- The board, the status menu and the labels show the same stages.
use wuflow.Base.{
  false, not, ◌&&◌, Option, none, some, List, [], ◌∷◌, ◌++◌, ◌≡◌, refl, ap, ◌∙◌, find,
  if◌then◌else◌, Bool-cases, inl, inr,
}
use mathlib.Core.List.{append_assoc}
use wuflow.Model.{
  Text, Status, open_, todo, stage1, stage2, stage3, stage4, done, archive, status_eq,
  status_eq_refl,
}
use wuflow.Text.{trim, is_empty}
use wuflow.StatusConfig.{
  text, Config, active_status_config, Column, shown_slot, get_board_columns, get_status_options,
  get_status_label, status_key, label_or_key,
}

-- The status menu offers the columns of the board, in their order and under their names, between
-- Open and Archived.
pub get_status_options-columns :
    (cfg : Option Config)
    → get_status_options cfg
      ≡ (open_, text "Open") ∷ (get_board_columns cfg ++ (archive, text "Archived") ∷ [])
unfolding get_status_options get_board_columns
get_status_options-columns cfg = simp append_assoc

-- A stage shows under its trimmed name if that is not empty, else under its key.
abbrev pub stage_label : Status → Option Text → Text
stage_label status none = status_key status
stage_label status (some name) = if is_empty (trim name) then status_key status else trim name

abbrev pub label_of : Config → Status → Text
label_of cfg stage1 = stage_label stage1 cfg.stage1_name
label_of cfg stage2 = stage_label stage2 cfg.stage2_name
label_of cfg stage3 = stage_label stage3 cfg.stage3_name
label_of cfg stage4 = stage_label stage4 cfg.stage4_name
label_of cfg archive = text "Archived"
label_of cfg status = status_key status

abbrev find_status : Status → List Column → Option Column
find_status status = find (λ c. status_eq c.0 status)

find_other :
    (s t : Status) (name : Option Text) (rest : List Column)
    → status_eq s t ≡ false
    → find_status t (shown_slot s name ++ rest) ≡ find_status t rest
find_other s t none rest h = refl
find_other s t (some name) rest h =
    elim (Bool-cases (not (is_empty name) && not (is_empty (trim name)))) [
      | inl k ↦ rw (k, h)
      | inr k ↦ rw k
    ]

find_self :
    (s : Status) (name : Option Text) (rest : List Column)
    → find_status s rest ≡ none
    → label_or_key s (find_status s (shown_slot s name ++ rest)) ≡ stage_label s name
unfolding trim
find_self s none rest h = rw h
find_self s (some []) rest h = rw h
find_self s (some (c ∷ cs)) rest h = elim (Bool-cases (is_empty (trim (c ∷ cs)))) [
  | inl k ↦ rw k (rw h)
  | inr k ↦ rw k (rw (status_eq_refl s))
]

-- The columns of the menu with the slots side by side.
abbrev from_slot4 : Config → List Column → List Column
from_slot4 cfg rest = shown_slot stage4 cfg.stage4_name ++ rest

abbrev from_slot3 : Config → List Column → List Column
from_slot3 cfg rest = shown_slot stage3 cfg.stage3_name ++ from_slot4 cfg rest

abbrev from_slot2 : Config → List Column → List Column
from_slot2 cfg rest = shown_slot stage2 cfg.stage2_name ++ from_slot3 cfg rest

abbrev slots_then : Config → List Column → List Column
slots_then cfg rest = shown_slot stage1 cfg.stage1_name ++ from_slot2 cfg rest

abbrev last_options : List Column
last_options = (done, text "Done") ∷ (archive, text "Archived") ∷ []

get_status_options-slots_then :
    (cfg : Option Config)
    → get_status_options cfg
      ≡ (open_, text "Open")
        ∷ (todo, text "Todo")
        ∷ slots_then (active_status_config cfg) last_options
unfolding get_status_options
get_status_options-slots_then cfg = simp append_assoc

-- A status that is no stage is found behind the slots.
find_behind :
    (cfg : Config) (t : Status) (rest : List Column)
    → status_eq stage1 t ≡ false
    → status_eq stage2 t ≡ false
    → status_eq stage3 t ≡ false
    → status_eq stage4 t ≡ false
    → find_status t (slots_then cfg rest) ≡ find_status t rest
find_behind cfg t rest h1 h2 h3 h4 =
    find_other stage1 t cfg.stage1_name (from_slot2 cfg rest) h1
    ∙ find_other stage2 t cfg.stage2_name (from_slot3 cfg rest) h2
    ∙ find_other stage3 t cfg.stage3_name (from_slot4 cfg rest) h3
    ∙ find_other stage4 t cfg.stage4_name rest h4

label_of-options :
    (cfg : Config) (status : Status)
    → label_or_key status (
        find_status status
          ((open_, text "Open") ∷ (todo, text "Todo") ∷ slots_then cfg last_options))
      ≡ label_of cfg status
label_of-options cfg open_ = refl
label_of-options cfg todo = refl
label_of-options cfg stage1 = find_self stage1 cfg.stage1_name (from_slot2 cfg last_options) (
    find_other stage2 stage1 cfg.stage2_name (from_slot3 cfg last_options) refl
    ∙ find_other stage3 stage1 cfg.stage3_name (from_slot4 cfg last_options) refl
    ∙ find_other stage4 stage1 cfg.stage4_name last_options refl)
label_of-options cfg stage2 =
    ap (label_or_key stage2)
      (find_other stage1 stage2 cfg.stage1_name (from_slot2 cfg last_options) refl)
    ∙ find_self stage2 cfg.stage2_name (from_slot3 cfg last_options) (
        find_other stage3 stage2 cfg.stage3_name (from_slot4 cfg last_options) refl
        ∙ find_other stage4 stage2 cfg.stage4_name last_options refl)
label_of-options cfg stage3 =
    ap (label_or_key stage3) (
      find_other stage1 stage3 cfg.stage1_name (from_slot2 cfg last_options) refl
      ∙ find_other stage2 stage3 cfg.stage2_name (from_slot3 cfg last_options) refl)
    ∙ find_self stage3 cfg.stage3_name (from_slot4 cfg last_options)
        (find_other stage4 stage3 cfg.stage4_name last_options refl)
label_of-options cfg stage4 =
    ap (label_or_key stage4) (
      find_other stage1 stage4 cfg.stage1_name (from_slot2 cfg last_options) refl
      ∙ find_other stage2 stage4 cfg.stage2_name (from_slot3 cfg last_options) refl
      ∙ find_other stage3 stage4 cfg.stage3_name (from_slot4 cfg last_options) refl)
    ∙ find_self stage4 cfg.stage4_name last_options refl
label_of-options cfg done =
    ap (label_or_key done) (find_behind cfg done last_options refl refl refl refl)
label_of-options cfg archive =
    ap (label_or_key archive) (find_behind cfg archive last_options refl refl refl refl)

-- The label of a status is its name on the board, and its key where the board does not show it.
pub get_status_label-label_of :
    (cfg : Option Config) (status : Status)
    → get_status_label cfg status ≡ label_of (active_status_config cfg) status
unfolding get_status_label
get_status_label-label_of cfg status =
    ap (λ cols. label_or_key status (find_status status cols)) (get_status_options-slots_then cfg)
    ∙ label_of-options (active_status_config cfg) status
