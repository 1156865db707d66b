-- ===== src/StatusConfig.antt =====
-- static/js/status-config.js: the stages of a project's board and their names.
pub mod Laws
use Prim.Native.Char.{code}
use wuflow.Base.{
  ℕ, String, Bool, true, false, not, ◌&&◌, Option, none, some, List, [], ◌∷◌, ◌++◌, if◌then◌else◌,
  find,
}
use wuflow.Model.{
  Text, Status, open_, todo, stage1, stage2, stage3, stage4, done, archive, status_eq,
}
use wuflow.Text.{trim, is_empty}

-- The code units of a constant of the source, which is ASCII.
abbrev pub text : String → Text
text String.[] = []
text (String.◌∷◌ c s) = code c ∷ text s

-- The `IN_PROGRESS_STATUSES` are the four stages; `STATUS_SLOTS` gives each its field.
pub record Config : Type 0 where
  pub project_id : Option ℕ
  pub stage1_name : Option Text
  pub stage2_name : Option Text
  pub stage3_name : Option Text
  pub stage4_name : Option Text

abbrev pub default_status_config : Config
default_status_config = record {
  project_id = none;
  stage1_name = some (text "Pending");
  stage2_name = some (text "Working");
  stage3_name = some [];
  stage4_name = some [];
}

-- `getActiveStatusConfig`, of `state.statusConfig`
unfoldable pub active_status_config : Option Config → Config
active_status_config none = default_status_config
active_status_config (some cfg) = cfg

-- `STATUS_SLOTS`, with the names of a configuration
abbrev pub status_slots : Config → List (Status × Option Text)
status_slots cfg =
    (stage1, cfg.stage1_name)
    ∷ (stage2, cfg.stage2_name)
    ∷ (stage3, cfg.stage3_name)
    ∷ (stage4, cfg.stage4_name)
    ∷ []

abbrev pub Column : Type 0
Column = Status × Text

-- The slot of the loops: `if (name && name.trim() !== '')` it shows under its trimmed name.
abbrev pub shown_slot : Status → Option Text → List Column
shown_slot status none = []
shown_slot status (some name) =
    if not (is_empty name) && not (is_empty (trim name)) then (status, trim name) ∷ [] else []

abbrev pub push_slots : List (Status × Option Text) → List Column → List Column
push_slots [] cols = cols
push_slots ((status, name) ∷ slots) cols = push_slots slots (cols ++ shown_slot status name)

-- `getBoardColumns`
unfoldable pub get_board_columns : Option Config → List Column
unfolding active_status_config
get_board_columns cfg =
    push_slots (status_slots (active_status_config cfg)) ((todo, text "Todo") ∷ [])
    ++ (done, text "Done") ∷ []

-- `getStatusOptions`
unfoldable pub get_status_options : Option Config → List Column
unfolding active_status_config
get_status_options cfg =
    push_slots (status_slots (active_status_config cfg))
      ((open_, text "Open") ∷ (todo, text "Todo") ∷ [])
    ++ (done, text "Done") ∷ (archive, text "Archived") ∷ []

-- The raw status keys.
abbrev pub status_key : Status → Text
status_key open_ = text "Open"
status_key todo = text "Todo"
status_key stage1 = text "Stage1"
status_key stage2 = text "Stage2"
status_key stage3 = text "Stage3"
status_key stage4 = text "Stage4"
status_key done = text "Done"
status_key archive = text "Archive"

abbrev pub label_or_key : Status → Option Column → Text
label_or_key status none = status_key status
label_or_key status (some c) = c.1

-- `getStatusLabel`
unfoldable pub get_status_label : Option Config → Status → Text
unfolding get_status_options
get_status_label cfg status =
    label_or_key status (find (λ c. status_eq c.0 status) (get_status_options cfg))
