-- ===== src/Tasks/Order.antt =====
-- static/js/components/modal.js, `saveTaskOrder`: the order of the tasks after a drag.
use wuflow.Base.{
  ℕ, suc, String, not, Option, none, some, List, [], ◌∷◌, ◌==◌, if◌then◌else◌, find, is_filled,
  sort_by,
}
use wuflow.Model.{Task, User}
use wuflow.Permissions.{user_can, update_task}
use wuflow.Tasks.{Call, put_task_positions, Notice, error}

-- `task.position = position` on the first task with the id
abbrev pub place_task : ℕ → ℕ → List Task → List Task
place_task id position [] = []
place_task id position (t ∷ ts) =
    if t.id == id then record t { position = position } ∷ ts else t ∷ place_task id position ts

abbrev pub find_task : ℕ → List Task → Option Task
find_task id = find (λ (t : Task). t.id == id)

-- `positions`, `previous` and the tasks as the loop leaves them
pub record Placed : Type 0 where
  pub positions : List (ℕ × ℕ)
  pub previous : List (ℕ × ℕ)
  pub tasks : List Task

abbrev pub add_placed : ℕ → ℕ → ℕ → Placed → Placed
add_placed id index old p = record p {
  positions = (id, index) ∷ p.positions;
  previous = (id, old) ∷ p.previous;
}

-- One item of the list, before the rest
abbrev pub place_item : ℕ → ℕ → Option Task → (List Task → Placed) → List Task → Placed
place_item id index none rest ts = rest ts
place_item id index (some t) rest ts =
    if t.position == index
    then rest ts
    else add_placed id index t.position (rest (place_task id index ts))

-- The loop over the items of the page, by their ids
unfoldable pub place_items : ℕ → List ℕ → List Task → Placed
place_items index [] ts = record { positions = []; previous = []; tasks = ts }
place_items index (id ∷ ids) ts =
    place_item id index (find_task id ts) (place_items (suc index) ids) ts

abbrev pub put_back : List (ℕ × ℕ) → List Task → List Task
put_back [] ts = ts
put_back ((id, position) ∷ ps) ts = put_back ps (place_task id position ts)

pub record Ordered : Type 0 where
  pub tasks : List Task
  pub calls : List Call
  pub notices : List Notice

abbrev pub order_ends : Option String → Placed → Ordered
order_ends none p = record {
  tasks = sort_by (λ (t : Task). t.position) p.tasks;
  calls = put_task_positions p.positions ∷ [];
  notices = [];
}
order_ends (some m) p = record {
  tasks = put_back p.previous p.tasks;
  calls = put_task_positions p.positions ∷ [];
  notices = error m ∷ [];
}

abbrev pub save_placed : (Call → Option String) → Placed → Ordered
save_placed answer p =
    if is_filled p.positions
    then order_ends (answer (put_task_positions p.positions)) p
    else record { tasks = p.tasks; calls = []; notices = [] }

-- `saveTaskOrder`
unfoldable pub save_task_order : (Call → Option String) → Option User → List ℕ → List Task → Ordered
unfolding place_items
save_task_order answer user ids ts =
    if not (user_can user update_task)
    then record { tasks = ts; calls = []; notices = [] }
    else save_placed answer (place_items 0 ids ts)
