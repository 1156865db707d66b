-- ===== src/Tasks/Undo.antt =====
-- A refused order of the tasks is taken back.
use wuflow.Base.{
  ℕ, suc, String, false, Option, none, some, List, [], ◌∷◌, ◌==◌, includes, Distinct, is_filled,
  ◌≡◌, refl, sym, ap, ◌∙◌, Bool-cases, inl, inr, arith,
}
use wuflow.Model.{Task, User}
use wuflow.Permissions.{user_can, update_task}
use wuflow.Tasks.{Call, put_task_positions}
use wuflow.Tasks.Order.{
  Placed, add_placed, place_task, find_task, place_item, place_items, put_back, order_ends,
  save_task_order,
}

place_task_twice :
    (id a b : ℕ) (ts : List Task) → place_task id b (place_task id a ts) ≡ place_task id b ts
place_task_twice id a b [] = refl
place_task_twice id a b (t ∷ ts) = elim (Bool-cases (t.id == id)) [
  | inl h ↦ rw h (rw h refl)
  | inr h ↦ rw h (rw h (ap (t ∷◌) (place_task_twice id a b ts)))
]

place_task_same :
    (id : ℕ) (ts : List Task) (t : Task)
    → find_task id ts ≡ some t
    → place_task id t.position ts ≡ ts
place_task_same id [] t f = refl
place_task_same id (x ∷ ts) t f = elim (Bool-cases (x.id == id)) [
  | inl h ↦
      let e : x.position ≡ t.position = ground (arith, f) in
      rw h (ap (λ (n : ℕ). record x { position = n } ∷ ts) (sym e))
  | inr h ↦ rw h (ap (x ∷◌) (place_task_same id ts t (ground (arith, f))))
]

place_task_comm :
    (i j a b : ℕ) (ts : List Task)
    → (i == j) ≡ false
    → place_task i a (place_task j b ts) ≡ place_task j b (place_task i a ts)
place_task_comm i j a b [] d = refl
place_task_comm i j a b (t ∷ ts) d = elim (Bool-cases (t.id == i)) [
  | inl h ↦ let other : (t.id == j) ≡ false = ground arith in rw (h, other) (rw h refl)
  | inr h ↦ elim (Bool-cases (t.id == j)) [
    | inl k ↦ rw (h, k) (rw h refl)
    | inr k ↦ rw (h, k) (rw h (ap (t ∷◌) (place_task_comm i j a b ts d)))
  ]
]

find_task-place_task :
    (i j a : ℕ) (ts : List Task)
    → (i == j) ≡ false
    → find_task j (place_task i a ts) ≡ find_task j ts
find_task-place_task i j a [] d = refl
find_task-place_task i j a (t ∷ ts) d = elim (Bool-cases (t.id == i)) [
  | inl h ↦ let other : (t.id == j) ≡ false = ground arith in rw (h, other) refl
  | inr h ↦ elim (Bool-cases (t.id == j)) [
    | inl k ↦ rw (h, k) refl
    | inr k ↦ rw (h, k) (find_task-place_task i j a ts d)
  ]
]

abbrev on_tasks : (List Task → List Task) → Placed → Placed
on_tasks f p = record p { tasks = f p.tasks }

-- A task that is not among the items can be placed before the loop or behind it.
place_item_apart :
    (i a id index : ℕ) (o : Option Task) (rest : List Task → Placed) (ts : List Task)
    → (i == id) ≡ false
    → ((us : List Task) → rest (place_task i a us) ≡ on_tasks (place_task i a) (rest us))
    → place_item id index o rest (place_task i a ts)
      ≡ on_tasks (place_task i a) (place_item id index o rest ts)
place_item_apart i a id index none rest ts d h = h ts
place_item_apart i a id index (some t) rest ts d h = elim (Bool-cases (t.position == index)) [
  | inl k ↦ rw k (h ts)
  | inr k ↦ rw k (
      ap (λ (us : List Task). add_placed id index t.position (rest us))
        (sym (place_task_comm i id a index ts d))
      ∙ ap (add_placed id index t.position) (h (place_task id index ts)))
]

place_items_apart :
    (i a index : ℕ) (ids : List ℕ) (ts : List Task)
    → includes ids i ≡ false
    → place_items index ids (place_task i a ts)
      ≡ on_tasks (place_task i a) (place_items index ids ts)
unfolding place_items
place_items_apart i a index [] ts n = refl
place_items_apart i a index (id ∷ ids) ts n =
    let apart : (i == id) ≡ false = ground arith in
    let absent : includes ids i ≡ false = ground arith in
    ap
      (λ (o : Option Task). place_item id index o (place_items (suc index) ids) (place_task i a ts))
      (find_task-place_task i id a ts apart)
    ∙ place_item_apart i a id index (find_task id ts) (place_items (suc index) ids) ts apart
        (λ us. place_items_apart i a (suc index) ids us absent)

put_back_item :
    (id index : ℕ) (o : Option Task) (ids : List ℕ) (ts : List Task)
    → find_task id ts ≡ o
    → includes ids id ≡ false
    → ((us : List Task)
        → put_back (place_items (suc index) ids us).previous (place_items (suc index) ids us).tasks
          ≡ us)
    → let p = place_item id index o (place_items (suc index) ids) ts in
      put_back p.previous p.tasks ≡ ts
put_back_item id index none ids ts f n h = h ts
put_back_item id index (some t) ids ts f n h = elim (Bool-cases (t.position == index)) [
  | inl k ↦ rw k (h ts)
  | inr k ↦
      let p = place_items (suc index) ids in
      let first = place_task id index ts in
      let back : place_task id t.position first ≡ ts =
        place_task_twice id index t.position ts ∙ place_task_same id ts t f in
      let moved : p ts ≡ on_tasks (place_task id t.position) (p first) =
        ap p (sym back) ∙ place_items_apart id t.position (suc index) ids first n in
      rw k (ap (λ (q : Placed). put_back q.previous q.tasks) (sym moved) ∙ h ts)
]

put_back-place_items :
    (index : ℕ) (ids : List ℕ) (ts : List Task)
    → Distinct ids
    → put_back (place_items index ids ts).previous (place_items index ids ts).tasks ≡ ts
unfolding place_items
put_back-place_items index [] ts d = refl
put_back-place_items index (id ∷ ids) ts (n, d) =
    put_back_item id index (find_task id ts) ids ts refl n
      (λ us. put_back-place_items (suc index) ids us d)

same_filled_item :
    (id index : ℕ) (o : Option Task) (rest : List Task → Placed) (ts : List Task)
    → ((us : List Task) → is_filled (rest us).previous ≡ is_filled (rest us).positions)
    → is_filled (place_item id index o rest ts).previous
      ≡ is_filled (place_item id index o rest ts).positions
same_filled_item id index none rest ts h = h ts
same_filled_item id index (some t) rest ts h = elim (Bool-cases (t.position == index)) [
  | inl k ↦ rw k (h ts)
  | inr k ↦ rw k refl
]

same_filled :
    (index : ℕ) (ids : List ℕ) (ts : List Task)
    → is_filled (place_items index ids ts).previous ≡ is_filled (place_items index ids ts).positions
unfolding place_items
same_filled index [] ts = refl
same_filled index (id ∷ ids) ts =
    same_filled_item id index (find_task id ts) (place_items (suc index) ids) ts
      (λ us. same_filled (suc index) ids us)

put_back_nothing : (ps : List (ℕ × ℕ)) (ts : List Task) → is_filled ps ≡ false → put_back ps ts ≡ ts
put_back_nothing [] ts h = refl
put_back_nothing (p ∷ ps) ts h = cc

-- If the server refuses the new order of the tasks, the tasks of the issue are as they were before the
-- drag, their positions and their order included, whatever was dragged where. The page shows no task
-- twice.
pub save_task_order-undo :
    (answer : Call → Option String) (user : Option User) (ids : List ℕ) (ts : List Task)
    (m : String)
    → Distinct ids
    → ((q : Call) → answer q ≡ some m)
    → (save_task_order answer user ids ts).tasks ≡ ts
unfolding save_task_order
save_task_order-undo answer user ids ts m d refused =
    elim (Bool-cases (user_can user update_task)) [
      | inl t ↦ elim (Bool-cases (is_filled (place_items 0 ids ts).positions)) [
        | inl u ↦
            rw (t, u)
              (ap (λ (o : Option String). (order_ends o (place_items 0 ids ts)).tasks)
                  (refused (put_task_positions (place_items 0 ids ts).positions))
                ∙ put_back-place_items 0 ids ts d)
        | inr u ↦
            rw (t, u)
              (sym (
                  put_back_nothing (place_items 0 ids ts).previous (place_items 0 ids ts).tasks
                    (same_filled 0 ids ts ∙ u))
                ∙ put_back-place_items 0 ids ts d)
      ]
      | inr t ↦ rw t refl
    ]
