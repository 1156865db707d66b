-- ===== src/Dialog/Done.antt =====
-- static/js/components/modal.js, `handleDone`: what becomes of the open editors when the user is done. The
-- queued saves have ended by then.
use wuflow.Base.{Bool, true, false, not, ◌&&◌, ◌||◌, List, [], ◌∷◌, any, if◌then◌else◌, ◌≡◌, arith}

pub data Field : Type 0 where
  title description task new_task comment : Field

-- What is open; which text differs from that before (`is_changed`), which from that of the issue as it is
-- now (`is_new`), and which is blank; what the guards of `doSaveTask` and `handleTaskSubmit` read;
-- which requests succeed; and where the user answers to save
pub record Editors : Type 0 where
  pub is_open : Field → Bool
  pub is_changed : Field → Bool
  pub is_new : Field → Bool
  pub is_blank : Field → Bool
  pub has_issue : Bool
  pub may_update_tasks : Bool
  pub may_create_tasks : Bool
  pub is_new_task_too_long : Bool
  pub takes : Field → Bool
  pub wants : Field → Bool

-- A request and whether it succeeds, a text put back as it was, a text that the issue has already, a save
-- that sends nothing and fails, a question, an editor left without saving, and the end of the dialog
pub data Act : Type 0 where
  sent : Field → Bool → Act
  reverted kept turned_down asked dropped : Field → Act
  closed : Act

-- A request, before what follows unless it fails
abbrev pub send_then : Field → Editors → List Act → List Act
send_then f e rest = sent f (e.takes f) ∷ (if e.takes f then rest else [])

-- `doSaveTitle`
abbrev pub do_save_title : Editors → List Act → List Act
do_save_title e rest =
    if e.is_blank title
    then reverted title ∷ rest
    else if e.is_new title
    then send_then title e rest
    else kept title ∷ rest

-- `doSaveDesc`
abbrev pub do_save_desc : Editors → List Act → List Act
do_save_desc e rest =
    if e.is_new description then send_then description e rest else kept description ∷ rest

-- `doSaveTask`
abbrev pub do_save_task : Editors → List Act → List Act
do_save_task e rest =
    if e.is_blank task
    then reverted task ∷ rest
    else if e.is_new task
    then if e.may_update_tasks then send_then task e rest else reverted task ∷ rest
    else kept task ∷ rest

-- `handleTaskSubmit`
abbrev pub handle_task_submit : Editors → List Act → List Act
handle_task_submit e rest =
    if not e.has_issue || not e.may_create_tasks || e.is_blank new_task || e.is_new_task_too_long
    then turned_down new_task ∷ []
    else send_then new_task e rest

-- The `save` of a comment
abbrev pub save_comment : Editors → List Act → List Act
save_comment e rest =
    if e.is_blank comment then turned_down comment ∷ [] else send_then comment e rest

-- `processFieldOnDone`, before what follows unless its save fails
abbrev pub process_field_on_done :
    Field → Editors → (Editors → List Act → List Act) → List Act → List Act
process_field_on_done f e save rest =
    if e.is_changed f
    then asked f ∷ (if e.wants f then save e rest else dropped f ∷ rest)
    else dropped f ∷ rest

abbrev pub when_open : Field → Editors → (List Act → List Act) → List Act → List Act
when_open f e act rest = if e.is_open f then act rest else rest

unfoldable pub handle_done : Editors → List Act
handle_done e = when_open title e (do_save_title e) (
    when_open description e (process_field_on_done description e do_save_desc) (
      when_open task e (do_save_task e) (
        process_field_on_done new_task e handle_task_submit
          (when_open comment e (process_field_on_done comment e save_comment) (closed ∷ [])))))

abbrev is_field : Field → Field → Bool
is_field title title = true
is_field description description = true
is_field task task = true
is_field new_task new_task = true
is_field comment comment = true
is_field _ _ = false

abbrev pub is_closing : Act → Bool
is_closing closed = true
is_closing _ = false

abbrev pub is_save : Field → Act → Bool
is_save f (sent g true) = is_field f g
is_save f _ = false

abbrev pub is_question : Field → Act → Bool
is_question f (asked g) = is_field f g
is_question f _ = false

abbrev pub is_revert : Field → Act → Bool
is_revert f (reverted g) = is_field f g
is_revert f _ = false

-- Where there is something to lose
abbrev pub is_at_stake : Editors → Field → Bool
is_at_stake e title = e.is_open title && e.is_new title
is_at_stake e description =
    e.is_open description && e.is_changed description && e.is_new description
is_at_stake e task = e.is_open task && e.is_new task
is_at_stake e new_task = e.is_changed new_task
is_at_stake e comment = e.is_open comment && e.is_changed comment

-- Where the text may go back without a question
abbrev pub may_revert : Editors → Field → Bool
may_revert e title = e.is_blank title
may_revert e task = e.is_blank task || not e.may_update_tasks
may_revert e _ = false

abbrev pub is_settled : Editors → List Act → Field → Bool
is_settled e acts f =
    any (is_save f) acts
    || (any (is_question f) acts && not (e.wants f))
    || (any (is_revert f) acts && may_revert e f)

-- A save that fails, which ends the handler
abbrev pub is_failure : Act → Bool
is_failure (sent f b) = not b
is_failure (turned_down f) = true
is_failure _ = false

-- A stage that lets the dialog close: so do the stages behind it, and what they settle stays settled.
abbrev LetsClose : Editors → List Act → List Act → Type 0
LetsClose e acts rest =
    (any is_closing rest ≡ true)
    × ((f : Field) → is_settled e rest f ≡ true → is_settled e acts f ≡ true)

module _ (e : Editors) (rest : List Act) where
  abbrev title_stage : List Act
  title_stage = when_open title e (do_save_title e) rest

  abbrev description_stage : List Act
  description_stage =
      when_open description e (process_field_on_done description e do_save_desc) rest

  abbrev task_stage : List Act
  task_stage = when_open task e (do_save_task e) rest

  abbrev new_task_stage : List Act
  new_task_stage = process_field_on_done new_task e handle_task_submit rest

  abbrev comment_stage : List Act
  comment_stage = when_open comment e (process_field_on_done comment e save_comment) rest

  title-LetsClose : any is_closing title_stage ≡ true → LetsClose e title_stage rest
  title-LetsClose c = (ground arith, λ f s. ground arith)

  title_settled :
      any is_closing title_stage ≡ true
      → is_at_stake e title ≡ true
      → is_settled e title_stage title ≡ true
  title_settled c s = ground arith

  description-LetsClose :
      any is_closing description_stage ≡ true → LetsClose e description_stage rest
  description-LetsClose c = (ground arith, λ f s. ground arith)

  description_settled :
      any is_closing description_stage ≡ true
      → is_at_stake e description ≡ true
      → is_settled e description_stage description ≡ true
  description_settled c s = ground arith

  task-LetsClose : any is_closing task_stage ≡ true → LetsClose e task_stage rest
  task-LetsClose c = (ground arith, λ f s. ground arith)

  task_settled :
      any is_closing task_stage ≡ true
      → is_at_stake e task ≡ true
      → is_settled e task_stage task ≡ true
  task_settled c s = ground arith

  new_task-LetsClose : any is_closing new_task_stage ≡ true → LetsClose e new_task_stage rest
  new_task-LetsClose c = (ground arith, λ f s. ground arith)

  new_task_settled :
      any is_closing new_task_stage ≡ true
      → is_at_stake e new_task ≡ true
      → is_settled e new_task_stage new_task ≡ true
  new_task_settled c s = ground arith

  comment-LetsClose : any is_closing comment_stage ≡ true → LetsClose e comment_stage rest
  comment-LetsClose c = (ground arith, λ f s. ground arith)

  comment_settled :
      any is_closing comment_stage ≡ true
      → is_at_stake e comment ≡ true
      → is_settled e comment_stage comment ≡ true
  comment_settled c s = ground arith

settled_if_closed :
    (e : Editors) (f : Field)
    → any is_closing (handle_done e) ≡ true
    → is_at_stake e f ≡ true
    → is_settled e (handle_done e) f ≡ true
unfolding handle_done
settled_if_closed e f c s = by_field f s
  where
    r4 : List Act
    r4 = comment_stage e (closed ∷ [])

    r3 : List Act
    r3 = new_task_stage e r4

    r2 : List Act
    r2 = task_stage e r3

    r1 : List Act
    r1 = description_stage e r2

    p1 : LetsClose e (title_stage e r1) r1
    p1 = title-LetsClose e r1 c

    p2 : LetsClose e r1 r2
    p2 = description-LetsClose e r2 p1.0

    p3 : LetsClose e r2 r3
    p3 = task-LetsClose e r3 p2.0

    p4 : LetsClose e r3 r4
    p4 = new_task-LetsClose e r4 p3.0

    by_field : (g : Field) → is_at_stake e g ≡ true → is_settled e (title_stage e r1) g ≡ true
    by_field title t = title_settled e r1 c t
    by_field description t = p1.1 description (description_settled e r2 p1.0 t)
    by_field task t = p1.1 task (p2.1 task (task_settled e r3 p2.0 t))
    by_field new_task t =
        p1.1 new_task (p2.1 new_task (p3.1 new_task (new_task_settled e r4 p3.0 t)))
    by_field comment t =
        p1.1 comment
          (p2.1 comment (p3.1 comment (p4.1 comment (comment_settled e (closed ∷ []) p4.0 t))))

-- Done closes the dialog only if each text that is changed and that the issue does not have yet is saved,
-- or the user was asked about it and chose to discard it, or it is put back as it was because it is a
-- blank title, a blank task, or a task of a user who may not change tasks. Done leaves the dialog open
-- only if a save has failed: its request, or the checks of a new task or of a blank comment.
pub handle_done-Settled :
    (e : Editors)
    → (any is_closing (handle_done e) ≡ true
        → (f : Field) → is_at_stake e f ≡ true
        → is_settled e (handle_done e) f ≡ true)
      × (any is_closing (handle_done e) ≡ false → any is_failure (handle_done e) ≡ true)
unfolding handle_done
handle_done-Settled e = (λ c f s. settled_if_closed e f c s, λ o. ground (arith, o))
