-- ===== src/Tests/Typing.antt =====
-- What is typed into the dialog of an issue.
use wuflow.Base.{Bool, true, false, [], ◌∷◌, any, ◌≡◌, refl, arith}
use wuflow.StatusConfig.{text}
use wuflow.Editor.{handle_tab_key}
use wuflow.Editor.Tab.{selected, handle_tab_key-handle_tab_key}
use wuflow.Dialog.Done.{
  Field, title, comment, Editors, handle_done, is_closing, is_at_stake, is_settled, is_failure,
  handle_done-Settled,
}

-- Three lines, of which the end of the first and the start of the second are selected.
handle_tab_key-handle_tab_key_example :
    (handle_tab_key true (
      handle_tab_key false
        (selected [] (text "one" ∷ []) (text "tw") (text "o") (text "three" ∷ []) 2))).value
    ≡ (selected [] (text "one" ∷ []) (text "tw") (text "o") (text "three" ∷ []) 2).value
handle_tab_key-handle_tab_key_example =
    handle_tab_key-handle_tab_key [] (text "one" ∷ []) 116 (text "w") (text "o") (text "three" ∷ [])
      2 ((refl, (refl, (refl, tt))), tt) (refl, (refl, tt)) (refl, tt) (ground arith) (ground arith)
      (ground arith)

-- A changed comment that the user wants to save, but the server refuses, beside a blank title
abbrev has_texts : Field → Bool
has_texts title = true
has_texts comment = true
has_texts _ = false

abbrev has_title : Field → Bool
has_title title = true
has_title _ = false

abbrev commenting : Editors
commenting = record {
  is_open = has_texts;
  is_changed = has_texts;
  is_new = has_texts;
  is_blank = has_title;
  has_issue = true;
  may_update_tasks = true;
  may_create_tasks = true;
  is_new_task_too_long = false;
  takes = λ _. false;
  wants = λ _. true;
}

handle_done-Settled_example :
    (any is_closing (handle_done commenting) ≡ true
      → (f : Field) → is_at_stake commenting f ≡ true
      → is_settled commenting (handle_done commenting) f ≡ true)
    × (any is_closing (handle_done commenting) ≡ false
        → any is_failure (handle_done commenting) ≡ true)
handle_done-Settled_example = handle_done-Settled commenting

stays_open : any is_closing (handle_done commenting) ≡ false
unfolding handle_done
stays_open = refl

-- With a server that takes the comment
closes_after_save : any is_closing (handle_done (record commenting { takes = λ _. true })) ≡ true
unfolding handle_done
closes_after_save = refl
