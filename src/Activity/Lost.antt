-- ===== src/Activity/Lost.antt =====
-- Comments that are lost while the activity of an issue loads.
use wuflow.Base.{ℕ, suc, true, some, List, [], ◌∷◌, ◌≡◌, refl, sym, ap, ◌∙◌, arith}
use wuflow.Activity.{
  Comment, Entry, Editor, no_editor, new_comment, comment_editor, Context, is_stale, next_seq,
  close_open_form, close_new_comment_form, discard_draft, close_comment_editors, load_activity,
  Answer, gives, refuses, activity_loaded, refresh_history, history_refreshed, loads,
  refreshes_history, loaded, history_answer, handle, handle_all,
}

-- Closing the editors touches neither the comments nor the requests.
abbrev pub SameRequests : Context → Context → Type 0
SameRequests s t = (t.issue ≡ s.issue) × ((t.seq ≡ s.seq) × (t.comments ≡ s.comments))

close_new_comment_form-SameRequests : (s : Context) → SameRequests s (close_new_comment_form s)
unfolding close_new_comment_form
close_new_comment_form-SameRequests s = closed s.editor (record s { new_text = [] })
  where
    closed : (e : Editor) (s : Context) → SameRequests s (close_open_form e s)
    closed no_editor s = (refl, (refl, refl))
    closed new_comment s = (refl, (refl, refl))
    closed (comment_editor id) s = (refl, (refl, refl))

close_comment_editors-SameRequests : (s : Context) → SameRequests s (close_comment_editors s)
unfolding close_comment_editors
close_comment_editors-SameRequests s =
    let (i, (n, c)) : SameRequests s (discard_draft s.editor s) = discarded s.editor s in
    let (i', (n', c')) = close_new_comment_form-SameRequests (discard_draft s.editor s) in
    (i' ∙ i, (n' ∙ n, c' ∙ c))
  where
    discarded : (e : Editor) (s : Context) → SameRequests s (discard_draft e s)
    discarded no_editor s = (refl, (refl, refl))
    discarded new_comment s = close_new_comment_form-SameRequests s
    discarded (comment_editor id) s = (refl, (refl, refl))

-- An answer that comes after the next request has no effect.
activity_loaded-stale :
    (n : ℕ) (a : Answer (List Entry × List Comment)) (s : Context)
    → suc n ≡ s.seq
    → activity_loaded n a s ≡ s
unfolding activity_loaded
activity_loaded-stale n a s e =
    let stale : is_stale n s ≡ true = rw (sym e) (ground arith) in rw stale refl

history_refreshed-comments :
    (n : ℕ) (b : Answer (List Entry)) (s : Context)
    → (history_refreshed n b s).comments ≡ s.comments
unfolding history_refreshed
history_refreshed-comments n (gives h) s = ground arith
history_refreshed-comments n (refuses m) s = ground arith

refresh_history-after_load :
    (i : ℕ) (s : Context)
    → ((refresh_history (load_activity i s)).seq ≡ suc (suc s.seq))
      × ((refresh_history (load_activity i s)).comments ≡ [])
unfolding refresh_history load_activity
refresh_history-after_load i s =
    let opened = record (next_seq i s) { issue = some i; history = []; comments = [] } in
    let (o, (n, c)) = close_comment_editors-SameRequests opened in rw o (ap suc n, c)

-- A change of a field that is saved while the activity of its issue is still loading hides the comments: the
-- history is fetched again, so that the answer with the comments counts as stale, and they stay
-- empty, whatever the server has sent.
pub handle_all-comments_lost :
    (issue : ℕ) (s : Context) (a : Answer (List Entry × List Comment)) (b : Answer (List Entry))
    → (handle_all
        (loads issue
          ∷ refreshes_history
          ∷ loaded (suc s.seq) a
          ∷ history_answer (suc (suc s.seq)) b
          ∷ [])
        s).comments
      ≡ []
unfolding handle_all handle
handle_all-comments_lost issue s a b =
    let (n, c) = refresh_history-after_load issue s in
    let r = refresh_history (load_activity issue s) in
    history_refreshed-comments (suc (suc s.seq)) b (activity_loaded (suc s.seq) a r)
    ∙ ap (λ (t : Context). t.comments) (activity_loaded-stale (suc s.seq) a r (sym n))
    ∙ c
