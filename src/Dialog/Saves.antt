-- ===== src/Dialog/Saves.antt =====
-- What the requests of the dialog are built from.
use wuflow.Base.{
  ℕ, false, Option, none, some, List, [], ◌∷◌, All, All-map, ◌≡◌, refl, sym, ap, ◌∙◌, arith,
}
use wuflow.Model.{Issue}
use wuflow.Dialog.{
  Copy, Tag, at, stale, if_match_conflict, Request, Dialog, idle, save_issue_changes,
  enqueued_starts, Event, opens, closes, edits, loads, asks_save, starts, answers, decides, reloads,
  handle, handle_all,
}
use wuflow.Dialog.Invariant.{
  guarded, Genuine, Honest, Allowed, Inv, fits_kept, close_modal-Inv, open_modal-Inv,
  next_write-Inv, save_answered-Inv, decide-Inv, reload-Inv,
}
use wuflow.Dialog.Load.{load_ends-Inv}

module _ (content : ℕ → Issue) where
  handle-Inv :
      (e : Event) (s : Dialog) → Allowed content e s → Inv content s → Inv content (handle e s)
  unfolding handle save_issue_changes enqueued_starts
  handle-Inv (opens c) s a v = open_modal-Inv content c s a.0.0 a.1 v
  handle-Inv closes s a v = close_modal-Inv content s a.0 v
  handle-Inv (edits b) s a v = record {
    known = v.known;
    tagged = v.tagged;
    loading = v.loading;
    fits = fits_kept content s.phase s (record s { editing = b }) refl refl refl v.fits;
    honest = v.honest;
  }
  handle-Inv (loads seq c) s a v = load_ends-Inv content seq c s a.0 a.1 v
  handle-Inv (asks_save change) s a v = record {
    known = v.known;
    tagged = v.tagged;
    loading = v.loading;
    fits = fits_kept content s.phase s (save_issue_changes change s) refl refl refl v.fits;
    honest = v.honest;
  }
  handle-Inv starts s a v = next_write-Inv content s.phase s.queue s refl v
  handle-Inv (answers x) s a v = save_answered-Inv content s.phase x s refl a v
  handle-Inv (decides b) s a v = decide-Inv content s.phase b s refl v
  handle-Inv (reloads c) s a v = reload-Inv content s.phase c s refl a v

  abbrev pub Possible : List Event → Dialog → Type 0
  Possible [] s = Unit
  Possible (e ∷ es) s = Allowed content e s × Possible es (handle e s)

  handle_all-Inv :
      (es : List Event) (s : Dialog) → Possible es s → Inv content s → Inv content (handle_all es s)
  unfolding handle_all
  handle_all-Inv [] s p v = v
  handle_all-Inv (e ∷ es) s (a, p) v = handle_all-Inv es (handle e s) p (handle-Inv e s a v)

  -- Where the server takes the request, its issue is the one that the request was built from.
  abbrev pub NothingLost : Request → Type 0
  NothingLost q =
      (server : Copy)
      → Genuine content server
      → if_match_conflict q.tag server ≡ false
      → guarded q.base.issue ≡ guarded server.issue

  Honest-NothingLost :
      (tag : Option Tag) (base server : Copy)
      → Honest content tag base
      → Genuine content server
      → if_match_conflict tag server ≡ false
      → guarded base.issue ≡ guarded server.issue
  unfolding if_match_conflict
  Honest-NothingLost none base server h g m = elim h [ ]
  Honest-NothingLost (some stale) base server h g m = cc
  Honest-NothingLost (some (at t)) base server h g m =
      let same : t ≡ server.updated_at = ground arith in
      h ∙ ap (λ (n : ℕ). guarded (content n)) same ∙ sym g

-- The page before any dialog was opened
abbrev pub closed : Dialog
closed = record {
  current = none;
  etag = none;
  load = none;
  load_seq = 0;
  editing = false;
  next_ref = 0;
  queue = [];
  phase = idle;
  requests = [];
  outcomes = [];
}

-- However the saves of the dialog, its revalidations, the conflicts and other users' changes interleave:
-- where the server takes a request of the dialog, the issue that the request was built from is the
-- server's issue of that moment, so that the request undoes no change of anyone. Tasks and
-- position are left out, for they change without the ETag, and the assignee's user, which goes by
-- `assignee_id`. The server's copies show the issue of their instant, the server takes no stale tag, a
-- revalidation is answered once, and the dialog is opened and closed only while no save is queued or
-- running.
pub handle_all-NothingLost :
    (content : ℕ → Issue) (es : List Event)
    → Possible content es closed
    → All (NothingLost content) (handle_all es closed).requests
handle_all-NothingLost content es p =
    All-map _ _ (handle_all es closed).requests
      (λ q h server g m. Honest-NothingLost content q.tag q.base server h g m)
      (handle_all-Inv content es closed p start).honest
  where
    start : Inv content closed
    start = record { known = tt; tagged = tt; loading = tt; fits = tt; honest = tt }
