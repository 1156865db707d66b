-- ===== src/Dialog/Race.antt =====
-- A dialog that is closed while a save runs, and opened again.
use wuflow.Base.{ℕ, some, List, [], ◌∷◌, ==_refl, All, ◌≡◌, ◌≢◌, refl, subst}
use wuflow.Model.{Issue}
use wuflow.Dialog.{
  Copy, at, if_match_conflict, Request, Event, opens, closes, loads, asks_save, starts, answers,
  updated, handle_all,
}
use wuflow.Dialog.Invariant.{guarded, Genuine}
use wuflow.Dialog.Saves.{NothingLost, closed}

-- The first change is on its way when the dialog is closed and opened from the list, whose copy is still
-- the old one, as is the revalidation's; then the first save is answered, and the second is made.
abbrev pub race : Copy → Copy → (Issue → Issue) → (Issue → Issue) → List Event
race old new f g =
    opens (some old)
    ∷ loads 1 (some old)
    ∷ asks_save f
    ∷ starts
    ∷ closes
    ∷ opens (some old)
    ∷ loads 3 (some old)
    ∷ answers (updated new)
    ∷ asks_save g
    ∷ starts
    ∷ []

abbrev first_request : Copy → (Issue → Issue) → Request
first_request old f = record { base = old; sent = f old.issue; tag = some (at old.updated_at) }

abbrev second_request : Copy → Copy → (Issue → Issue) → Request
second_request old new g = record { base = old; sent = g old.issue; tag = some (at new.updated_at) }

race_requests :
    (old new : Copy) (f g : Issue → Issue)
    → (handle_all (race old new f g) closed).requests
      ≡ second_request old new g ∷ first_request old f ∷ []
unfolding handle_all
race_requests old new f g =
    rw (==_refl old.updated_at, ==_refl old.issue.id) (rw (==_refl old.issue.id) refl)

-- The dialog must not be closed while a save runs: if it is, and is opened again before the save is
-- answered, from a copy that the save has not reached, then its next save carries the ETag of the answer.
-- The server takes that request, though it was built from an issue that differs from the server's
-- in what the ETag protects, and so undoes the first save.
pub handle_all-race :
    (content : ℕ → Issue) (old new : Copy) (f g : Issue → Issue)
    → Genuine content new
    → guarded old.issue ≢ guarded new.issue
    → ¬ All (NothingLost content) (handle_all (race old new f g) closed).requests
unfolding if_match_conflict
handle_all-race content old new f g genuine differ all = differ (
    (subst (λ (qs : List Request). All (NothingLost content) qs) (race_requests old new f g) all).0
      new genuine (rw (==_refl new.updated_at) refl))
