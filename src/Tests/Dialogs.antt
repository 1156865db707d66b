-- ===== src/Tests/Dialogs.antt =====
-- A dialog in which the title of an issue is changed.
use wuflow.Base.{ℕ, List, [], ◌∷◌, ◌==◌, some, if◌then◌else◌, All, ◌≡◌, ◌≢◌, refl, ap}
use wuflow.Model.{Issue, Text, todo}
use wuflow.Dialog.{
  Copy, Event, opens, closes, loads, asks_save, starts, answers, updated, handle, handle_all,
  handle,
}
use wuflow.Dialog.Invariant.{guarded}
use wuflow.Dialog.Saves.{Possible, NothingLost, closed, handle_all-NothingLost}
use wuflow.Dialog.Race.{race, handle_all-race}
use wuflow.Tests.Data.{issue_at}

abbrev retitled : Issue → Issue
retitled i = record i { title = 65 ∷ [] }

abbrev old : Copy
old = record { issue = issue_at todo 1 0; updated_at = 5 }

abbrev new : Copy
new = record { issue = retitled (issue_at todo 1 0); updated_at = 6 }

-- What the server has at an instant.
abbrev content : ℕ → Issue
content t = if t == 6 then new.issue else old.issue

abbrev one_save : List Event
one_save =
    opens (some old)
    ∷ asks_save retitled
    ∷ starts
    ∷ loads 1 (some old)
    ∷ answers (updated new)
    ∷ closes
    ∷ []

one_save-Possible : Possible content one_save closed
unfolding handle
one_save-Possible =
    (((refl, refl), refl), (tt, (tt, ((λ e. refl, refl), ((refl, λ e. cc), ((refl, refl), tt))))))

handle_all-NothingLost_example : All (NothingLost content) (handle_all one_save closed).requests
handle_all-NothingLost_example = handle_all-NothingLost content one_save one_save-Possible

titles_differ : guarded old.issue ≢ guarded new.issue
titles_differ e = let t : ◌≡◌ {A = Text} [] (65 ∷ []) = ap (λ (i : Issue). i.title) e in cc

handle_all-race_example :
    ¬ All (NothingLost content) (handle_all (race old new retitled retitled) closed).requests
handle_all-race_example = handle_all-race content old new retitled retitled refl titles_differ
