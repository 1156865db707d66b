-- ===== src/Activity/Laws.antt =====
-- Whose comments and history are shown.
use wuflow.Base.{ℕ, ◌≤◌, Option, none, some, List, [], ◌∷◌, All, ◌≡◌}
use wuflow.Activity.{
  Comment, Entry, Context, Answer, gives, refuses, Event, loaded, history_answer, comments_answer,
  handle,
}

abbrev pub OfIssue : ℕ → List Comment → List Entry → Type 0
OfIssue i comments history =
    All (λ (c : Comment). c.issue_id ≡ i) comments × All (λ (e : Entry). e.issue_id ≡ i) history

-- Everything that is shown is about the open issue, and so is the latest request.
abbrev pub About : Option ℕ → ℕ → (ℕ → ℕ) → List Comment → List Entry → Type 0
About none seq asked comments history = (seq ≡ 0) × ((comments ≡ []) × (history ≡ []))
About (some i) seq asked comments history = (asked seq ≡ i) × OfIssue i comments history

abbrev pub Shows : Option ℕ → Context → Type 0
Shows o s = About o s.seq s.asked s.comments s.history

abbrev pub ShowsOpenIssue : Context → Type 0
ShowsOpenIssue s = Shows s.issue s

-- The server answers a request with what belongs to the issue that it asked for.
abbrev pub Answers : ℕ → Answer (List Entry × List Comment) → Type 0
Answers i (gives (history, comments)) = OfIssue i comments history
Answers i (refuses m) = Unit

abbrev pub Possible : Event → Context → Type 0
Possible (loaded n a) s = (1 ≤ n) × Answers (s.asked n) a
Possible (history_answer n (gives h)) s = (1 ≤ n) × All (λ (e : Entry). e.issue_id ≡ s.asked n) h
Possible (history_answer n (refuses m)) s = 1 ≤ n
Possible (comments_answer n (gives c)) s = (1 ≤ n) × All (λ (x : Comment). x.issue_id ≡ s.asked n) c
Possible (comments_answer n (refuses m)) s = 1 ≤ n
Possible e s = Unit

abbrev pub AllPossible : List Event → Context → Type 0
AllPossible [] s = Unit
AllPossible (e ∷ es) s = Possible e s × AllPossible es (handle e s)
