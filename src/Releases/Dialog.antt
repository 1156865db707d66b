-- ===== src/Releases/Dialog.antt =====
-- What the dialog of a release sends.
use wuflow.Base.{
  ℕ, String, false, Option, none, some, List, [], ◌∷◌, All, ◌≡◌, refl, Bool-cases, inl, inr,
}
use wuflow.Model.{Release}
use wuflow.Text.{trim, is_empty}
use wuflow.Releases.{
  Form, Call, put_release, post_release, get_releases, Answer, refuses, gives, lists, Outcome,
  shows_error, Submitted, in_wrong_order, is_closed, edited_release, put_answer, list_answer,
  post_answer, save_release, trimmed, handle_release_submit,
}

-- A form may be sent with a name and with its dates in order.
abbrev pub IsSendable : Form → Type 0
IsSendable f = (is_empty f.name ≡ false) × (in_wrong_order f.start_date f.release_date ≡ false)

-- A release is changed only while it is not closed.
abbrev pub Sendable : List Release → Call → Type 0
Sendable rs (put_release project id f) =
    IsSendable f × (is_closed (edited_release (some id) rs) ≡ false)
Sendable rs (post_release project f) = IsSendable f
Sendable rs (get_releases project) = Unit

abbrev pub IsFailure : Outcome → Type 0
IsFailure o = (m : String) × (o ≡ shows_error m)

-- Only what may be sent is sent, and a failure leaves the releases.
abbrev pub Careful : List Release → Submitted → Type 0
Careful rs d = All (Sendable rs) d.calls × (IsFailure d.outcome → d.releases ≡ rs)

put_answer-Careful :
    (project id : ℕ) (f : Form) (a : Answer) (rs : List Release)
    → Sendable rs (put_release project id f)
    → Careful rs (put_answer (put_release project id f) a rs)
put_answer-Careful project id f (refuses m) rs h = ((h, tt), λ _. refl)
put_answer-Careful project id f (gives r) rs h = ((h, tt), λ (m, e). cc)
put_answer-Careful project id f (lists rs') rs h = ((h, tt), λ _. refl)

list_answer-Careful :
    (qs : List Call) (a : Answer) (rs : List Release)
    → All (Sendable rs) qs
    → Careful rs (list_answer qs a rs)
list_answer-Careful qs (refuses m) rs h = (h, λ _. refl)
list_answer-Careful qs (lists rs') rs h = (h, λ (m, e). cc)
list_answer-Careful qs (gives r) rs h = (h, λ _. refl)

post_answer-Careful :
    (answer : Call → Answer) (project : ℕ) (f : Form) (a : Answer) (rs : List Release)
    → IsSendable f
    → Careful rs (post_answer answer (post_release project f) (get_releases project) a rs)
post_answer-Careful answer project f (refuses m) rs h = ((h, tt), λ _. refl)
post_answer-Careful answer project f (gives r) rs h =
    list_answer-Careful (post_release project f ∷ get_releases project ∷ [])
      (answer (get_releases project)) rs (h, (tt, tt))
post_answer-Careful answer project f (lists rs') rs h =
    list_answer-Careful (post_release project f ∷ get_releases project ∷ [])
      (answer (get_releases project)) rs (h, (tt, tt))

save_release-Careful :
    (answer : Call → Answer) (project : ℕ) (editing : Option ℕ) (f : Form) (rs : List Release)
    → IsSendable f
    → is_closed (edited_release editing rs) ≡ false
    → Careful rs (save_release answer project editing f rs)
save_release-Careful answer project (some id) f rs h k =
    put_answer-Careful project id f (answer (put_release project id f)) rs (h, k)
save_release-Careful answer project none f rs h k =
    post_answer-Careful answer project f (answer (post_release project f)) rs h

-- Whatever is typed into the dialog of a release: a release is created or changed only with a name that
-- is not blank and with a release date that is not before its start, and no closed release is
-- changed; and where the dialog shows a failure, the page keeps its releases.
pub handle_release_submit-Careful :
    (answer : Call → Answer) (project : ℕ) (editing : Option ℕ) (form : Form) (rs : List Release)
    → Careful rs (handle_release_submit answer project editing form rs)
unfolding handle_release_submit
handle_release_submit-Careful answer project editing form rs =
    elim (Bool-cases (is_closed (edited_release editing rs))) [
      | inl t ↦ rw t (tt, λ _. refl)
      | inr t ↦ elim (Bool-cases (is_empty (trim form.name))) [
        | inl u ↦ rw (t, u) (tt, λ _. refl)
        | inr u ↦ elim (Bool-cases (in_wrong_order form.start_date form.release_date)) [
          | inl v ↦ rw (t, u, v) (tt, λ _. refl)
          | inr v ↦
              rw (t, u, v) (save_release-Careful answer project editing (trimmed form) rs (u, v) t)
        ]
      ]
    ]
