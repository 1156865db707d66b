-- ===== src/Users/Submit.antt =====
-- What the dialog of a user sends.
use wuflow.Base.{
  ℕ, String, Bool, true, false, not, Option, none, some, List, [], ◌∷◌, All, ◌≡◌, refl, Bool-cases,
  inl, inr, arith,
}
use wuflow.Model.{Text, User}
use wuflow.Text.{is_empty}
use wuflow.Permissions.{user_can, create_user, update_user}
use wuflow.Users.{
  UserData, UserError, Original, Copy, get_user_update_confirmation_copy, validate_user_input, Call,
  put_user, post_user, remove_user, post_logout, Submitted, attempted,
  prompt_admin_password_confirmation, update_applied, put_plain, confirmed_first, apply_user_update,
  posted, submit_valid, is_editing, trimmed, by_error, handle_user_submit,
}
use wuflow.Users.Confirm.{asks}

abbrev is_confirmed : Option Text → Bool
is_confirmed none = false
is_confirmed (some p) = not (is_empty p)

-- A user is sent with valid data by someone who may, and an update with an administrator's password that is
-- not empty if the dialog for it has been shown, and with none otherwise. Nobody is deleted.
module _ (lower : Text → Text) (current : Option User) where
  abbrev pub Sendable : Option (ℕ × Original) → Call → Type 0
  Sendable none (post_user d) =
      (user_can current create_user ≡ true) × (validate_user_input lower false d ≡ none)
  Sendable (some e) (post_user d) = ⊥
  Sendable none (put_user id d p) = ⊥
  Sendable (some (i, original)) (put_user id d p) =
      (i ≡ id)
      × ((user_can current update_user ≡ true)
          × ((validate_user_input lower true d ≡ none)
              × (is_confirmed p ≡ asks (get_user_update_confirmation_copy d original))))
  Sendable none post_logout = ⊥
  Sendable (some e) post_logout = Unit
  Sendable e (remove_user id p) = ⊥

module _ (answer : Call → Option String) (P : Call → Type 0) where
  attempted_calls :
      (o : Option String) (done again : Submitted)
      → All P done.calls
      → All P again.calls
      → All P (attempted o done again).calls
  attempted_calls none done again a b = a
  attempted_calls (some m) done again a b = b

  prompt_calls :
      (call : Text → Call) (done : Submitted) (ps : List Text)
      → ((p : Text) → is_empty p ≡ false → P (call p))
      → All P done.calls
      → All P (prompt_admin_password_confirmation answer call done ps).calls
  prompt_calls call done [] h a = tt
  prompt_calls call done (p ∷ ps) h a = elim (Bool-cases (is_empty p)) [
    | inl t ↦ rw t (prompt_calls call done ps h a)
    | inr t ↦
        rw t (h p t, attempted_calls (answer (call p)) done _ a (prompt_calls call done ps h a))
  ]

  put_plain_calls :
      (o : Option String) (q : Call) (done : Submitted)
      → P q
      → All P done.calls
      → All P (put_plain answer o q done).calls
  put_plain_calls none q done h a = (h, a)
  put_plain_calls (some m) q done h a = (h, tt)

  posted_calls : (o : Option String) (q : Call) → P q → All P (posted answer o q).calls
  posted_calls none q h = (h, tt)
  posted_calls (some m) q h = (h, tt)

  confirmed_first_calls :
      (o : Option Copy) (call : Option Text → Call) (done : Submitted) (ps : List Text)
      → ((p : Option Text) → is_confirmed p ≡ asks o → P (call p))
      → All P done.calls
      → All P (confirmed_first answer o call done ps).calls
  confirmed_first_calls none call done ps h a =
      put_plain_calls (answer (call none)) (call none) done (h none refl) a
  confirmed_first_calls (some c) call done ps h a =
      prompt_calls (λ (p : Text). call (some p)) done ps (λ p e. h (some p) (rw e refl)) a

update_applied_calls :
    (answer : Call → Option String) (current : Option User) (id : ℕ) (original : Original)
    (d : UserData) (P : Call → Type 0)
    → P post_logout
    → All P (update_applied answer current id original d).calls
update_applied_calls answer current id original d P h = ground arith

-- Whatever is typed and whatever the server answers, the dialog of a user sends nothing but the
-- creation of the new user, or updates of the edited one and then a logout; the data are valid, only
-- someone who may do it sends them, and an update has an administrator's password that is not empty
-- exactly if it needs the confirmation.
pub handle_user_submit-Sendable :
    (answer : Call → Option String) (lower : Text → Text) (current : Option User)
    (editing : Option (ℕ × Original)) (typed : UserData) (attempts : List Text)
    → All
        (Sendable lower current editing)
        (handle_user_submit answer lower current editing typed attempts).calls
unfolding handle_user_submit apply_user_update
handle_user_submit-Sendable answer lower current editing typed attempts =
    by (validate_user_input lower (is_editing editing) (trimmed typed)) editing refl
  where
    by :
        (o : Option UserError) (e : Option (ℕ × Original))
        → validate_user_input lower (is_editing e) (trimmed typed) ≡ o
        → All
            (Sendable lower current e)
            (by_error o (submit_valid answer current e (trimmed typed) attempts)).calls
    by (some x) e v = tt
    by none none v = elim (Bool-cases (user_can current create_user)) [
      | inl t ↦
          rw t
            (posted_calls answer (Sendable lower current none) _ (post_user (trimmed typed)) (t, v))
      | inr t ↦ rw t tt
    ]
    by none (some (id, original)) v = elim (Bool-cases (user_can current update_user)) [
      | inl t ↦ rw t (
          confirmed_first_calls answer (Sendable lower current (some (id, original)))
            (get_user_update_confirmation_copy (trimmed typed) original)
            (put_user id (trimmed typed))
            (update_applied answer current id original (trimmed typed)) attempts
            (λ p c. (refl, (t, (v, c))))
            (update_applied_calls answer current id original (trimmed typed)
              (Sendable lower current (some (id, original))) tt))
      | inr t ↦ rw t tt
    ]
