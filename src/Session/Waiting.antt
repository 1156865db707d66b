-- ===== src/Session/Waiting.antt =====
-- No request waits for a dialog that is gone.
use wuflow.Base.{
  ℕ, suc, ◌-◌, ◌<◌, String, Bool, true, false, not, ◌&&◌, Option, none, some, List, [], ◌∷◌, ◌==◌,
  ==_iff, leb, ltb, str_eq, if◌then◌else◌, ◌≡◌, refl, sym, ap, ◌∙◌, ◌⊎◌, Bool-cases, inl, inr,
  arith,
}
use wuflow.Session.{
  Session, show_dialog, show_reauth_dialog, finish_dialog, finish_reauth, submit_starts, submitted,
  submit_ends, probe_session, check_ends, returns, on_return, on_interaction, idle_threshold_ms,
  probe_throttle_ms, Event, expires, submits, submit_answer, check_answer, comes_back, interacts,
  handle, handle_all,
}

abbrev is_some : Option ℕ → Bool
is_some none = false
is_some (some _) = true

-- A promise that was handed out is resolved, or it is the pending one; and the dialog is shown just if
-- there is a pending one.
abbrev pub NobodyForgotten : Session → Type 0
NobodyForgotten s =
    ((n : ℕ) → n < s.next → (s.resolved n ≡ true) ⊎ (s.pending ≡ some n))
    × (s.shown ≡ is_some s.pending)

finish_dialog-NobodyForgotten :
    (now : ℕ) (p : Option ℕ) (s : Session)
    → s.pending ≡ p
    → NobodyForgotten s
    → NobodyForgotten (finish_dialog now p s)
finish_dialog-NobodyForgotten now none s e h = h
finish_dialog-NobodyForgotten now (some m) s e (h, v) = (λ n l. inl (settled n (h n l)), refl)
  where
    settled :
        (n : ℕ)
        → (s.resolved n ≡ true) ⊎ (s.pending ≡ some n)
        → (if m == n then true else s.resolved n) ≡ true
    settled n (inl r) = elim (Bool-cases (m == n)) [ inl t ↦ rw t refl | inr t ↦ rw t r ]
    settled n (inr q) = let same : (m == n) ≡ true = ground (arith, sym e ∙ q) in rw same refl

show_dialog-NobodyForgotten :
    (p : Option ℕ) (s : Session)
    → s.pending ≡ p
    → NobodyForgotten s
    → NobodyForgotten (show_dialog p s)
show_dialog-NobodyForgotten (some n) s e h = h
show_dialog-NobodyForgotten none s e (h, v) = (λ n l. known n (Bool-cases (n == s.next)) l, refl)
  where
    nothing : (n : ℕ) → s.pending ≡ some n → ⊥
    nothing n q = let x : none ≡ some n = sym e ∙ q in cc

    known :
        (n : ℕ)
        → ((n == s.next) ≡ true) ⊎ ((n == s.next) ≡ false)
        → n < suc s.next
        → (s.resolved n ≡ true) ⊎ (some s.next ≡ some n)
    known n (inl t) l = inr (ap some (sym ((==_iff n s.next).0 t)))
    known n (inr t) l = elim (h n (ground arith)) [ inl r ↦ inl r | inr q ↦ absurd (nothing n q) ]

finish_reauth-NobodyForgotten :
    (now : ℕ) (s : Session) → NobodyForgotten s → NobodyForgotten (finish_reauth now s)
unfolding finish_reauth
finish_reauth-NobodyForgotten now s h = finish_dialog-NobodyForgotten now s.pending s refl h

submitted-NobodyForgotten :
    (now : ℕ) (answer : Option String) (s : Session)
    → NobodyForgotten s
    → NobodyForgotten (submitted now answer s)
submitted-NobodyForgotten now none s h = finish_reauth-NobodyForgotten now s h
submitted-NobodyForgotten now (some e) s h = elim (Bool-cases (str_eq e "")) [
  | inl t ↦ rw t (finish_reauth-NobodyForgotten now s h)
  | inr t ↦ rw t h
]

probe_session-NobodyForgotten :
    (force : Bool) (now : ℕ) (s : Session)
    → NobodyForgotten s
    → NobodyForgotten (probe_session force now s)
unfolding probe_session
probe_session-NobodyForgotten force now s h =
    elim (Bool-cases (not force && ltb (now - s.last_probe_at) probe_throttle_ms)) [
      | inl t ↦ rw t h
      | inr t ↦ rw t h
    ]

returns-NobodyForgotten :
    (p : Option ℕ) (force : Bool) (now : ℕ) (s : Session)
    → NobodyForgotten s
    → NobodyForgotten (returns p force now s)
returns-NobodyForgotten none force now s h = probe_session-NobodyForgotten force now s h
returns-NobodyForgotten (some n) force now s h = elim (Bool-cases s.checking) [
  | inl t ↦ rw t h
  | inr t ↦ rw t h
]

handle-NobodyForgotten :
    (e : Event) (s : Session) → NobodyForgotten s → NobodyForgotten (handle e s)
unfolding handle show_reauth_dialog submit_starts submit_ends check_ends on_return on_interaction
handle-NobodyForgotten expires s h = show_dialog-NobodyForgotten s.pending s refl h
handle-NobodyForgotten submits s h = h
handle-NobodyForgotten (submit_answer now answer) s h = submitted-NobodyForgotten now answer s h
handle-NobodyForgotten (check_answer now true) s h = finish_reauth-NobodyForgotten now s h
handle-NobodyForgotten (check_answer now false) s h = h
handle-NobodyForgotten (comes_back force now) s h = returns-NobodyForgotten s.pending force now s h
handle-NobodyForgotten (interacts now) s h =
    elim (Bool-cases (leb idle_threshold_ms (now - s.last_interaction_at))) [
      | inl t ↦
          rw t (probe_session-NobodyForgotten true now (record s { last_interaction_at = now }) h)
      | inr t ↦ rw t h
    ]

-- Whatever happens in whatever order: every request that was told to wait for the user to log in
-- again has been let go, or waits for the dialog that is shown; and a dialog is shown just while
-- there is one to wait for.
pub handle_all-NobodyForgotten :
    (es : List Event) (s : Session) → NobodyForgotten s → NobodyForgotten (handle_all es s)
unfolding handle_all
handle_all-NobodyForgotten [] s h = h
handle_all-NobodyForgotten (e ∷ es) s h =
    handle_all-NobodyForgotten es (handle e s) (handle-NobodyForgotten e s h)

-- Once the user has logged in, every request that was told to wait goes on, the dialog is gone, and its
-- button can be pressed again.
pub submit_ends-releases :
    (now : ℕ) (s : Session) (n : ℕ)
    → NobodyForgotten s
    → n < s.next
    → ((submit_ends now none s).resolved n ≡ true)
      × (((submit_ends now none s).shown ≡ false) × ((submit_ends now none s).submitting ≡ false))
unfolding submit_ends
submit_ends-releases now s n h l = by_pending s.pending refl
  where
    freed : {p : Option ℕ} {b : Bool} → p ≡ none → (b ≡ true) ⊎ (p ≡ some n) → b ≡ true
    freed e (inl r) = r
    freed e (inr m) = let x : none ≡ some n = sym e ∙ m in cc

    by_pending :
        (p : Option ℕ)
        → s.pending ≡ p
        → ((finish_dialog now p s).resolved n ≡ true)
          × (((finish_dialog now p s).shown ≡ false) × (false ≡ false))
    by_pending none e = (freed e (h.0 n l), (h.1 ∙ ap is_some e, refl))
    by_pending (some m) e =
        (freed refl ((finish_dialog-NobodyForgotten now (some m) s e h).0 n l), (refl, refl))
