-- ===== src/Session/Throttle.antt =====
-- How often the session is checked when the user comes back.
use wuflow.Base.{
  ℕ, ◌+◌, ◌-◌, ◌≤◌, false, Option, none, List, [], ◌∷◌, map, ltb, ◌≡◌, refl, sym, subst, ◌∙◌,
  Bool-cases, inl, inr, arith,
}
use wuflow.Session.{
  Probe, current_user, valid_session, Session, probe_session, probe_throttle_ms, on_return, returns,
  comes_back, handle_all,
}

-- The checks before one at a time, each a minute or more before the next.
abbrev pub SpacedBefore : ℕ → List Probe → Type 0
SpacedBefore t [] = Unit
SpacedBefore t (current_user u ∷ ps) = (u + 60000 ≤ t) × SpacedBefore u ps
SpacedBefore t (valid_session ∷ ps) = SpacedBefore t ps

abbrev pub Spaced : List Probe → Type 0
Spaced [] = Unit
Spaced (current_user u ∷ ps) = SpacedBefore u ps
Spaced (valid_session ∷ ps) = Spaced ps

-- The last check is remembered.
abbrev pub Remembered : ℕ → List Probe → Type 0
Remembered last [] = Unit
Remembered last (current_user u ∷ ps) = u ≡ last
Remembered last (valid_session ∷ ps) = Remembered last ps

Spaced-next :
    (last now : ℕ) (ps : List Probe)
    → last + 60000 ≤ now
    → Remembered last ps
    → Spaced ps
    → SpacedBefore now ps
Spaced-next last now [] l r s = tt
Spaced-next last now (current_user u ∷ ps) l r s = (omega arith, s)
Spaced-next last now (valid_session ∷ ps) l r s = Spaced-next last now ps l r s

probe-Spaced :
    (now : ℕ) (s : Session)
    → Remembered s.last_probe_at s.probes
    → Spaced s.probes
    → let s' = probe_session false now s in
      (s'.pending ≡ s.pending) × (Remembered s'.last_probe_at s'.probes × Spaced s'.probes)
unfolding probe_session
probe-Spaced now s r p = elim (Bool-cases (ltb (now - s.last_probe_at) probe_throttle_ms)) [
  | inl t ↦ rw t (refl, (r, p))
  | inr t ↦
      let late : s.last_probe_at + 60000 ≤ now = ground arith in
      rw t (refl, (refl, Spaced-next s.last_probe_at now s.probes late r p))
]

-- While nobody has to log in, and the user only switches between tabs and windows: however often
-- that happens, and at whatever times, two checks of the session are a minute or more apart.
pub handle_all-Spaced :
    (times : List ℕ) (s : Session)
    → s.pending ≡ none
    → Remembered s.last_probe_at s.probes
    → Spaced s.probes
    → Spaced (handle_all (map (comes_back false) times) s).probes
unfolding handle_all on_return
handle_all-Spaced [] s n r p = p
handle_all-Spaced (t ∷ ts) s n r p =
    let (same, (r', p')) = probe-Spaced t s r p in
    subst
      (λ (q : Option ℕ).
        Spaced (handle_all (map (comes_back false) ts) (returns q false t s)).probes)
      (sym n) (handle_all-Spaced ts (probe_session false t s) (same ∙ n) r' p')
