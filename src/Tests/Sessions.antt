-- ===== src/Tests/Sessions.antt =====
-- Two requests find the session run out, and a user who switches between tabs.
use wuflow.Base.{ℕ, ◌<◌, false, true, none, some, [], ◌∷◌, map, ap, ◌≡◌, refl, inr, arith}
use wuflow.Session.{Session, expires, submits, submit_answer, comes_back, submit_ends, handle_all}
use wuflow.Session.Waiting.{NobodyForgotten, handle_all-NobodyForgotten, submit_ends-releases}
use wuflow.Session.Throttle.{Spaced, handle_all-Spaced}

abbrev fresh : Session
fresh = record {
  pending = none;
  next = 0;
  resolved = λ _. false;
  shown = false;
  error = "";
  submitting = false;
  checking = false;
  last_probe_at = 0;
  last_interaction_at = 0;
  probes = [];
}

nothing_waits : NobodyForgotten fresh
nothing_waits = (λ n l. absurd (omega (arith, l)), refl)

handle_all-NobodyForgotten_example :
    NobodyForgotten
      (handle_all (expires ∷ submits ∷ expires ∷ submit_answer 70000 none ∷ expires ∷ []) fresh)
handle_all-NobodyForgotten_example =
    handle_all-NobodyForgotten
      (expires ∷ submits ∷ expires ∷ submit_answer 70000 none ∷ expires ∷ []) fresh nothing_waits

-- The dialog is open, and promise 0 waits for it.
abbrev waiting : Session
waiting = record fresh { pending = some 0; next = 1; shown = true; submitting = true }

one_waits : NobodyForgotten waiting
one_waits = (λ n l. inr (only n l), refl)
  where
    only : (n : ℕ) → n < 1 → some 0 ≡ some n
    only n l = let e : 0 ≡ n = omega (arith, l) in ap some e

submit_ends-releases_example :
    ((submit_ends 70000 none waiting).resolved 0 ≡ true)
    × (((submit_ends 70000 none waiting).shown ≡ false)
        × ((submit_ends 70000 none waiting).submitting ≡ false))
submit_ends-releases_example = submit_ends-releases 70000 waiting 0 one_waits (omega arith)

handle_all-Spaced_example :
    Spaced (handle_all (map (comes_back false) (70000 ∷ 70010 ∷ 140000 ∷ [])) fresh).probes
handle_all-Spaced_example = handle_all-Spaced (70000 ∷ 70010 ∷ 140000 ∷ []) fresh refl tt tt
