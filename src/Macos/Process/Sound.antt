-- ===== src/Macos/Process/Sound.antt =====
-- What holds of a worker of src/macos/process.rs at any time: its output is bounded, and no signal was
-- sent behind its exit status.
use mathlib.Core.Path.{subst}
use galaxybridge.Prelude.{◌≡◌, refl, List, [], ◌∷◌, Option, none, some, Result, ok, err}
use galaxybridge.Macos.Command.{Status}
use galaxybridge.Macos.Process.{
  Diagnostic, Happening, reaped, terminated, killed, Worker, diagnostics, diagnose, recall, collect,
  try_wait, attempt, last_words, after_wait, poll,
}
use galaxybridge.Macos.Process.Limit.{InLimit, drain-InLimit}

abbrev pub Unreaped : List Happening → Type 0
Unreaped [] = Unit
Unreaped (reaped status ∷ before) = ⊥
Unreaped (terminated ∷ before) = Unreaped before
Unreaped (killed ∷ before) = Unreaped before

abbrev pub Warned : List Happening → Type 0
Warned [] = ⊥
Warned (reaped status ∷ before) = Warned before
Warned (terminated ∷ before) = Unit
Warned (killed ∷ before) = Warned before

-- Each signal was sent before the exit status was collected, and each kill behind a termination signal.
abbrev pub IsOrderly : List Happening → Type 0
IsOrderly [] = Unit
IsOrderly (reaped status ∷ before) = Unreaped before × IsOrderly before
IsOrderly (terminated ∷ before) = Unreaped before × IsOrderly before
IsOrderly (killed ∷ before) = Unreaped before × Warned before × IsOrderly before

abbrev pub Within : Option Diagnostic → Type 0
Within none = Unit
Within (some d) = InLimit d

-- While no exit status is known, none was collected.
abbrev pub Open : Option Status → List Happening → Type 0
Open none trace = Unreaped trace
Open (some status) trace = Unit

pub record IsSound (w : Worker) : Type 0 where
  pub within_limit : Within w.diagnostic
  pub orderly : IsOrderly w.trace
  pub unreaped : Open w.exit w.trace

abbrev pub Sound : {A : Type 0} → Worker × Result A → Type 0
Sound m = IsSound m.0

pub IsSound-Unreaped : (w : Worker) → w.exit ≡ none → IsSound w → Unreaped w.trace
IsSound-Unreaped w e h = subst (λ o. Open o w.trace) e h.unreaped

pub attempt-Sound :
    {A B : Type 0} (m : Worker × Result A) (next : Worker → A → Worker × Result B)
    → Sound m
    → ((w : Worker) (a : A) → m ≡ (w, ok a) → IsSound w → Sound (next w a))
    → Sound (attempt m next)
attempt-Sound (w, ok a) next h each = each w a refl h
attempt-Sound (w, err e) next h each = h

pub diagnose-Sound :
    (w : Worker) (o : Option Diagnostic) → w.diagnostic ≡ o → IsSound w → Sound (diagnose w o)
unfolding diagnose
diagnose-Sound w none e h = h
diagnose-Sound w (some d) e h = record {
  within_limit = drain-InLimit d (subst Within e h.within_limit);
  orderly = h.orderly;
  unreaped = h.unreaped;
}

pub diagnostics-Sound : (w : Worker) → IsSound w → Sound (diagnostics w)
unfolding diagnostics
diagnostics-Sound w h = diagnose-Sound w w.diagnostic refl h

pub collect-Sound :
    (w : Worker) (waits : List (Result (Option Status)))
    → w.exit ≡ none
    → IsSound w
    → Sound (collect w waits)
unfolding collect
collect-Sound w [] e h = h
collect-Sound w (ok (some status) ∷ rest) e h = record {
  within_limit = h.within_limit;
  orderly = (IsSound-Unreaped w e h, h.orderly);
  unreaped = tt;
}
collect-Sound w (ok none ∷ rest) e h = record {
  within_limit = h.within_limit;
  orderly = h.orderly;
  unreaped = h.unreaped;
}
collect-Sound w (err x ∷ rest) e h = record {
  within_limit = h.within_limit;
  orderly = h.orderly;
  unreaped = h.unreaped;
}

pub recall-Sound : (w : Worker) (o : Option Status) → w.exit ≡ o → IsSound w → Sound (recall w o)
unfolding recall
recall-Sound w none e h = collect-Sound w w.waits e h
recall-Sound w (some status) e h = h

pub try_wait-Sound : (w : Worker) → IsSound w → Sound (try_wait w)
unfolding try_wait
try_wait-Sound w h = recall-Sound w w.exit refl h

pub last_words-Sound : (w : Worker) (status : Status) → IsSound w → Sound (last_words w status)
unfolding last_words
last_words-Sound w status h =
    attempt-Sound (diagnostics w) _ (diagnostics-Sound w h) (λ second u e h'.
      attempt-Sound (diagnostics second) _ (diagnostics-Sound second h') (λ third v f h''.
        attempt-Sound (diagnostics third) _ (diagnostics-Sound third h'') (λ last x g k. k)))

pub after_wait-Sound : (w : Worker) (o : Option Status) → IsSound w → Sound (after_wait w o)
unfolding after_wait
after_wait-Sound w none h = h
after_wait-Sound w (some status) h = last_words-Sound w status h

pub poll-Sound : (w : Worker) → IsSound w → Sound (poll w)
unfolding poll
poll-Sound w h = attempt-Sound (diagnostics w) _ (diagnostics-Sound w h) (λ w' u e h'.
    attempt-Sound (try_wait w') after_wait (try_wait-Sound w' h')
      (λ w'' o f. after_wait-Sound w'' o))
