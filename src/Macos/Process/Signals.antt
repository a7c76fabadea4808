-- ===== src/Macos/Process/Signals.antt =====
-- The life of a worker of src/macos/process.rs: its output is bounded, and no signal is sent to a
-- process whose exit status was collected.
use mathlib.Core.Path.{subst}
use galaxybridge.Prelude.{
  sym, ℕ, zero, suc, ◌≡◌, refl, Bool, true, false, List, [], ◌∷◌, Option, none, some, Result, ok,
  err, ap, message, ok-injective, if◌then◌else◌,
}
use galaxybridge.Macos.Command.{Status, Pipe}
use galaxybridge.Macos.Process.{
  reaped, terminated, killed, Worker, adopt, recall, collect, try_wait, attempt, poll, reap_result,
  reap, Stopping, term_answer, finish_kill, finish_term, terminate, drop_worker, probe_result,
  give_up, probe, Operation, diagnosing, polling, stopping, probing, dropping, perform, live,
}
use galaxybridge.Macos.Process.Sound.{
  IsSound-Unreaped, Open, Warned, IsSound, Sound, attempt-Sound, diagnostics-Sound, try_wait-Sound,
  poll-Sound,
}

-- What a call of `try_wait` says of the child.
record Waits (w w' : Worker) (o : Option Status) : Type 0 where
  exit : w'.exit ≡ o
  warned : Warned w.trace → Warned w'.trace

collect-Waits :
    (w w' : Worker) (waits : List (Result (Option Status))) (o : Option Status)
    → w.exit ≡ none
    → collect w waits ≡ (w', ok o)
    → Waits w w' o
unfolding collect
collect-Waits w w' [] o e f =
    let same : w ≡ w' = ap (λ m. m.0) f in
    let says : none ≡ o = cc (ap (λ m. m.1) f) in
    rw (← same, ← says) (record { exit = e; warned = λ h. h })
collect-Waits w w' (ok (some status) ∷ rest) o e f =
    let same : record w { waits = rest; exit = some status; trace = reaped status ∷ w.trace } ≡ w' =
      ap (λ m. m.0) f in
    let says : some status ≡ o = cc (ap (λ m. m.1) f) in
    rw (← same, ← says) (record { exit = refl; warned = λ h. h })
collect-Waits w w' (ok none ∷ rest) o e f =
    let same : record w { waits = rest } ≡ w' = ap (λ m. m.0) f in
    let says : none ≡ o = cc (ap (λ m. m.1) f) in
    rw (← same, ← says) (record { exit = e; warned = λ h. h })
collect-Waits w w' (err x ∷ rest) o e f = absurd (cc (ap (λ m. m.1) f))

recall-Waits :
    (w w' : Worker) (known o : Option Status)
    → w.exit ≡ known
    → recall w known ≡ (w', ok o)
    → Waits w w' o
unfolding recall
recall-Waits w w' none o e f = collect-Waits w w' w.waits o e f
recall-Waits w w' (some status) o e f =
    let same : w ≡ w' = ap (λ m. m.0) f in
    let says : some status ≡ o = cc (ap (λ m. m.1) f) in
    rw (← same, ← says) (record { exit = e; warned = λ h. h })

try_wait-Waits : (w w' : Worker) (o : Option Status) → try_wait w ≡ (w', ok o) → Waits w w' o
unfolding try_wait
try_wait-Waits w w' o f = recall-Waits w w' w.exit o refl f

-- A reap says that the child runs only when no status was collected, and that it is gone only when one
-- was.
record Reaps (w : Worker) (m : Worker × Result Bool) : Type 0 where
  sound : Sound m
  running : m.1 ≡ ok false → m.0.exit ≡ none
  gone : m.1 ≡ ok true → (status : Status) × (m.0.exit ≡ some status)
  warned : m.1 ≡ ok false → Warned w.trace → Warned m.0.trace

attempt-Reaps :
    (w : Worker) (m : Worker × Result (Option Status)) (next : Worker → Worker × Result Bool)
    → Sound m
    → ((w' : Worker) (o : Option Status) → m ≡ (w', ok o) → Waits w w' o)
    → ((w' : Worker) → m ≡ (w', ok none) → IsSound w' → Reaps w' (next w'))
    → Reaps w (attempt m (reap_result next))
unfolding reap_result
attempt-Reaps w (w', ok none) next h waits each =
    let r = each w' refl h in
    record {
      sound = r.sound;
      running = r.running;
      gone = r.gone;
      warned = λ e k. r.warned e ((waits w' none refl).warned k);
    }
attempt-Reaps w (w', ok (some status)) next h waits each = record {
  sound = h;
  running = λ e. absurd (cc e);
  gone = λ e. (status, (waits w' (some status) refl).exit);
  warned = λ e. absurd (cc e);
}
attempt-Reaps w (w', err x) next h waits each = record {
  sound = h;
  running = λ e. absurd (cc e);
  gone = λ e. absurd (cc e);
  warned = λ e. absurd (cc e);
}

reap-Reaps : (rounds : ℕ) (w : Worker) → IsSound w → Reaps w (reap rounds w)
unfolding reap
reap-Reaps zero w h =
    attempt-Reaps w (try_wait w) _ (try_wait-Sound w h) (try_wait-Waits w) (λ w' e h'. record {
      sound = h';
      running = λ x. (try_wait-Waits w w' none e).exit;
      gone = λ x. absurd (cc x);
      warned = λ x k. k;
    })
reap-Reaps (suc rounds) w h =
    attempt-Reaps w (try_wait w) _ (try_wait-Sound w h) (try_wait-Waits w)
      (λ w' e. reap-Reaps rounds w')

-- A signal is sent to a child that runs.
signal-Sound :
    (w : Worker) → w.exit ≡ none → IsSound w → IsSound (record w { trace = terminated ∷ w.trace })
signal-Sound w e h = record {
  within_limit = h.within_limit;
  orderly = (IsSound-Unreaped w e h, h.orderly);
  unreaped = subst (λ o. Open o (terminated ∷ w.trace)) (sym e) (IsSound-Unreaped w e h);
}

kill-Sound :
    (w : Worker)
    → w.exit ≡ none
    → Warned w.trace
    → IsSound w
    → IsSound (record w { trace = killed ∷ w.trace })
kill-Sound w e warned h = record {
  within_limit = h.within_limit;
  orderly = (IsSound-Unreaped w e h, warned, h.orderly);
  unreaped = subst (λ o. Open o (killed ∷ w.trace)) (sym e) (IsSound-Unreaped w e h);
}

-- Stopping keeps the worker sound, and succeeds only when the exit status was collected.
record Stops (m : Worker × Result (Unit {0})) : Type 0 where
  sound : Sound m
  collected : m.1 ≡ ok tt → (status : Status) × (m.0.exit ≡ some status)

-- The end of a stop: a reap, and what to do with a child that runs still.
after_reap :
    (w : Worker) (m : Worker × Result Bool) (next : Worker → Worker × Result (Unit {0}))
    → Reaps w m
    → ((w' : Worker)
        → w'.exit ≡ none
        → (Warned w.trace → Warned w'.trace)
        → IsSound w'
        → Stops (next w'))
    → Stops (attempt m (λ w' gone. if gone then (w', ok tt) else next w'))
after_reap w (w', ok true) next r each = record { sound = r.sound; collected = λ e. r.gone refl }
after_reap w (w', ok false) next r each = each w' (r.running refl) (r.warned refl) r.sound
after_reap w (w', err x) next r each = record { sound = r.sound; collected = λ e. absurd (cc e) }

finish_kill-Stops :
    (s : Stopping) (w : Worker)
    → w.exit ≡ none
    → Warned w.trace
    → IsSound w
    → Stops (finish_kill s w)
unfolding finish_kill
finish_kill-Stops s w e warned h = go s.kill
  where
    sent : Worker
    sent = record w { trace = killed ∷ w.trace }

    go :
        (r : Result (Unit {0}))
        → Stops (
            attempt
              (sent, r)
              (λ w' u. attempt (reap s.kill_rounds w') (λ w'' gone.
                if gone
                then (w'', ok tt)
                else (w'', err (message "USB worker did not exit within the cleanup deadline")))))
    go (err x) = record { sound = kill-Sound w e warned h; collected = λ f. absurd (cc f) }
    go (ok u) =
        after_reap sent (reap s.kill_rounds sent)
          (λ w''. (w'', err (message "USB worker did not exit within the cleanup deadline")))
          (reap-Reaps s.kill_rounds sent (kill-Sound w e warned h))
          (λ w'' f k h''. record { sound = h''; collected = λ x. absurd (cc x) })

finish_term-Stops :
    (s : Stopping) (w : Worker) → w.exit ≡ none → IsSound w → Stops (finish_term s w)
unfolding finish_term
finish_term-Stops s w e h = go (term_answer s.term)
  where
    sent : Worker
    sent = record w { trace = terminated ∷ w.trace }

    go :
        (r : Result (Unit {0}))
        → Stops (
            attempt
              (sent, r)
              (λ w' u.
                attempt
                  (reap s.term_rounds w')
                  (λ w'' gone. if gone then (w'', ok tt) else finish_kill s w'')))
    go (err x) = record { sound = signal-Sound w e h; collected = λ f. absurd (cc f) }
    go (ok u) =
        after_reap sent (reap s.term_rounds sent) (finish_kill s)
          (reap-Reaps s.term_rounds sent (signal-Sound w e h))
          (λ w'' f k h''. finish_kill-Stops s w'' f (k tt) h'')

terminate-Stops : (s : Stopping) (w : Worker) → IsSound w → Stops (terminate s w)
unfolding terminate
terminate-Stops s w h =
    after_reap w (reap 0 w) (finish_term s) (reap-Reaps 0 w h)
      (λ w' e k h'. finish_term-Stops s w' e h')

pub drop-Sound : (s : Stopping) (w : Worker) → IsSound w → IsSound (drop_worker s w)
unfolding drop_worker
drop-Sound s w h = diagnostics-Sound _ (terminate-Stops s w h).sound

probe_result-Sound :
    (m : Worker × Result (Option Status)) (next : Worker → Worker × Result Bool)
    → Sound m
    → ((w : Worker) → IsSound w → Sound (next w))
    → Sound (attempt m (probe_result next))
unfolding probe_result
probe_result-Sound (w, ok none) next h each = each w h
probe_result-Sound (w, ok (some status)) next h each = h
probe_result-Sound (w, err x) next h each = h

give_up-Sound : (s : Stopping) (w : Worker) → IsSound w → Sound (give_up s w)
unfolding give_up
give_up-Sound s w h =
    attempt-Sound (terminate s w) _ (terminate-Stops s w h).sound (λ w' u e h'. h')

probe-Sound : (s : Stopping) (rounds : ℕ) (w : Worker) → IsSound w → Sound (probe s rounds w)
unfolding probe
probe-Sound s zero w h = probe_result-Sound (poll w) _ (poll-Sound w h) (give_up-Sound s)
probe-Sound s (suc rounds) w h =
    probe_result-Sound (poll w) _ (poll-Sound w h) (probe-Sound s rounds)

perform-Sound : (w : Worker) (o : Operation) → IsSound w → IsSound (perform w o)
unfolding perform
perform-Sound w diagnosing h = diagnostics-Sound w h
perform-Sound w polling h = poll-Sound w h
perform-Sound w (stopping s) h = (terminate-Stops s w h).sound
perform-Sound w (probing s rounds) h = probe-Sound s rounds w h
perform-Sound w (dropping s) h = drop-Sound s w h

pub live-Sound : (w : Worker) (os : List Operation) → IsSound w → IsSound (live w os)
unfolding live
live-Sound w [] h = h
live-Sound w (o ∷ os) h = live-Sound (perform w o) os (perform-Sound w o h)

pub adopt-Sound :
    (pipe : Option Pipe) (nonblocking : Result (Unit {0})) (waits : List (Result (Option Status)))
    (w : Worker)
    → adopt pipe nonblocking waits ≡ ok w
    → IsSound w
unfolding adopt
adopt-Sound none nonblocking waits w e =
    let same = ok-injective e in
    subst IsSound same (record { within_limit = tt; orderly = tt; unreaped = tt })
adopt-Sound (some pipe) (err x) waits w e = absurd (cc e)
adopt-Sound (some pipe) (ok u) waits w e =
    subst IsSound (ok-injective e) (record { within_limit = refl; orderly = tt; unreaped = tt })

-- For a worker that `Worker::adopt` returned and any sequence of diagnostics, polls, stops, probes
-- and drops: what it printed and what remains of its allowance are 8192 bytes in all, so it never
-- prints more; no signal was sent behind the collection of its exit status; and a kill was only
-- sent behind a termination signal.
pub adopt-live-IsSound :
    (pipe : Option Pipe) (nonblocking : Result (Unit {0})) (waits : List (Result (Option Status)))
    (w : Worker) (os : List Operation)
    → adopt pipe nonblocking waits ≡ ok w
    → IsSound (live w os)
adopt-live-IsSound pipe nonblocking waits w os e =
    live-Sound w os (adopt-Sound pipe nonblocking waits w e)

pub terminate-collected :
    (s : Stopping) (w : Worker)
    → IsSound w
    → (terminate s w).1 ≡ ok tt
    → (status : Status) × ((terminate s w).0.exit ≡ some status)
terminate-collected s w h = (terminate-Stops s w h).collected
