-- ===== src/Macos/Process.antt =====
-- src/macos/process.rs: the worker process. Its standard error is a pipe, and what `try_wait` and
-- `kill` will answer is part of the state.
pub mod Limit
pub mod Signals
pub mod Sound
pub mod Arguments
use galaxybridge.Prelude.{
  ℕ, zero, suc, ◌+◌, ◌-◌, ◌≡◌, Bool, true, false, ◌&&◌, ◌||◌, not, List, [], ◌∷◌, ◌++◌, Option,
  none, some, Result, ok, err, Error, io, would_block, interrupted, message, message_with, ◌>>=◌,
  ◌>>◌, refuse, length, ltb, ◌==◌, if◌then◌else◌, codes, text_eq,
}
use galaxybridge.Usb.Devices.{Filter}
use galaxybridge.Cli.{Mode, devices, handshake}
use galaxybridge.Macos.Command.{Status, exited, signalled, success, Pipe, Output}
use galaxybridge.Macos.Context.{filter_arguments}

pub record Diagnostic : Type 0 where
  pub pipe : Pipe
  pub remaining : ℕ
  pub exceeded : Bool
  -- The chunks that were printed, the last one first.
  pub printed : List (List ℕ)

pub data Read : Type 0 where
  again : Diagnostic → Read
  stop : Diagnostic → Read
  failed : Diagnostic → Error → Read

abbrev too_long : Error
too_long = message "USB worker diagnostic output exceeded its 8 KiB lifetime limit"

unfoldable pub take_chunk : Diagnostic → Pipe → Result (List ℕ) → Read
take_chunk d rest (ok []) = stop (record d { pipe = rest })
take_chunk d rest (ok (b ∷ bs)) =
    if ltb d.remaining (length (b ∷ bs))
    then failed (record d { pipe = rest; exceeded = true }) too_long
    else again (record d {
      pipe = rest;
      remaining = d.remaining - length (b ∷ bs);
      printed = (b ∷ bs) ∷ d.printed;
    })
take_chunk d rest (err (io would_block)) = stop (record d { pipe = rest })
take_chunk d rest (err (io interrupted)) = again (record d { pipe = rest })
take_chunk d rest (err e) = failed (record d { pipe = rest }) e

unfoldable pub read : Diagnostic → Pipe → Read
unfolding take_chunk
read d [] = stop d
read d (r ∷ rest) = take_chunk d rest r

abbrev pub Drained : Type 0
Drained = Diagnostic × Result (Unit {0})

unfoldable pub resume : (Diagnostic → Drained) → Read → Drained
resume next (again d) = next d
resume next (stop d) = (d, ok tt)
resume next (failed d e) = (d, err e)

unfoldable pub drain_loop : ℕ → Diagnostic → Drained
unfolding resume read
drain_loop zero d = (d, ok tt)
drain_loop (suc rounds) d = resume (λ d'. drain_loop rounds d') (read d d.pipe)

-- `Diagnostic::drain`
unfoldable pub drain : Diagnostic → Drained
unfolding drain_loop
drain d = if d.exceeded then (d, err too_long) else drain_loop 4 d

-- What happens to the child: an exit status was collected, or a signal was sent.
pub data Happening : Type 0 where
  reaped : Status → Happening
  terminated : Happening
  killed : Happening

-- What sending a signal answers.
pub data Sent : Type 0 where
  delivered : Sent
  -- `ESRCH`
  no_process : Sent
  refused : Error → Sent

pub record Worker : Type 0 where
  pub diagnostic : Option Diagnostic
  -- What the calls of `try_wait` will answer; the child runs while nothing is said.
  pub waits : List (Result (Option Status))
  -- The exit status, which `Child` keeps once it is collected.
  pub exit : Option Status
  -- What happened, the last first.
  pub trace : List Happening

-- `Worker::adopt`; `nonblocking` is the outcome of setting the flag of the pipe.
unfoldable pub adopt :
    Option Pipe → Result (Unit {0}) → List (Result (Option Status)) → Result Worker
adopt none nonblocking waits =
    ok (record { diagnostic = none; waits = waits; exit = none; trace = [] })
adopt (some pipe) nonblocking waits = do
  nonblocking
  ok (record {
    diagnostic = some (record { pipe = pipe; remaining = 8192; exceeded = false; printed = [] });
    waits = waits;
    exit = none;
    trace = [];
  })

unfoldable pub diagnose : Worker → Option Diagnostic → Worker × Result (Unit {0})
unfolding drain
diagnose w none = (w, ok tt)
diagnose w (some d) = (record w { diagnostic = some (drain d).0 }, (drain d).1)

-- `Worker::diagnostics`
unfoldable pub diagnostics : Worker → Worker × Result (Unit {0})
unfolding diagnose
diagnostics w = diagnose w w.diagnostic

unfoldable pub collect : Worker → List (Result (Option Status)) → Worker × Result (Option Status)
collect w [] = (w, ok none)
collect w (ok (some status) ∷ rest) = (
  record w { waits = rest; exit = some status; trace = reaped status ∷ w.trace },
  ok (some status),
)
collect w (ok none ∷ rest) = (record w { waits = rest }, ok none)
collect w (err e ∷ rest) = (record w { waits = rest }, err e)

unfoldable pub recall : Worker → Option Status → Worker × Result (Option Status)
unfolding collect
recall w (some status) = (w, ok (some status))
recall w none = collect w w.waits

-- `Child::try_wait`
unfoldable pub try_wait : Worker → Worker × Result (Option Status)
unfolding recall
try_wait w = recall w w.exit

abbrev pub attempt {ℓ κ} :
    {A : Type ℓ} {B : Type κ}
    → Worker × Result A
    → (Worker → A → Worker × Result B)
    → Worker × Result B
attempt (w, ok a) next = next w a
attempt (w, err e) next = (w, err e)

-- The three drains after the exit.
unfoldable pub last_words : Worker → Status → Worker × Result (Option Status)
unfolding diagnostics
last_words w status = attempt (diagnostics w) (λ w' u.
    attempt (diagnostics w')
      (λ w'' v. attempt (diagnostics w'') (λ w''' x. (w''', ok (some status)))))

unfoldable pub after_wait : Worker → Option Status → Worker × Result (Option Status)
unfolding last_words
after_wait w none = (w, ok none)
after_wait w (some status) = last_words w status

-- `Worker::poll`
unfoldable pub poll : Worker → Worker × Result (Option Status)
unfolding diagnostics try_wait after_wait
poll w = attempt (diagnostics w) (λ w' u. attempt (try_wait w') after_wait)

-- The end of a try of `Worker::reap`.
unfoldable pub reap_result :
    (Worker → Worker × Result Bool) → Worker → Option Status → Worker × Result Bool
reap_result next w (some status) = (w, ok true)
reap_result next w none = next w

-- `Worker::reap`: the deadline passes behind `rounds` further tries.
unfoldable pub reap : ℕ → Worker → Worker × Result Bool
unfolding try_wait reap_result
reap zero w = attempt (try_wait w) (reap_result (λ w'. (w', ok false)))
reap (suc rounds) w = attempt (try_wait w) (reap_result (λ w'. reap rounds w'))

-- The signals that `Worker::stop` may send, and how many tries fit before each deadline.
pub record Stopping : Type 0 where
  pub term : Sent
  pub term_rounds : ℕ
  pub kill : Result (Unit {0})
  pub kill_rounds : ℕ

unfoldable pub term_answer : Sent → Result (Unit {0})
term_answer delivered = ok tt
term_answer no_process = ok tt
term_answer (refused e) = err e

unfoldable pub finish_kill : Stopping → Worker → Worker × Result (Unit {0})
finish_kill s w =
    attempt (record w { trace = killed ∷ w.trace }, s.kill)
      (λ w' u. attempt (reap s.kill_rounds w') (λ w'' gone.
        if gone
        then (w'', ok tt)
        else (w'', err (message "USB worker did not exit within the cleanup deadline"))))

unfoldable pub finish_term : Stopping → Worker → Worker × Result (Unit {0})
unfolding term_answer finish_kill
finish_term s w =
    attempt (record w { trace = terminated ∷ w.trace }, term_answer s.term)
      (λ w' u.
        attempt (reap s.term_rounds w')
          (λ w'' gone. if gone then (w'', ok tt) else finish_kill s w''))

-- `Worker::stop`. The first `reap` has no time: it tries once.
unfoldable pub terminate : Stopping → Worker → Worker × Result (Unit {0})
unfolding finish_term
terminate s w = attempt (reap 0 w) (λ w' gone. if gone then (w', ok tt) else finish_term s w')

-- `Worker::drop`, whose errors are printed.
unfoldable pub drop_worker : Stopping → Worker → Worker
drop_worker s w = (diagnostics (terminate s w).0).0

-- `Discovery::check`
unfoldable pub check : Status → Result Bool
check (exited code) =
    if code == 0
    then ok true
    else if code == 2
    then ok false
    else err (message_with "USB discovery worker exited" (code ∷ []))
check (signalled signal) = err (message_with "USB discovery worker exited" (signal ∷ []))

unfoldable pub probe_result :
    (Worker → Worker × Result Bool) → Worker → Option Status → Worker × Result Bool
unfolding check
probe_result next w (some status) = (w, check status)
probe_result next w none = next w

unfoldable pub give_up : Stopping → Worker → Worker × Result Bool
give_up s w = attempt (terminate s w) (λ w' u. (w', err (message "USB discovery timed out")))

-- `Worker::probe`, from the adopted worker on: the deadline passes behind `rounds` further polls.
unfoldable pub probe : Stopping → ℕ → Worker → Worker × Result Bool
unfolding probe_result give_up
probe s zero w = attempt (poll w) (probe_result (give_up s))
probe s (suc rounds) w = attempt (poll w) (probe_result (λ w'. probe s rounds w'))

-- What is done with a worker in its life.
pub data Operation : Type 0 where
  diagnosing : Operation
  polling : Operation
  stopping : Stopping → Operation
  probing : Stopping → ℕ → Operation
  dropping : Stopping → Operation

unfoldable pub perform : Worker → Operation → Worker
perform w diagnosing = (diagnostics w).0
perform w polling = (poll w).0
perform w (stopping s) = (terminate s w).0
perform w (probing s rounds) = (probe s rounds w).0
perform w (dropping s) = drop_worker s w

unfoldable pub live : Worker → List Operation → Worker
live w [] = w
live w (o ∷ os) = live (perform w o) os

-- The arguments of `Worker::create`.
unfoldable pub create : List ℕ → Filter → List (List ℕ)
unfolding filter_arguments
create mode filter = mode ∷ filter_arguments filter

unfoldable pub is_inspection : List ℕ → Bool
unfolding text_eq
is_inspection mode = text_eq mode (codes "devices") || text_eq mode (codes "handshake")

-- The arguments that `Worker::inspect` runs the worker with; `bundle` is the outcome of `Bundle::check` and
-- of the calls behind it, for the descriptors and the home directory.
unfoldable pub inspect : ℕ → Result (Unit {0}) → List ℕ → Filter → Bool → Result (List (List ℕ))
unfolding is_inspection
inspect euid bundle mode filter show_serial = do
  refuse (euid == 0) (message "run USB inspection without sudo")
  refuse (not (is_inspection mode) || (show_serial && not (text_eq mode (codes "devices"))))
      (message "invalid USB inspection mode")
  bundle
  ok (create mode filter ++ (if show_serial then codes "--show-serial" ∷ [] else []))

-- What `Worker::inspect` makes of the output.
unfoldable pub report : Result Output → Result (Unit {0})
report run = do
  output ← run
  refuse (not (success output.status)) (message "USB inspection exited ({})")
