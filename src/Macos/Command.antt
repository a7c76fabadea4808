-- ===== src/Macos/Command.antt =====
-- src/macos/command.rs: commands with bounded output and a deadline. A pipe is the list of what its
-- future reads give: a chunk, the end of the file as an empty chunk, or an error.
pub mod Complete
pub mod Streams
use galaxybridge.Prelude.{
  ℕ, zero, suc, ◌+◌, ◌-◌, ◌*◌, ◌≡◌, Bool, true, false, ◌&&◌, not, List, [], ◌∷◌, ◌++◌, Option, none,
  some, Result, ok, err, Error, io, would_block, interrupted, message, ◌>>=◌, ◌>>◌, refuse, ok_or,
  length, ltb, ◌==◌, if◌then◌else◌, from_utf8, trim,
}

abbrev pub output_limit : ℕ
output_limit = 1024 * 1024

-- `ExitStatus`
pub data Status : Type 0 where
  exited : ℕ → Status
  signalled : ℕ → Status

unfoldable pub success : Status → Bool
success (exited code) = code == 0
success (signalled signal) = false

abbrev pub Pipe : Type 0
Pipe = List (Result (List ℕ))

pub record Capture : Type 0 where
  pub pipe : Pipe
  pub bytes : List ℕ
  pub closed : Bool

-- The capture and what remains of the shared limit, and whether the loop goes on.
pub data Read : Type 0 where
  again : Capture → ℕ → Read
  stop : Capture → ℕ → Read
  failed : Capture → ℕ → Error → Read

-- One read. `rest` is the pipe behind it.
unfoldable pub take_chunk : Capture → ℕ → Pipe → Result (List ℕ) → Read
take_chunk c remaining rest (ok []) = stop (record c { pipe = rest; closed = true }) remaining
take_chunk c remaining rest (ok (b ∷ bs)) =
    if ltb remaining (length (b ∷ bs))
    then failed (record c { pipe = rest }) remaining
        (message "command output exceeded the combined 1 MiB limit")
    else again (record c { pipe = rest; bytes = c.bytes ++ (b ∷ bs) }) (remaining - length (b ∷ bs))
take_chunk c remaining rest (err (io would_block)) = stop (record c { pipe = rest }) remaining
take_chunk c remaining rest (err (io interrupted)) = again (record c { pipe = rest }) remaining
take_chunk c remaining rest (err e) = failed (record c { pipe = rest }) remaining e

-- A read of a pipe that has nothing more for now.
unfoldable pub read : Capture → ℕ → Pipe → Read
unfolding take_chunk
read c remaining [] = stop c remaining
read c remaining (r ∷ rest) = take_chunk c remaining rest r

-- The outcome of draining one stream: the capture, the remaining limit, and the error if there is one.
abbrev pub Drained : Type 0
Drained = Capture × ℕ × Result (Unit {0})

unfoldable pub resume : (Capture → ℕ → Drained) → Read → Drained
resume next (again c remaining) = next c remaining
resume next (stop c remaining) = (c, remaining, ok tt)
resume next (failed c remaining e) = (c, remaining, err e)

unfoldable pub drain_loop : ℕ → Capture → ℕ → Drained
unfolding read resume
drain_loop zero c remaining = (c, remaining, ok tt)
drain_loop (suc rounds) c remaining =
    resume (λ c' remaining'. drain_loop rounds c' remaining') (read c remaining c.pipe)

-- `Capture::drain`
unfoldable pub drain : Capture → ℕ → Drained
unfolding drain_loop
drain c remaining = if c.closed then (c, remaining, ok tt) else drain_loop 8 c remaining

pub record Output : Type 0 where
  pub status : Status
  pub stdout : List ℕ
  pub stderr : List ℕ

-- What a round of the loop of `Runner::capture` meets.
pub record Round : Type 0 where
  -- The deadline has passed at the start of the round.
  pub late : Bool
  -- `try_wait`
  pub waited : Result (Option Status)
  pub polled : Result (Unit {0})

pub record Running : Type 0 where
  pub out : Capture
  pub errs : Capture
  pub remaining : ℕ

-- The result of a round: `none` goes on.
abbrev pub Turn : Type 0
Turn = Running × Option (Result Output)

unfoldable pub poll : Running → Result (Unit {0}) → Turn
poll s (ok u) = (s, none)
poll s (err (io interrupted)) = (s, none)
poll s (err e) = (s, some (err e))

-- After the exit the output is complete only when both streams are closed.
unfoldable pub finish : Running → Round → Result (Option Status) → Turn
unfolding poll
finish s round (err e) = (s, some (err e))
finish s round (ok none) = poll s round.polled
finish s round (ok (some status)) =
    if s.out.closed && s.errs.closed
    then (s, some (ok (record { status = status; stdout = s.out.bytes; stderr = s.errs.bytes })))
    else poll s round.polled

unfoldable pub drain_errs : Running → Round → Drained → Turn
unfolding finish
drain_errs s round (c, remaining, err e) =
    (record s { errs = c; remaining = remaining }, some (err e))
drain_errs s round (c, remaining, ok u) =
    finish (record s { errs = c; remaining = remaining }) round round.waited

unfoldable pub drain_both : Running → Round → Drained → Turn
unfolding drain_errs
drain_both s round (c, remaining, err e) =
    (record s { out = c; remaining = remaining }, some (err e))
drain_both s round (c, remaining, ok u) =
    drain_errs (record s { out = c; remaining = remaining }) round (drain s.errs remaining)

unfoldable pub step : Running → Round → Turn
unfolding drain_both
step s round =
    if round.late
    then (s, some (err (message "{name} timed out")))
    else drain_both s round (drain s.out s.remaining)

-- The result of a round, or that of the rounds behind it.
unfoldable pub then_turn : Option (Result Output) → Option (Result Output) → Option (Result Output)
then_turn (some result) rest = some result
then_turn none rest = rest

unfoldable pub capture_loop : Running → List Round → Option (Result Output)
unfolding then_turn
capture_loop s [] = none
capture_loop s (round ∷ rounds) =
    let turn = step s round in let rest = capture_loop turn.0 rounds in then_turn turn.1 rest

abbrev pub opened : Pipe → List ℕ → Capture
opened pipe bytes = record { pipe = pipe; bytes = bytes; closed = false }

abbrev pub fresh : Pipe → Capture
fresh pipe = opened pipe []

-- `Runner::capture`, from the spawned process on. `none` when the rounds end before it returns.
unfoldable pub capture : Pipe → Pipe → List Round → Option (Result Output)
capture stdout stderr rounds =
    capture_loop (record { out = fresh stdout; errs = fresh stderr; remaining = output_limit })
      rounds

-- `command::text`, from the output of the command on.
unfoldable pub text : Result Output → Result (List ℕ)
unfolding trim
text run = do
  output ← run
  refuse (not (success output.status)) (message "{path}: {stderr}")
  decoded ← ok_or (from_utf8 output.stdout) (message "invalid utf-8 sequence")
  ok (trim decoded)

-- The end of a command that is dropped: the outcome, and whether it was killed.
pub data Cleanup : Type 0 where
  reaped : Cleanup
  unknown : Error → Cleanup
  abandoned : Cleanup
  -- The rounds end before the loop does.
  waiting : Cleanup

-- The loop after the kill: `try_wait`, and whether the cleanup deadline has passed behind it.
unfoldable pub await_exit : List (Result (Option Status) × Bool) → Cleanup
await_exit [] = waiting
await_exit ((waited, late) ∷ rounds) =
    let rest = await_exit rounds in
    elim waited [
      | ok (some status) ↦ reaped
      | err e ↦ unknown e
      | ok none ↦ if late then abandoned else rest
    ]

-- `Process::drop`: `true` when the process is killed.
unfoldable pub clean_up :
    Result (Option Status) → List (Result (Option Status) × Bool) → Bool × Cleanup
clean_up (ok (some status)) rounds = (false, reaped)
clean_up (err e) rounds = (false, unknown e)
clean_up (ok none) rounds = (true, await_exit rounds)
