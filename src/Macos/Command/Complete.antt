-- ===== src/Macos/Command/Complete.antt =====
-- What `Runner::capture` of src/macos/command.rs returns.
use galaxybridge.Prelude.{
  ℕ, ◌+◌, ◌≤◌, ◌≡◌, refl, inl, inr, Bool, true, ◌&&◌, List, [], ◌∷◌, Option, none, some, Result, ok,
  err, io, would_block, interrupted, timed_out, no_buffers, other_kind, message, message_with,
  panic, out_of_fuel, arith, length, Bool-cases,
}
use galaxybridge.Macos.Command.{
  output_limit, Status, Pipe, Capture, Drained, Output, Round, Running, Turn, poll, finish,
  drain_errs, drain_both, step, capture_loop, capture, then_turn,
}
use galaxybridge.Macos.Command.Streams.{delivered, IsPart, Drains, drain-Keeps}

-- The two streams have read their parts of `first` and `second`, within the limit.
abbrev Sharing : List ℕ → List ℕ → Running → Type 0
Sharing first second s =
    IsPart first s.out
    × IsPart second s.errs
    × (length s.out.bytes + length s.errs.bytes + s.remaining ≡ output_limit)

pub record IsComplete (first second : List ℕ) (output : Output) : Type 0 where
  pub whole_out : output.stdout ≡ first
  pub whole_errs : output.stderr ≡ second
  pub bounded : length output.stdout + length output.stderr ≤ output_limit

-- A round goes on with shared streams, or returns an error, or a complete output.
abbrev Turns : List ℕ → List ℕ → Running → Option (Result Output) → Type 0
Turns first second s none = Sharing first second s
Turns first second s (some (err e)) = Unit
Turns first second s (some (ok output)) = IsComplete first second output

abbrev Fair : List ℕ → List ℕ → Turn → Type 0
Fair first second t = Turns first second t.0 t.1

poll-Fair :
    (first second : List ℕ) (s : Running) (r : Result (Unit {0}))
    → Sharing first second s
    → Fair first second (poll s r)
unfolding poll
poll-Fair first second s (ok u) h = h
poll-Fair first second s (err (io interrupted)) h = h
poll-Fair first second s (err (io would_block)) h = tt
poll-Fair first second s (err (io timed_out)) h = tt
poll-Fair first second s (err (io no_buffers)) h = tt
poll-Fair first second s (err (io other_kind)) h = tt
poll-Fair first second s (err (message t)) h = tt
poll-Fair first second s (err (message_with t ns)) h = tt
poll-Fair first second s (err panic) h = tt
poll-Fair first second s (err out_of_fuel) h = tt

closed-IsPart :
    (all_bytes : List ℕ) (c : Capture) → c.closed ≡ true → IsPart all_bytes c → c.bytes ≡ all_bytes
closed-IsPart all_bytes c e h = ground arith

both_closed : (a b : Bool) → (a && b) ≡ true → (a ≡ true) × (b ≡ true)
both_closed a b e = ground arith

finish-Fair :
    (first second : List ℕ) (s : Running) (round : Round) (waited : Result (Option Status))
    → Sharing first second s
    → Fair first second (finish s round waited)
unfolding finish
finish-Fair first second s round (err e) h = tt
finish-Fair first second s round (ok none) h = poll-Fair first second s round.polled h
finish-Fair first second s round (ok (some status)) (out_part, errs_part, total) =
    elim (Bool-cases (s.out.closed && s.errs.closed)) [
      | inr open' ↦ rw open' (poll-Fair first second s round.polled (out_part, errs_part, total))
      | inl shut ↦
          let (a, b) = both_closed _ _ shut in
          rw shut (record {
            whole_out = closed-IsPart first s.out a out_part;
            whole_errs = closed-IsPart second s.errs b errs_part;
            bounded = omega (arith, total);
          })
    ]

drain_errs-Fair :
    (first second : List ℕ) (s : Running) (round : Round) (d : Drained)
    → Sharing first second s
    → Drains second s.errs s.remaining d
    → Fair first second (drain_errs s round d)
unfolding drain_errs
drain_errs-Fair first second s round (c, remaining, err e) h k = tt
drain_errs-Fair first second s round (c, remaining, ok u) (out_part, errs_part, total) k =
    let kept = k refl in
    finish-Fair first second _ round round.waited
      (out_part, kept.part errs_part, omega (arith, total, kept.account))

drain_both-Fair :
    (first second : List ℕ) (s : Running) (round : Round) (d : Drained)
    → Sharing first second s
    → Drains first s.out s.remaining d
    → Fair first second (drain_both s round d)
unfolding drain_both
drain_both-Fair first second s round (c, remaining, err e) h k = tt
drain_both-Fair first second s round (c, remaining, ok u) (out_part, errs_part, total) k =
    let kept = k refl in
    drain_errs-Fair first second _ round _
      (kept.part out_part, errs_part, omega (arith, total, kept.account))
      (drain-Keeps second s.errs remaining)

step-Fair :
    (first second : List ℕ) (s : Running) (round : Round)
    → Sharing first second s
    → Fair first second (step s round)
unfolding step
step-Fair first second s round h = elim (Bool-cases round.late) [
  | inl late ↦ rw late tt
  | inr early ↦
      rw early (drain_both-Fair first second s round _ h (drain-Keeps first s.out s.remaining))
]

turned :
    (first second : List ℕ) (t : Turn) (rest : Option (Result Output)) (output : Output)
    → Fair first second t
    → then_turn t.1 rest ≡ some (ok output)
    → (Sharing first second t.0 → rest ≡ some (ok output) → IsComplete first second output)
    → IsComplete first second output
unfolding then_turn
turned first second (s, none) rest output fair e next = next fair e
turned first second (s, some (err x)) rest output fair e next = absurd (cc e)
turned first second (s, some (ok o)) rest output fair e next =
    let same : o ≡ output = cc e in rw (← same) fair

capture_loop-IsComplete :
    (first second : List ℕ) (s : Running) (rounds : List Round) (output : Output)
    → Sharing first second s
    → capture_loop s rounds ≡ some (ok output)
    → IsComplete first second output
unfolding capture_loop
capture_loop-IsComplete first second s [] output h e = absurd (cc e)
capture_loop-IsComplete first second s (round ∷ rounds) output h e =
    turned first second (step s round) _ output (step-Fair first second s round h) e
      (λ shared. capture_loop-IsComplete first second (step s round).0 rounds output shared)

-- For the pipes of a command and the rounds of `Runner::capture`: an output that it returns holds
-- all that the two pipes deliver up to the ends of their files, and has at most one mebibyte in
-- all.
pub capture-IsComplete :
    (stdout stderr : Pipe) (rounds : List Round) (output : Output)
    → capture stdout stderr rounds ≡ some (ok output)
    → IsComplete (delivered stdout) (delivered stderr) output
unfolding capture
capture-IsComplete stdout stderr rounds output =
    capture_loop-IsComplete (delivered stdout) (delivered stderr) _ rounds output
      (refl, refl, omega arith)
