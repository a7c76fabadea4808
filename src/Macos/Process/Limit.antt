-- ===== src/Macos/Process/Limit.antt =====
-- The diagnostic output of a worker of src/macos/process.rs.
use galaxybridge.Prelude.{
  ℕ, zero, suc, ◌+◌, ◌≡◌, inl, inr, List, [], ◌∷◌, Result, ok, err, io, would_block, interrupted,
  timed_out, no_buffers, other_kind, message, message_with, panic, out_of_fuel, arith, length, ltb,
  Bool-cases,
}
use galaxybridge.Macos.Command.{Pipe}
use galaxybridge.Macos.Process.{
  Diagnostic, Read, again, stop, failed, take_chunk, read, Drained, resume, drain_loop, drain,
}

abbrev pub total : List (List ℕ) → ℕ
total [] = 0
total (chunk ∷ chunks) = length chunk + total chunks

-- What was printed and what may yet be make the allowance.
abbrev pub InLimit : Diagnostic → Type 0
InLimit d = total d.printed + d.remaining ≡ 8192

abbrev ReadInLimit : Read → Type 0
ReadInLimit (again d) = InLimit d
ReadInLimit (stop d) = InLimit d
ReadInLimit (failed d e) = InLimit d

take_chunk-InLimit :
    (d : Diagnostic) (rest : Pipe) (r : Result (List ℕ))
    → InLimit d
    → ReadInLimit (take_chunk d rest r)
unfolding take_chunk
take_chunk-InLimit d rest (ok []) h = h
take_chunk-InLimit d rest (ok (b ∷ bs)) h = elim (Bool-cases (ltb d.remaining (length (b ∷ bs)))) [
  | inl over ↦ rw over h
  | inr fits ↦ rw fits (ground (arith, h))
]
take_chunk-InLimit d rest (err (io would_block)) h = h
take_chunk-InLimit d rest (err (io interrupted)) h = h
take_chunk-InLimit d rest (err (io timed_out)) h = h
take_chunk-InLimit d rest (err (io no_buffers)) h = h
take_chunk-InLimit d rest (err (io other_kind)) h = h
take_chunk-InLimit d rest (err (message t)) h = h
take_chunk-InLimit d rest (err (message_with t ns)) h = h
take_chunk-InLimit d rest (err panic) h = h
take_chunk-InLimit d rest (err out_of_fuel) h = h

read-InLimit : (d : Diagnostic) (pipe : Pipe) → InLimit d → ReadInLimit (read d pipe)
unfolding read
read-InLimit d [] h = h
read-InLimit d (r ∷ rest) h = take_chunk-InLimit d rest r h

resume-InLimit :
    (next : Diagnostic → Drained) (r : Read)
    → ((d : Diagnostic) → InLimit d → InLimit (next d).0)
    → ReadInLimit r
    → InLimit (resume next r).0
unfolding resume
resume-InLimit next (again d) each h = each d h
resume-InLimit next (stop d) each h = h
resume-InLimit next (failed d e) each h = h

drain_loop-InLimit : (rounds : ℕ) (d : Diagnostic) → InLimit d → InLimit (drain_loop rounds d).0
unfolding drain_loop
drain_loop-InLimit zero d h = h
drain_loop-InLimit (suc rounds) d h =
    resume-InLimit (λ d'. drain_loop rounds d') (read d d.pipe) (λ d'. drain_loop-InLimit rounds d')
      (read-InLimit d d.pipe h)

pub drain-InLimit : (d : Diagnostic) → InLimit d → InLimit (drain d).0
unfolding drain
drain-InLimit d h = elim (Bool-cases d.exceeded) [
  | inl over ↦ simp (over) h
  | inr under ↦ simp (under) (drain_loop-InLimit 4 d h)
]
