-- ===== src/Macos/Command/Streams.antt =====
-- Draining one pipe of a command of src/macos/command.rs.
use mathlib.Core.Path.{subst}
use galaxybridge.Prelude.{
  ℕ, zero, suc, ◌+◌, ◌≡◌, refl, sym, ◌∙◌, ap, inl, inr, false, List, [], ◌∷◌, ◌++◌, append_assoc,
  append-nil, Result, ok, err, Error, io, would_block, interrupted, timed_out, no_buffers,
  other_kind, message, message_with, panic, out_of_fuel, arith, length, length-append, ltb,
  Bool-cases, if◌then◌else◌,
}
use galaxybridge.Macos.Command.{
  Pipe, Capture, Read, again, stop, failed, take_chunk, read, Drained, drain_loop, drain, opened,
  resume,
}

-- What a pipe delivers up to the end of the file.
abbrev pub delivered : Pipe → List ℕ
delivered [] = []
delivered (ok [] ∷ rest) = []
delivered (ok (b ∷ bs) ∷ rest) = (b ∷ bs) ++ delivered rest
delivered (err e ∷ rest) = delivered rest

-- Of the delivered bytes `all_bytes` the capture has those before what its pipe still delivers.
abbrev pub IsPart : List ℕ → Capture → Type 0
IsPart all_bytes c =
    if c.closed then c.bytes ≡ all_bytes else c.bytes ++ delivered c.pipe ≡ all_bytes

-- The limit covers what was captured, and nothing else.
pub record Keeps (all_bytes : List ℕ) (c : Capture) (remaining : ℕ) (c' : Capture) (remaining' : ℕ)
    : Type 0 where
  pub part : IsPart all_bytes c → IsPart all_bytes c'
  pub account : length c'.bytes + remaining' ≡ length c.bytes + remaining

abbrev pub ReadKeeps : List ℕ → Capture → ℕ → Read → Type 0
ReadKeeps all_bytes c remaining (again c' r) =
    Keeps all_bytes c remaining c' r × (c'.closed ≡ false)
ReadKeeps all_bytes c remaining (stop c' r) = Keeps all_bytes c remaining c' r
ReadKeeps all_bytes c remaining (failed c' r e) = Unit

pub unmoved :
    (all_bytes : List ℕ) (bytes : List ℕ) (rest : Pipe) (e : Error) (remaining : ℕ)
    → Keeps all_bytes (opened (err e ∷ rest) bytes) remaining (opened rest bytes) remaining
unmoved all_bytes bytes rest e remaining = record { part = λ p. p; account = refl }

pub take_chunk-Keeps :
    (all_bytes bytes : List ℕ) (remaining : ℕ) (rest : Pipe) (r : Result (List ℕ))
    → let c = opened (r ∷ rest) bytes in
      ReadKeeps all_bytes c remaining (take_chunk c remaining rest r)
unfolding take_chunk
take_chunk-Keeps all_bytes bytes remaining rest (ok []) = record {
  part = λ p. sym (append-nil bytes) ∙ p;
  account = refl;
}
take_chunk-Keeps all_bytes bytes remaining rest (ok (b ∷ bs)) =
    elim (Bool-cases (ltb remaining (length (b ∷ bs)))) [
      | inl over ↦ rw over tt
      | inr fits ↦ rw fits (
        record {
          part = λ p. append_assoc bytes (b ∷ bs) (delivered rest) ∙ p;
          account = ground (arith, length-append bytes (b ∷ bs));
        },
        refl,
      )
    ]
take_chunk-Keeps all_bytes bytes remaining rest (err (io would_block)) =
    unmoved all_bytes bytes rest _ remaining
take_chunk-Keeps all_bytes bytes remaining rest (err (io interrupted)) =
    (unmoved all_bytes bytes rest _ remaining, refl)
take_chunk-Keeps all_bytes bytes remaining rest (err (io timed_out)) = tt
take_chunk-Keeps all_bytes bytes remaining rest (err (io no_buffers)) = tt
take_chunk-Keeps all_bytes bytes remaining rest (err (io other_kind)) = tt
take_chunk-Keeps all_bytes bytes remaining rest (err (message t)) = tt
take_chunk-Keeps all_bytes bytes remaining rest (err (message_with t ns)) = tt
take_chunk-Keeps all_bytes bytes remaining rest (err panic) = tt
take_chunk-Keeps all_bytes bytes remaining rest (err out_of_fuel) = tt

pub Keeps-refl :
    (all_bytes : List ℕ) (c : Capture) (remaining : ℕ) → Keeps all_bytes c remaining c remaining
Keeps-refl all_bytes c remaining = record { part = λ p. p; account = refl }

pub Keeps-trans :
    {all_bytes : List ℕ} {c c' c'' : Capture} {r r' r'' : ℕ}
    → Keeps all_bytes c r c' r'
    → Keeps all_bytes c' r' c'' r''
    → Keeps all_bytes c r c'' r''
Keeps-trans f g = record { part = λ p. g.part (f.part p); account = g.account ∙ f.account }

pub read-Keeps :
    (all_bytes bytes : List ℕ) (remaining : ℕ) (pipe : Pipe)
    → let c = opened pipe bytes in ReadKeeps all_bytes c remaining (read c remaining pipe)
unfolding read
read-Keeps all_bytes bytes remaining [] = Keeps-refl all_bytes _ remaining
read-Keeps all_bytes bytes remaining (r ∷ rest) = take_chunk-Keeps all_bytes bytes remaining rest r

pub as_opened : (c : Capture) → c.closed ≡ false → c ≡ opened c.pipe c.bytes
as_opened c e = ap (λ b. record c { closed = b }) e

abbrev pub Drains : List ℕ → Capture → ℕ → Drained → Type 0
Drains all_bytes c remaining d = d.2 ≡ ok tt → Keeps all_bytes c remaining d.0 d.1

pub resume-Keeps :
    (next : Capture → ℕ → Drained) (all_bytes : List ℕ) (c : Capture) (remaining : ℕ) (r : Read)
    → ((c' : Capture) (remaining' : ℕ)
        → c'.closed ≡ false
        → Drains all_bytes c' remaining' (next c' remaining'))
    → ReadKeeps all_bytes c remaining r
    → Drains all_bytes c remaining (resume next r)
unfolding resume
resume-Keeps next all_bytes c remaining (again c' r') each (k, o) done =
    Keeps-trans k (each c' r' o done)
resume-Keeps next all_bytes c remaining (stop c' r') each k done = k
resume-Keeps next all_bytes c remaining (failed c' r' e) each k done = absurd (cc done)

pub drain_loop-Keeps :
    (rounds : ℕ) (all_bytes : List ℕ) (c : Capture) (remaining : ℕ)
    → c.closed ≡ false
    → Drains all_bytes c remaining (drain_loop rounds c remaining)
unfolding drain_loop
drain_loop-Keeps zero all_bytes c remaining unclosed done = Keeps-refl all_bytes c remaining
drain_loop-Keeps (suc rounds) all_bytes c remaining unclosed done =
    let same = as_opened c unclosed in
    let seen : ReadKeeps all_bytes c remaining (read c remaining c.pipe) =
      subst (λ x. ReadKeeps all_bytes x remaining (read x remaining c.pipe)) (sym same)
        (read-Keeps all_bytes c.bytes remaining c.pipe) in
    resume-Keeps (λ c' r'. drain_loop rounds c' r') all_bytes c remaining (read c remaining c.pipe)
      (λ c' r'. drain_loop-Keeps rounds all_bytes c' r') seen done

pub drain-Keeps :
    (all_bytes : List ℕ) (c : Capture) (remaining : ℕ)
    → Drains all_bytes c remaining (drain c remaining)
unfolding drain
drain-Keeps all_bytes c remaining = elim (Bool-cases c.closed) [
  | inl shut ↦ λ done. ground (arith, Keeps-refl all_bytes c remaining)
  | inr unclosed ↦ λ done. ground (arith, drain_loop-Keeps 8 all_bytes c remaining unclosed)
]
