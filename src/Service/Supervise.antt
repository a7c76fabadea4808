-- ===== src/Service/Supervise.antt =====
-- src/service.rs, `Supervisor::run`: the loop over sessions. What a turn of the loop meets is a `Turn`;
-- the values that a turn does not reach are not read.
use galaxybridge.Prelude.{
  ◌≡◌, ◌↔◌, ◌⊎◌, inl, inr, Bool, true, false, List, [], ◌∷◌, Option, none, some, Result, ok, err,
  message, arith, Bool-cases, Result-cases, if◌then◌else◌,
}

pub record Turn : Type 0 where
  -- The stop flag at the start of the turn.
  pub stopped : Bool
  -- `Worker::probe`
  pub probed : Result Bool
  -- `Supervisor::connect`
  pub connected : Result (Unit {0})
  -- The stop flag in one of the 30 waits at the end of the turn.
  pub stopped_waiting : Bool

-- The `match` of a turn; `none` goes on to the waits.
unfoldable pub attend : Bool → Turn → Option (Result (Unit {0}))
attend repeat turn = elim turn.probed [
  | ok true ↦ if repeat then none else some turn.connected
  | ok false ↦
      if repeat
      then none
      else some
          (err (message "no unique device available; check USB tethering or device selection"))
  | err e ↦ if repeat then none else some (err e)
]

-- `none` when the turns end before the loop returns.
unfoldable pub supervise : Bool → List Turn → Option (Result (Unit {0}))
unfolding attend
supervise repeat [] = none
supervise repeat (turn ∷ turns) =
    let rest = supervise repeat turns in
    if turn.stopped then some (ok tt) else (elim (attend repeat turn) [
      | some result ↦ some result
      | none ↦ if turn.stopped_waiting then some (ok tt) else rest
    ])

-- In one of the turns the stop flag is seen.
abbrev pub IsStopped : List Turn → Type 0
IsStopped [] = ⊥
IsStopped (turn ∷ turns) = (turn.stopped ≡ true) ⊎ ((turn.stopped_waiting ≡ true) ⊎ IsStopped turns)

attend_repeat : (turn : Turn) → attend true turn ≡ none
unfolding attend
attend_repeat turn = elim (Result-cases turn.probed) [
  | inl (true, e) ↦ ground arith
  | inl (false, e) ↦ ground arith
  | inr (x, e) ↦ ground arith
]

-- For any turns of the loop over sessions in repeat mode and any result: the loop returns this
-- result within the turns exactly when the result is success and the stop flag is seen at the start
-- or in the waits of one of the turns; no failed discovery or session ends it.
pub supervise-repeat :
    (turns : List Turn) (result : Result (Unit {0}))
    → (supervise true turns ≡ some result) ↔ ((result ≡ ok tt) × IsStopped turns)
unfolding supervise
supervise-repeat [] result = (λ e. absurd (cc e), λ (r, s). absurd s)
supervise-repeat (turn ∷ turns) result =
    let (forward, back) = supervise-repeat turns result in
    let going = attend_repeat turn in
    elim (Bool-cases turn.stopped) [
      | inl now ↦ (λ e. (ground arith, inl now), λ (r, s). ground arith)
      | inr on ↦ elim (Bool-cases turn.stopped_waiting) [
        | inl later ↦
            (λ e. (ground (arith, going), inr (inl later)), λ (r, s). ground (arith, going))
        | inr waits ↦ (
          λ e. let (r, s) = forward (ground (arith, going)) in (r, inr (inr s)),
          λ (r, s). elim s [
            | inl now ↦ absurd (cc (now, on))
            | inr (inl later) ↦ absurd (cc (later, waits))
            | inr (inr s') ↦ let e = back (r, s') in ground (arith, going)
          ],
        )
      ]
    ]
