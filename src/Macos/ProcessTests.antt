-- ===== src/Macos/ProcessTests.antt =====
-- Commands, workers and interfaces at concrete answers of the system.
use galaxybridge.Prelude.{
  ◌≤◌, checked_add, parse_unsigned, parse_digits, digits_value, ℕ, ◌≡◌, ◌≢◌, ◌⊎◌, refl, true, false,
  List, [], ◌∷◌, Option, none, some, Result, ok, codes, text_eq,
}
use galaxybridge.Usb.Devices.{Filter}
use galaxybridge.Cli.{Mode, devices, handshake, parse_mode, parse}
use galaxybridge.Macos.Context.{filter_arguments, id_arguments, serial_arguments}
use galaxybridge.Macos.Access.{ceiling, Covered, ceiling-Covered}
use galaxybridge.Macos.Access
use galaxybridge.Macos.Command.{Pipe, Status, exited, Output, Round, capture}
use galaxybridge.Macos.Command
use galaxybridge.Macos.Command.Complete.{IsComplete, capture-IsComplete}
use galaxybridge.Macos.Command.Streams.{delivered}
use galaxybridge.Macos.Process.{
  Worker, adopt, Stopping, no_process, Operation, polling, stopping, live, inspect,
}
use galaxybridge.Macos.Process
use galaxybridge.Macos.Process.Sound.{IsSound}
use galaxybridge.Macos.Process.Signals.{adopt-live-IsSound}
use galaxybridge.Macos.Process.Arguments.{inspect-parse}

-- Two chunks on one pipe, and nothing on the other.
abbrev stdout : Pipe
stdout = ok (104 ∷ 105 ∷ []) ∷ ok (33 ∷ []) ∷ ok [] ∷ []

abbrev stderr : Pipe
stderr = ok [] ∷ []

abbrev rounds : List Round
rounds = record { late = false; waited = ok (some (exited 0)); polled = ok tt } ∷ []

abbrev greeting : Output
greeting = record { status = exited 0; stdout = 104 ∷ 105 ∷ 33 ∷ []; stderr = [] }

captured : capture stdout stderr rounds ≡ some (ok greeting)
unfolding capture Command.capture_loop Command.step Command.drain_both Command.drain_errs
    Command.finish Command.drain Command.drain_loop Command.resume Command.read Command.take_chunk
    Command.then_turn Command.poll
captured = refl

capture-IsComplete_example : IsComplete (delivered stdout) (delivered stderr) greeting
capture-IsComplete_example = capture-IsComplete stdout stderr rounds greeting captured

-- A worker that prints a line and ends between the poll and the stop.
abbrev printing : Pipe
printing = ok (104 ∷ 105 ∷ []) ∷ []

abbrev waits : List (Result (Option Status))
waits = ok none ∷ ok none ∷ ok (some (exited 0)) ∷ []

abbrev adopted : Worker
adopted = record {
  diagnostic = some (record { pipe = printing; remaining = 8192; exceeded = false; printed = [] });
  waits = waits;
  exit = none;
  trace = [];
}

adopts : adopt (some printing) (ok tt) waits ≡ ok adopted
unfolding adopt
adopts = refl

abbrev gently : Stopping
gently = record { term = no_process; term_rounds = 3; kill = ok tt; kill_rounds = 3 }

adopt-live-IsSound_example : IsSound (live adopted (polling ∷ stopping gently ∷ []))
adopt-live-IsSound_example =
    adopt-live-IsSound (some printing) (ok tt) waits adopted (polling ∷ stopping gently ∷ []) adopts

abbrev any_device : Filter
any_device = record { vendor = none; product = none; serial = none }

abbrev inspecting : List (List ℕ)
inspecting = codes "devices" ∷ codes "--show-serial" ∷ []

inspects : inspect 501 (ok tt) (codes "devices") any_device true ≡ ok inspecting
unfolding inspect Process.is_inspection Process.create filter_arguments id_arguments
    serial_arguments text_eq
inspects = refl

inspect-parse_example :
    (◌≢◌ {A = ℕ} 501 0)
    × ((mode : Mode) × ((mode ≡ devices) ⊎ (mode ≡ handshake))
        × (parse_mode (codes "devices") ≡ ok mode)
        × (parse inspecting ≡ ok (record { mode = mode; filter = any_device; show_serial = true })))
inspect-parse_example =
    inspect-parse 501 (ok tt) (codes "devices") any_device true inspecting
      (record { vendor = tt; product = tt; serial = tt }) inspects

-- The descriptors 0 and 7, and an entry that is no number.
abbrev entries : List (Result (Option (List ℕ)))
entries = ok (some (codes "0")) ∷ ok (some (codes "7")) ∷ ok (some (codes "x")) ∷ []

bounded : ceiling (ok 4) (ok entries) ≡ ok 8
unfolding ceiling Access.raise_all Access.raise Access.number_of checked_add parse_unsigned
    parse_digits digits_value
bounded = refl

ceiling-Covered_example : (4 ≤ 8) × (8 ≤ 1_048_576) × (4 ≤ 8) × Covered 8 entries
ceiling-Covered_example = ceiling-Covered 4 entries 8 bounded
