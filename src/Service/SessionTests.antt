-- ===== src/Service/SessionTests.antt =====
-- A whole session at concrete answers of the system.
use galaxybridge.Prelude.{
  ℕ, ◌≡◌, refl, true, List, [], ◌∷◌, none, some, Result, ok, err, message, codes, strip_prefix,
  is_empty,
}
use galaxybridge.Macos.Command.{exited}
use galaxybridge.Macos.Process.{
  delivered, polling, reaped, terminated, adopt, drop_worker, terminate, finish_term, reap,
  reap_result, try_wait, recall, collect, term_answer, diagnostics, diagnose,
}
use galaxybridge.Macos.Interface.{Call, create_interface, read_sysctl, Trace, valid_name, is_suffix}
use galaxybridge.Macos.Interface.Lifetime.{activating, leasing}
use galaxybridge.Service.Connect.{
  Setup, Farewell, Course, connect, abandoned, spawned, started, adopted,
}
use galaxybridge.Service.Clean.{IsClean, connect-IsClean}

-- A system that gives out two interfaces and refuses all else but the settings.
unfoldable answer : Trace → Call → Result (List ℕ)
answer past (read_sysctl key) = ok (codes "0")
answer (first ∷ second ∷ []) create_interface = ok (codes "feth4")
answer past create_interface = ok (codes "feth5")
answer past call = err (message "refused")

feth_valid : valid_name (codes "feth4") ≡ true
unfolding valid_name strip_prefix is_suffix is_empty
feth_valid = refl

-- The worker prints nothing and ends when it is told to.
abbrev setup : Setup
setup = record {
  previous = ok none;
  device = ok tt;
  channel = ok tt;
  child = ok tt;
  pipe = some [];
  nonblocking = ok tt;
  waits = ok none ∷ ok none ∷ ok (some (exited 0)) ∷ [];
}

abbrev farewell : Farewell
farewell = record {
  stopping = record { term = delivered; term_rounds = 3; kill = ok tt; kill_rounds = 3 };
  looks = [];
}

-- The pipe cannot be set up, so that the worker is dropped at once: it gets a termination signal, and
-- its exit status is collected.
abbrev refused_pipe : Setup
refused_pipe = record setup { nonblocking = err (message "refused") }

abandons :
    spawned farewell.stopping refused_pipe
    ≡ abandoned
        (record {
          diagnostic = none;
          waits = [];
          exit = some (exited 0);
          trace = reaped (exited 0) ∷ terminated ∷ [];
        })
        (message "refused")
unfolding spawned started adopted adopt drop_worker terminate finish_term reap reap_result try_wait
    recall collect term_answer diagnostics diagnose
abandons = refl

abbrev mac : List ℕ
mac = 2 ∷ 0 ∷ 0 ∷ 0 ∷ 0 ∷ 1 ∷ []

-- The loop is stopped before its first round.
abbrev course : Course
course = record {
  layout = record { capture = 8; original = 12; header = 16; alignment = 4 };
  rounds = [];
  uses = activating mac ∷ leasing ∷ [];
  operations = polling ∷ [];
}

connect-IsClean_example :
    IsClean answer setup farewell (codes "feth4") (connect answer setup farewell course)
connect-IsClean_example = connect-IsClean answer setup farewell course (codes "feth4") feth_valid
