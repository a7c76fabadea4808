-- ===== src/Service/Clean.antt =====
-- What a session of src/service.rs leaves behind, on every way out of `Supervisor::connect`.
use mathlib.Core.Path.{subst}
use galaxybridge.Macos.Command.{Status}
use galaxybridge.Prelude.{
  ℕ, ◌≡◌, refl, true, List, [], Option, none, some, Result, ok, err, All, ◌⊎◌, inl, inr, sym, ◌>>◌,
}
use galaxybridge.Macos.Process.{Worker, adopt, Stopping, drop_worker}
use galaxybridge.Macos.Process
use galaxybridge.Macos.Process.Sound.{IsSound}
use galaxybridge.Macos.Process.Signals.{adopt-Sound, live-Sound, drop-Sound}
use galaxybridge.Macos.Interface.{Shell, Trace, Outcome, Pair, valid_name, create}
use galaxybridge.Macos.Interface.Owned.{Standing}
use galaxybridge.Macos.Interface.Lifetime.{Use, live, live-leaves_none}
use galaxybridge.Macos.Route.{Snapshot}
use galaxybridge.Macos.Route.Recovery.{Look, restore, Recovery}
use galaxybridge.Macos.Route.Recovery.Guard.{IsAllowed, restore-guarded}
use galaxybridge.Service.{Connection}
use galaxybridge.Service.Invariant.{IsSafe}
use galaxybridge.Service.Safety.{run-IsSafe}
use galaxybridge.Service.Connect.{
  Setup, Farewell, Course, Ended, Spawn, no_child, abandoned, running, unpiped, adopted, started,
  disconnect, spawned, connected, with_pair, with_route, connect,
}

abbrev pub Fails {ℓ} : {A : Type ℓ} → Result A → Type 0
Fails (ok a) = ⊥
Fails (err e) = Unit

-- There is no worker only where a step failed by which its child would have started; and a worker is
-- sound, and was dropped.
abbrev pub WorkerDropped : Shell → Setup → Stopping → Option Worker → Type 0
WorkerDropped sh setup stopping none =
    Fails setup.previous
    ⊎ (Fails (create sh []).0 ⊎ (Fails setup.device ⊎ (Fails setup.channel ⊎ Fails setup.child)))
WorkerDropped sh setup stopping (some w) =
    IsSound w × (before : Worker) × (w ≡ drop_worker stopping before)

-- The routing commands go back to the former route, where there was one.
abbrev pub Restored : Option Snapshot → List Look → Recovery → Type 0
Restored none looks r = r.commands ≡ []
Restored (some previous) looks r =
    (owned : List ℕ) × All (IsAllowed previous owned looks) r.commands

-- The recovery runs at the end of a connection and never without one.
abbrev pub ConnectionSafe : Option Connection → List Look → Option Recovery → Type 0
ConnectionSafe none looks none = Unit
ConnectionSafe none looks (some r) = ⊥
ConnectionSafe (some c) looks none = ⊥
ConnectionSafe (some c) looks (some r) = IsSafe c × Restored c.previous looks r

pub record IsClean (sh : Shell) (setup : Setup) (f : Farewell) (name : List ℕ) (e : Ended)
    : Type 0 where
  pub no_interface : ¬ Standing name e.trace
  pub worker : WorkerDropped sh setup f.stopping e.worker
  pub safe : ConnectionSafe e.connection f.looks e.recovery

restore-Restored :
    (previous : Option Snapshot) (owned : List ℕ) (looks : List Look)
    → Restored previous looks (restore previous owned looks).0
unfolding restore
restore-Restored none owned looks = refl
restore-Restored (some previous) owned looks = (owned, restore-guarded previous owned looks)

-- What is known of the worker when `Worker::spawn` returns.
abbrev SpawnKnown : Setup → Stopping → Spawn → Type 0
SpawnKnown setup stopping (no_child x) =
    Fails setup.device ⊎ (Fails setup.channel ⊎ Fails setup.child)
SpawnKnown setup stopping (abandoned w x) =
    IsSound w × (before : Worker) × (w ≡ drop_worker stopping before)
SpawnKnown setup stopping (running w) = IsSound w

unpiped-IsSound : (waits : List (Result (Option Status))) → IsSound (unpiped waits)
unpiped-IsSound waits = record { within_limit = tt; orderly = tt; unreaped = tt }

adopted-Known :
    (stopping : Stopping) (setup : Setup) (r : Result Worker)
    → adopt setup.pipe setup.nonblocking setup.waits ≡ r
    → SpawnKnown setup stopping (adopted stopping setup.waits r)
unfolding adopted
adopted-Known stopping setup (err x) e =
    (drop-Sound stopping _ (unpiped-IsSound setup.waits), unpiped setup.waits, refl)
adopted-Known stopping setup (ok w) e = adopt-Sound setup.pipe setup.nonblocking setup.waits w e

started-Known :
    (stopping : Stopping) (setup : Setup) (device channel child : Result (Unit {0}))
    → setup.device ≡ device
    → setup.channel ≡ channel
    → setup.child ≡ child
    → SpawnKnown setup stopping (started stopping setup (do device; channel; child))
unfolding started
started-Known stopping setup (err x) channel child d c h = inl (subst Fails (sym d) tt)
started-Known stopping setup (ok u) (err x) child d c h = inr (inl (subst Fails (sym c) tt))
started-Known stopping setup (ok u) (ok v) (err x) d c h = inr (inr (subst Fails (sym h) tt))
started-Known stopping setup (ok u) (ok v) (ok w) d c h = adopted-Known stopping setup _ refl

spawned-Known :
    (stopping : Stopping) (setup : Setup) → SpawnKnown setup stopping (spawned stopping setup)
unfolding spawned
spawned-Known stopping setup = started-Known stopping setup _ _ _ refl refl refl

connected-IsClean :
    (sh : Shell) (setup : Setup) (f : Farewell) (course : Course) (previous : Option Snapshot)
    (p : Pair) (past : Trace) (name : List ℕ) (r : Spawn)
    → SpawnKnown setup f.stopping r
    → ((uses : List Use) → ¬ Standing name (live sh uses (ok p, past)))
    → IsClean sh setup f name (connected sh f course previous p past r)
unfolding connected disconnect live
connected-IsClean sh setup f course previous p past name (no_child x) k none_left = record {
  no_interface = none_left [];
  worker = inr (inr k);
  safe = tt;
}
connected-IsClean sh setup f course previous p past name (abandoned w x) k none_left = record {
  no_interface = none_left [];
  worker = k;
  safe = tt;
}
connected-IsClean sh setup f course previous p past name (running w) k none_left = record {
  no_interface = none_left course.uses;
  worker = (
    drop-Sound f.stopping (Process.live w course.operations) (live-Sound w course.operations k),
    Process.live w course.operations,
    refl,
  );
  safe = (
    run-IsSafe course.layout p.system previous course.rounds,
    restore-Restored _ p.system f.looks,
  );
}

with_pair-IsClean :
    (sh : Shell) (setup : Setup) (f : Farewell) (course : Course) (previous : Option Snapshot)
    (name : List ℕ) (o : Outcome Pair)
    → create sh [] ≡ o
    → ((uses : List Use) → ¬ Standing name (live sh uses o))
    → IsClean sh setup f name (with_pair sh setup f course previous o)
unfolding with_pair live
with_pair-IsClean sh setup f course previous name (err x, past) e none_left = record {
  no_interface = none_left [];
  worker = inr (inl (subst (λ o. Fails o.0) (sym e) tt));
  safe = tt;
}
with_pair-IsClean sh setup f course previous name (ok p, past) e none_left =
    connected-IsClean sh setup f course previous p past name (spawned f.stopping setup)
      (spawned-Known f.stopping setup) none_left

with_route-IsClean :
    (sh : Shell) (setup : Setup) (f : Farewell) (course : Course) (name : List ℕ)
    (r : Result (Option Snapshot))
    → setup.previous ≡ r
    → valid_name name ≡ true
    → IsClean sh setup f name (with_route sh setup f course r)
unfolding with_route
with_route-IsClean sh setup f course name (err x) e valid = record {
  no_interface = λ s. s;
  worker = inl (subst Fails (sym e) tt);
  safe = tt;
}
with_route-IsClean sh setup f course name (ok previous) e valid =
    with_pair-IsClean sh setup f course previous name (create sh []) refl
      (λ uses. live-leaves_none sh uses name valid)

-- Whatever the system answers, whichever way `Supervisor::connect` ends, whatever its loop meets
-- and does with the interfaces and the worker: of the interfaces with a valid name that
-- `Pair::create` made, no one is left behind without a later command to destroy it; there is no
-- worker only where the reading of the routes, the pair, the device, the channel or the start of
-- the child failed; a worker, also one whose pipe could not be set up, was dropped in the end,
-- printed at most 8192 bytes, got no signal behind the collection of its exit status and no kill
-- without a termination signal before it; the loop gave only permitted frames to the device and to
-- the worker, and activated at most one address, which passed its check; and the recovery runs
-- exactly when there was a connection, where each of its routing commands sets a usable gateway on
-- the interface of the former route that the connection holds at its end, while no VPN route was
-- found, and there is no command without a former route.
pub connect-IsClean :
    (sh : Shell) (setup : Setup) (f : Farewell) (course : Course) (name : List ℕ)
    → valid_name name ≡ true
    → IsClean sh setup f name (connect sh setup f course)
unfolding connect
connect-IsClean sh setup f course name valid =
    with_route-IsClean sh setup f course name setup.previous refl valid
