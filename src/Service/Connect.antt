-- ===== src/Service/Connect.antt =====
-- src/service.rs, `Supervisor::connect` as a whole: what it sets up before its loop, the loop (which is
-- `run` of Service), and the drop of its `Connection`.
use galaxybridge.Prelude.{List, [], Option, none, some, Result, ok, err, Error, ◌>>◌}
use galaxybridge.Macos.Command.{Status, Pipe}
use galaxybridge.Macos.Bpf.{Layout}
use galaxybridge.Macos.Process.{Worker, adopt, Operation, Stopping, drop_worker}
use galaxybridge.Macos.Process
use galaxybridge.Macos.Interface.{Shell, Trace, Outcome, Pair, create, remove}
use galaxybridge.Macos.Interface.Lifetime.{Use, use_all}
use galaxybridge.Macos.Route.{Snapshot}
use galaxybridge.Macos.Route.Recovery.{Look, restore, Recovery}
use galaxybridge.Service.{Connection, Round, run, initial}

-- What the system answers before the loop: the default route, the BPF device, the channel, the start of
-- the child, and the child, whose diagnostics are a pipe.
pub record Setup : Type 0 where
  pub previous : Result (Option Snapshot)
  pub device : Result (Unit {0})
  pub channel : Result (Unit {0})
  -- `Worker::command` and `Command::spawn`
  pub child : Result (Unit {0})
  pub pipe : Option Pipe
  pub nonblocking : Result (Unit {0})
  pub waits : List (Result (Option Status))

-- What the drop of the connection meets: the signals to the worker, and the rounds of the recovery.
pub record Farewell : Type 0 where
  pub stopping : Stopping
  pub looks : List Look

-- The loop: its rounds, and what it does meanwhile with the pair of interfaces and with the worker.
pub record Course : Type 0 where
  pub layout : Layout
  pub rounds : List Round
  pub uses : List Use
  pub operations : List Operation

-- What the session did: on the interfaces, in the loop, with the worker, and on the routes.
pub record Ended : Type 0 where
  pub trace : Trace
  pub connection : Option Connection
  pub worker : Option Worker
  pub recovery : Option Recovery

abbrev unconnected : Trace → Ended
unconnected past = record { trace = past; connection = none; worker = none; recovery = none }

-- `Connection::drop`: the worker, the device, the interfaces, and then the routes, with the former route
-- that the loop leaves in the connection.
unfoldable pub disconnect : Shell → Farewell → Connection → Pair → Worker → Trace → Ended
disconnect sh f c p w past = record {
  trace = (remove sh p past).1.1;
  connection = some c;
  worker = some (drop_worker f.stopping w);
  recovery = some (restore c.previous p.system f.looks).0;
}

-- How `Worker::spawn` ends: there was no child, or the worker was dropped because the pipe of its child
-- could not be set up, or it runs.
pub data Spawn : Type 0 where
  no_child : Error → Spawn
  abandoned : Worker → Error → Spawn
  running : Worker → Spawn

-- The worker of `Worker::adopt` before its pipe is set up.
abbrev pub unpiped : List (Result (Option Status)) → Worker
unpiped waits = record { diagnostic = none; waits = waits; exit = none; trace = [] }

-- What is left of the child by `Worker::adopt`, whose early return drops the worker.
unfoldable pub adopted : Stopping → List (Result (Option Status)) → Result Worker → Spawn
adopted stopping waits (err e) = abandoned (drop_worker stopping (unpiped waits)) e
adopted stopping waits (ok w) = running w

unfoldable pub started : Stopping → Setup → Result (Unit {0}) → Spawn
unfolding adopted adopt
started stopping setup (err e) = no_child e
started stopping setup (ok u) =
    adopted stopping setup.waits (adopt setup.pipe setup.nonblocking setup.waits)

-- The worker that is spawned when the device is open and the channel is there.
unfoldable pub spawned : Stopping → Setup → Spawn
unfolding started
spawned stopping setup = started stopping setup (do setup.device; setup.channel; setup.child)

-- The connection from its worker on; without one that runs the pair is dropped.
unfoldable pub connected :
    Shell → Farewell → Course → Option Snapshot → Pair → Trace → Spawn → Ended
unfolding disconnect use_all
connected sh f course previous p past (no_child e) = unconnected (remove sh p past).1.1
connected sh f course previous p past (abandoned w e) =
    record (unconnected (remove sh p past).1.1) { worker = some w }
connected sh f course previous p past (running w) =
    disconnect sh f (run course.layout p.system (initial previous) course.rounds).0 p
      (Process.live w course.operations) (use_all sh p course.uses past)

unfoldable pub with_pair :
    Shell → Setup → Farewell → Course → Option Snapshot → Outcome Pair → Ended
unfolding connected spawned
with_pair sh setup f course previous (err e, past) = unconnected past
with_pair sh setup f course previous (ok p, past) =
    connected sh f course previous p past (spawned f.stopping setup)

unfoldable pub with_route : Shell → Setup → Farewell → Course → Result (Option Snapshot) → Ended
unfolding with_pair create
with_route sh setup f course (err e) = unconnected []
with_route sh setup f course (ok previous) = with_pair sh setup f course previous (create sh [])

-- `Supervisor::connect`
unfoldable pub connect : Shell → Setup → Farewell → Course → Ended
unfolding with_route
connect sh setup f course = with_route sh setup f course setup.previous
