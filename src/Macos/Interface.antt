-- ===== src/Macos/Interface.antt =====
-- src/macos/interface.rs: the pair of fake Ethernet interfaces. What the commands of the system print is
-- a parameter, which depends on all that was run before; a trace holds the commands that were run
-- and their outcomes, the last one first.
pub mod Lifetime
pub mod Owned
use galaxybridge.Prelude.{
  ℕ, ◌+◌, ◌-◌, ◌/◌, ◌%◌, ◌≡◌, Bool, true, false, ◌&&◌, not, List, [], ◌∷◌, ◌++◌, Option, none, some,
  Result, ok, err, Error, message, refuse, all, codes, text_eq, is_digit, ltb, leb, length,
  if◌then◌else◌, strip_prefix, is_empty,
}

-- The calls of `command::text`.
pub data Call : Type 0 where
  read_sysctl : List ℕ → Call
  create_interface : Call
  set_mtu : List ℕ → Call
  raise : List ℕ → Call
  set_ether : List ℕ → List ℕ → Call
  set_peer : List ℕ → List ℕ → Call
  set_dhcp : List ℕ → Call
  set_none : List ℕ → Call
  destroy : List ℕ → Call

-- The program and its arguments.
unfoldable pub command_line : Call → List ℕ × List (List ℕ)
command_line (read_sysctl key) = (codes "/usr/sbin/sysctl", codes "-n" ∷ key ∷ [])
command_line create_interface = (codes "/sbin/ifconfig", codes "feth" ∷ codes "create" ∷ [])
command_line (set_mtu iface) = (codes "/sbin/ifconfig", iface ∷ codes "mtu" ∷ codes "1500" ∷ [])
command_line (raise iface) = (codes "/sbin/ifconfig", iface ∷ codes "up" ∷ [])
command_line (set_ether iface mac) = (codes "/sbin/ifconfig", iface ∷ codes "ether" ∷ mac ∷ [])
command_line (set_peer iface peer) = (codes "/sbin/ifconfig", iface ∷ codes "peer" ∷ peer ∷ [])
command_line (set_dhcp iface) =
    (codes "/usr/sbin/ipconfig", codes "set" ∷ iface ∷ codes "DHCP" ∷ [])
command_line (set_none iface) =
    (codes "/usr/sbin/ipconfig", codes "set" ∷ iface ∷ codes "NONE" ∷ [])
command_line (destroy iface) = (codes "/sbin/ifconfig", iface ∷ codes "destroy" ∷ [])

abbrev pub Trace : Type 0
Trace = List (Call × Result (List ℕ))

-- `command::text`, as a function of what was run before.
abbrev pub Shell : Type 0
Shell = Trace → Call → Result (List ℕ)

abbrev pub Outcome : Type 0 → Type 0
Outcome A = Result A × Trace

unfoldable pub run : Shell → Call → Trace → Outcome (List ℕ)
run sh c past = (sh past c, (c, sh past c) ∷ past)

-- `?`
unfoldable pub attempt : {A B : Type 0} → Outcome A → (A → Trace → Outcome B) → Outcome B
attempt (ok a, past) next = next a past
attempt (err e, past) next = (err e, past)

pub record Pair : Type 0 where
  pub system : List ℕ
  pub transport : List ℕ

-- `strip_prefix("feth").is_some_and(..)`
unfoldable pub is_suffix : Option (List ℕ) → Bool
unfolding is_empty
is_suffix none = false
is_suffix (some n) = not (is_empty n) && leb (length n) 5 && all is_digit n

unfoldable pub valid_name : List ℕ → Bool
unfolding is_suffix
valid_name name = is_suffix (strip_prefix (codes "feth") name)

-- `get_or_insert`: the first failure is kept.
unfoldable pub keep_failure : Option Error → Result (List ℕ) → Option Error
keep_failure (some e) r = some e
keep_failure none (err e) = some e
keep_failure none (ok text) = none

-- A command of the teardown, for a valid name only: the failure so far and the trace.
unfoldable pub tear : Shell → Call → Bool → Option Error × Trace → Option Error × Trace
unfolding keep_failure
tear sh c valid (failure, past) =
    if valid then (keep_failure failure (sh past c), (c, sh past c) ∷ past) else (failure, past)

unfoldable pub result : Option Error → Result (Unit {0})
result none = ok tt
result (some e) = err e

abbrev pub empty_pair : Pair
empty_pair = record { system = []; transport = [] }

unfoldable pub tear_down : Shell → Pair → Trace → Option Error × Trace
unfolding tear valid_name
tear_down sh p past = tear sh (destroy p.system) (valid_name p.system) (
    tear sh (destroy p.transport) (valid_name p.transport)
      (tear sh (set_none p.system) (valid_name p.system) (none, past)))

-- `Pair::remove`: the pair behind it, the outcome and the trace.
unfoldable pub remove : Shell → Pair → Trace → Pair × Outcome (Unit {0})
unfolding tear_down result
remove sh p past = (empty_pair, (result (tear_down sh p past).0, (tear_down sh p past).1))

-- `Pair::create` leaves with an error, and the pair is dropped.
unfoldable pub discard : Shell → Pair → Error → Trace → Outcome Pair
unfolding remove
discard sh p e past = (err e, (remove sh p past).1.1)

unfoldable pub dropping : Shell → Pair → Outcome (List ℕ) → Outcome Pair
unfolding discard
dropping sh p (ok text, past) = (ok p, past)
dropping sh p (err e, past) = discard sh p e past

unfoldable pub configure : Shell → Pair → Trace → Outcome (List ℕ)
unfolding attempt run
configure sh p past = attempt (run sh (set_mtu p.system) past) (λ _ past'.
    attempt (run sh (set_mtu p.transport) past') (λ _ past''. run sh (raise p.transport) past''))

abbrev pub unexpected : Error
unexpected = message "unexpected interface name"

unfoldable pub with_transport : Shell → List ℕ → Outcome (List ℕ) → Outcome Pair
unfolding discard dropping configure valid_name
with_transport sh system (err e, past) =
    discard sh (record { system = system; transport = [] }) e past
with_transport sh system (ok transport, past) =
    if valid_name transport
    then dropping sh (record { system = system; transport = transport })
        (configure sh (record { system = system; transport = transport }) past)
    else discard sh (record { system = system; transport = [] }) unexpected past

unfoldable pub with_system : Shell → List ℕ → Trace → Outcome Pair
unfolding with_transport run
with_system sh system past =
    if valid_name system
    then with_transport sh system (run sh create_interface past)
    else (err unexpected, past)

-- The kernel settings that must be 0.
unfoldable pub check_setting : Shell → List ℕ → Trace → Outcome (Unit {0})
unfolding attempt run
check_setting sh key past = attempt (run sh (read_sysctl key) past) (λ value past'. (
  refuse (not (text_eq value (codes "0")))
      (message "{key} must be 0; refusing to change global kernel settings automatically"),
  past',
))

-- `Pair::create`
unfoldable pub create : Shell → Trace → Outcome Pair
unfolding attempt check_setting with_system run
create sh past = attempt (check_setting sh (codes "net.link.fake.hwcsum") past) (λ _ past'.
    attempt (check_setting sh (codes "net.link.fake.lro") past') (λ _ past''.
      attempt (run sh create_interface past'') (λ system past'''. with_system sh system past''')))

-- `{b:02x}`
abbrev pub hex_digit : ℕ → ℕ
hex_digit d = if ltb d 10 then 48 + d else 87 + d

unfoldable pub mac_text : List ℕ → List ℕ
mac_text [] = []
mac_text (b ∷ []) = hex_digit (b / 16) ∷ hex_digit (b % 16) ∷ []
mac_text (b ∷ c ∷ bs) = hex_digit (b / 16) ∷ hex_digit (b % 16) ∷ 58 ∷ mac_text (c ∷ bs)

unfoldable pub done : Outcome (List ℕ) → Outcome (Unit {0})
done (ok text, past) = (ok tt, past)
done (err e, past) = (err e, past)

-- `Pair::activate`
unfoldable pub activate : Shell → Pair → List ℕ → Trace → Outcome (Unit {0})
unfolding attempt run mac_text done
activate sh p mac past = attempt (run sh (set_ether p.system (mac_text mac)) past) (λ _ past'.
    attempt (run sh (set_peer p.system p.transport) past')
      (λ _ past''. done (run sh (raise p.system) past'')))

-- `Pair::dhcp`
unfoldable pub dhcp : Shell → Pair → Trace → Outcome (Unit {0})
unfolding run done
dhcp sh p past = done (run sh (set_dhcp p.system) past)
