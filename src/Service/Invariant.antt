-- ===== src/Service/Invariant.antt =====
-- What holds of a session of src/service.rs in every round, and how a round is composed of parts that keep it.
use galaxybridge.Prelude.{
  ℕ, ◌≤◌, ◌<◌, ◌≡◌, refl, Bool, true, false, List, [], ◌∷◌, Option, none, some, Result, ok, err,
  arith, length, All, if◌then◌else◌,
}
use galaxybridge.Ipc.{Message, ready, frame, invalid_mac}
use galaxybridge.Ipc
use galaxybridge.Macos.Bpf.{permits}
use galaxybridge.Service.{Connection, Outcome, attempt, and_then}

-- A frame datagram whose frame the device policy permits.
abbrev pub IsForwarded : List ℕ → Type 0
IsForwarded datagram =
    (bytes : List ℕ) × (datagram ≡ Ipc.encode (frame bytes)) × (permits bytes ≡ true)

abbrev pub IsUsable : List ℕ → Type 0
IsUsable mac = (length mac ≡ 6) × (invalid_mac mac ≡ false)

-- What the session has done, also when the loop ends with an error.
pub record IsSafe (c : Connection) : Type 0 where
  pub written : All (λ bytes. permits bytes ≡ true) c.written
  pub sent : All IsForwarded c.sent
  pub activated : All IsUsable c.activations
  pub once : length c.activations ≤ 1
  pub failures : c.gateway_failures ≤ 10

-- What holds besides while the loop goes on.
pub record IsLive (c : Connection) : Type 0 where
  pub quiet : c.is_ready ≡ false → (c.activations ≡ []) × (c.written ≡ []) × (c.sent ≡ [])
  pub started : c.is_ready ≡ true → length c.activations ≡ 1
  pub patient : c.gateway_failures < 10

abbrev pub Both : Connection → Type 0
Both c = IsSafe c × IsLive c

abbrev pub Fine : Connection → Result (Unit {0}) → Type 0
Fine c (ok u) = Both c
Fine c (err e) = IsSafe c

abbrev pub Good : Outcome → Type 0
Good m = Fine m.0 m.1

pub Fine-safe : (c : Connection) (r : Result (Unit {0})) → Both c → Fine c r
Fine-safe c (ok u) h = h
Fine-safe c (err e) h = h.0

pub attempt-Good :
    {A : Type 0} (r : Result A) (c : Connection) (next : A → Outcome)
    → IsSafe c
    → ((a : A) → r ≡ ok a → Good (next a))
    → Good (attempt r c next)
attempt-Good (ok a) c next h each = each a refl
attempt-Good (err e) c next h each = h

pub and_then-Good :
    (m : Outcome) (next : Connection → Outcome)
    → Good m
    → ((c : Connection) → Both c → Good (next c))
    → Good (and_then m next)
and_then-Good (c, ok u) next h each = each c h
and_then-Good (c, err e) next h each = h

pub if-Good :
    (b : Bool) (x y : Outcome)
    → (b ≡ true → Good x)
    → (b ≡ false → Good y)
    → Good (if b then x else y)
if-Good true x y t f = t refl
if-Good false x y t f = f refl

pub option-Good :
    {A : Type 0} (o : Option A) (x : Outcome) (f : A → Outcome)
    → (o ≡ none → Good x)
    → ((a : A) → o ≡ some a → Good (f a))
    → Good (elim o [ none ↦ x | some a ↦ f a ])
option-Good none x f n s = n refl
option-Good (some a) x f n s = s a refl

pub activated-IsSafe :
    (c : Connection) (mac : List ℕ) (requests : ℕ) (on : Bool)
    → IsSafe c
    → c.activations ≡ []
    → IsUsable mac
    → IsSafe
        (record c { activations = mac ∷ c.activations; dhcp_requests = requests; is_ready = on })
activated-IsSafe c mac requests on safe a usable = record {
  written = safe.written;
  sent = safe.sent;
  activated = (usable, safe.activated);
  once = ground (arith, a);
  failures = safe.failures;
}
