-- ===== src/Macos/Route.antt =====
-- src/macos/route.rs: default routes. A text is the list of its bytes, an IPv4 address is the 32-bit
-- number that it stands for.
pub mod Recovery
pub mod Reply
pub mod Table
use galaxybridge.Prelude.{
  ℕ, ◌/◌, ◌-◌, ◌^◌, Bool, true, false, ◌&&◌, ◌||◌, not, List, [], ◌∷◌, Option, none, some, Result,
  ok, message, ◌>>=◌, ◌>>◌, refuse, ok_or, text_eq, codes, ◌==◌, if◌then◌else◌,
}

pub record Snapshot : Type 0 where
  pub interface : List ℕ
  pub gateway : Option ℕ

-- `str::starts_with`
unfoldable pub starts_with : List ℕ → List ℕ → Bool
starts_with text [] = true
starts_with [] (c ∷ cs) = false
starts_with (t ∷ ts) (c ∷ cs) = t == c && starts_with ts cs

unfoldable pub is_vpn : Snapshot → Bool
unfolding starts_with
is_vpn s = starts_with s.interface (codes "utun")

unfoldable pub same_gateway : Option ℕ → Option ℕ → Bool
same_gateway none none = true
same_gateway none (some b) = false
same_gateway (some a) none = false
same_gateway (some a) (some b) = a == b

-- The derived equality of `Snapshot`, and of options of it.
unfoldable pub same : Snapshot → Snapshot → Bool
unfolding same_gateway text_eq
same a b = text_eq a.interface b.interface && same_gateway a.gateway b.gateway

unfoldable pub same_route : Option Snapshot → Option Snapshot → Bool
unfolding same
same_route none none = true
same_route none (some b) = false
same_route (some a) none = false
same_route (some a) (some b) = same a b

-- `!is_unspecified() && !is_loopback() && !is_multicast() && !is_broadcast()`: 0.0.0.0, 127.0.0.0/8,
-- 224.0.0.0/4 and 255.255.255.255.
unfoldable pub is_usable : ℕ → Bool
is_usable a =
    not (a == 0) && not (a / 2 ^ 24 == 127) && not (a / 2 ^ 28 == 14) && not (a == 2 ^ 32 - 1)

-- What `Snapshot::dhcp` makes of the address and the router that DHCP gave, if it gave both.
unfoldable pub dhcp : List ℕ → Option ℕ → Option ℕ → Option Snapshot
unfolding is_usable
dhcp interface (some address) (some gateway) =
    if is_usable address && is_usable gateway
    then some (record { interface = interface; gateway = some gateway })
    else none
dhcp interface _ _ = none

-- The `route` command that `Snapshot::write` runs: `change` when there is a default route, or `add`.
pub record Command : Type 0 where
  pub changes : Bool
  pub gateway : ℕ
  pub interface : List ℕ

unfoldable pub is_some {ℓ} : {A : Type ℓ} → Option A → Bool
is_some none = false
is_some (some a) = true

-- `Snapshot::write`, up to the command and after it; the outcome of the command and the route that
-- is read after it are parameters.
unfoldable pub command : Snapshot → Option Snapshot → Result Command
unfolding is_some
command s current = do
  gateway ← ok_or s.gateway (message "cannot apply a non-IPv4 gateway")
  ok (record { changes = is_some current; gateway = gateway; interface = s.interface })

unfoldable pub confirm : Snapshot → Result (Unit {0}) → Result (Option Snapshot) → Result (Unit {0})
unfolding same_route
confirm s ran after = do
  ran
  now ← after
  refuse (not (same_route now (some s)))
      (message "default route did not select the requested interface")

-- `current.is_some_and(is_vpn) || vpn_present()?`
unfoldable pub finds_vpn : Option Snapshot → Result Bool → Result Bool
unfolding is_vpn
finds_vpn none present = present
finds_vpn (some s) present = if is_vpn s then ok true else present

-- `Recovery::permits`
unfoldable pub permits : Option Snapshot → List ℕ → Bool
unfolding is_vpn text_eq
permits none owned = true
permits (some route) owned = text_eq route.interface owned && not (is_vpn route)

-- `fresh.filter(..)` of `Recovery::select`
unfoldable pub usable_gateway : Option ℕ → Bool
unfolding is_usable
usable_gateway none = false
usable_gateway (some g) = is_usable g

unfoldable pub replaces : Snapshot → Snapshot → Bool
unfolding usable_gateway text_eq
replaces previous route = text_eq route.interface previous.interface && usable_gateway route.gateway

-- `previous.interface.starts_with("feth") || previous.is_vpn()`
unfoldable pub is_excluded : Snapshot → Bool
unfolding is_vpn starts_with
is_excluded s = starts_with s.interface (codes "feth") || is_vpn s

-- `Recovery::select`
unfoldable pub select : Option Snapshot → Option Snapshot → Bool → Option Snapshot
unfolding is_excluded replaces
select none fresh active = none
select (some previous) none active = none
select (some previous) (some route) active =
    if not active || is_excluded previous
    then none
    else (if replaces previous route then some route else none)
