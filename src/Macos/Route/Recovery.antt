-- ===== src/Macos/Route/Recovery.antt =====
-- src/macos/route.rs, `Recovery::restore`: the loop that restores the fallback route after the
-- session. What the commands of the system report in one round is a `Look`; the values that a round
-- does not reach are not read.
pub mod Commands
pub mod Guard
use galaxybridge.Prelude.{
  ℕ, ◌+◌, ◌≡◌, Bool, true, false, ◌&&◌, not, List, [], ◌∷◌, Option, none, some, Result, ok, err,
  Error, message, leb, Option-cases, if◌then◌else◌,
}
use galaxybridge.Macos.Route.{
  Snapshot, Command, dhcp, is_usable, same_route, permits, select, command, confirm, is_excluded,
  usable_gateway,
}

pub record Look : Type 0 where
  pub current : Result (Option Snapshot)
  pub present : Result Bool
  pub active : Bool
  -- `ipconfig getifaddr` and `ipconfig getoption router` on the former interface.
  pub address : Option ℕ
  pub router : Option ℕ
  pub scoped : Result (Option Snapshot)
  pub again : Result (Option Snapshot)
  pub present_again : Result Bool
  pub ran : Result (Unit {0})
  pub after : Result (Option Snapshot)
  -- The deadline has passed at the end of the round.
  pub late : Bool

-- The variables of the loop, and the commands that were run, the last one first.
pub record Recovery : Type 0 where
  pub applied : Option Snapshot
  pub confirmations : ℕ
  pub commands : List Command

-- `none` goes on, `some` returns.
abbrev pub Round : Type 0
Round = Recovery × Option (Result (Unit {0}))

-- `?` in the loop.
abbrev pub attempt {ℓ} : {A : Type ℓ} → Result A → Recovery → (A → Round) → Round
attempt (ok a) r next = next a
attempt (err e) r next = (r, some (err e))

abbrev pub stop : Recovery → Round
stop r = (r, some (ok tt))

-- The route to fall back to: the present DHCP router, or the default of the interface's own scope.
unfoldable pub fresh : Snapshot → Look → Result (Option Snapshot)
unfolding dhcp
fresh previous look = elim (dhcp previous.interface look.address look.router) [
  | some route ↦ ok (some route)
  | none ↦ look.scoped
]

unfoldable pub write_route : Look → Recovery → Snapshot → Option Snapshot → Round
write_route look r target current = attempt (command target current) r (λ c.
    let r' = record r { commands = c ∷ r.commands } in
    attempt (confirm target look.ran look.after) r'
      (λ done. (record r' { applied = some target }, none)))

unfoldable pub replace : List ℕ → Look → Recovery → Option Snapshot → Round
replace owned look r none = (r, none)
replace owned look r (some target) = attempt look.again r (λ current.
    if permits current owned
    then attempt look.present_again r
        (λ vpn. if vpn then stop r else write_route look r target current)
    else stop r)

-- The default route is another one: it wins, unless it is the one just written, which has to stand
-- in two rounds.
unfoldable pub confirmed : Recovery → Option Snapshot → Round
confirmed r current = elim r.applied [
  | none ↦ stop r
  | some route ↦
      let r' = record r { confirmations = r.confirmations + 1 } in
      if same_route current (some route)
      then (if leb 2 (r.confirmations + 1) then stop r' else (r', none))
      else stop r
]

-- The default route is absent or the session's own.
unfoldable pub fall_back : Snapshot → List ℕ → Look → Recovery → Round
fall_back previous owned look r =
    if look.active && usable_gateway look.address
    then attempt (fresh previous look) r
        (λ route. replace owned look r (select (some previous) route true))
    else (r, none)

unfoldable pub examine : Snapshot → List ℕ → Look → Recovery → Round
examine previous owned look r = attempt look.current r (λ current. attempt look.present r (λ vpn.
    if vpn
    then stop r
    else (if permits current owned
        then fall_back previous owned look (record r { confirmations = 0 })
        else confirmed r current)))

unfoldable pub restore_loop : Snapshot → List ℕ → Recovery → List Look → Round
restore_loop previous owned r [] = (r, none)
restore_loop previous owned r (look ∷ looks) =
    let seen = examine previous owned look r in
    let rest = restore_loop previous owned seen.0 looks in
    elim seen.1 [
      | some result ↦ (seen.0, some result)
      | none ↦
          if look.late
          then (
            seen.0,
            some (
                err (
                  message "no stable active fallback route appeared within the recovery deadline")),
          )
          else rest
    ]

abbrev pub untouched : Recovery
untouched = record { applied = none; confirmations = 0; commands = [] }

-- `Recovery::restore`
unfoldable pub restore : Option Snapshot → List ℕ → List Look → Round
restore none owned looks = stop untouched
restore (some previous) owned looks =
    if is_excluded previous then stop untouched else restore_loop previous owned untouched looks
