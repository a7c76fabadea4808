-- ===== src/Macos/Route/Recovery/Commands.antt =====
-- The command that one round of `Recovery::restore` in src/macos/route.rs runs, if it runs one.
use galaxybridge.Prelude.{
  ℕ, ◌≡◌, ◌⊎◌, inl, inr, refl, true, false, List, ◌∷◌, Option, none, some, ok, arith, text_eq,
  text_eq_iff, Bool-cases, Option-cases, Result-cases,
}
use galaxybridge.Macos.Route.{
  Snapshot, Command, is_some, usable_gateway, is_usable, permits, select, replaces, command,
}
use galaxybridge.Macos.Route.Recovery.{
  Look, Recovery, Round, fresh, write_route, replace, confirmed, fall_back, examine,
}

-- What a round has seen when it runs the command.
pub record IsGuarded (previous : Snapshot) (owned : List ℕ) (look : Look) (c : Command)
    : Type 0 where
  pub first : Option Snapshot
  pub second : Option Snapshot
  pub current : look.current ≡ ok first
  pub permitted : permits first owned ≡ true
  pub no_vpn : look.present ≡ ok false
  pub again : look.again ≡ ok second
  pub permitted_again : permits second owned ≡ true
  pub no_vpn_again : look.present_again ≡ ok false
  pub active : look.active ≡ true
  pub own_interface : c.interface ≡ previous.interface
  pub usable : is_usable c.gateway ≡ true
  pub change : c.changes ≡ is_some second

-- The round ran no command, or a guarded one.
abbrev pub Ran : Snapshot → List ℕ → Look → Recovery → Round → Type 0
Ran previous owned look r m =
    (m.0.commands ≡ r.commands)
    ⊎ ((c : Command) × (m.0.commands ≡ c ∷ r.commands) × IsGuarded previous owned look c)

pub select-replaces :
    (previous route target : Snapshot)
    → select (some previous) (some route) true ≡ some target
    → (target.interface ≡ previous.interface) × (usable_gateway target.gateway ≡ true)
unfolding select replaces
select-replaces previous route target e =
    let same : target ≡ route = ground arith in
    let found : (text_eq route.interface previous.interface ≡ true)
        × (usable_gateway route.gateway ≡ true) =
      ground arith in
    rw same ((text_eq_iff _ _).0 found.0, found.1)

pub select-target :
    (previous target : Snapshot) (route : Option Snapshot)
    → select (some previous) route true ≡ some target
    → (target.interface ≡ previous.interface) × (usable_gateway target.gateway ≡ true)
select-target previous target none e = absurd (unfold select in cc e)
select-target previous target (some route) e = select-replaces previous route target e

pub command-shape :
    (target : Snapshot) (current : Option Snapshot) (c : Command)
    → usable_gateway target.gateway ≡ true
    → command target current ≡ ok c
    → (c.interface ≡ target.interface)
      × (is_usable c.gateway ≡ true)
      × (c.changes ≡ is_some current)
unfolding command usable_gateway
command-shape target current c u e = ground arith

pub write_route-commands :
    (look : Look) (r : Recovery) (target : Snapshot) (current : Option Snapshot)
    → ((write_route look r target current).0.commands ≡ r.commands)
      ⊎ ((c : Command) × ((write_route look r target current).0.commands ≡ c ∷ r.commands)
          × (command target current ≡ ok c))
unfolding write_route
write_route-commands look r target current = elim (Result-cases (command target current)) [
  | inr (e, f) ↦ inl (ground arith)
  | inl (c, f) ↦ inr (c, ground arith, f)
]

pub replace-commands :
    (owned : List ℕ) (look : Look) (r : Recovery) (choice : Option Snapshot)
    → ((replace owned look r choice).0.commands ≡ r.commands)
      ⊎ ((target : Snapshot) × (second : Option Snapshot) × (c : Command) × ((replace owned look r
              choice).0.commands
            ≡ c ∷ r.commands)
          × (choice ≡ some target)
          × (look.again ≡ ok second)
          × (permits second owned ≡ true)
          × (look.present_again ≡ ok false)
          × (command target second ≡ ok c))
unfolding replace
replace-commands owned look r none = inl refl
replace-commands owned look r (some target) = elim (Result-cases look.again) [
  | inr (e, a) ↦ inl (ground arith)
  | inl (second, a) ↦ elim (Bool-cases (permits second owned)) [
    | inr p ↦ inl (ground arith)
    | inl p ↦ elim (Result-cases look.present_again) [
      | inr (e, v) ↦ inl (ground arith)
      | inl (true, v) ↦ inl (ground arith)
      | inl (false, v) ↦ elim (write_route-commands look r target second) [
        | inl w ↦ inl (ground arith)
        | inr (c, w, f) ↦ inr (target, second, c, ground arith, refl, a, p, v, f)
      ]
    ]
  ]
]

pub fall_back-commands :
    (previous : Snapshot) (owned : List ℕ) (look : Look) (r : Recovery) (first : Option Snapshot)
    → look.current ≡ ok first
    → permits first owned ≡ true
    → look.present ≡ ok false
    → Ran previous owned look r (fall_back previous owned look r)
unfolding fall_back
fall_back-commands previous owned look r first c p v = elim (Bool-cases look.active) [
  | inr off ↦ inl (ground arith)
  | inl on ↦ elim (Bool-cases (usable_gateway look.address)) [
    | inr bad ↦ inl (ground arith)
    | inl good ↦ elim (Result-cases (fresh previous look)) [
      | inr (e, f) ↦ inl (ground arith)
      | inl (route, f) ↦ elim (replace-commands owned look r (select (some previous) route true)) [
        | inl same ↦ inl (ground arith)
        | inr (target, second, x, runs, chosen, a, pa, va, made) ↦
            let (interface, usable) = select-target previous target route chosen in
            let (i, u, ch) = command-shape target second x usable made in
            inr (
              x,
              ground arith,
              record {
                first = first;
                second = second;
                current = c;
                permitted = p;
                no_vpn = v;
                again = a;
                permitted_again = pa;
                no_vpn_again = va;
                active = on;
                own_interface = cc (i, interface);
                usable = u;
                change = ch;
              },
            )
      ]
    ]
  ]
]

pub confirmed-commands :
    (r : Recovery) (current : Option Snapshot) → (confirmed r current).0.commands ≡ r.commands
unfolding confirmed
confirmed-commands r current = elim (Option-cases r.applied) [
  | inl a ↦ ground arith
  | inr (route, a) ↦ ground arith
]

pub examine-commands :
    (previous : Snapshot) (owned : List ℕ) (look : Look) (r : Recovery)
    → Ran previous owned look r (examine previous owned look r)
unfolding examine
examine-commands previous owned look r = elim (Result-cases look.current) [
  | inr (e, c) ↦ inl (ground arith)
  | inl (first, c) ↦ elim (Result-cases look.present) [
    | inr (e, v) ↦ inl (ground arith)
    | inl (true, v) ↦ inl (ground arith)
    | inl (false, v) ↦ elim (Bool-cases (permits first owned)) [
      | inr p ↦ inl (ground (arith, confirmed-commands r first))
      | inl p ↦
          let start = record r { confirmations = 0 } in
          elim (fall_back-commands previous owned look start first c p v) [
            | inl same ↦ inl (ground arith)
            | inr (x, runs, guarded) ↦ inr (x, ground arith, guarded)
          ]
    ]
  ]
]
