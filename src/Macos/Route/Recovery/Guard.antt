-- ===== src/Macos/Route/Recovery/Guard.antt =====
-- When `Recovery::restore` of src/macos/route.rs runs a routing command, and that it ends.
use galaxybridge.Prelude.{
  ℕ, ◌≡◌, ◌⊎◌, inl, inr, refl, true, false, List, [], ◌∷◌, Option, none, some, Result, ok, err,
  arith, All, Bool-cases, Option-cases, message, ap,
}
use galaxybridge.Macos.Route.{Snapshot, Command, is_excluded}
use galaxybridge.Macos.Route.Recovery.{Look, Recovery, examine, restore_loop, restore, untouched}
use galaxybridge.Macos.Route.Recovery.Commands.{IsGuarded, examine-commands}

abbrev pub IsIn : Look → List Look → Type 0
IsIn look [] = ⊥
IsIn look (l ∷ ls) = (look ≡ l) ⊎ IsIn look ls

-- In the rounds `looks`, some round allows the command.
abbrev pub IsAllowed : Snapshot → List ℕ → List Look → Command → Type 0
IsAllowed previous owned looks c = (look : Look) × IsIn look looks × IsGuarded previous owned look c

examined :
    (P : Command → Type 0) (previous : Snapshot) (owned : List ℕ) (look : Look) (r : Recovery)
    → ((c : Command) → IsGuarded previous owned look c → P c)
    → All P r.commands
    → All P (examine previous owned look r).0.commands
examined P previous owned look r each old = elim (examine-commands previous owned look r) [
  | inl same ↦ rw same old
  | inr (c, runs, guarded) ↦ rw runs (each c guarded, old)
]

loop-stops :
    (previous : Snapshot) (owned : List ℕ) (r : Recovery) (look : Look) (looks : List Look)
    (result : Result (Unit {0}))
    → (examine previous owned look r).1 ≡ some result
    → restore_loop previous owned r (look ∷ looks)
      ≡ ((examine previous owned look r).0, some result)
unfolding restore_loop
loop-stops previous owned r look looks result e = ground arith

loop-goes :
    (previous : Snapshot) (owned : List ℕ) (r : Recovery) (look : Look) (looks : List Look)
    → (examine previous owned look r).1 ≡ none
    → look.late ≡ false
    → restore_loop previous owned r (look ∷ looks)
      ≡ restore_loop previous owned (examine previous owned look r).0 looks
unfolding restore_loop
loop-goes previous owned r look looks e early = ground arith

loop-late :
    (previous : Snapshot) (owned : List ℕ) (r : Recovery) (look : Look) (looks : List Look)
    → (examine previous owned look r).1 ≡ none
    → look.late ≡ true
    → (result : Result (Unit {0})) × ((restore_loop previous owned r (look ∷ looks)).0
        ≡ (examine previous owned look r).0)
      × ((restore_loop previous owned r (look ∷ looks)).1 ≡ some result)
unfolding restore_loop
loop-late previous owned r look looks e late = (
  err (message "no stable active fallback route appeared within the recovery deadline"),
  ground arith,
  ground arith,
)

loop-commands :
    (P : Command → Type 0) (previous : Snapshot) (owned : List ℕ) (r : Recovery) (looks : List Look)
    → ((look : Look) (c : Command) → IsIn look looks → IsGuarded previous owned look c → P c)
    → All P r.commands
    → All P (restore_loop previous owned r looks).0.commands
unfolding restore_loop
loop-commands P previous owned r [] each old = old
loop-commands P previous owned r (look ∷ looks) each old =
    let m = examine previous owned look r in
    let now : All P m.0.commands =
      examined P previous owned look r (λ c. each look c (inl refl)) old in
    let rest = loop-commands P previous owned m.0 looks (λ l c i. each l c (inr i)) now in
    elim (Option-cases m.1) [
      | inr (result, e) ↦ rw (loop-stops previous owned r look looks result e) now
      | inl e ↦ elim (Bool-cases look.late) [
        | inl late ↦ rw ((loop-late previous owned r look looks e late).1) now
        | inr early ↦ rw (loop-goes previous owned r look looks e early) rest
      ]
    ]

-- For a former route, the interface of the session and what the rounds of the recovery see: each
-- routing command that the recovery runs sets a usable gateway on the interface of the former
-- route, and in one of the rounds the default route was absent or the own one of the session both
-- times it was read, no VPN route was found either time, and the interface was active; the command
-- is `change` exactly when the second reading gave a route.
pub restore-guarded :
    (previous : Snapshot) (owned : List ℕ) (looks : List Look)
    → All (IsAllowed previous owned looks) (restore (some previous) owned looks).0.commands
unfolding restore
restore-guarded previous owned looks =
    let run =
      loop-commands (IsAllowed previous owned looks) previous owned untouched looks
        (λ look c i g. (look, i, g)) tt in
    elim (Bool-cases (is_excluded previous)) [ inl e ↦ rw e tt | inr e ↦ rw e run ]

ends :
    (previous : Snapshot) (owned : List ℕ) (r : Recovery) (looks : List Look) (look : Look)
    → IsIn look looks
    → look.late ≡ true
    → (result : Result (Unit {0})) × ((restore_loop previous owned r looks).1 ≡ some result)
unfolding restore_loop
ends previous owned r [] look i late = absurd i
ends previous owned r (l ∷ ls) look i late = elim (Option-cases (examine previous owned l r).1) [
  | inr (result, e) ↦ (result, ap (λ m. m.1) (loop-stops previous owned r l ls result e))
  | inl e ↦ elim (Bool-cases l.late) [
    | inl now ↦ let (result, same, found) = loop-late previous owned r l ls e now in (result, found)
    | inr early ↦ elim i [
      | inl same ↦ absurd (cc (same, late, early))
      | inr later ↦
          rw (loop-goes previous owned r l ls e early)
            (ends previous owned (examine previous owned l r).0 ls look later late)
    ]
  ]
]

-- For any former route, interface and rounds one of which ends after the deadline: the recovery
-- returns a result within these rounds.
pub restore-ends :
    (previous : Option Snapshot) (owned : List ℕ) (looks : List Look)
    → (look : Look) × IsIn look looks × (look.late ≡ true)
    → (result : Result (Unit {0})) × ((restore previous owned looks).1 ≡ some result)
unfolding restore
restore-ends none owned looks h = (ok tt, refl)
restore-ends (some previous) owned looks (look, i, late) =
    elim (Bool-cases (is_excluded previous)) [
      | inl e ↦ (ok tt, rw e refl)
      | inr e ↦ rw e (ends previous owned untouched looks look i late)
    ]
