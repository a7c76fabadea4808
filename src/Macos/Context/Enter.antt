-- ===== src/Macos/Context/Enter.antt =====
-- src/macos/context.rs, `Context::enter`: the supervisor runs on in the bootstrap context of the worker, or
-- starts itself again in it. The calls of the system are a parameter.
use mathlib.Core.Path.{subst}
use galaxybridge.Prelude.{
  ℕ, ◌^◌, ◌≡◌, ◌∙◌, ◌⊎◌, refl, false, ◌||◌, not, List, [], ◌∷◌, Option, none, some, Result, ok,
  message, ◌>>=◌, ◌>>◌, refuse, ok_or, codes, text_eq_iff, ◌==◌, if◌then◌else◌, parse_unsigned,
  to_decimal, bind-ok, refuse-ok, ok_or-ok, ok-injective, Bool-cases, inl, inr, arith, ap,
}
use galaxybridge.Usb.Devices.{Filter}
use galaxybridge.Cli.{Mode}
use galaxybridge.Macos.Identity.{Account}
use galaxybridge.Macos.Bundle.{System, each, ancestors}
use galaxybridge.Macos.Context.{create, check}

abbrev pub executable : List ℕ
executable = codes "/Library/PrivilegedHelperTools/io.galaxybridge/galaxybridge"

-- What `enter` asks: the user identifiers, `Core::disable`, `Account::load`, the variable with the
-- expected process identifier (its text is absent when it is not UTF-8), and the identifier itself.
pub record Process : Type 0 where
  pub uid : ℕ
  pub euid : ℕ
  pub no_core : Result (Unit {0})
  pub account : Result Account
  pub marker : Option (Option (List ℕ))
  pub pid : ℕ

-- The process goes on, or `launchctl` takes its place with these arguments and this marker.
pub data Entry : Type 0 where
  inside : Entry
  replaced : List (List ℕ) → List ℕ → Entry

unfoldable pub check_marker : Account → ℕ → ℕ → Option (Option (List ℕ)) → Result (Unit {0})
unfolding check
check_marker a manager pid none = ok tt
check_marker a manager pid (some expected) = do
  text ← ok_or expected (message "invalid bootstrap PID marker")
  check a.uid manager text (to_decimal pid)

-- Behind the checks.
unfoldable pub reenter : System → Process → List (List ℕ) → Account → Result Entry
unfolding each ancestors
reenter s p arguments a = do
  each s.directory (ancestors executable)
  s.file executable 0x1ed
  ok (replaced (codes "asuser" ∷ to_decimal a.uid ∷ executable ∷ arguments) (to_decimal p.pid))

-- `Context::enter`. When the program cannot be replaced, which only an error of the system can be the
-- reason of, the source returns that error.
unfoldable pub enter : System → Process → Mode → Filter → Result Entry
unfolding check_marker reenter create
enter s p mode f = do
  arguments ← create mode f
  refuse (not (p.uid == 0) || not (p.euid == 0))
      (message "network setup requires root; use sudo galaxybridge connect")
  p.no_core
  a ← p.account
  printed ← s.text (codes "/bin/launchctl") (codes "manageruid" ∷ [])
  manager ← ok_or (parse_unsigned (2 ^ 32) printed) (message "invalid digit found in string")
  check_marker a manager p.pid p.marker
  if manager == a.uid then ok inside else reenter s p arguments a

-- The process that goes on is root, in the context of a loaded account; with a marker, it is the
-- process that set the marker.
pub record IsInside (s : System) (p : Process) : Type 0 where
  pub account : Account
  pub loaded : p.account ≡ ok account
  pub context :
      (printed : List ℕ) × (s.text (codes "/bin/launchctl") (codes "manageruid" ∷ []) ≡ ok printed)
      × (parse_unsigned (2 ^ 32) printed ≡ some account.uid)
  pub root : (p.uid ≡ 0) × (p.euid ≡ 0)
  pub own_marker : (p.marker ≡ none) ⊎ (p.marker ≡ some (some (to_decimal p.pid)))

-- The process that starts again has no marker yet, so it starts again once at most; it names the
-- account and passes its own arguments on.
pub record IsReplaced (p : Process) (mode : Mode) (f : Filter) (arguments : List (List ℕ))
    (marker : List ℕ) : Type 0 where
  pub account : Account
  pub loaded : p.account ≡ ok account
  pub own_arguments : List (List ℕ)
  pub created : create mode f ≡ ok own_arguments
  pub passed : arguments ≡ codes "asuser" ∷ to_decimal account.uid ∷ executable ∷ own_arguments
  pub marked : marker ≡ to_decimal p.pid
  pub first_time : p.marker ≡ none

abbrev pub Entered : System → Process → Mode → Filter → Entry → Type 0
Entered s p mode f inside = IsInside s p
Entered s p mode f (replaced arguments marker) = IsReplaced p mode f arguments marker

-- A marker that is accepted says that the manager is the account's.
check_marker-same :
    (a : Account) (manager pid : ℕ) (marker : Option (Option (List ℕ)))
    → check_marker a manager pid marker ≡ ok tt
    → (manager == a.uid) ≡ false
    → marker ≡ none
unfolding check_marker check
check_marker-same a manager pid none e other = refl
check_marker-same a manager pid (some none) e other = absurd (cc e)
check_marker-same a manager pid (some (some text)) e other = absurd (ground (arith, e, other))

check_marker-own :
    (a : Account) (manager pid : ℕ) (marker : Option (Option (List ℕ)))
    → check_marker a manager pid marker ≡ ok tt
    → (marker ≡ none) ⊎ (marker ≡ some (some (to_decimal pid)))
unfolding check_marker check
check_marker-own a manager pid none e = inl refl
check_marker-own a manager pid (some none) e = absurd (cc e)
check_marker-own a manager pid (some (some text)) e =
    let same : text ≡ to_decimal pid = (text_eq_iff text (to_decimal pid)).0 (ground (arith, e)) in
    inr (ap (λ t. some (some t)) same)

reenter-IsReplaced :
    (s : System) (p : Process) (mode : Mode) (f : Filter) (own : List (List ℕ)) (a : Account)
    (r : Entry)
    → create mode f ≡ ok own
    → p.account ≡ ok a
    → p.marker ≡ none
    → reenter s p own a ≡ ok r
    → Entered s p mode f r
unfolding reenter
reenter-IsReplaced s p mode f own a inside c l m e =
    let (u, e1, f1) = bind-ok (each s.directory (ancestors executable)) _ inside e in
    let (u', e2, f2) = bind-ok (s.file executable 0x1ed) _ inside f1 in
    absurd (cc (ok-injective f2))
reenter-IsReplaced s p mode f own a (replaced arguments marker) c l m e =
    let (u, e1, f1) = bind-ok (each s.directory (ancestors executable)) _ _ e in
    let (u', e2, f2) = bind-ok (s.file executable 0x1ed) _ _ f1 in
    let same = ok-injective f2 in
    record {
      account = a;
      loaded = l;
      own_arguments = own;
      created = c;
      passed = cc same;
      marked = cc same;
      first_time = m;
    }

-- For the answers of the system and a result of `Context::enter`: a process that goes on runs as
-- root with a loaded account whose number is the one of its bootstrap context, and its marker, if
-- it has one, is its own process identifier; a process that is replaced had no marker, so it is
-- replaced once at most, and what replaces it gets the number of the loaded account, the process
-- identifier as its marker, and the arguments that `Arguments::create` makes of the mode and the
-- filter.
pub enter-Entered :
    (s : System) (p : Process) (mode : Mode) (f : Filter) (r : Entry)
    → enter s p mode f ≡ ok r
    → Entered s p mode f r
unfolding enter
enter-Entered s p mode f r e =
    let (own, created, f1) = bind-ok (create mode f) _ r e in
    let (root, f2) = refuse-ok (not (p.uid == 0) || not (p.euid == 0)) _ _ r f1 in
    let (u, no_core, f3) = bind-ok p.no_core _ r f2 in
    let (a, loaded, f4) = bind-ok p.account _ r f3 in
    let (printed, ran, f5) =
      bind-ok (s.text (codes "/bin/launchctl") (codes "manageruid" ∷ [])) _ r f4 in
    let (manager, read, f6) = bind-ok (ok_or (parse_unsigned (2 ^ 32) printed) _) _ r f5 in
    let (u', marked, f7) = bind-ok (check_marker a manager p.pid p.marker) _ r f6 in
    elim (Bool-cases (manager == a.uid)) [
      | inl same ↦ subst (Entered s p mode f) (ok-injective (rw same at f7)) (record {
        account = a;
        loaded = loaded;
        context = (printed, ran, ok_or-ok _ _ a.uid (read ∙ ap ok (ground (arith, same))));
        root = (ground (arith, root), ground (arith, root));
        own_marker = check_marker-own a manager p.pid p.marker marked;
      })
      | inr other ↦
          reenter-IsReplaced s p mode f own a r created loaded
            (check_marker-same a manager p.pid p.marker marked other) (rw other at f7)
    ]
