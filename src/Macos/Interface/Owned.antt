-- ===== src/Macos/Interface/Owned.antt =====
-- Who owns the interfaces that src/macos/interface.rs creates.
use galaxybridge.Prelude.{
  ℕ, ◌≡◌, ◌≢◌, ◌⊎◌, inl, inr, refl, ap, Bool, true, false, List, [], ◌∷◌, Option, none, some,
  Result, ok, err, Error,
}
use galaxybridge.Macos.Interface.{
  Call, create_interface, destroy, set_none, set_mtu, raise, Trace, Shell, Outcome, run, attempt,
  Pair, valid_name, tear, tear_down, remove, discard, configure,
}

-- The interface that a command made, and the one that it was to destroy.
abbrev pub created_by : Call × Result (List ℕ) → Option (List ℕ)
created_by (create_interface, ok name) = some name
created_by _ = none

abbrev pub destroyed_by : Call × Result (List ℕ) → Option (List ℕ)
destroyed_by (destroy name, r) = some name
destroyed_by _ = none

-- The interface was made, and no command was run since to destroy it.
abbrev pub Standing : List ℕ → Trace → Type 0
Standing name [] = ⊥
Standing name (c ∷ past) =
    (created_by c ≡ some name) ⊎ ((destroyed_by c ≢ some name) × Standing name past)

abbrev pub Mine : Pair → List ℕ → Type 0
Mine p name = (p.system ≡ name) ⊎ (p.transport ≡ name)

abbrev pub Owned : List ℕ → Result Pair → Type 0
Owned name (ok p) = Mine p name
Owned name (err e) = ⊥

-- Each interface with a valid name that stands is of a kind.
abbrev pub Accounts : (List ℕ → Type 0) → Trace → Type 0
Accounts P past = (name : List ℕ) → valid_name name ≡ true → Standing name past → P name

abbrev pub Nobody : List ℕ → Type 0
Nobody name = ⊥

-- A command that makes no interface.
plain-Standing :
    (name : List ℕ) (c : Call) (r : Result (List ℕ)) (past : Trace)
    → created_by (c, r) ≡ none
    → Standing name ((c, r) ∷ past)
    → Standing name past
plain-Standing name c r past plain (inl made) = absurd (cc (plain, made))
plain-Standing name c r past plain (inr (kept, h)) = h

tear_none-Standing :
    (sh : Shell) (iface : List ℕ) (valid : Bool) (s : Option Error × Trace) (name : List ℕ)
    → Standing name (tear sh (set_none iface) valid s).1
    → Standing name s.1
unfolding tear
tear_none-Standing sh iface true (failure, past) name h =
    plain-Standing name (set_none iface) (sh past (set_none iface)) past refl h
tear_none-Standing sh iface false (failure, past) name h = h

tear_destroy-Standing :
    (sh : Shell) (iface : List ℕ) (valid : Bool) (s : Option Error × Trace) (name : List ℕ)
    → Standing name (tear sh (destroy iface) valid s).1
    → Standing name s.1 × (valid ≡ true → iface ≢ name)
unfolding tear
tear_destroy-Standing sh iface true (failure, past) name (inl made) = absurd (cc made)
tear_destroy-Standing sh iface true (failure, past) name (inr (kept, h)) =
    (h, λ e f. kept (ap some f))
tear_destroy-Standing sh iface false (failure, past) name h = (h, λ e. absurd (cc e))

pub tear_down-Accounts :
    (sh : Shell) (p : Pair) (past : Trace)
    → Accounts (Mine p) past
    → Accounts Nobody (tear_down sh p past).1
unfolding tear_down
tear_down-Accounts sh p past h name valid standing =
    let system = tear_destroy-Standing sh p.system (valid_name p.system) _ name standing in
    let transport = tear_destroy-Standing sh p.transport (valid_name p.transport) _ name system.0 in
    gone system.1 transport.1 (
      h name valid
        (tear_none-Standing sh p.system (valid_name p.system) (none, past) name transport.0))
  where
    gone :
        (valid_name p.system ≡ true → p.system ≢ name)
        → (valid_name p.transport ≡ true → p.transport ≢ name)
        → Mine p name
        → ⊥
    gone f g (inl e) = f (rw e valid) e
    gone f g (inr e) = g (rw e valid) e

pub discard-Accounts :
    (sh : Shell) (p : Pair) (e : Error) (past : Trace)
    → Accounts (Mine p) past
    → Accounts (λ name. Owned name (discard sh p e past).0) (discard sh p e past).1
unfolding discard remove
discard-Accounts sh p e past h = tear_down-Accounts sh p past h

-- The outcome of a step that makes no interface.
pub record Keeps {A : Type 0} (P : List ℕ → Type 0) (o : Outcome A) : Type 0 where
  pub kept : Accounts P o.1

pub run-Keeps :
    (P : List ℕ → Type 0) (sh : Shell) (c : Call) (past : Trace)
    → ((r : Result (List ℕ)) → created_by (c, r) ≡ none)
    → Accounts P past
    → Keeps P (run sh c past)
unfolding run
run-Keeps P sh c past plain h = record {
  kept = λ name valid standing.
      h name valid (plain-Standing name c (sh past c) past (plain (sh past c)) standing);
}

pub attempt-Keeps :
    {A B : Type 0} (P : List ℕ → Type 0) (o : Outcome A) (next : A → Trace → Outcome B)
    → Keeps P o
    → ((a : A) (past : Trace) → Accounts P past → Keeps P (next a past))
    → Keeps P (attempt o next)
unfolding attempt
attempt-Keeps P (ok a, past) next h each = each a past h.kept
attempt-Keeps P (err e, past) next h each = record { kept = h.kept }

pub configure-Keeps :
    (P : List ℕ → Type 0) (sh : Shell) (p : Pair) (past : Trace)
    → Accounts P past
    → Keeps P (configure sh p past)
unfolding configure
configure-Keeps P sh p past h =
    attempt-Keeps P _ _ (run-Keeps P sh (set_mtu p.system) past (λ r. refl) h) (λ _ past' h'.
      attempt-Keeps P _ _ (run-Keeps P sh (set_mtu p.transport) past' (λ r. refl) h')
        (λ _ past'' h''. run-Keeps P sh (raise p.transport) past'' (λ r. refl) h''))
