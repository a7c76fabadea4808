-- ===== src/Macos/Interface/Lifetime.antt =====
-- The life of the interfaces of src/macos/interface.rs, from `Pair::create` to `Pair::remove`.
use galaxybridge.Prelude.{
  ℕ, ◌≡◌, ◌⊎◌, inl, inr, refl, ap, true, List, [], ◌∷◌, Result, ok, err, ok-injective, Bool-cases,
  codes,
}
use galaxybridge.Macos.Interface.{
  create_interface, read_sysctl, raise, set_ether, set_peer, set_dhcp, Trace, Shell, Outcome, run,
  attempt, Pair, valid_name, remove, dropping, unexpected, with_transport, with_system,
  check_setting, create, activate, dhcp, done, mac_text,
}
use galaxybridge.Macos.Interface.Owned.{
  Standing, Mine, Owned, Accounts, Nobody, Keeps, discard-Accounts, run-Keeps, attempt-Keeps,
  configure-Keeps, tear_down-Accounts,
}

-- The result of a step of `Pair::create`, and what it leaves.
record Settled (o : Outcome Pair) : Type 0 where
  settled : Accounts (λ name. Owned name o.0) o.1

dropping-Settled :
    (sh : Shell) (p : Pair) (o : Outcome (List ℕ)) → Keeps (Mine p) o → Settled (dropping sh p o)
unfolding dropping
dropping-Settled sh p (ok text, past) h = record { settled = h.kept }
dropping-Settled sh p (err e, past) h = record { settled = discard-Accounts sh p e past h.kept }

-- `feth create`: the interface that stands behind it is the new one, or stood before.
create_interface-Standing :
    (name : List ℕ) (r : Result (List ℕ)) (past : Trace)
    → Standing name ((create_interface, r) ∷ past)
    → (r ≡ ok name) ⊎ Standing name past
create_interface-Standing name (ok made) past (inl e) = inl (ap ok (cc e))
create_interface-Standing name (err x) past (inl e) = absurd (cc e)
create_interface-Standing name r past (inr (kept, h)) = inr h

with_transport-Settled :
    (sh : Shell) (system : List ℕ) (r : Result (List ℕ)) (past : Trace)
    → Accounts (λ name. system ≡ name) past
    → Settled (with_transport sh system (r, (create_interface, r) ∷ past))
unfolding with_transport
with_transport-Settled sh system (err e) past h = record {
  settled = discard-Accounts sh _ e _ (λ name valid standing.
      elim (create_interface-Standing name (err e) past standing) [
        | inl made ↦ absurd (cc made)
        | inr old ↦ inl (h name valid old)
      ]);
}
with_transport-Settled sh system (ok transport) past h = elim (Bool-cases (valid_name transport)) [
  | inl good ↦ rw good (
      dropping-Settled sh _ _ (
        configure-Keeps (Mine (record { system = system; transport = transport })) sh _ _
          (λ name valid standing.
            elim (create_interface-Standing name (ok transport) past standing) [
              | inl made ↦ inr (ok-injective made)
              | inr old ↦ inl (h name valid old)
            ])))
  | inr bad ↦ rw bad (record {
    settled = discard-Accounts sh _ unexpected _ (λ name valid standing.
        elim (create_interface-Standing name (ok transport) past standing) [
          | inl made ↦ absurd (cc (bad, valid, made))
          | inr old ↦ inl (h name valid old)
        ]);
  })
]

with_system-Settled :
    (sh : Shell) (system : List ℕ) (past : Trace)
    → Accounts (λ name. system ≡ name) past
    → Settled (with_system sh system past)
unfolding with_system run
with_system-Settled sh system past h = elim (Bool-cases (valid_name system)) [
  | inl good ↦ rw good (with_transport-Settled sh system (sh past create_interface) past h)
  | inr bad ↦
      rw bad (record { settled = λ name valid standing. cc (bad, valid, h name valid standing) })
]

attempt-Settled :
    {A : Type 0} (o : Outcome A) (next : A → Trace → Outcome Pair)
    → Keeps Nobody o
    → ((a : A) (past : Trace) → Accounts Nobody past → Settled (next a past))
    → Settled (attempt o next)
unfolding attempt
attempt-Settled (ok a, past) next h each = each a past h.kept
attempt-Settled (err e, past) next h each = record { settled = h.kept }

check_setting-Keeps :
    (sh : Shell) (key : List ℕ) (past : Trace)
    → Accounts Nobody past
    → Keeps Nobody (check_setting sh key past)
unfolding check_setting
check_setting-Keeps sh key past h =
    attempt-Keeps Nobody (run sh (read_sysctl key) past) _
      (run-Keeps Nobody sh (read_sysctl key) past (λ r. refl) h)
      (λ value past' h'. record { kept = h' })

-- The first `feth create`.
first-Settled :
    (sh : Shell) (past : Trace) (r : Result (List ℕ))
    → Accounts Nobody past
    → Settled
        (attempt (r, (create_interface, r) ∷ past) (λ system past'. with_system sh system past'))
unfolding attempt
first-Settled sh past (err e) h = record {
  settled = λ name valid standing. elim (create_interface-Standing name (err e) past standing) [
    | inl made ↦ absurd (cc made)
    | inr old ↦ h name valid old
  ];
}
first-Settled sh past (ok system) h = with_system-Settled sh system _ (λ name valid standing.
    elim (create_interface-Standing name (ok system) past standing) [
      | inl made ↦ ok-injective made
      | inr old ↦ absurd (h name valid old)
    ])

create-Settled : (sh : Shell) (past : Trace) → Accounts Nobody past → Settled (create sh past)
unfolding create run
create-Settled sh past h =
    attempt-Settled _ _ (check_setting-Keeps sh (codes "net.link.fake.hwcsum") past h)
      (λ _ past' h'.
        attempt-Settled _ _ (check_setting-Keeps sh (codes "net.link.fake.lro") past' h')
          (λ _ past'' h''. first-Settled sh past'' (sh past'' create_interface) h''))

-- What the owner of a pair runs on it.
pub data Use : Type 0 where
  activating : List ℕ → Use
  leasing : Use

unfoldable pub perform : Shell → Pair → Use → Trace → Outcome (Unit {0})
unfolding activate dhcp
perform sh p (activating mac) past = activate sh p mac past
perform sh p leasing past = dhcp sh p past

unfoldable pub use_all : Shell → Pair → List Use → Trace → Trace
unfolding perform
use_all sh p [] past = past
use_all sh p (u ∷ us) past = use_all sh p us (perform sh p u past).1

-- What was run when the pair is gone: `Pair::create`, the uses of the pair and `Pair::remove`, or
-- `Pair::create` alone when it fails.
unfoldable pub live : Shell → List Use → Outcome Pair → Trace
unfolding use_all remove
live sh us (ok p, past) = (remove sh p (use_all sh p us past)).1.1
live sh us (err e, past) = past

done-Keeps : (P : List ℕ → Type 0) (o : Outcome (List ℕ)) → Keeps P o → Keeps P (done o)
unfolding done
done-Keeps P (ok text, past) h = record { kept = h.kept }
done-Keeps P (err e, past) h = record { kept = h.kept }

perform-Keeps :
    (P : List ℕ → Type 0) (sh : Shell) (p : Pair) (u : Use) (past : Trace)
    → Accounts P past
    → Keeps P (perform sh p u past)
unfolding perform activate dhcp
perform-Keeps P sh p (activating mac) past h =
    attempt-Keeps P (run sh (set_ether p.system (mac_text mac)) past) _
      (run-Keeps P sh (set_ether p.system (mac_text mac)) past (λ r. refl) h)
      (λ _ past' h'.
        attempt-Keeps P (run sh (set_peer p.system p.transport) past') _
          (run-Keeps P sh (set_peer p.system p.transport) past' (λ r. refl) h')
          (λ _ past'' h''.
            done-Keeps P (run sh (raise p.system) past'')
              (run-Keeps P sh (raise p.system) past'' (λ r. refl) h'')))
perform-Keeps P sh p leasing past h =
    done-Keeps P (run sh (set_dhcp p.system) past)
      (run-Keeps P sh (set_dhcp p.system) past (λ r. refl) h)

use_all-Accounts :
    (P : List ℕ → Type 0) (sh : Shell) (p : Pair) (us : List Use) (past : Trace)
    → Accounts P past
    → Accounts P (use_all sh p us past)
unfolding use_all
use_all-Accounts P sh p [] past h = h
use_all-Accounts P sh p (u ∷ us) past h =
    use_all-Accounts P sh p us (perform sh p u past).1 (perform-Keeps P sh p u past h).kept

live-Accounts :
    (sh : Shell) (us : List Use) (o : Outcome Pair) → Settled o → Accounts Nobody (live sh us o)
unfolding live remove
live-Accounts sh us (ok p, past) h =
    tear_down-Accounts sh p (use_all sh p us past)
      (use_all-Accounts (Mine p) sh p us past h.settled)
live-Accounts sh us (err e, past) h = h.settled

-- Whatever the commands of the system answer, and whatever sequence of activations and DHCP
-- requests runs on the pair: of the interfaces with a valid name that `Pair::create` made, no one
-- is left, when the pair is gone, without a later command to destroy it; this holds also when
-- `Pair::create` fails part of the way.
pub live-leaves_none :
    (sh : Shell) (us : List Use) (name : List ℕ)
    → valid_name name ≡ true
    → ¬ Standing name (live sh us (create sh []))
live-leaves_none sh us name valid standing =
    live-Accounts sh us (create sh []) (create-Settled sh [] (λ n v s. s)) name valid standing
