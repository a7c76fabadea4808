-- ===== src/Macos/Process/Arguments.antt =====
-- The arguments that src/macos/process.rs gives to the worker, as src/cli.rs reads them.
use galaxybridge.Prelude.{
  ℕ, ◌≡◌, ◌≢◌, refl, sym, ap, ◌∙◌, ◌⊎◌, inl, inr, Bool, true, false, List, [], ◌∷◌, ◌++◌,
  append_assoc, append-nil, Option, none, some, Result, ok, arith, codes, text_eq, text_eq_iff,
  Bool-cases, if◌then◌else◌,
}
use galaxybridge.Usb.Devices.{Filter}
use galaxybridge.Cli.{
  Mode, devices, handshake, Options, parse_mode, parse_arguments, parse, set_flag, is_devices,
}
use galaxybridge.Cli.Accepted.{IsFilter, IsSerial, Given}
use galaxybridge.Macos.Context.{filter_arguments, id_arguments, serial_arguments}
use galaxybridge.Macos.Context.RoundTrip.{
  options, vendor_arguments, product_arguments, set_serial-ok,
}
use galaxybridge.Macos.Process.{create, is_inspection, inspect}

serial_append :
    (mode : Mode) (v p : Option ℕ) (s : Option (List ℕ)) (rest : List (List ℕ))
    → Given IsSerial s
    → parse_arguments (options mode v p none) (serial_arguments s ++ rest)
      ≡ parse_arguments (options mode v p s) rest
unfolding serial_arguments
serial_append mode v p none rest h = refl
serial_append mode v p (some s) rest h =
    unfold parse_arguments text_eq in rw (set_serial-ok mode v p s h) refl

filter_append :
    (mode : Mode) (f : Filter) (rest : List (List ℕ))
    → IsFilter f
    → parse_arguments (options mode none none none) (filter_arguments f ++ rest)
      ≡ parse_arguments (options mode f.vendor f.product f.serial) rest
unfolding filter_arguments
filter_append mode f rest h =
    let first = id_arguments (codes "--vendor") f.vendor in
    let second = id_arguments (codes "--product") f.product in
    let third = serial_arguments f.serial in
    ap (parse_arguments (options mode none none none))
      (append_assoc first (second ++ third) rest ∙ ap (◌++◌ first) (append_assoc second third rest))
    ∙ vendor_arguments mode f.vendor (second ++ (third ++ rest)) h.vendor
    ∙ product_arguments mode f.vendor f.product (third ++ rest) h.product
    ∙ serial_append mode f.vendor f.product f.serial rest h.serial

abbrev chosen : Mode → Filter → Bool → Options
chosen mode f shown = record { mode = mode; filter = f; show_serial = shown }

-- The flag for serial numbers is read only for the devices mode.
show_arguments :
    (mode : Mode) (f : Filter) (shown : Bool)
    → (shown ≡ true → mode ≡ devices)
    → parse_arguments
        (options mode f.vendor f.product f.serial)
        (if shown then codes "--show-serial" ∷ [] else [])
      ≡ ok (chosen mode f shown)
unfolding parse_arguments text_eq set_flag is_devices
show_arguments mode f false only = refl
show_arguments mode f true only = rw (only refl) refl

-- What `Worker::inspect` accepts.
record Accepted (euid : ℕ) (name : List ℕ) (f : Filter) (shown : Bool) (args : List (List ℕ))
    : Type 0 where
  unprivileged : euid ≢ 0
  inspection : is_inspection name ≡ true
  only_devices : shown ≡ true → text_eq name (codes "devices") ≡ true
  arguments : args ≡ create name f ++ (if shown then codes "--show-serial" ∷ [] else [])

inspect-Accepted :
    (euid : ℕ) (bundle : Result (Unit {0})) (name : List ℕ) (f : Filter) (shown : Bool)
    (args : List (List ℕ))
    → inspect euid bundle name f shown ≡ ok args
    → Accepted euid name f shown args
unfolding inspect
inspect-Accepted euid bundle name f shown args e = record {
  unprivileged = ground arith;
  inspection = ground arith;
  only_devices = λ s. ground arith;
  arguments = ground arith;
}

inspection_mode :
    (name : List ℕ)
    → is_inspection name ≡ true
    → (name ≡ codes "devices") ⊎ (name ≡ codes "handshake")
unfolding is_inspection
inspection_mode name e = elim (Bool-cases (text_eq name (codes "devices"))) [
  | inl d ↦ inl ((text_eq_iff _ _).0 d)
  | inr n ↦ inr ((text_eq_iff _ _).0 (ground arith))
]

created-parse :
    (name : List ℕ) (mode : Mode) (f : Filter) (shown : Bool)
    → parse_mode name ≡ ok mode
    → (shown ≡ true → mode ≡ devices)
    → IsFilter f
    → parse (create name f ++ (if shown then codes "--show-serial" ∷ [] else []))
      ≡ ok (chosen mode f shown)
unfolding parse create
created-parse name mode f shown e only h =
    rw e (filter_append mode f _ h ∙ show_arguments mode f shown only)

-- For a filter that the command line allows and arguments that `Worker::inspect` runs the worker
-- with: the user is not root, the mode is devices or handshake, and the parser of the command line
-- reads the arguments as this mode, the filter and the display of serial numbers.
pub inspect-parse :
    (euid : ℕ) (bundle : Result (Unit {0})) (name : List ℕ) (f : Filter) (shown : Bool)
    (args : List (List ℕ))
    → IsFilter f
    → inspect euid bundle name f shown ≡ ok args
    → (euid ≢ 0)
      × ((mode : Mode) × ((mode ≡ devices) ⊎ (mode ≡ handshake))
          × (parse_mode name ≡ ok mode)
          × (parse args ≡ ok (record { mode = mode; filter = f; show_serial = shown })))
unfolding parse_mode
inspect-parse euid bundle name f shown args h e =
    let a = inspect-Accepted euid bundle name f shown args e in
    (
      a.unprivileged,
      elim (inspection_mode name a.inspection) [
        | inl d ↦ (
          devices,
          inl refl,
          rw d (unfold text_eq in refl),
          rw a.arguments
              (created-parse name devices f shown (rw d (unfold text_eq in refl)) (λ s. refl) h),
        )
        | inr n ↦ (
          handshake,
          inr refl,
          rw n (unfold text_eq in refl),
          rw a.arguments (
              created-parse name handshake f shown (rw n (unfold text_eq in refl))
                (λ s. absurd (unfold text_eq in cc (rw n at (a.only_devices s)))) h),
        )
      ],
    )

pub create-parse :
    (name : List ℕ) (mode : Mode) (f : Filter)
    → parse_mode name ≡ ok mode
    → IsFilter f
    → parse (create name f) ≡ ok (record { mode = mode; filter = f; show_serial = false })
create-parse name mode f e h =
    ap parse (sym (append-nil (create name f)))
    ∙ created-parse name mode f false e (λ s. absurd (cc s)) h
