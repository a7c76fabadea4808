-- ===== src/Usb/Devices/Selection.antt =====
-- Which devices a filter includes, and that exactly one is selected.
use galaxybridge.Prelude.{
  filter_by, ℕ, ◌≡◌, ◌↔◌, refl, true, List, [], ◌∷◌, Option, none, some, arith, ok, text_eq_iff,
  ◌==◌, Bool, ◌&&◌, any, ◌⊎◌,
}
use galaxybridge.Usb.Unique.{IsUnique, filter_by-IsUnique}
use galaxybridge.Usb.Devices.{
  Filter, Identity, DeviceInfo, same_serial, includes, matches, only, select, is_none_or,
  InterfaceInfo, signature,
}

number_allowed :
    (o : Option ℕ) (n : ℕ) → (is_none_or (λ v. v == n) o ≡ true) ↔ ((v : ℕ) → o ≡ some v → n ≡ v)
number_allowed none n = (λ e v h. absurd (cc), λ h. refl)
number_allowed (some a) n = (λ e v h. ground arith, λ h. ground (arith, h a refl))

serial_allowed :
    (o own : Option (List ℕ))
    → (is_none_or (λ s. same_serial own s) o ≡ true) ↔ ((s : List ℕ) → o ≡ some s → own ≡ some s)
unfolding same_serial
serial_allowed none own = (λ e s h. absurd (cc), λ h. refl)
serial_allowed (some a) none = (λ e s h. absurd (cc), λ h. absurd (cc (h a refl)))
serial_allowed (some a) (some b) =
    (λ e s h. ground (arith, text_eq_iff b a), λ h. ground (arith, text_eq_iff b a, h a refl))

three_true : (a b c : Bool) → ((a && b && c) ≡ true) ↔ ((a ≡ true) × (b ≡ true) × (c ≡ true))
three_true a b c = (λ e. ground arith, λ e. ground arith)

-- For a filter and the identity of a device: `Filter::includes` holds exactly when the device has
-- each of the vendor, the product and the serial number that the filter gives.
pub includes_iff :
    (f : Filter) (identity : Identity)
    → (includes f identity ≡ true) ↔ (
        ((v : ℕ) → f.vendor ≡ some v → identity.vendor ≡ v)
        × ((p : ℕ) → f.product ≡ some p → identity.product ≡ p)
        × ((s : List ℕ) → f.serial ≡ some s → identity.serial ≡ some s))
unfolding includes
includes_iff f identity = (
  λ e.
      let (a, b, c) = (three_true _ _ _).0 e in
      (
        (number_allowed f.vendor identity.vendor).0 a,
        (number_allowed f.product identity.product).0 b,
        (serial_allowed f.serial identity.serial).0 c,
      ),
  λ (a, b, c). (three_true _ _ _).1 (
    (number_allowed f.vendor identity.vendor).1 a,
    (number_allowed f.product identity.product).1 b,
    (serial_allowed f.serial identity.serial).1 c,
  ),
)

-- What a filter gives is what the device says of itself.
abbrev pub Given {ℓ} : {A : Type ℓ} → Option A → A → Type ℓ
Given none own = Unit
Given (some wanted) own = own ≡ wanted

abbrev pub GivenSerial : Option (List ℕ) → Option (List ℕ) → Type 0
GivenSerial none own = Unit
GivenSerial (some wanted) own = own ≡ some wanted

-- RNDIS in the wireless, the miscellaneous and the communication class.
abbrev pub IsRndis : ℕ → ℕ → ℕ → Type 0
IsRndis class subclass protocol =
    ((class ≡ 0xe0) × (subclass ≡ 1) × (protocol ≡ 3))
    ⊎ (((class ≡ 0xef) × (subclass ≡ 4) × (protocol ≡ 1))
        ⊎ ((class ≡ 2) × (subclass ≡ 2) × (protocol ≡ 0xff)))

abbrev pub HasRndis : List InterfaceInfo → Type 0
HasRndis [] = ⊥
HasRndis (i ∷ is) = IsRndis i.class i.subclass i.protocol ⊎ HasRndis is

pub record IsMatch (f : Filter) (d : DeviceInfo) : Type 0 where
  pub vendor : Given f.vendor d.identity.vendor
  pub product : Given f.product d.identity.product
  pub serial : GivenSerial f.serial d.identity.serial
  pub rndis : HasRndis d.interfaces

Given-iff : (o : Option ℕ) (own : ℕ) → Given o own ↔ ((v : ℕ) → o ≡ some v → own ≡ v)
Given-iff none own = (λ h v e. absurd (cc), λ h. tt)
Given-iff (some a) own = (λ h v e. cc, λ h. h a refl)

GivenSerial-iff :
    (o own : Option (List ℕ)) → GivenSerial o own ↔ ((s : List ℕ) → o ≡ some s → own ≡ some s)
GivenSerial-iff none own = (λ h s e. absurd (cc), λ h. tt)
GivenSerial-iff (some a) own = (λ h s e. cc, λ h. h a refl)

pub signature-IsRndis :
    (class subclass protocol : ℕ)
    → (signature class subclass protocol ≡ true) ↔ IsRndis class subclass protocol
unfolding signature
signature-IsRndis class subclass protocol = (λ e. ground arith, λ h. ground arith)

any-HasRndis :
    (is : List InterfaceInfo)
    → (any
          (λ i.
            signature (InterfaceInfo.class i) (InterfaceInfo.subclass i) (InterfaceInfo.protocol i))
          is
        ≡ true)
      ↔ HasRndis is
any-HasRndis [] = (λ e. absurd (cc), λ h. absurd h)
any-HasRndis (i ∷ is) = (
  λ e. ground (arith, signature-IsRndis i.class i.subclass i.protocol, any-HasRndis is),
  λ h. ground (arith, signature-IsRndis i.class i.subclass i.protocol, any-HasRndis is),
)

matches-IsMatch : (f : Filter) (d : DeviceInfo) → (matches f d ≡ true) ↔ IsMatch f d
unfolding matches
matches-IsMatch f d = (
  λ e.
      let (a, b) = (both_true _ _).0 e in
      let (v, p, s) = (includes_iff f d.identity).0 a in
      record {
        vendor = (Given-iff f.vendor d.identity.vendor).1 v;
        product = (Given-iff f.product d.identity.product).1 p;
        serial = (GivenSerial-iff f.serial d.identity.serial).1 s;
        rndis = (any-HasRndis d.interfaces).0 b;
      },
  λ m. (both_true _ _).1 (
    (includes_iff f d.identity).1 (
      (Given-iff f.vendor d.identity.vendor).0 m.vendor,
      (Given-iff f.product d.identity.product).0 m.product,
      (GivenSerial-iff f.serial d.identity.serial).0 m.serial,
    ),
    (any-HasRndis d.interfaces).1 m.rndis,
  ),
)
  where
    both_true : (a b : Bool) → ((a && b) ≡ true) ↔ ((a ≡ true) × (b ≡ true))
    both_true a b = (λ e. ground arith, λ e. ground arith)

only-one : (ds : List DeviceInfo) (d : DeviceInfo) → (only ds ≡ ok d) ↔ (ds ≡ d ∷ [])
unfolding only
only-one [] d = (λ e. absurd (cc), λ h. absurd (cc))
only-one (x ∷ []) d = (λ e. cc, λ h. cc)
only-one (x ∷ y ∷ ds) d = (λ e. absurd (cc), λ h. absurd (cc))

-- For a filter, the devices that the enumeration found and one device: `Filter::select` returns the
-- device exactly when it stands in the list, has each of the vendor, the product and the serial
-- number that the filter gives and an interface with one of the three class codes of RNDIS, and no
-- device before or after it has these.
pub select_iff :
    (f : Filter) (found : List DeviceInfo) (d : DeviceInfo)
    → (select (ok found) f ≡ ok d) ↔ IsUnique (IsMatch f) found d
unfolding select
select_iff f found d =
    let one = only-one (filter_by (matches f) found) d in
    let unique = filter_by-IsUnique (matches f) (IsMatch f) (matches-IsMatch f) found d in
    (λ e. unique.0 (one.0 e), λ h. one.1 (unique.1 h))
