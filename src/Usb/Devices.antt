-- ===== src/Usb/Devices.antt =====
-- src/usb/devices.rs: which USB devices the driver takes. The list of devices and what a device says
-- of itself come from the USB library: they are arguments.
pub mod Selection
use galaxybridge.Prelude.{
  filter_by, ℕ, ◌≡◌, ◌↔◌, ◌⊎◌, inl, inr, refl, Bool, true, false, ◌&&◌, ◌||◌, not, List, [], ◌∷◌,
  ◌++◌, Option, none, some, arith, Result, ◌>>=◌, ok, err, message, message_with, any, length,
  text_eq, text_eq_iff, ◌==◌, if◌then◌else◌, All, Bool-cases,
}

pub record Filter : Type 0 where
  pub vendor : Option ℕ
  pub product : Option ℕ
  pub serial : Option (List ℕ)

pub record Identity : Type 0 where
  pub vendor : ℕ
  pub product : ℕ
  pub serial : Option (List ℕ)

-- `Option::is_none_or`
abbrev pub is_none_or {ℓ} : {A : Type ℓ} → (A → Bool) → Option A → Bool
is_none_or p none = true
is_none_or p (some a) = p a

unfoldable pub same_serial : Option (List ℕ) → List ℕ → Bool
same_serial none wanted = false
same_serial (some serial) wanted = text_eq serial wanted

unfoldable pub includes : Filter → Identity → Bool
unfolding same_serial
includes f identity =
    is_none_or (λ v. v == identity.vendor) f.vendor
    && is_none_or (λ p. p == identity.product) f.product
    && is_none_or (λ s. same_serial identity.serial s) f.serial

unfoldable pub signature : ℕ → ℕ → ℕ → Bool
signature class subclass protocol =
    (class == 0xe0 && subclass == 1 && protocol == 3)
    || (class == 0xef && subclass == 4 && protocol == 1)
    || (class == 2 && subclass == 2 && protocol == 0xff)

pub record InterfaceInfo : Type 0 where
  pub class : ℕ
  pub subclass : ℕ
  pub protocol : ℕ

-- What the USB library tells of a device, and its interfaces.
pub record DeviceInfo : Type 0 where
  pub identity : Identity
  pub interfaces : List InterfaceInfo

unfoldable pub matches : Filter → DeviceInfo → Bool
matches f device =
    includes f device.identity
    && any
        (λ i.
          signature (InterfaceInfo.class i) (InterfaceInfo.subclass i) (InterfaceInfo.protocol i))
        device.interfaces

-- `devices.len() != 1` and `devices.remove(0)`
unfoldable pub only : List DeviceInfo → Result DeviceInfo
only (d ∷ []) = ok d
only ds = err (message_with "expected one matching RNDIS device; found {}" (length ds ∷ []))

-- `found` is what the enumeration of the USB library answers.
unfoldable pub list : Result (List DeviceInfo) → Filter → Result (List DeviceInfo)
list found f = do devices ← found; ok (filter_by (matches f) devices)

unfoldable pub select : Result (List DeviceInfo) → Filter → Result DeviceInfo
unfolding list only
select found f = do devices ← list found f; only devices
