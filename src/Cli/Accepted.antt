-- ===== src/Cli/Accepted.antt =====
-- What a command line that `parse` accepts selects.
use galaxybridge.Prelude.{
  ℕ, ◌^◌, ◌≤◌, ◌<◌, ◌≡◌, refl, ◌⊎◌, inl, inr, true, false, List, [], ◌∷◌, Option, none, some, arith,
  Result, ok, err, all, length, is_graphic, Bool-cases, Result-cases, value_or, ◌∙◌, ◌>>=◌, text_eq,
  codes,
}
use galaxybridge.Usb.Devices.{Filter}
use galaxybridge.Cli.{
  Mode, help, devices, Options, any_device, usb_id, from_str_radix, set_vendor, set_product,
  set_serial, set_flag, parse_mode, parse_arguments, parse, is_devices,
}

abbrev pub Given : {A : Type 0} → (A → Type 0) → Option A → Type 0
Given P none = Unit
Given P (some a) = P a

abbrev pub IsSerial : List ℕ → Type 0
IsSerial s = (1 ≤ length s) × (length s ≤ 128) × (all is_graphic s ≡ true)

-- A filter that selects by 16-bit identifiers and a printable serial number.
pub record IsFilter (f : Filter) : Type 0 where
  pub vendor : Given (λ v. v < 2 ^ 16) f.vendor
  pub product : Given (λ p. p < 2 ^ 16) f.product
  pub serial : Given IsSerial f.serial

abbrev pub IsAccepted : Options → Type 0
IsAccepted o = IsFilter o.filter × ((o.show_serial ≡ true) → o.mode ≡ devices)

usb_id-lt : (value : List ℕ) (id : ℕ) → usb_id value ≡ ok id → id < 2 ^ 16
unfolding usb_id from_str_radix
usb_id-lt value id e = ground arith

abbrev with_vendor : Options → ℕ → Options
with_vendor o id = record o { filter = record (o.filter) { vendor = some id } }

abbrev with_product : Options → ℕ → Options
with_product o id = record o { filter = record (o.filter) { product = some id } }

abbrev with_serial : Options → List ℕ → Options
with_serial o value = record o { filter = record (o.filter) { serial = some value } }

pub set_vendor_lem :
    (o o' : Options) (value : List ℕ)
    → set_vendor o value ≡ ok o'
    → (o.filter.vendor ≡ none)
      × (usb_id value ≡ ok (value_or 0 (usb_id value)))
      × (o' ≡ with_vendor o (value_or 0 (usb_id value)))
unfolding set_vendor
set_vendor_lem o o' value e = ground arith

pub set_product_lem :
    (o o' : Options) (value : List ℕ)
    → set_product o value ≡ ok o'
    → (o.filter.product ≡ none)
      × (usb_id value ≡ ok (value_or 0 (usb_id value)))
      × (o' ≡ with_product o (value_or 0 (usb_id value)))
unfolding set_product
set_product_lem o o' value e = ground arith

pub set_serial_lem :
    (o o' : Options) (value : List ℕ)
    → set_serial o value ≡ ok o'
    → (o.filter.serial ≡ none) × IsSerial value × (o' ≡ with_serial o value)
unfolding set_serial
set_serial_lem o o' value e = ground arith

is_devices_lem : (m : Mode) → is_devices m ≡ true → m ≡ devices
unfolding is_devices
is_devices_lem devices e = refl
is_devices_lem _ e = absurd (cc)

pub set_flag_lem :
    (o o' : Options) (arg : List ℕ)
    → set_flag o arg ≡ ok o'
    → (o.mode ≡ devices) × (o' ≡ record o { show_serial = true })
unfolding set_flag
set_flag_lem o o' arg e = ground (arith, is_devices_lem o.mode)

-- What a step of the parser keeps: the mode, and that the options are acceptable.
abbrev Keeps : Options → Options → Type 0
Keeps o o' = (IsAccepted o → IsAccepted o') × (o'.mode ≡ o.mode)

set_vendor-Keeps : (o o' : Options) (value : List ℕ) → set_vendor o value ≡ ok o' → Keeps o o'
set_vendor-Keeps o o' value e =
    let (unset, id, eq) = set_vendor_lem o o' value e in
    rw eq (
      λ (f, s).
          (record { vendor = usb_id-lt value _ id; product = f.product; serial = f.serial }, s),
      refl,
    )

set_product-Keeps : (o o' : Options) (value : List ℕ) → set_product o value ≡ ok o' → Keeps o o'
set_product-Keeps o o' value e =
    let (unset, id, eq) = set_product_lem o o' value e in
    rw eq (
      λ (f, s).
          (record { vendor = f.vendor; product = usb_id-lt value _ id; serial = f.serial }, s),
      refl,
    )

set_serial-Keeps : (o o' : Options) (value : List ℕ) → set_serial o value ≡ ok o' → Keeps o o'
set_serial-Keeps o o' value e =
    let (unset, valid, eq) = set_serial_lem o o' value e in
    rw eq (λ (f, s). (record { vendor = f.vendor; product = f.product; serial = valid }, s), refl)

set_flag-Keeps : (o o' : Options) (arg : List ℕ) → set_flag o arg ≡ ok o' → Keeps o o'
set_flag-Keeps o o' arg e =
    let (mode, eq) = set_flag_lem o o' arg e in rw eq (λ (f, s). (f, λ x. mode), refl)

Keeps-trans : (o p q : Options) → Keeps o p → Keeps p q → Keeps o q
Keeps-trans o p q (f, m) (g, n) = (λ h. g (f h), n ∙ m)

-- One step, then the rest.
Keeps-bind :
    (o o' : Options) (m : Result Options) (k : Options → Result Options)
    → (m >>= k) ≡ ok o'
    → ((p : Options) → m ≡ ok p → Keeps o p)
    → ((p : Options) → k p ≡ ok o' → Keeps p o')
    → Keeps o o'
Keeps-bind o o' (ok p) k e first rest = Keeps-trans o p o' (first p refl) (rest p e)
Keeps-bind o o' (err x) k e first rest = absurd (cc)

-- The four ways on which the loop can go from two arguments.
parse_arguments-ways :
    (o o' : Options) (arg value : List ℕ) (rest : List (List ℕ))
    → parse_arguments o (arg ∷ value ∷ rest) ≡ ok o'
    → ((set_vendor o value >>= λ p. parse_arguments p rest) ≡ ok o')
      ⊎ (((set_product o value >>= λ p. parse_arguments p rest) ≡ ok o')
          ⊎ (((set_serial o value >>= λ p. parse_arguments p rest) ≡ ok o')
              ⊎ ((set_flag o arg >>= λ p. parse_arguments p (value ∷ rest)) ≡ ok o')))
unfolding parse_arguments
parse_arguments-ways o o' arg value rest e = elim (Bool-cases (text_eq arg (codes "--vendor"))) [
  | inl a ↦ inl (rw a at e)
  | inr a ↦ elim (Bool-cases (text_eq arg (codes "--product"))) [
    | inl b ↦ inr (inl (rw (a, b) at e))
    | inr b ↦ elim (Bool-cases (text_eq arg (codes "--serial"))) [
      | inl c ↦ inr (inr (inl (rw (a, b, c) at e)))
      | inr c ↦ inr (inr (inr (rw (a, b, c) at e)))
    ]
  ]
]

last_argument :
    (o o' : Options) (arg : List ℕ) → parse_arguments o (arg ∷ []) ≡ ok o' → set_flag o arg ≡ ok o'
unfolding parse_arguments
last_argument o o' arg e = ground arith

no_argument : (o o' : Options) → parse_arguments o [] ≡ ok o' → o ≡ o'
unfolding parse_arguments
no_argument o o' e = cc

parse_arguments-Keeps :
    (o o' : Options) (args : List (List ℕ)) → parse_arguments o args ≡ ok o' → Keeps o o'
parse_arguments-Keeps o o' [] e = rw (← no_argument o o' e) (λ h. h, refl)
parse_arguments-Keeps o o' (arg ∷ []) e = set_flag-Keeps o o' arg (last_argument o o' arg e)
parse_arguments-Keeps o o' (arg ∷ value ∷ rest) e =
    let next =
      λ (p : Options) (h : parse_arguments p rest ≡ ok o'). parse_arguments-Keeps p o' rest h in
    elim (parse_arguments-ways o o' arg value rest e) [
      | inl w ↦ Keeps-bind o o' _ _ w (λ p. set_vendor-Keeps o p value) next
      | inr (inl w) ↦ Keeps-bind o o' _ _ w (λ p. set_product-Keeps o p value) next
      | inr (inr (inl w)) ↦ Keeps-bind o o' _ _ w (λ p. set_serial-Keeps o p value) next
      | inr (inr (inr w)) ↦
          Keeps-bind o o' _ _ w (λ p. set_flag-Keeps o p arg)
            (λ p h. parse_arguments-Keeps p o' (value ∷ rest) h)
    ]

-- For arguments that the command line parser accepts: the filter has 16-bit identifiers where it
-- has any and a serial number of 1 to 128 printable characters if it has one, and serial numbers
-- are shown only in the devices mode.
pub parse-IsAccepted : (args : List (List ℕ)) (o : Options) → parse args ≡ ok o → IsAccepted o
unfolding parse
parse-IsAccepted [] o e =
    let e' : record { mode = help; filter = any_device; show_serial = false } ≡ o = cc in
    rw (← e') (record { vendor = tt; product = tt; serial = tt }, λ x. absurd (cc))
parse-IsAccepted (first ∷ rest) o e = elim (Result-cases (parse_mode first)) [
  | inl (mode, m) ↦
      (parse_arguments-Keeps _ o rest (rw (m) at e)).0
        (record { vendor = tt; product = tt; serial = tt }, λ x. absurd (cc))
  | inr (x, m) ↦ absurd (ground arith)
]
