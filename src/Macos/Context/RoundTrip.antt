-- ===== src/Macos/Context/RoundTrip.antt =====
-- The arguments of the re-entered supervisor select what the first command line selected.
use galaxybridge.Prelude.{
  ℕ, ◌/◌, ◌%◌, ◌^◌, ◌<◌, ◌≡◌, refl, inl, inr, ◌∙◌, true, false, List, ◌∷◌, ◌++◌, Option, none, some,
  arith, ok, length, text_eq, codes, is_hex_digit, Bool-cases,
}
use galaxybridge.Usb.Devices.{Filter}
use galaxybridge.Cli.{
  Mode, devices, connect, daemon, Options, usb_id, hex_value, all_hex, from_hex, from_str_radix,
  set_once, set_vendor, set_product, set_serial, parse_arguments, parse,
}
use galaxybridge.Cli.Accepted.{IsFilter, IsSerial, Given, parse-IsAccepted}
use galaxybridge.Macos.Context.{
  hex4, hex_digit, id_arguments, serial_arguments, filter_arguments, create,
}

hex_value-hex_digit : (d : ℕ) → d < 16 → hex_value (hex_digit d) ≡ d
unfolding hex_value hex_digit
hex_value-hex_digit d h = ground arith

hex_digit-IsHex : (d : ℕ) → d < 16 → is_hex_digit (hex_digit d) ≡ true
unfolding hex_digit
hex_digit-IsHex d h = ground arith

all_hex-hex4 : (v : ℕ) → all_hex (hex4 v) ≡ true
unfolding all_hex hex4
all_hex-hex4 v =
    rw
      (
        hex_digit-IsHex (v / 4096 % 16) (omega arith),
        hex_digit-IsHex (v / 256 % 16) (omega arith),
        hex_digit-IsHex (v / 16 % 16) (omega arith),
        hex_digit-IsHex (v % 16) (omega arith),
      )
      refl

from_hex-hex4 : (v : ℕ) → v < 2 ^ 16 → from_hex 0 (hex4 v) ≡ v
unfolding from_hex hex4
from_hex-hex4 v h =
    rw
      (
        hex_value-hex_digit (v / 4096 % 16) (omega arith),
        hex_value-hex_digit (v / 256 % 16) (omega arith),
        hex_value-hex_digit (v / 16 % 16) (omega arith),
        hex_value-hex_digit (v % 16) (omega arith),
      )
      (omega arith)

length-hex4 : (v : ℕ) → length (hex4 v) ≡ 4
unfolding hex4
length-hex4 v = refl

-- Four hexadecimal digits are read back.
pub usb_id-hex4 : (v : ℕ) → v < 2 ^ 16 → usb_id (hex4 v) ≡ ok v
unfolding usb_id from_str_radix
usb_id-hex4 v h = ground (arith, length-hex4 v, all_hex-hex4 v, from_hex-hex4 v h)

abbrev pub options : Mode → Option ℕ → Option ℕ → Option (List ℕ) → Options
options mode vendor product serial = record {
  mode = mode;
  filter = record { vendor = vendor; product = product; serial = serial };
  show_serial = false;
}

pub vendor_arguments :
    (mode : Mode) (v : Option ℕ) (rest : List (List ℕ))
    → Given (λ v. v < 2 ^ 16) v
    → parse_arguments (options mode none none none) (id_arguments (codes "--vendor") v ++ rest)
      ≡ parse_arguments (options mode v none none) rest
unfolding id_arguments
vendor_arguments mode none rest h = refl
vendor_arguments mode (some v) rest h =
    unfold parse_arguments set_vendor text_eq set_once in rw (usb_id-hex4 v h) refl

pub product_arguments :
    (mode : Mode) (v p : Option ℕ) (rest : List (List ℕ))
    → Given (λ p. p < 2 ^ 16) p
    → parse_arguments (options mode v none none) (id_arguments (codes "--product") p ++ rest)
      ≡ parse_arguments (options mode v p none) rest
unfolding id_arguments
product_arguments mode v none rest h = refl
product_arguments mode v (some p) rest h =
    unfold parse_arguments set_product text_eq set_once in rw (usb_id-hex4 p h) refl

pub set_serial-ok :
    (mode : Mode) (v p : Option ℕ) (s : List ℕ)
    → IsSerial s
    → set_serial (options mode v p none) s ≡ ok (options mode v p (some s))
unfolding set_serial set_once
set_serial-ok mode v p s h = ground arith

all_arguments :
    (mode : Mode) (v p : Option ℕ) (s : Option (List ℕ))
    → Given IsSerial s
    → parse_arguments (options mode v p none) (serial_arguments s) ≡ ok (options mode v p s)
unfolding serial_arguments
all_arguments mode v p none h = unfold parse_arguments in refl
all_arguments mode v p (some s) h =
    unfold parse_arguments text_eq in rw (set_serial-ok mode v p s h) refl

filter_arguments_lem :
    (mode : Mode) (f : Filter)
    → IsFilter f
    → parse_arguments (options mode none none none) (filter_arguments f)
      ≡ ok (record { mode = mode; filter = f; show_serial = false })
unfolding filter_arguments
filter_arguments_lem mode f h =
    vendor_arguments mode f.vendor _ h.vendor
    ∙ product_arguments mode f.vendor f.product _ h.product
    ∙ all_arguments mode f.vendor f.product f.serial h.serial

parse-connect :
    (rest : List (List ℕ))
    → parse (codes "connect" ∷ rest) ≡ parse_arguments (options connect none none none) rest
unfolding parse text_eq
parse-connect rest = refl

parse-daemon :
    (rest : List (List ℕ))
    → parse (codes "daemon" ∷ rest) ≡ parse_arguments (options daemon none none none) rest
unfolding parse text_eq
parse-daemon rest = refl

-- For a mode, a filter of 16-bit identifiers and a printable serial number of 1 to 128 characters,
-- and the arguments that `Arguments::create` makes of them: the command line parser reads them as
-- this mode and this filter, without serial numbers shown.
pub parse-create :
    (mode : Mode) (f : Filter) (args : List (List ℕ))
    → IsFilter f
    → create mode f ≡ ok args
    → parse args ≡ ok (record { mode = mode; filter = f; show_serial = false })
unfolding create
parse-create connect f args h e =
    let e' : codes "connect" ∷ filter_arguments f ≡ args = cc in
    rw (← e') (parse-connect (filter_arguments f) ∙ filter_arguments_lem connect f h)
parse-create daemon f args h e =
    let e' : codes "daemon" ∷ filter_arguments f ≡ args = cc in
    rw (← e') (parse-daemon (filter_arguments f) ∙ filter_arguments_lem daemon f h)
parse-create _ f args h e = absurd (cc)

create-devices : (f : Filter) (args : List (List ℕ)) → ¬ (create devices f ≡ ok args)
unfolding create
create-devices f args e = cc

-- For arguments that the command line parser accepts and the arguments that `Arguments::create`
-- makes of the accepted mode and filter: the parser reads these again as the same options.
pub parse-create-parse :
    (args again : List (List ℕ)) (o : Options)
    → parse args ≡ ok o
    → create o.mode o.filter ≡ ok again
    → parse again ≡ ok o
parse-create-parse args again o e c =
    let (valid, shown) = parse-IsAccepted args o e in
    elim (Bool-cases o.show_serial) [
      | inl s ↦ absurd (create-devices o.filter again (rw (shown s) at c))
      | inr s ↦ ground (arith, parse-create o.mode o.filter again valid c, s)
    ]
