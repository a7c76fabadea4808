-- ===== src/Cli.antt =====
-- src/cli.rs: the command line. An argument is the list of its bytes.
pub mod Accepted
mod Tests
use galaxybridge.Prelude.{
  ℕ, ◌+◌, ◌-◌, ◌*◌, ◌^◌, ◌≡◌, Bool, true, false, ◌&&◌, ◌||◌, not, List, [], ◌∷◌, Option, none, some,
  Result, ok, err, Error, message, message_with, ◌>>=◌, ◌>>◌, refuse, all, length, text_eq, codes,
  ◌==◌, ltb, if◌then◌else◌, is_digit, is_hex_digit, is_graphic, leb,
}
use galaxybridge.Usb.Devices.{Filter}

pub data Mode : Type 0 where
  help version devices handshake connect daemon probe worker : Mode

-- `Mode::parse`
unfoldable pub parse_mode : List ℕ → Result Mode
parse_mode value =
    if text_eq value (codes "help") || text_eq value (codes "--help") || text_eq value (codes "-h")
    then ok help
    else (if text_eq value (codes "version") || text_eq value (codes "--version")
        then ok version
        else (if text_eq value (codes "devices")
            then ok devices
            else (if text_eq value (codes "handshake")
                then ok handshake
                else (if text_eq value (codes "connect")
                    then ok connect
                    else (if text_eq value (codes "daemon")
                        then ok daemon
                        else (if text_eq value (codes "probe")
                            then ok probe
                            else (if text_eq value (codes "worker")
                                then ok worker
                                else err (message "unknown command; use galaxybridge --help"))))))))

pub record Options : Type 0 where
  pub mode : Mode
  pub filter : Filter
  pub show_serial : Bool

unfoldable pub hex_value : ℕ → ℕ
hex_value c = if leb c 57 then c - 48 else (if leb c 70 then c - 55 else c - 87)

unfoldable pub from_hex : ℕ → List ℕ → ℕ
from_hex acc [] = acc
from_hex acc (c ∷ cs) = from_hex (acc * 16 + hex_value c) cs

-- `u16::from_str_radix(value, 16)`, of a text of hexadecimal digits.
unfoldable pub from_str_radix : List ℕ → Result ℕ
unfolding from_hex
from_str_radix value =
    if ltb (from_hex 0 value) (2 ^ 16)
    then ok (from_hex 0 value)
    else err (message "number too large to fit in target type")

-- `value.bytes().all(|byte| byte.is_ascii_hexdigit())`
unfoldable pub all_hex : List ℕ → Bool
all_hex value = all is_hex_digit value

unfoldable pub usb_id : List ℕ → Result ℕ
usb_id value = do
  refuse (not (length value == 4) || not (all_hex value))
      (message "USB ID must have four hexadecimal digits")
  from_str_radix value

-- A filter may be given once: `selected.is_some()` or `replace(..).is_some()` refuses a second value.
unfoldable pub set_once : {A : Type 0} → Option A → A → Error → Result (Option A)
set_once none a e = ok (some a)
set_once (some b) a e = err e

unfoldable pub set_vendor : Options → List ℕ → Result Options
unfolding set_once
set_vendor o value = do
  id ← usb_id value
  vendor ← set_once o.filter.vendor id (message "duplicate USB ID filter")
  ok (record o { filter = record (o.filter) { vendor = vendor } })

unfoldable pub set_product : Options → List ℕ → Result Options
unfolding set_once
set_product o value = do
  id ← usb_id value
  product ← set_once o.filter.product id (message "duplicate USB ID filter")
  ok (record o { filter = record (o.filter) { product = product } })

unfoldable pub set_serial : Options → List ℕ → Result Options
unfolding set_once
set_serial o value = do
  refuse (length value == 0 || ltb 128 (length value) || not (all is_graphic value))
      (message "serial must be 1-128 printable ASCII characters")
  serial ← set_once o.filter.serial value (message "duplicate serial filter")
  ok (record o { filter = record (o.filter) { serial = serial } })

unfoldable pub is_devices : Mode → Bool
is_devices devices = true
is_devices _ = false

-- `--show-serial`, the one argument that takes no value, or else an unknown argument.
unfoldable pub set_flag : Options → List ℕ → Result Options
set_flag o arg =
    if text_eq arg (codes "--show-serial") && is_devices o.mode
    then ok (record o { show_serial = true })
    else err (message_with "unknown argument: {}" arg)

-- The loop over the arguments behind the mode; the first clause but one has no value to take.
unfoldable pub parse_arguments : Options → List (List ℕ) → Result Options
parse_arguments o [] = ok o
parse_arguments o (arg ∷ []) =
    if text_eq arg (codes "--vendor") || text_eq arg (codes "--product")
    then err (message "USB ID needs four hexadecimal digits")
    else (if text_eq arg (codes "--serial")
        then err (message "--serial needs a value")
        else set_flag o arg)
parse_arguments o (arg ∷ value ∷ rest) =
    let vendor = set_vendor o value >>= λ o'. parse_arguments o' rest in
    let product = set_product o value >>= λ o'. parse_arguments o' rest in
    let serial = set_serial o value >>= λ o'. parse_arguments o' rest in
    let flag = set_flag o arg >>= λ o'. parse_arguments o' (value ∷ rest) in
    if text_eq arg (codes "--vendor")
    then vendor
    else (if text_eq arg (codes "--product")
        then product
        else (if text_eq arg (codes "--serial") then serial else flag))

abbrev pub any_device : Filter
any_device = record { vendor = none; product = none; serial = none }

-- `Options::parse`
unfoldable pub parse : List (List ℕ) → Result Options
unfolding parse_mode parse_arguments set_vendor set_product set_serial set_flag usb_id
    from_str_radix hex_value is_devices all_hex
parse [] = ok (record { mode = help; filter = any_device; show_serial = false })
parse (first ∷ rest) = do
  mode ← parse_mode first
  parse_arguments (record { mode = mode; filter = any_device; show_serial = false }) rest
