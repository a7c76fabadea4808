-- ===== src/Macos/Context.antt =====
-- src/macos/context.rs: the re-entry of the supervisor in the worker's bootstrap context.
pub mod Enter
pub mod RoundTrip
use galaxybridge.Prelude.{
  ℕ, ◌+◌, ◌*◌, ◌/◌, ◌%◌, List, [], ◌∷◌, ◌++◌, Option, none, some, Result, ok, err, message, ◌>>=◌,
  ◌>>◌, refuse, not, text_eq, codes, ltb, if◌then◌else◌, ◌==◌,
}
use galaxybridge.Usb.Devices.{Filter}
use galaxybridge.Cli.{Mode, connect, daemon}

-- A lower-case hexadecimal digit, as a byte.
unfoldable pub hex_digit : ℕ → ℕ
hex_digit d = if ltb d 10 then 48 + d else 87 + d

-- `format!("{value:04x}")` of a 16-bit value.
unfoldable pub hex4 : ℕ → List ℕ
hex4 v =
    hex_digit (v / 4096 % 16)
    ∷ hex_digit (v / 256 % 16)
    ∷ hex_digit (v / 16 % 16)
    ∷ hex_digit (v % 16)
    ∷ []

unfoldable pub id_arguments : List ℕ → Option ℕ → List (List ℕ)
id_arguments flag none = []
id_arguments flag (some v) = flag ∷ hex4 v ∷ []

unfoldable pub serial_arguments : Option (List ℕ) → List (List ℕ)
serial_arguments none = []
serial_arguments (some s) = codes "--serial" ∷ s ∷ []

-- The arguments that select the devices of a filter.
unfoldable pub filter_arguments : Filter → List (List ℕ)
unfolding id_arguments serial_arguments
filter_arguments f =
    id_arguments (codes "--vendor") f.vendor
    ++ (id_arguments (codes "--product") f.product ++ serial_arguments f.serial)

-- `Arguments::create`
unfoldable pub create : Mode → Filter → Result (List (List ℕ))
create connect f = ok (codes "connect" ∷ filter_arguments f)
create daemon f = ok (codes "daemon" ∷ filter_arguments f)
create _ f = err (message "bootstrap entry is only for connect or daemon")

-- `Transition::check`; `own` is the decimal text of the process identifier.
unfoldable pub check : ℕ → ℕ → List ℕ → List ℕ → Result (Unit {0})
check uid manager expected own = do
  refuse (not (text_eq expected own))
      (message "launchctl asuser did not preserve the supervisor PID")
  refuse (not (manager == uid))
      (message "launchctl asuser did not enter the worker bootstrap context")
