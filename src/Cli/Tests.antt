-- ===== src/Cli/Tests.antt =====
-- A command line, and the one that the supervisor makes of it again.
use galaxybridge.Prelude.{ℕ, ◌≡◌, false, List, [], ◌∷◌, none, some, ok, refl, codes, text_eq}
use galaxybridge.Usb.Devices.{Filter}
use galaxybridge.Cli.{
  connect, Options, parse, parse_arguments, parse_mode, set_vendor, set_product, set_serial,
  set_flag, set_once, usb_id, all_hex, from_str_radix, from_hex, hex_value,
}
use galaxybridge.Cli.Accepted.{IsAccepted, parse-IsAccepted}
use galaxybridge.Macos.Context.{
  create, filter_arguments, id_arguments, serial_arguments, hex4, hex_digit,
}
use galaxybridge.Macos.Context.RoundTrip.{parse-create-parse}

abbrev arguments : List (List ℕ)
arguments = codes "connect" ∷ codes "--serial" ∷ codes "R5" ∷ codes "--vendor" ∷ codes "04E8" ∷ []

abbrev chosen : Filter
chosen = record { vendor = some 0x04e8; product = none; serial = some (codes "R5") }

abbrev selected : Options
selected = record { mode = connect; filter = chosen; show_serial = false }

-- The order and the letters that the supervisor writes.
abbrev again : List (List ℕ)
again = codes "connect" ∷ codes "--vendor" ∷ codes "04e8" ∷ codes "--serial" ∷ codes "R5" ∷ []

parses : parse arguments ≡ ok selected
unfolding parse parse_arguments parse_mode set_vendor set_product set_serial set_flag set_once
    usb_id all_hex from_str_radix from_hex hex_value text_eq
parses = refl

creates : create connect chosen ≡ ok again
unfolding create filter_arguments id_arguments serial_arguments hex4 hex_digit
creates = refl

parse-IsAccepted_example : IsAccepted selected
parse-IsAccepted_example = parse-IsAccepted arguments selected parses

parse-create-parse_example : parse again ≡ ok selected
parse-create-parse_example = parse-create-parse arguments again selected parses creates
