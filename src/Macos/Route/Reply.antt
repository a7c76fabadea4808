-- ===== src/Macos/Route/Reply.antt =====
-- src/macos/route.rs, `Snapshot::parse` and `Reply::parse`: what route(8) prints of the default route.
pub mod Meaning
use mathlib.Core.Option
use galaxybridge.Prelude.{
  ℕ, ◌≡◌, ◌↔◌, refl, sym, ◌∙◌, ap, Bool, true, false, ◌&&◌, ◌||◌, not, List, [], ◌∷◌, Option, none,
  some, Result, ok, err, Error, message, ◌>>=◌, ◌>>◌, refuse, ok_or, all, codes, text_eq,
  text_eq_iff, is_digit, leb, ltb, if◌then◌else◌, Bool-cases, Option-cases, arith, from_utf8, trim,
  lines, strip_prefix, is_empty, text_len, parse_ipv4, bind-ok, ok_or-ok, ◌≤◌,
}
use galaxybridge.Macos.Command.{Output, Status, exited, signalled, success}
use galaxybridge.Macos.Route.{Snapshot}

-- `text.lines().find_map(|l| l.trim().strip_prefix(key))`
unfoldable pub find_key : List ℕ → List (List ℕ) → Option (List ℕ)
find_key key [] = none
find_key key (l ∷ ls) =
    let rest = find_key key ls in
    elim (strip_prefix key (trim l)) [ none ↦ rest | some value ↦ some value ]

unfoldable pub field : List ℕ → List ℕ → Option (List ℕ)
unfolding find_key
field key text = Option.map trim (find_key key (lines text))

abbrev pub is_alphanumeric : ℕ → Bool
is_alphanumeric c = is_digit c || (leb 65 c && leb c 90) || (leb 97 c && leb c 122)

unfoldable pub is_interface : List ℕ → Bool
is_interface name = not (is_empty name) && not (ltb 15 (text_len name)) && all is_alphanumeric name

-- `strip_prefix("link#").is_some_and(..)`
unfoldable pub is_link : Option (List ℕ) → Bool
is_link none = false
is_link (some n) = not (is_empty n) && all is_digit n

-- The snapshot, from the parsed gateway and the text behind `link#`.
unfoldable pub with_gateway : List ℕ → Option ℕ → Option (List ℕ) → Option Snapshot
unfolding is_link
with_gateway interface (some g) link = some (record { interface = interface; gateway = some g })
with_gateway interface none link =
    if is_link link then some (record { interface = interface; gateway = none }) else none

unfoldable pub with_interface : List ℕ → Option (List ℕ) → Option Snapshot
unfolding with_gateway
with_interface interface none = none
with_interface interface (some raw) =
    with_gateway interface (parse_ipv4 raw) (strip_prefix (codes "link#") raw)

unfoldable pub from_fields : Option (List ℕ) → Option (List ℕ) → Option Snapshot
unfolding with_interface is_interface
from_fields none gateway = none
from_fields (some interface) gateway =
    if is_interface interface then with_interface interface gateway else none

-- `Snapshot::parse`
unfoldable pub parse : List ℕ → Option Snapshot
unfolding field from_fields
parse text = from_fields (field (codes "interface:") text) (field (codes "gateway:") text)

abbrev pub not_in_table : List ℕ
not_in_table = codes "route: writing to routing socket: not in table"

-- `Reply::parse` on the trimmed texts.
unfoldable pub classify : List ℕ → List ℕ → Bool → Result (Option Snapshot)
unfolding parse
classify stdout stderr succeeded =
    if is_empty stdout && text_eq stderr not_in_table
    then ok none
    else if not succeeded || not (is_empty stderr)
    then err (message "cannot inspect default route; refusing routing changes")
    else ok_or (Option.map some (parse stdout))
        (message "unrecognized default route; refusing routing changes")

-- `Reply::parse`
unfoldable pub reply : Output → Result (Option Snapshot)
unfolding classify success
reply output = do
  stdout ← ok_or (from_utf8 output.stdout) (message "invalid utf-8 sequence")
  stderr ← ok_or (from_utf8 output.stderr) (message "invalid utf-8 sequence")
  classify (trim stdout) (trim stderr) (success output.status)
