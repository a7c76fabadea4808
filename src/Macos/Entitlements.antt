-- ===== src/Macos/Entitlements.antt =====
-- src/macos/worker_app.rs: the entitlements that codesign(1) prints of the worker's bundle, and the
-- checks of the bundle. The files and the commands of the system are parameters.
pub mod Policy
pub mod Tags
use galaxybridge.Prelude.{
  ℕ, ◌≡◌, Bool, true, false, ◌&&◌, ◌||◌, not, List, [], ◌∷◌, ◌++◌, Option, none, some, Result, ok,
  err, Error, message, ◌>>=◌, ◌>>◌, refuse, ok_or, codes, text_eq, if◌then◌else◌, trim, trim_start,
  strip_prefix, split_once,
}

abbrev pub xml_header : List ℕ
xml_header = codes "<?xml version=\"1.0\" encoding=\"UTF-8\"?>"

abbrev pub declaration : List ℕ → List ℕ
declaration scheme =
    codes "<!DOCTYPE plist PUBLIC \"-//Apple//DTD PLIST 1.0//EN\" \""
    ++ scheme
    ++ codes "://www.apple.com/DTDs/PropertyList-1.0.dtd\">"

-- `if let Some(rest) = text.strip_prefix(..) { text = rest.trim_start() }`
unfoldable pub skip : Option (List ℕ) → List ℕ → List ℕ
skip none text = text
skip (some rest) text = trim_start rest

-- The first of the two declarations that fits is skipped.
unfoldable pub skip_first : Option (List ℕ) → Option (List ℕ) → List ℕ → List ℕ
unfolding skip
skip_first none second text = skip second text
skip_first (some rest) second text = trim_start rest

unfoldable pub skip_declaration : List ℕ → List ℕ
unfolding skip_first
skip_declaration text =
    skip_first (strip_prefix (declaration (codes "https")) text)
      (strip_prefix (declaration (codes "http")) text) text

unfoldable pub skip_prologue : List ℕ → List ℕ
unfolding skip skip_declaration
skip_prologue text = skip_declaration (skip (strip_prefix xml_header text) text)

abbrev pub sandbox_key : List ℕ
sandbox_key = codes "com.apple.security.app-sandbox"

abbrev pub usb_key : List ℕ
usb_key = codes "com.apple.security.device.usb"

-- The variables of the loop.
pub record Seen : Type 0 where
  pub sandbox : Bool
  pub usb : Bool

unfoldable pub mark : List ℕ → Seen → Result Seen
mark key seen =
    if text_eq key sandbox_key && not seen.sandbox
    then ok (record seen { sandbox = true })
    else if text_eq key usb_key && not seen.usb
    then ok (record seen { usb = true })
    else err (message "unknown or duplicate USB worker entitlement")

-- One turn of the loop: the text behind an entry, and what was seen.
unfoldable pub entry : List ℕ → Seen → Result (List ℕ × Seen)
unfolding mark
entry text seen = do
  opened ← ok_or (strip_prefix (codes "<key>") text) (message "missing worker entitlement key")
  (key, rest) ←
      ok_or (split_once (codes "</key>") opened) (message "unterminated worker entitlement key")
  behind ←
      ok_or (strip_prefix (codes "<true/>") (trim_start rest))
        (message "worker entitlements must be true booleans")
  seen' ← mark key seen
  ok (trim_start behind, seen')

-- `Entitlements::check`
unfoldable pub check : List ℕ → Result (Unit {0})
unfolding skip_prologue entry
check text = do
  plist ←
      ok_or (strip_prefix (codes "<plist version=\"1.0\">") (skip_prologue (trim text)))
        (message "unrecognized worker entitlement plist")
  dict ←
      ok_or (strip_prefix (codes "<dict>") (trim_start plist))
        (message "worker entitlements must be a dictionary")
  (second, seen) ← entry (trim_start dict) (record { sandbox = false; usb = false })
  (last, seen') ← entry second seen
  closed ←
      ok_or (strip_prefix (codes "</dict>") last)
        (message "additional USB worker entitlements are forbidden")
  refuse
      (not seen'.sandbox || not seen'.usb || not (text_eq (trim_start closed) (codes "</plist>")))
      (message "USB worker sandbox policy is incomplete or malformed")
