-- ===== src/Macos/Bundle.antt =====
-- src/macos/worker_app.rs, `Bundle::check`: the files and the signature of the worker's bundle. The
-- checks of src/macos/access.rs and the commands of the system are a parameter.
pub mod Trusted
use galaxybridge.Prelude.{
  ℕ, ◌≡◌, List, [], ◌∷◌, ◌++◌, Result, ok, err, message, ◌>>=◌, ◌>>◌, refuse, not, codes, text_eq,
  if◌then◌else◌, is_empty, ◌==◌, All, refl,
}
use galaxybridge.Macos.Entitlements

-- `TrustedPath::directory`, `TrustedPath::file` with a mode, and `command::text`.
pub record System : Type 0 where
  pub directory : List ℕ → Result (Unit {0})
  pub file : List ℕ → ℕ → Result (Unit {0})
  pub text : List ℕ → List (List ℕ) → Result (List ℕ)

abbrev pub bundle : List ℕ
bundle = codes "/Library/PrivilegedHelperTools/io.galaxybridge/USBWorker.app"

abbrev pub executable : List ℕ
executable =
    codes
      "/Library/PrivilegedHelperTools/io.galaxybridge/USBWorker.app/Contents/MacOS/galaxybridge-usb"

-- A directory in front of the ones above it: `before` is what stands before the slash.
unfoldable pub directory_at : List ℕ → List ℕ
unfolding is_empty
directory_at before = if is_empty before then codes "/" else before

-- `Path::ancestors` of an absolute path, without the path itself.
unfoldable pub ancestors_from : List ℕ → List ℕ → List (List ℕ)
unfolding directory_at
ancestors_from before [] = []
ancestors_from before (c ∷ cs) =
    let deeper = ancestors_from (before ++ (c ∷ [])) cs in
    if c == 47 then deeper ++ (directory_at before ∷ []) else deeper

unfoldable pub ancestors : List ℕ → List (List ℕ)
unfolding ancestors_from
ancestors path = ancestors_from [] path

-- A `for` loop whose body may return an error.
unfoldable pub each {ℓ} : {A : Type ℓ} → (A → Result (Unit {0})) → List A → Result (Unit {0})
each body [] = ok tt
each body (a ∷ as') = do body a; each body as'

-- The modes are 0o755 and 0o644.
abbrev pub files : List (List ℕ × ℕ)
files =
    (codes "Contents/MacOS/galaxybridge-usb", 0x1ed)
    ∷ (codes "Contents/Info.plist", 0x1a4)
    ∷ (codes "Contents/_CodeSignature/CodeResources", 0x1a4)
    ∷ []

-- `Path::join` of a relative path.
abbrev pub in_bundle : List ℕ → List ℕ
in_bundle relative = bundle ++ (47 ∷ relative)

abbrev pub verify_arguments : List ℕ → List (List ℕ)
verify_arguments target =
    codes "--verify"
    ∷ codes "--strict"
    ∷ codes "--deep"
    ∷ codes "-R"
    ∷ codes "=identifier \"io.galaxybridge.usb-worker\""
    ∷ target
    ∷ []

unfoldable pub verify : System → List ℕ → Result (Unit {0})
verify s target = do verified ← s.text (codes "/usr/bin/codesign") (verify_arguments target); ok tt

abbrev pub info : List (List ℕ × List ℕ)
info =
    (codes "CFBundleIdentifier", codes "io.galaxybridge.usb-worker")
    ∷ (codes "CFBundleExecutable", codes "galaxybridge-usb")
    ∷ (codes "CFBundlePackageType", codes "APPL")
    ∷ []

abbrev pub extract_arguments : List ℕ → List (List ℕ)
extract_arguments key =
    codes "-extract"
    ∷ key
    ∷ codes "raw"
    ∷ codes "-o"
    ∷ codes "-"
    ∷ in_bundle (codes "Contents/Info.plist")
    ∷ []

unfoldable pub check_info : System → List ℕ × List ℕ → Result (Unit {0})
check_info s (key, expected) = do
  value ← s.text (codes "/usr/bin/plutil") (extract_arguments key)
  refuse (not (text_eq value expected)) (message "USB worker bundle field is incorrect: {key}")

abbrev pub entitlements_arguments : List (List ℕ)
entitlements_arguments =
    codes "-d" ∷ codes "--entitlements" ∷ codes "-" ∷ codes "--xml" ∷ executable ∷ []

-- `Bundle::check`
unfoldable pub check : System → Result (Unit {0})
unfolding each ancestors verify check_info Entitlements.check
check s = do
  each s.directory (ancestors executable)
  each (λ f. s.file (in_bundle f.0) f.1) files
  s.directory (in_bundle (codes "Contents/_CodeSignature"))
  each (λ target. verify s target) (bundle ∷ executable ∷ [])
  each (λ i. check_info s i) info
  printed ← s.text (codes "/usr/bin/codesign") entitlements_arguments
  Entitlements.check printed
