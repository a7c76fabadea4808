-- ===== src/Macos/Bundle/Trusted.antt =====
-- What a bundle that `Bundle::check` of src/macos/worker_app.rs accepts fulfils.
use mathlib.Core.Path.{subst}
use galaxybridge.Prelude.{
  ℕ, ◌≡◌, ◌∙◌, List, [], ◌∷◌, Result, ok, bind-ok, codes, text_eq_iff, ap, All, arith, trim, refl,
  is_empty,
}
use galaxybridge.Macos.Entitlements.Tags.{IsPolicy}
use galaxybridge.Macos.Entitlements.Policy.{check-IsPolicy}
use galaxybridge.Macos.Bundle.{
  System, bundle, executable, ancestors, ancestors_from, directory_at, each, files, in_bundle,
  verify_arguments, verify, info, extract_arguments, check_info, entitlements_arguments, check,
}

abbrev pub Passes : {A : Type 0} → (A → Result (Unit {0})) → List A → Type 0
Passes f xs = All (λ x. f x ≡ ok tt) xs

-- A command prints a text.
abbrev pub Prints : System → List ℕ → List (List ℕ) → List ℕ → Type 0
Prints s path args out = s.text path args ≡ ok out

-- `codesign` accepts what stands at a path, with these very arguments.
abbrev pub Signed : System → List ℕ → Type 0
Signed s target =
    (out : List ℕ) × Prints s (codes "/usr/bin/codesign")
      (codes "--verify"
        ∷ codes "--strict"
        ∷ codes "--deep"
        ∷ codes "-R"
        ∷ codes "=identifier \"io.galaxybridge.usb-worker\""
        ∷ target
        ∷ [])
      out

-- `plutil` prints the value of a field of the description.
abbrev pub Described : System → List ℕ → List ℕ → Type 0
Described s key expected =
    Prints s (codes "/usr/bin/plutil")
      (codes "-extract"
        ∷ key
        ∷ codes "raw"
        ∷ codes "-o"
        ∷ codes "-"
        ∷ codes "/Library/PrivilegedHelperTools/io.galaxybridge/USBWorker.app/Contents/Info.plist"
        ∷ [])
      expected

-- The directories above the program, from the nearest to the root.
abbrev pub above : List (List ℕ)
above =
    codes "/Library/PrivilegedHelperTools/io.galaxybridge/USBWorker.app/Contents/MacOS"
    ∷ codes "/Library/PrivilegedHelperTools/io.galaxybridge/USBWorker.app/Contents"
    ∷ codes "/Library/PrivilegedHelperTools/io.galaxybridge/USBWorker.app"
    ∷ codes "/Library/PrivilegedHelperTools/io.galaxybridge"
    ∷ codes "/Library/PrivilegedHelperTools"
    ∷ codes "/Library"
    ∷ codes "/"
    ∷ []

-- The paths, the modes (493 is 0o755 and 420 is 0o644), the arguments and the values are written out.
pub record IsTrustedBundle (s : System) : Type 0 where
  pub directories : Passes s.directory above
  pub program :
      s.file
        (codes
          "/Library/PrivilegedHelperTools/io.galaxybridge/USBWorker.app/Contents/MacOS/galaxybridge-usb")
        493
      ≡ ok tt
  pub description :
      s.file
        (codes "/Library/PrivilegedHelperTools/io.galaxybridge/USBWorker.app/Contents/Info.plist")
        420
      ≡ ok tt
  pub resources :
      s.file
        (codes
          "/Library/PrivilegedHelperTools/io.galaxybridge/USBWorker.app/Contents/_CodeSignature/CodeResources")
        420
      ≡ ok tt
  pub signatures :
      s.directory (
        codes
          "/Library/PrivilegedHelperTools/io.galaxybridge/USBWorker.app/Contents/_CodeSignature")
      ≡ ok tt
  pub signed_bundle :
      Signed s (codes "/Library/PrivilegedHelperTools/io.galaxybridge/USBWorker.app")
  pub signed_program : Signed s (
      codes
        "/Library/PrivilegedHelperTools/io.galaxybridge/USBWorker.app/Contents/MacOS/galaxybridge-usb")
  pub identifier : Described s (codes "CFBundleIdentifier") (codes "io.galaxybridge.usb-worker")
  pub program_name : Described s (codes "CFBundleExecutable") (codes "galaxybridge-usb")
  pub package_type : Described s (codes "CFBundlePackageType") (codes "APPL")
  pub entitled :
      (out : List ℕ) × Prints s
        (codes "/usr/bin/codesign")
        (codes "-d"
          ∷ codes "--entitlements"
          ∷ codes "-"
          ∷ codes "--xml"
          ∷ codes
              "/Library/PrivilegedHelperTools/io.galaxybridge/USBWorker.app/Contents/MacOS/galaxybridge-usb"
          ∷ [])
        out
      × IsPolicy (trim out)

ancestors-above : ancestors executable ≡ above
unfolding ancestors ancestors_from directory_at is_empty
ancestors-above = refl

each-Passes :
    {A : Type 0} (f : A → Result (Unit {0})) (xs : List A) → each f xs ≡ ok tt → Passes f xs
unfolding each
each-Passes f [] e = tt
each-Passes f (x ∷ xs) e =
    let (u, first, later) = bind-ok (f x) _ tt e in (first, each-Passes f xs later)

verify-Signed : (s : System) (target : List ℕ) → verify s target ≡ ok tt → Signed s target
unfolding verify
verify-Signed s target e =
    let (out, printed, f) = bind-ok (s.text _ (verify_arguments target)) _ tt e in (out, printed)

check_info-Described :
    (s : System) (key expected : List ℕ)
    → check_info s (key, expected) ≡ ok tt
    → Described s key expected
unfolding check_info
check_info-Described s key expected e =
    let (value, printed, f) = bind-ok (s.text _ (extract_arguments key)) _ tt e in
    let same : value ≡ expected = (text_eq_iff value expected).0 (ground (arith, f)) in
    printed ∙ ap ok same

-- For the file checks and the commands of the system: when `Bundle::check` accepts the bundle, the
-- seven directories above the program up to the root passed the check of a directory, the program
-- that of a file of mode 0o755, its description and the resources of its signature that of a file
-- of mode 0o644, and the directory of its signature that of a directory; `codesign` verified the
-- bundle and the program, strictly, deeply and for the identifier io.galaxybridge.usb-worker;
-- `plutil` printed the expected identifier, program name and package type from the description; and
-- the entitlements of the program that `codesign` printed are a dictionary of exactly the sandbox
-- and the access to USB devices.
pub check-IsTrustedBundle : (s : System) → check s ≡ ok tt → IsTrustedBundle s
unfolding check
check-IsTrustedBundle s e =
    let (u1, e1, f1) = bind-ok (each s.directory (ancestors executable)) _ tt e in
    let (u2, e2, f2) = bind-ok (each (λ f. s.file (in_bundle f.0) f.1) files) _ tt f1 in
    let (u3, e3, f3) =
      bind-ok (s.directory (in_bundle (codes "Contents/_CodeSignature"))) _ tt f2 in
    let (u4, e4, f4) =
      bind-ok (each (λ target. verify s target) (bundle ∷ executable ∷ [])) _ tt f3 in
    let (u5, e5, f5) = bind-ok (each (λ i. check_info s i) info) _ tt f4 in
    let (out, e6, f6) =
      bind-ok (s.text (codes "/usr/bin/codesign") entitlements_arguments) _ tt f5 in
    let checked = each-Passes (λ f. s.file (in_bundle f.0) f.1) files e2 in
    let verified = each-Passes (λ t. verify s t) (bundle ∷ executable ∷ []) e4 in
    let read = each-Passes (λ i. check_info s i) info e5 in
    record {
      directories =
          subst (λ ds. Passes s.directory ds) ancestors-above
            (each-Passes s.directory (ancestors executable) e1);
      program = checked.0;
      description = checked.1.0;
      resources = checked.1.1.0;
      signatures = e3;
      signed_bundle = verify-Signed s bundle verified.0;
      signed_program = verify-Signed s executable verified.1.0;
      identifier = check_info-Described s _ _ read.0;
      program_name = check_info-Described s _ _ read.1.0;
      package_type = check_info-Described s _ _ read.1.1.0;
      entitled = (out, e6, check-IsPolicy out f6);
    }
