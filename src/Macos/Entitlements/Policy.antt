-- ===== src/Macos/Entitlements/Policy.antt =====
-- The texts that `Entitlements::check` of src/macos/worker_app.rs accepts.
use mathlib.Core.Path.{subst}
use galaxybridge.Prelude.{
  ℕ, ◌≡◌, ◌⊎◌, inl, inr, refl, sym, ◌∙◌, ap, true, false, ◌&&◌, ◌||◌, not, List, ◌++◌, ok, Error,
  ok_or, bind-ok, refuse, ok_or-ok, ok-injective, codes, text_eq, text_eq_iff, Bool-cases, arith,
  trim, trim_start, strip_prefix, split_once, append_assoc,
}
use galaxybridge.Macos.Entitlements.{
  xml_header, declaration, skip, skip_declaration, skip_prologue, sandbox_key, usb_key, Seen, mark,
  entry, check,
}
use galaxybridge.Macos.Entitlements.Tags.{
  After, Entry, IsPolicy, strip_prefix-some, trim_start-Blank, split_once-some, After-trimmed,
  skip-Perhaps, skip_first-Perhaps,
}

-- What an entry that is accepted says of the keys.
record Marked (key : List ℕ) (seen seen' : Seen) : Type 0 where
  known :
      ((key ≡ sandbox_key)
        × (seen.sandbox ≡ false)
        × (seen'.sandbox ≡ true)
        × (seen'.usb ≡ seen.usb))
      ⊎ ((key ≡ usb_key) × (seen.usb ≡ false) × (seen'.usb ≡ true) × (seen'.sandbox ≡ seen.sandbox))

mark-Marked : (key : List ℕ) (seen seen' : Seen) → mark key seen ≡ ok seen' → Marked key seen seen'
unfolding mark
mark-Marked key seen seen' e = elim (Bool-cases (text_eq key sandbox_key && not seen.sandbox)) [
  | inl first ↦
      let same = ok-injective (rw first at e) in
      record {
        known = inl (
          (text_eq_iff key sandbox_key).0 (ground arith),
          ground arith,
          ap (λ s. s.sandbox) (sym same),
          ap (λ s. s.usb) (sym same),
        );
      }
  | inr other ↦ elim (Bool-cases (text_eq key usb_key && not seen.usb)) [
    | inl second ↦
        let same = ok-injective (rw (other, second) at e) in
        record {
          known = inr (
            (text_eq_iff key usb_key).0 (ground arith),
            ground arith,
            ap (λ s. s.usb) (sym same),
            ap (λ s. s.sandbox) (sym same),
          );
        }
    | inr unknown ↦ absurd (cc (rw (other, unknown) at e))
  ]
]

joined :
    (k key k' white text opened rest rest' : List ℕ)
    → text ≡ k ++ opened
    → opened ≡ (key ++ k') ++ rest
    → rest ≡ white ++ rest'
    → text ≡ (k ++ (key ++ k')) ++ (white ++ rest')
joined k key k' white text opened rest rest' e f g =
    e ∙ ap (◌++◌ k) f ∙ sym (append_assoc k (key ++ k') rest) ∙ ap (◌++◌ (k ++ (key ++ k'))) g

record Step (text : List ℕ) (seen : Seen) (r : List ℕ × Seen) : Type 0 where
  key : List ℕ
  holds : Entry key text r.0
  marked : Marked key seen r.1

entry-Step :
    (text : List ℕ) (seen : Seen) (r : List ℕ × Seen) → entry text seen ≡ ok r → Step text seen r
unfolding entry
entry-Step text seen r e =
    let (opened, e1, f1) = bind-ok (ok_or (strip_prefix (codes "<key>") text) _) _ r e in
    let ((key, rest), e2, f2) = bind-ok (ok_or (split_once (codes "</key>") opened) _) _ r f1 in
    let (behind, e3, f3) =
      bind-ok (ok_or (strip_prefix (codes "<true/>") (trim_start rest)) _) _ r f2 in
    let (seen', e4, f4) = bind-ok (mark key seen) _ r f3 in
    let same = ok-injective f4 in
    let head : text ≡ codes "<key>" ++ opened =
      strip_prefix-some (codes "<key>") text opened (ok_or-ok _ _ opened e1) in
    let named : opened ≡ (key ++ codes "</key>") ++ rest =
      split_once-some (codes "</key>") opened (key, rest) (ok_or-ok _ _ (key, rest) e2) in
    let b = trim_start-Blank rest in
    rw (← same) (record {
      key = key;
      holds = record {
        behind_key = trim_start rest;
        named = record {
          white = b.white;
          whole =
              joined (codes "<key>") key (codes "</key>") b.white text opened rest (trim_start rest)
                head named b.whole;
          blank = b.blank;
        };
        is_true = After-trimmed (codes "<true/>") (trim_start rest) behind (ok_or-ok _ _ behind e3);
      };
      marked = mark-Marked key seen seen' e4;
    })

-- Two entries from the start on are the two keys, each once.
both_keys :
    (first second : List ℕ) (seen seen' : Seen)
    → Marked first (record { sandbox = false; usb = false }) seen
    → Marked second seen seen'
    → ((first ≡ sandbox_key) × (second ≡ usb_key)) ⊎ ((first ≡ usb_key) × (second ≡ sandbox_key))
both_keys first second seen seen' m m' = join m.known m'.known
  where
    join :
        ((first ≡ sandbox_key) × (false ≡ false) × (seen.sandbox ≡ true) × (seen.usb ≡ false))
          ⊎ ((first ≡ usb_key) × (false ≡ false) × (seen.usb ≡ true) × (seen.sandbox ≡ false))
        → ((second ≡ sandbox_key)
            × (seen.sandbox ≡ false)
            × (seen'.sandbox ≡ true)
            × (seen'.usb ≡ seen.usb))
          ⊎ ((second ≡ usb_key)
              × (seen.usb ≡ false)
              × (seen'.usb ≡ true)
              × (seen'.sandbox ≡ seen.sandbox))
        → ((first ≡ sandbox_key) × (second ≡ usb_key))
          ⊎ ((first ≡ usb_key) × (second ≡ sandbox_key))
    join (inl (a, x, t, f)) (inl (b, x', t', f')) = absurd (cc (t, x'))
    join (inl (a, x, t, f)) (inr (b, x', t', f')) = inl (a, b)
    join (inr (a, x, t, f)) (inl (b, x', t', f')) = inr (a, b)
    join (inr (a, x, t, f)) (inr (b, x', t', f')) = absurd (cc (t, x'))

ends :
    (seen : Seen) (t : List ℕ) (x : Error)
    → refuse (not seen.sandbox || not seen.usb || not (text_eq t (codes "</plist>"))) x ≡ ok tt
    → text_eq t (codes "</plist>") ≡ true
ends seen t x e = ground arith

-- For any text that `Entitlements::check` accepts: without the white space around it, the text is
-- the XML header if there is one, a document type if there is one, and a dictionary of two true
-- booleans and nothing else, the sandbox and the access to USB devices, each once, in either order,
-- with nothing but white space between the tags.
pub check-IsPolicy : (text : List ℕ) → check text ≡ ok tt → IsPolicy (trim text)
unfolding check skip_prologue skip_declaration
check-IsPolicy text e =
    let declared = skip (strip_prefix xml_header (trim text)) (trim text) in
    let (inside, e1, f1) =
      bind-ok (ok_or (strip_prefix (codes "<plist version=\"1.0\">") (skip_declaration declared)) _)
        _ tt e in
    let (dict, e2, f2) =
      bind-ok (ok_or (strip_prefix (codes "<dict>") (trim_start inside)) _) _ tt f1 in
    let (one, e3, f3) =
      bind-ok (entry (trim_start dict) (record { sandbox = false; usb = false })) _ tt f2 in
    let (two, e4, f4) = bind-ok (entry one.0 one.1) _ tt f3 in
    let (closed, e5, f5) = bind-ok (ok_or (strip_prefix (codes "</dict>") two.0) _) _ tt f4 in
    let first_step =
      entry-Step (trim_start dict) (record { sandbox = false; usb = false }) one e3 in
    let second_step = entry-Step one.0 one.1 two e4 in
    let end : trim_start closed ≡ codes "</plist>" =
      (text_eq_iff (trim_start closed) (codes "</plist>")).0
        (ends two.1 (trim_start closed) _ f5) in
    record {
      declared = declared;
      headed = skip-Perhaps xml_header (trim text) _ refl;
      plist = skip_declaration declared;
      typed =
          skip_first-Perhaps (declaration (codes "https")) (declaration (codes "http")) declared _
            refl;
      inside = trim_start inside;
      opened =
          After-trimmed (codes "<plist version=\"1.0\">") (skip_declaration declared) inside
            (ok_or-ok _ _ inside e1);
      first = trim_start dict;
      in_dict = After-trimmed (codes "<dict>") (trim_start inside) dict (ok_or-ok _ _ dict e2);
      first_key = first_step.key;
      second = one.0;
      first_entry = first_step.holds;
      second_key = second_step.key;
      last = two.0;
      second_entry = second_step.holds;
      closed =
          subst (After (codes "</dict>") two.0) end
            (After-trimmed (codes "</dict>") two.0 closed (ok_or-ok _ _ closed e5));
      both =
          both_keys first_step.key second_step.key one.1 two.1 first_step.marked second_step.marked;
    }
