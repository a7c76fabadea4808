-- ===== src/Usb/Layout/Walk.antt =====
-- The walk over the descriptors: what it accepts, and that it ends without an index out of range.
use galaxybridge.Prelude.{
  ℕ, zero, suc, ◌+◌, ◌≤◌, ◌<◌, ◌≡◌, sym, false, inl, inr, ◌⊎◌, List, [], ◌∷◌, ◌++◌, arith, ok, any,
  byte_at, length, take, drop, All, value_or, Result-cases, take-append-drop, length-take,
  All-append,
}
use galaxybridge.Usb.Layout.Chain.{least_length, Range, overlaps, associate, take_descriptor, walk}

-- A descriptor announces its own length, and is as long as its type needs.
pub record IsDescriptor (d : List ℕ) : Type 0 where
  pub announced : byte_at d 0 ≡ ok (length d)
  pub two : 2 ≤ length d
  pub kind : ℕ
  pub kind_byte : byte_at d 1 ≡ ok kind
  pub long : least_length kind ≤ length d

-- The bytes are descriptors from the first to the last.
pub data Chain : List ℕ → List (List ℕ) → Type 0 where
  end : Chain [] []
  link :
      {bytes rest : List ℕ} {ds : List (List ℕ)} (d : List ℕ)
      → bytes ≡ d ++ rest
      → IsDescriptor d
      → Chain rest ds
      → Chain bytes (d ∷ ds)

-- No two functions share an interface, and each has at least one, numbered below 256.
abbrev pub IsApart : Range → Range → Type 0
IsApart r s = (r.end ≤ s.first) ⊎ (s.end ≤ r.first)

abbrev pub IsRange : Range → Type 0
IsRange r = (r.first < r.end) × (r.end ≤ 256)

abbrev pub Disjoint : List Range → Type 0
Disjoint [] = Unit {0}
Disjoint (r ∷ rs) = IsRange r × All (IsApart r) rs × Disjoint rs

record Taken (total : ℕ) (rest : List ℕ) (before after : List Range) (rest' : List ℕ)
    (size kind : ℕ) : Type 0 where
  size_byte : byte_at rest 0 ≡ ok size
  kind_byte : byte_at (take size rest) 1 ≡ ok kind
  two : 2 ≤ size
  inside : size ≤ length rest
  long : least_length kind ≤ length (take size rest)
  result : rest' ≡ drop size rest
  associations : (after ≡ before) ⊎ (associate (take size rest) before ≡ ok after)

abbrev pub size_of : List ℕ → ℕ
size_of rest = value_or 0 (byte_at rest 0)

take_descriptor-Taken :
    (total : ℕ) (rest : List ℕ) (before after : List Range) (rest' : List ℕ)
    → take_descriptor total rest before ≡ ok (after, rest')
    → Taken total rest before after rest'
        (size_of rest)
        (value_or 0 (byte_at (take (size_of rest) rest) 1))
unfolding take_descriptor
take_descriptor-Taken total rest before after rest' e = ground arith

pub byte_at-take :
    (n k v : ℕ) (bs : List ℕ) → k < n → byte_at bs k ≡ ok v → byte_at (take n bs) k ≡ ok v
unfolding byte_at
byte_at-take n k v [] h e = absurd (cc)
byte_at-take zero k v (b ∷ bs) h e = absurd (omega arith)
byte_at-take (suc n) zero v (b ∷ bs) h e = e
byte_at-take (suc n) (suc k) v (b ∷ bs) h e = byte_at-take n k v bs (omega arith) e

Taken-IsDescriptor :
    (total : ℕ) (rest : List ℕ) (before after : List Range) (rest' : List ℕ) (size kind : ℕ)
    → Taken total rest before after rest' size kind
    → (rest ≡ take size rest ++ rest') × IsDescriptor (take size rest)
Taken-IsDescriptor total rest before after rest' size kind t =
    let whole : length (take size rest) ≡ size = omega (arith, length-take size rest, t.inside) in
    (
      rw t.result (sym (take-append-drop size rest)),
      record {
        announced = rw whole (byte_at-take size 0 size rest (omega arith) t.size_byte);
        two = omega arith;
        kind = kind;
        kind_byte = t.kind_byte;
        long = t.long;
      },
    )

apart :
    (rs : List Range) (r : Range)
    → any (overlaps r) rs ≡ false
    → IsRange r
    → All (λ s. IsApart s r) rs
apart [] r e h = tt
apart (s ∷ rs) r e h = (ground arith, apart rs r (ground arith) h)

Disjoint-append :
    (rs : List Range) (r : Range)
    → Disjoint rs
    → IsRange r
    → All (λ s. IsApart s r) rs
    → Disjoint (rs ++ (r ∷ []))
Disjoint-append [] r d h a = (h, tt, tt)
Disjoint-append (s ∷ rs) r (own, apart_s, d) h (a, others) =
    (own, All-append (IsApart s) rs (r ∷ []) apart_s (a, tt), Disjoint-append rs r d h others)

-- The interfaces that an association descriptor names.
abbrev range_of : List ℕ → Range
range_of d = record {
  first = value_or 0 (byte_at d 2);
  end = value_or 0 (byte_at d 2) + value_or 0 (byte_at d 3);
}

associate_lem :
    (d : List ℕ) (before after : List Range)
    → associate d before ≡ ok after
    → IsRange (range_of d)
      × (any (overlaps (range_of d)) before ≡ false)
      × (after ≡ before ++ (range_of d ∷ []))
unfolding associate
associate_lem d before after e = ground arith

associate-Disjoint :
    (d : List ℕ) (before after : List Range)
    → associate d before ≡ ok after
    → Disjoint before
    → Disjoint after
associate-Disjoint d before after e h =
    let (range, clear, eq) = associate_lem d before after e in
    rw eq (Disjoint-append before (range_of d) h range (apart before (range_of d) clear range))

-- A step that succeeds has split one descriptor off.
pub take_descriptor-link :
    (total : ℕ) (rest : List ℕ) (before after : List Range) (rest' : List ℕ)
    → take_descriptor total rest before ≡ ok (after, rest')
    → (rest ≡ take (size_of rest) rest ++ rest') × IsDescriptor (take (size_of rest) rest)
take_descriptor-link total rest before after rest' e =
    Taken-IsDescriptor _ _ _ _ _ _ _ (take_descriptor-Taken total rest before after rest' e)

take_descriptor-Disjoint :
    (total : ℕ) (rest : List ℕ) (before after : List Range) (rest' : List ℕ)
    → take_descriptor total rest before ≡ ok (after, rest')
    → Disjoint before
    → Disjoint after
take_descriptor-Disjoint total rest before after rest' e h =
    elim ((take_descriptor-Taken total rest before after rest' e).associations) [
      | inl same ↦ rw same h
      | inr more ↦ associate-Disjoint _ before after more h
    ]

-- For a walk over descriptor bytes that succeeds from associations that are disjoint: the bytes are
-- a chain of whole descriptors, each as long as it says and as its type needs, and the resulting
-- associations are disjoint ranges of interface numbers below 256.
pub walk-Chain :
    (fuel total : ℕ) (rest : List ℕ) (before after : List Range)
    → walk fuel total rest before ≡ ok after
    → Disjoint before
    → ((ds : List (List ℕ)) × Chain rest ds) × Disjoint after
unfolding walk
walk-Chain fuel total [] before after e h =
    (([], end), (let e' : before ≡ after = cc in rw (← e') h))
walk-Chain zero total (b ∷ bs) before after e h = absurd (cc)
walk-Chain (suc fuel) total (b ∷ bs) before after e h =
    elim (Result-cases (take_descriptor total (b ∷ bs) before)) [
      | inr (x, t) ↦ absurd (ground arith)
      | inl ((found, rest), t) ↦
          let (shape, d) = take_descriptor-link total (b ∷ bs) before found rest t in
          let ((ds, chain), apart_all) =
            walk-Chain fuel total rest found after (ground arith)
              (take_descriptor-Disjoint total (b ∷ bs) before found rest t h) in
          ((_, link _ shape d chain), apart_all)
    ]
