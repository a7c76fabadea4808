-- ===== src/Rndis/Packet/Grammar.antt =====
-- What `decode` accepts, described without the decoder.
use galaxybridge.Prelude.{
  ℕ, ◌+◌, ◌-◌, ◌%◌, ◌≤◌, ◌≡◌, refl, List, [], ◌∷◌, ◌++◌, arith, ok, length, All, take, value_or,
  checked_add, get_range, drop, some, take-append-drop, length-take, sym, get_range_split,
  take-length_append, drop-length_append, length-append, get_range-middle, ◌<◌, ◌^◌,
}
use galaxybridge.Rndis.Wire.{u32_at, u32_at-front, u32_at-append}
use galaxybridge.Rndis.Packet.{header, frame_limit, metadata, no_metadata, take_message}

-- One packet message that carries one frame, byte for byte.
pub record IsPacket (msg frame : List ℕ) : Type 0 where
  pub before : List ℕ
  pub after : List ℕ
  pub shape : msg ≡ before ++ (frame ++ after)
  pub kind_word : u32_at msg 0 ≡ ok 1
  pub length_word : u32_at msg 4 ≡ ok (length msg)
  pub offset_word : u32_at msg 8 ≡ ok (length before - 8)
  pub size_word : u32_at msg 12 ≡ ok (length frame)
  pub plain : All (λ k. u32_at msg k ≡ ok 0) metadata
  pub beyond : header ≤ length before
  pub aligned : length before % 4 ≡ 0
  pub frame_min : 14 ≤ length frame
  pub frame_max : length frame ≤ frame_limit

-- A transfer is a row of packet messages, then nothing but zero bytes.
pub data Transfer : List ℕ → List (List ℕ) → Type 0 where
  padding : {bytes : List ℕ} → All (λ b. b ≡ 0) bytes → Transfer bytes []
  packet :
      {bytes rest frame : List ℕ} {frames : List (List ℕ)} (msg : List ℕ)
      → bytes ≡ msg ++ rest
      → IsPacket msg frame
      → Transfer rest frames
      → Transfer bytes (frame ∷ frames)

no_metadata-eq_ok :
    (offsets msg : List ℕ) {u : Unit {0}}
    → no_metadata offsets msg ≡ ok u
    → All (λ k. u32_at msg k ≡ ok 0) offsets
unfolding no_metadata
no_metadata-eq_ok [] msg e = tt
no_metadata-eq_ok (k ∷ ks) msg e = ground (arith, no_metadata-eq_ok ks msg)

no_metadata-ok :
    (offsets msg : List ℕ)
    → All (λ k. u32_at msg k ≡ ok 0) offsets
    → no_metadata offsets msg ≡ ok tt
unfolding no_metadata
no_metadata-ok [] msg h = refl
no_metadata-ok (k ∷ ks) msg h = ground (arith, no_metadata-ok ks msg h.1)

-- What the checks of one round establish, with the words that it reads.
record Taken (rest frame rest' : List ℕ) (len first size : ℕ) : Type 0 where
  kind_word : u32_at rest 0 ≡ ok 1
  length_word : u32_at rest 4 ≡ ok len
  fits : len ≤ length rest
  long : header ≤ len
  offset_word : u32_at (take len rest) 8 ≡ ok (first - 8)
  size_word : u32_at (take len rest) 12 ≡ ok size
  beyond : header ≤ first
  aligned : first % 4 ≡ 0
  size_min : 14 ≤ size
  size_max : size ≤ frame_limit
  plain : no_metadata metadata (take len rest) ≡ ok tt
  payload : get_range (take len rest) first (first + size) ≡ some frame
  after : drop len rest ≡ rest'

abbrev pub len_of : List ℕ → ℕ
len_of rest = value_or 0 (u32_at rest 4)

take_message-Taken :
    (offset : ℕ) (rest frame rest' : List ℕ)
    → take_message offset rest ≡ ok (frame, rest')
    → Taken rest frame rest'
        (len_of rest)
        (value_or 0 (u32_at (take (len_of rest) rest) 8) + 8)
        (value_or 0 (u32_at (take (len_of rest) rest) 12))
unfolding take_message checked_add
take_message-Taken offset rest frame rest' e = ground arith

Taken-IsPacket :
    (rest frame rest' : List ℕ) (len first size : ℕ)
    → Taken rest frame rest' len first size
    → (rest ≡ take len rest ++ rest') × IsPacket (take len rest) frame
Taken-IsPacket rest frame rest' len first size t =
    let msg = take len rest in
    let whole : msg ++ rest' ≡ rest = rw (← t.after) (take-append-drop len rest) in
    let len_msg : length msg ≡ len = omega (arith, length-take len rest) in
    let (before, after, shape, at, size_eq) =
      get_range_split msg first (first + size) frame t.payload in
    let size_frame : length frame ≡ size = omega arith in
    (
      sym whole,
      record {
        before = before;
        after = after;
        shape = shape;
        kind_word = u32_at-front msg rest' 0 1 (rw whole t.kind_word) (omega arith) (omega arith);
        length_word =
            rw len_msg
              (u32_at-front msg rest' 4 len (rw whole t.length_word) (omega arith) (omega arith));
        offset_word = rw at t.offset_word;
        size_word = rw size_frame t.size_word;
        plain = no_metadata-eq_ok metadata msg t.plain;
        beyond = omega arith;
        aligned = rw at t.aligned;
        frame_min = omega arith;
        frame_max = omega arith;
      },
    )

-- A round that succeeds has split a packet message off.
pub take_message-IsPacket :
    (offset : ℕ) (rest frame rest' : List ℕ)
    → take_message offset rest ≡ ok (frame, rest')
    → (msg : List ℕ) × (rest ≡ msg ++ rest') × IsPacket msg frame
take_message-IsPacket offset rest frame rest' e =
    let (shape, p) = Taken-IsPacket _ _ _ _ _ _ (take_message-Taken offset rest frame rest' e) in
    (_, shape, p)

-- And a round succeeds on every packet message.
pub take_message-packet :
    (offset : ℕ) (msg frame rest' : List ℕ)
    → IsPacket msg frame
    → length msg < 2 ^ 62
    → take_message offset (msg ++ rest') ≡ ok (frame, rest')
unfolding take_message checked_add
take_message-packet offset msg frame rest' p small = ground (
  arith,
  u32_at-append msg rest' 0 1 p.kind_word,
  u32_at-append msg rest' 4 (length msg) p.length_word,
  take-length_append msg rest',
  drop-length_append msg rest',
  length-append msg rest',
  no_metadata-ok metadata msg p.plain,
  get_range-middle p.before frame p.after,
  length-append p.before (frame ++ p.after),
  length-append frame p.after,
  p.shape,
)
