-- ===== src/Macos/Bpf.antt =====
-- src/macos/bpf.rs: Ethernet frames at the BPF device. Native byte order is little-endian, as on
-- Apple Silicon; the device file itself is a parameter.
pub mod Records
pub mod Decode
use galaxybridge.Prelude.{
  ℕ, zero, suc, ◌+◌, ◌-◌, ◌*◌, ◌/◌, Bool, true, false, ◌&&◌, ◌||◌, not, List, [], ◌∷◌, ◌++◌, Option,
  none, some, Result, ok, err, Error, message, out_of_fuel, ◌>>=◌, ◌>>◌, refuse, ok_or, checked_add,
  get_range, drop, length, ◌==◌, ltb, leb, if◌then◌else◌, within,
}
use galaxybridge.Rndis.Wire.{from_le_bytes}
use galaxybridge.Rndis.Packet.{frame_limit}

-- `matches!(bytes.get(12..14), Some([0x08, 0x00] | [0x08, 0x06]))`
unfoldable pub is_ipv4_or_arp : Option (List ℕ) → Bool
is_ipv4_or_arp (some (a ∷ b ∷ [])) = a == 0x08 && (b == 0x00 || b == 0x06)
is_ipv4_or_arp _ = false

-- `Frame::permits`
unfoldable pub permits : List ℕ → Bool
unfolding is_ipv4_or_arp get_range
permits bytes = within 14 frame_limit (length bytes) && is_ipv4_or_arp (get_range bytes 12 14)

-- `Device::write`; `file_write` is the write of the device file, which returns the bytes it took.
unfoldable pub write : (List ℕ → Result ℕ) → List ℕ → Result (Unit {0})
write file_write frame = do
  refuse (not (permits frame)) (message "unsupported Ethernet frame")
  written ← file_write frame
  refuse (not (written == length frame)) (message "short BPF packet write")

-- The offsets that the C side reports, as `usize`.
pub record Layout : Type 0 where
  pub capture : ℕ
  pub original : ℕ
  pub header : ℕ
  pub alignment : ℕ

-- `T::from_ne_bytes(bytes.get(offset..offset + size)?)`
unfoldable pub field : List ℕ → ℕ → ℕ → Error → Result ℕ
unfolding get_range from_le_bytes
field bytes offset size e = do
  word ← ok_or (get_range bytes offset (offset + size)) e
  ok (from_le_bytes word)

-- The body of the loop of `Batch::decode`: the frame of the first record, and where it ends.
unfoldable pub take_record : Layout → List ℕ → Result (List ℕ × ℕ)
take_record layout bytes = do
  caplen ← field bytes layout.capture 4 (message "truncated BPF capture length")
  datalen ← field bytes layout.original 4 (message "truncated BPF data length")
  hdrlen ← field bytes layout.header 2 (message "truncated BPF header length")
  refuse
      (ltb hdrlen (layout.header + 2)
        || not (caplen == datalen)
        || not (within 14 frame_limit caplen))
      (message "invalid or truncated BPF frame")
  end ← ok_or (checked_add hdrlen caplen) (message "BPF length overflow")
  frame ← ok_or (get_range bytes hdrlen end) (message "BPF frame outside read buffer")
  ok (frame, end)

-- `bytes.get(next..)`, where `next` is `end` rounded up to the alignment, a power of two.
unfoldable pub skip_padding : Layout → List ℕ → ℕ → Result (List ℕ)
unfolding checked_add
skip_padding layout bytes end = do
  above ← ok_or (checked_add end (layout.alignment - 1)) (message "BPF alignment overflow")
  let next = above / layout.alignment * layout.alignment
  refuse (ltb (length bytes) next) (message "invalid BPF padding")
  ok (drop next bytes)

unfoldable pub decode_loop : ℕ → Layout → List ℕ → List (List ℕ) → Result (List (List ℕ))
decode_loop fuel layout [] frames = ok frames
decode_loop zero layout (b ∷ bs) frames = err out_of_fuel
decode_loop (suc fuel) layout (b ∷ bs) frames = take_record layout (b ∷ bs) >>= λ r.
    let frames' = frames ++ (r.0 ∷ []) in
    let more = skip_padding layout (b ∷ bs) r.1 >>= λ rest. decode_loop fuel layout rest frames' in
    if r.1 == length (b ∷ bs) then ok frames' else more

-- `Batch::decode`. A record takes 16 bytes at least, so one round for each byte is enough.
unfoldable pub decode : List ℕ → Layout → Result (List (List ℕ))
unfolding decode_loop
decode bytes layout = do
  refuse
      (not (layout.alignment == 4)
        || ltb 64 layout.header
        || ltb 64 layout.capture
        || ltb 64 layout.original)
      (message "unsupported BPF header layout")
  decode_loop (length bytes) layout bytes []
