-- ===== src/Macos/Bpf/Records.antt =====
-- What `Batch::decode` and `Frame::permits` accept.
use galaxybridge.Prelude.{
  ℕ, ◌+◌, ◌%◌, ◌≤◌, ◌<◌, ◌≡◌, ◌≢◌, ◌↔◌, ◌⊎◌, true, List, [], ◌∷◌, ◌++◌, some, arith, Option,
  get_range, drop, get_elem?, length,
}
use galaxybridge.Rndis.Wire.{from_le_bytes}
use mathlib.Core.Option
use mathlib.Core.Option.{get_or}
use galaxybridge.Rndis.Packet.{frame_limit}
use galaxybridge.Macos.Bpf.{Layout, permits}

-- For any bytes: `Frame::permits` holds exactly when they are 14 to 1514 and the type at offset 12
-- is IPv4 or ARP.
pub permits_iff :
    (bytes : List ℕ)
    → (permits bytes ≡ true) ↔ (
        (14 ≤ length bytes)
        × (length bytes ≤ frame_limit)
        × (get_elem? bytes 12 ≡ some 0x08)
        × ((get_elem? bytes 13 ≡ some 0x00) ⊎ (get_elem? bytes 13 ≡ some 0x06)))
unfolding permits
permits_iff (a ∷ b ∷ c ∷ d ∷ e ∷ f ∷ g ∷ h ∷ i ∷ j ∷ k ∷ l ∷ m ∷ n ∷ r) =
    (λ x. ground arith, λ x. ground arith)
permits_iff _ = (λ x. ground arith, λ x. ground arith)

-- The number in the bytes of a field, where the field is there.
abbrev pub read : List ℕ → ℕ → ℕ → Option ℕ
read bytes offset size = Option.map from_le_bytes (get_range bytes offset (offset + size))

-- The first record of `bytes`: its header, in which both lengths agree, then the frame, up to `end`.
pub record IsRecord (layout : Layout) (bytes frame : List ℕ) (end : ℕ) : Type 0 where
  pub head : List ℕ
  pub tail : List ℕ
  pub shape : bytes ≡ head ++ (frame ++ tail)
  pub end_at : length frame + length head ≡ end
  pub capture_word : read bytes layout.capture 4 ≡ some (length frame)
  pub original_word : read bytes layout.original 4 ≡ some (length frame)
  pub header_word : read bytes layout.header 2 ≡ some (length head)
  pub header_min : layout.header + 2 ≤ length head
  pub frame_min : 14 ≤ length frame
  pub frame_max : length frame ≤ frame_limit

-- Records one after another, each at the first multiple of 4 behind the one before; the last may
-- end without its padding.
pub data Batch (layout : Layout) : List ℕ → List (List ℕ) → Type 0 where
  done : Batch layout [] []
  last :
      {bytes frame : List ℕ}
      → IsRecord layout bytes frame (length bytes)
      → Batch layout bytes (frame ∷ [])
  more :
      {bytes rest frame : List ℕ} {frames : List (List ℕ)} (end next : ℕ)
      → IsRecord layout bytes frame end
      → end ≢ length bytes
      → end ≤ next
      → next < end + 4
      → next % 4 ≡ 0
      → next ≤ length bytes
      → rest ≡ drop next bytes
      → Batch layout rest frames
      → Batch layout bytes (frame ∷ frames)
