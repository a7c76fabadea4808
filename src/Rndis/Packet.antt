-- ===== src/Rndis/Packet.antt =====
-- src/rndis/packet.rs: Ethernet frames in RNDIS packet messages. A byte slice is a list of numbers.
use galaxybridge.Prelude.{
  ℕ, zero, suc, ◌+◌, ◌%◌, ◌||◌, not, List, [], ◌∷◌, ◌++◌, Result, ok, err, message, message_with,
  out_of_fuel, ◌>>=◌, ◌>>◌, refuse, ok_or, checked_add, get_range, within, length, take, drop,
  replicate, all, ltb, ◌==◌, if◌then◌else◌, ◌-◌,
}
pub mod Grammar
pub mod Decode
pub mod RoundTrip
pub mod Negotiated
pub mod Bytes
use galaxybridge.Rndis.Control.Message.{transfer_limit}
use galaxybridge.Rndis.Wire.{u32_at, words}

abbrev pub frame_limit : ℕ
frame_limit = 1514

abbrev pub header : ℕ
header = 44

-- One zero byte is added where a full USB packet would end the transfer.
abbrev pub padded_length : ℕ → ℕ → ℕ
padded_length len usb_packet_size = len + (if len % usb_packet_size == 0 then 1 else 0)

abbrev pub header_words : ℕ → List ℕ
header_words size = 1 ∷ (header + size) ∷ 36 ∷ size ∷ 0 ∷ 0 ∷ 0 ∷ 0 ∷ 0 ∷ 0 ∷ 0 ∷ []

unfoldable pub encode : List ℕ → ℕ → ℕ → Result (List ℕ)
encode frame usb_packet_size max_transfer = do
  refuse (not (within 14 frame_limit (length frame)) || usb_packet_size == 0)
      (message "invalid Ethernet frame")
  let len = header + length frame
  let padded_len = padded_length len usb_packet_size
  refuse (ltb max_transfer padded_len || ltb transfer_limit padded_len)
      (message "outbound transfer too large")
  ok (words (header_words (length frame)) ++ (frame ++ replicate (padded_len - len) 0))

-- The offsets of the metadata words that must be zero.
abbrev pub metadata : List ℕ
metadata = 16 ∷ 20 ∷ 24 ∷ 28 ∷ 32 ∷ 36 ∷ 40 ∷ []

unfoldable pub no_metadata : List ℕ → List ℕ → Result (Unit {0})
no_metadata [] msg = ok tt
no_metadata (offset ∷ offsets) msg = do
  word ← u32_at msg offset
  refuse (not (word == 0)) (message "unsupported RNDIS packet metadata")
  no_metadata offsets msg

-- The body of the loop of `decode`: the payload of the first message, and what follows it.
unfoldable pub take_message : ℕ → List ℕ → Result (List ℕ × List ℕ)
take_message offset rest = do
  refuse (ltb (length rest) header)
      (message_with "truncated packet header: {} bytes at offset {}" (length rest ∷ offset ∷ []))
  kind ← u32_at rest 0
  refuse (not (kind == 1))
      (message_with "unexpected packet message type at transfer offset {}" (offset ∷ []))
  len ← u32_at rest 4
  refuse (ltb len header || ltb (length rest) len) (message "invalid packet message length")
  let msg = take len rest
  data_offset ← u32_at msg 8
  start ← ok_or (checked_add data_offset 8) (message "data offset overflow")
  data_len ← u32_at msg 12
  end ← ok_or (checked_add start data_len) (message "data length overflow")
  refuse (ltb start header || not (start % 4 == 0) || not (within 14 frame_limit data_len))
      (message "invalid Ethernet payload range")
  no_metadata metadata msg
  frame ← ok_or (get_range msg start end) (message "payload outside packet message")
  ok (frame, drop len rest)

-- `total` is the length of the whole transfer, for the offset in a message.
unfoldable pub decode_loop : ℕ → ℕ → List ℕ → List (List ℕ) → Result (List (List ℕ))
decode_loop fuel total [] frames = ok frames
decode_loop zero total (b ∷ bs) frames = err out_of_fuel
decode_loop (suc fuel) total (b ∷ bs) frames =
    let more = take_message (total - length (b ∷ bs)) (b ∷ bs) >>= λ r.
    decode_loop fuel total r.1 (frames ++ (r.0 ∷ [])) in
    if all (λ x. x == 0) (b ∷ bs) then ok frames else more

-- A message takes 44 bytes at least, so one round for each byte is enough.
unfoldable pub decode : List ℕ → Result (List (List ℕ))
unfolding decode_loop
decode bytes = do
  refuse (ltb transfer_limit (length bytes)) (message "USB transfer exceeds negotiated bound")
  decode_loop (length bytes) (length bytes) bytes []
