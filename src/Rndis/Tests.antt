-- ===== src/Rndis/Tests.antt =====
-- The RNDIS messages at concrete bytes.
use Prim.Native.Nat.{bit_or}
use galaxybridge.Prelude.{
  ℕ, ◌≡◌, ◌≢◌, ◌↔◌, ◌≤◌, ◌<◌, ◌%◌, refl, List, [], ◌∷◌, ◌++◌, some, ok, arith, length,
}
use galaxybridge.Rndis.Wire.{words, to_le_bytes, from_le_bytes, u32_at}
use galaxybridge.Rndis.Packet.{encode, decode, take_message, decode_loop, no_metadata}
use galaxybridge.Rndis.Packet.Grammar.{Transfer}
use galaxybridge.Rndis.Packet.Decode.{decode_iff}
use galaxybridge.Rndis.Packet.Bytes.{header_bytes, IsPad, encode_bytes_iff}
use galaxybridge.Rndis.Packet.RoundTrip.{
  encoding, encode_iff, decode-encode, encode_short_packet, packed, decode-packed,
}
use galaxybridge.Rndis.Packet.Negotiated.{encode-negotiated}
use galaxybridge.Rndis.Control.Message
use galaxybridge.Rndis.Control.Message.{transfer_limit, IsMessage, IsMessage-iff}
use galaxybridge.Rndis.Control.Request.{keepalive, response, minimum, response_iff}
use galaxybridge.Rndis.Control.Negotiation
use galaxybridge.Rndis.Control.Negotiation.{Negotiation, IsOffer, negotiation_iff}
use galaxybridge.Rndis.Control.Query.{
  payload, IsData, payload-IsData, answer, payload-answer, data_at, empty_data,
}
use galaxybridge.Rndis.Control.Indication
use galaxybridge.Rndis.Control.Indication.{Indication, media_disconnect, IsBuffer, indication_iff}
use Prim.Native.Nat.{min}

-- An ARP frame of the least size, and one of 20 bytes.
abbrev short_frame : List ℕ
short_frame = 2 ∷ 0 ∷ 0 ∷ 0 ∷ 0 ∷ 1 ∷ 2 ∷ 0 ∷ 0 ∷ 0 ∷ 0 ∷ 2 ∷ 8 ∷ 6 ∷ []

abbrev long_frame : List ℕ
long_frame = short_frame ++ (1 ∷ 2 ∷ 3 ∷ 4 ∷ 5 ∷ 6 ∷ [])

-- Two packed messages, of which the first has an odd length, and some padding.
abbrev two_messages : List ℕ
two_messages = packed ((1 ∷ long_frame) ∷ short_frame ∷ []) 3

decodes_two : decode two_messages ≡ ok ((1 ∷ long_frame) ∷ short_frame ∷ [])
unfolding decode decode_loop take_message no_metadata u32_at from_le_bytes words to_le_bytes
decodes_two = refl

decode_iff_example : (decode two_messages ≡ ok ((1 ∷ long_frame) ∷ short_frame ∷ [])) ↔ (
    (length two_messages ≤ transfer_limit)
    × Transfer two_messages ((1 ∷ long_frame) ∷ short_frame ∷ []))
decode_iff_example = decode_iff two_messages ((1 ∷ long_frame) ∷ short_frame ∷ [])

decode-packed_example : decode two_messages ≡ ok ((1 ∷ long_frame) ∷ short_frame ∷ [])
unfolding words
decode-packed_example =
    decode-packed ((1 ∷ long_frame) ∷ short_frame ∷ []) 3 (ground arith) (omega arith)

-- 44 and 20 bytes fill a packet of 64, so one zero byte is added.
encodes_long : encode long_frame 64 1558 ≡ ok (encoding long_frame 64)
encodes_long =
    (encode_iff long_frame (encoding long_frame 64) 64 1558).1
      (omega arith, omega arith, omega arith, omega arith, refl)

encode_bytes_iff_example : (encode long_frame 64 1558 ≡ ok (encoding long_frame 64)) ↔ (
    (pad : List ℕ) × (14 ≤ 20)
    × (20 ≤ 1514)
    × (0 < 64)
    × IsPad 20 64 1558 pad
    × (encoding long_frame 64 ≡ header_bytes 20 ++ long_frame ++ pad))
encode_bytes_iff_example = encode_bytes_iff long_frame (encoding long_frame 64) 64 1558

decode-encode_example : decode (encoding long_frame 64) ≡ ok (long_frame ∷ [])
decode-encode_example = decode-encode long_frame (encoding long_frame 64) 64 1558 encodes_long

encode_short_packet_example : (65 % 64 ≢ 0) × (65 ≤ 1558) × (65 ≤ transfer_limit) × (65 ≤ 65)
unfolding words
encode_short_packet_example =
    encode_short_packet long_frame (encoding long_frame 64) 64 1558 encodes_long (omega arith)

-- An answer to the initialize request with number 1, which offers 2000 bytes.
abbrev offer : List ℕ
offer = words (0x8000_0002 ∷ 52 ∷ 1 ∷ 0 ∷ 1 ∷ 0 ∷ 1 ∷ 0 ∷ 8 ∷ 2000 ∷ 2 ∷ 0 ∷ 0 ∷ [])

offer_accepted : Negotiation.parse offer ≡ ok (record { max_transfer = 2000 })
unfolding Negotiation.parse Message.parse Negotiation.expect_word u32_at from_le_bytes words
    to_le_bytes
offer_accepted = refl

encode-negotiated_example : (out : List ℕ) × (encode short_frame 512 2000 ≡ ok out)
encode-negotiated_example =
    encode-negotiated offer short_frame (record { max_transfer = 2000 }) 512 offer_accepted
      (omega arith) (omega arith) (omega arith) refl

negotiation_iff_example : (Negotiation.parse offer ≡ ok (record { max_transfer = 2000 })) ↔ (
    (msg : List ℕ) × (offered packets alignment : ℕ) × IsMessage offer 0x8000_0002 52 msg
    × IsOffer msg offered packets alignment
    × (2000 ≡ min offered transfer_limit))
negotiation_iff_example = negotiation_iff offer (record { max_transfer = 2000 })

-- A completion of the keepalive with number 7, and one byte that is not part of it.
abbrev completion : List ℕ
completion = words (0x8000_0008 ∷ 16 ∷ 7 ∷ 0 ∷ []) ++ (9 ∷ [])

abbrev completion_message : List ℕ
completion_message = words (0x8000_0008 ∷ 16 ∷ 7 ∷ 0 ∷ [])

completes : response (keepalive 7) completion ≡ ok completion_message
unfolding response keepalive minimum Message.parse u32_at from_le_bytes words to_le_bytes
completes = refl

response_iff_example : (response (keepalive 7) completion ≡ ok completion_message) ↔ (
    (least : ℕ) × (minimum (keepalive 7).kind ≡ some least)
    × IsMessage completion (bit_or (keepalive 7).kind 0x8000_0000) least completion_message
    × (u32_at completion_message 8 ≡ ok (keepalive 7).id)
    × (u32_at completion_message 12 ≡ ok 0))
response_iff_example = response_iff (keepalive 7) completion completion_message

abbrev address : List ℕ
address = 2 ∷ 0 ∷ 0 ∷ 0 ∷ 0 ∷ 1 ∷ []

payload-answer_example : payload (answer 2 address ++ (5 ∷ [])) ≡ ok address
unfolding words
payload-answer_example = payload-answer 2 address (5 ∷ []) (omega arith) (omega arith)

answered : payload (answer 2 address) ≡ ok address
unfolding payload data_at empty_data Message.parse u32_at from_le_bytes words to_le_bytes
answered = refl

payload-IsData_example : IsData (answer 2 address) address
payload-IsData_example = payload-IsData (answer 2 address) address answered

-- A media disconnection without a status buffer.
abbrev disconnection : List ℕ
disconnection = words (7 ∷ 20 ∷ 0x4001_000c ∷ 0 ∷ 0 ∷ [])

disconnects : Indication.parse disconnection ≡ ok media_disconnect
unfolding Indication.parse Indication.check_buffer Message.parse u32_at from_le_bytes words
    to_le_bytes
disconnects = refl

indication_iff_example : (Indication.parse disconnection ≡ ok media_disconnect) ↔ (
    (msg : List ℕ) × (status len start : ℕ) × IsMessage disconnection 7 20 msg
    × (u32_at msg 8 ≡ ok status)
    × (u32_at msg 12 ≡ ok len)
    × (u32_at msg 16 ≡ ok start)
    × IsBuffer msg len start
    × (status ≡ 0x4001_000c))
indication_iff_example = indication_iff disconnection media_disconnect
