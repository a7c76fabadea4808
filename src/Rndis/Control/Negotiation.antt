-- ===== src/Rndis/Control/Negotiation.antt =====
-- src/rndis/control.rs, `Negotiation`: the answer to the initialize request.
use Prim.Native.Nat.{min}
use galaxybridge.Prelude.{
  ℕ, ◌≤◌, ◌≡◌, ◌≢◌, not, List, arith, Result, ok, message, ◌>>=◌, ◌>>◌, refuse, ◌==◌, ltb, value_or,
  ◌↔◌,
}
use galaxybridge.Rndis.Wire.{u32_at}
use galaxybridge.Rndis.Control.Message.{transfer_limit, IsMessage}
use galaxybridge.Rndis.Control.Message

pub record Negotiation : Type 0 where
  pub max_transfer : ℕ

-- The words are read in the order of the source's `||`, each only if those before it passed.
unfoldable pub expect_word : List ℕ → ℕ → ℕ → Result (Unit {0})
expect_word msg offset value = do
  word ← u32_at msg offset
  refuse (not (word == value)) (message "unsupported RNDIS version or medium")

unfoldable pub parse : List ℕ → Result Negotiation
parse bytes = do
  msg ← Message.parse bytes 0x8000_0002 52
  status ← u32_at msg 12
  refuse (not (status == 0)) (message "RNDIS initialization was rejected")
  expect_word msg 16 1
  expect_word msg 20 0
  expect_word msg 24 1
  expect_word msg 28 0
  expect_word msg 44 0
  expect_word msg 48 0
  offered ← u32_at msg 36
  let max_transfer = min offered transfer_limit
  refuse (ltb max_transfer 1558) (message "invalid device transfer limits")
  packets ← u32_at msg 32
  refuse (packets == 0) (message "invalid device transfer limits")
  alignment ← u32_at msg 40
  refuse (ltb 7 alignment) (message "invalid device transfer limits")
  ok (record { max_transfer = max_transfer })

-- An answer that the driver may accept, with the transfer size and the counts that it offers.
pub record IsOffer (msg : List ℕ) (offered packets alignment : ℕ) : Type 0 where
  pub status : u32_at msg 12 ≡ ok 0
  pub major : u32_at msg 16 ≡ ok 1
  pub minor : u32_at msg 20 ≡ ok 0
  pub flags : u32_at msg 24 ≡ ok 1
  pub medium : u32_at msg 28 ≡ ok 0
  pub packets_word : u32_at msg 32 ≡ ok packets
  pub offered_word : u32_at msg 36 ≡ ok offered
  pub alignment_word : u32_at msg 40 ≡ ok alignment
  pub list_offset : u32_at msg 44 ≡ ok 0
  pub list_size : u32_at msg 48 ≡ ok 0
  pub offered_min : 1558 ≤ offered
  pub packets_min : packets ≢ 0
  pub alignment_max : alignment ≤ 7

expect_word_lem :
    (msg : List ℕ) (offset value : ℕ) {u : Unit {0}}
    → expect_word msg offset value ≡ ok u
    → u32_at msg offset ≡ ok value
unfolding expect_word
expect_word_lem msg offset value e = ground arith

parse-IsOffer :
    (bytes : List ℕ) (n : Negotiation)
    → parse bytes ≡ ok n
    → let msg = value_or bytes (Message.parse bytes 0x8000_0002 52) in
      let offered = value_or 0 (u32_at msg 36) in
      (Message.parse bytes 0x8000_0002 52 ≡ ok msg)
      × IsOffer msg offered (value_or 0 (u32_at msg 32)) (value_or 0 (u32_at msg 40))
      × (n.max_transfer ≡ min offered transfer_limit)
unfolding parse expect_word
parse-IsOffer bytes n e = ground arith

-- For any bytes and negotiation: `Negotiation::parse` returns it exactly when the bytes begin with
-- a bounded initialize completion of at least 52 bytes with status zero, version 1.0, the
-- connectionless flag and medium, no address list, an offer of at least 1558 bytes, at least one
-- packet and an alignment exponent of at most 7, and the transfer size is the smaller one of the
-- offer and 16384.
pub negotiation_iff :
    (bytes : List ℕ) (n : Negotiation)
    → (parse bytes ≡ ok n) ↔ (
        (msg : List ℕ) × (offered packets alignment : ℕ) × IsMessage bytes 0x8000_0002 52 msg
        × IsOffer msg offered packets alignment
        × (n.max_transfer ≡ min offered transfer_limit))
unfolding parse expect_word
negotiation_iff bytes n = (
  λ e.
      let (read, offer, size) = parse-IsOffer bytes n e in
      (
        _,
        _,
        _,
        _,
        (Message.IsMessage-iff bytes 0x8000_0002 52 _ (omega arith)).0 read,
        offer,
        size,
      ),
  λ (msg, offered, packets, alignment, m, offer, size).
      ground (arith, (Message.IsMessage-iff bytes 0x8000_0002 52 msg (omega arith)).1 m),
)

-- The negotiated size lies between one full frame with its header and the driver's limit.
pub negotiation_bounds :
    (bytes : List ℕ) (n : Negotiation)
    → parse bytes ≡ ok n
    → (1558 ≤ n.max_transfer) × (n.max_transfer ≤ transfer_limit)
negotiation_bounds bytes n e =
    let (_, offer, size) = parse-IsOffer bytes n e in omega (arith, size, offer.offered_min)
