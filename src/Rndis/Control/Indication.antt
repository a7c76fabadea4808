-- ===== src/Rndis/Control/Indication.antt =====
-- src/rndis/control.rs, `Indication`: status indications that the device sends by itself.
use galaxybridge.Prelude.{
  ℕ, ◌+◌, ◌≡◌, ◌≢◌, not, List, [], arith, Result, ok, message, ◌>>=◌, ◌>>◌, refuse, ok_or,
  checked_add, get_range, length, ◌==◌, ltb, if◌then◌else◌, value_or, ◌⊎◌, ◌↔◌, ◌≤◌, ◌<◌,
  length-append,
}
use galaxybridge.Rndis.Wire.{u32_at}
use galaxybridge.Rndis.Control.Message.{IsMessage}
use galaxybridge.Rndis.Control.Message

pub data Indication : Type 0 where
  media_connect media_disconnect other : Indication

unfoldable pub check_buffer : List ℕ → ℕ → ℕ → Result (Unit {0})
check_buffer msg len start =
    if len == 0
    then refuse (not (start == 0)) (message "empty status buffer has a nonzero offset")
    else (do
      end ← ok_or (checked_add start len) (message "status buffer overflow")
      refuse (ltb start 20) (message "status buffer is outside the indication")
      buffer ← ok_or (get_range msg start end) (message "status buffer is outside the indication")
      ok tt)

abbrev pub of_status : ℕ → Indication
of_status status =
    if status == 0x4001_000b
    then media_connect
    else (if status == 0x4001_000c then media_disconnect else other)

unfoldable pub parse : List ℕ → Result Indication
unfolding check_buffer
parse bytes = do
  msg ← Message.parse bytes 7 20
  len ← u32_at msg 12
  start ← u32_at msg 16
  check_buffer msg len start
  status ← u32_at msg 8
  ok (of_status status)

-- The status buffer of an indication: none, or a part of the message behind its header.
abbrev pub IsBuffer : List ℕ → ℕ → ℕ → Type 0
IsBuffer msg len start =
    ((len ≡ 0) × (start ≡ 0)) ⊎ ((20 ≤ start) × (0 < len) × (start + len ≤ length msg))

record Indicated (bytes msg : List ℕ) (i : Indication) (status len start : ℕ) : Type 0 where
  parsed : Message.parse bytes 7 20 ≡ ok msg
  status_word : u32_at msg 8 ≡ ok status
  len_word : u32_at msg 12 ≡ ok len
  start_word : u32_at msg 16 ≡ ok start
  buffer : IsBuffer msg len start
  result : i ≡ of_status status

abbrev message_of : List ℕ → List ℕ
message_of bytes = value_or [] (Message.parse bytes 7 20)

parse-Indicated :
    (bytes : List ℕ) (i : Indication)
    → parse bytes ≡ ok i
    → Indicated bytes
        (message_of bytes)
        i
        (value_or 0 (u32_at (message_of bytes) 8))
        (value_or 0 (u32_at (message_of bytes) 12))
        (value_or 0 (u32_at (message_of bytes) 16))
unfolding parse checked_add get_range
parse-Indicated bytes i e = ground arith

-- The status words of the standard: 0x4001000b is a connected medium, 0x4001000c a disconnected one.
abbrev pub Means : Indication → ℕ → Type 0
Means media_connect status = status ≡ 0x4001_000b
Means media_disconnect status = status ≡ 0x4001_000c
Means other status = (status ≢ 0x4001_000b) × (status ≢ 0x4001_000c)

of_status-Means : (i : Indication) (status : ℕ) → (i ≡ of_status status) ↔ Means i status
of_status-Means media_connect status = (λ e. ground arith, λ h. ground arith)
of_status-Means media_disconnect status = (λ e. ground arith, λ h. ground arith)
of_status-Means other status = (λ e. ground arith, λ h. ground arith)

-- For any bytes and indication: `Indication::parse` returns it exactly when the bytes begin with a
-- bounded status message of at least 20 bytes whose status buffer is empty or lies in it behind the
-- header, and its status word is 0x4001000b for a connected medium, 0x4001000c for a disconnected
-- one, and neither for the other indication.
pub indication_iff :
    (bytes : List ℕ) (i : Indication)
    → (parse bytes ≡ ok i) ↔ (
        (msg : List ℕ) × (status len start : ℕ) × IsMessage bytes 7 20 msg
        × (u32_at msg 8 ≡ ok status)
        × (u32_at msg 12 ≡ ok len)
        × (u32_at msg 16 ≡ ok start)
        × IsBuffer msg len start
        × Means i status)
unfolding parse checked_add get_range
indication_iff bytes i = (
  λ e.
      let p = parse-Indicated bytes i e in
      (
        _,
        _,
        _,
        _,
        (Message.IsMessage-iff bytes 7 20 _ (omega arith)).0 p.parsed,
        p.status_word,
        p.len_word,
        p.start_word,
        p.buffer,
        (of_status-Means i _).0 p.result,
      ),
  λ (msg, status, len, start, m, s, l, o, b, r). ground (
    arith,
    (Message.IsMessage-iff bytes 7 20 msg (omega arith)).1 m,
    m.shape,
    length-append msg m.rest,
    m.bounded,
    (of_status-Means i status).1 r,
  ),
)
