-- ===== src/Rndis/Control/Message.antt =====
-- src/rndis/control.rs, `Message`: the frame that every control message has.
use galaxybridge.Prelude.{
  ℕ, ◌≤◌, ◌≡◌, sym, ◌↔◌, ◌||◌, not, List, ◌++◌, arith, Result, ok, message, ◌>>=◌, ◌>>◌, refuse,
  length, length-append, length-take, take, drop, take-append-drop, take-length_append, ltb, ◌==◌,
  value_or,
}
use galaxybridge.Rndis.Wire.{u32_at, u32_at-front, u32_at-append}

abbrev pub transfer_limit : ℕ
transfer_limit = 16384

unfoldable pub parse : List ℕ → ℕ → ℕ → Result (List ℕ)
parse bytes kind minimum = do
  refuse (ltb transfer_limit (length bytes) || ltb (length bytes) minimum)
      (message "invalid control response size")
  len ← u32_at bytes 4
  refuse (ltb len minimum || ltb (length bytes) len)
      (message "invalid control message type or length")
  first ← u32_at bytes 0
  refuse (not (first == kind)) (message "invalid control message type or length")
  ok (take len bytes)

-- `msg` is a control message of that kind and least size at the front of the response `bytes`.
pub record IsMessage (bytes : List ℕ) (kind minimum : ℕ) (msg : List ℕ) : Type 0 where
  pub rest : List ℕ
  pub shape : bytes ≡ msg ++ rest
  pub bounded : length bytes ≤ transfer_limit
  pub long : minimum ≤ length msg
  pub kind_word : u32_at msg 0 ≡ ok kind
  pub length_word : u32_at msg 4 ≡ ok (length msg)

record Parsed (bytes : List ℕ) (kind minimum : ℕ) (msg : List ℕ) (len : ℕ) : Type 0 where
  bounded : length bytes ≤ transfer_limit
  long : minimum ≤ len
  inside : len ≤ length bytes
  kind_word : u32_at bytes 0 ≡ ok kind
  length_word : u32_at bytes 4 ≡ ok len
  result : msg ≡ take len bytes

parse-Parsed :
    (bytes : List ℕ) (kind minimum : ℕ) (msg : List ℕ)
    → parse bytes kind minimum ≡ ok msg
    → Parsed bytes kind minimum msg (value_or 0 (u32_at bytes 4))
unfolding parse
parse-Parsed bytes kind minimum msg e = ground arith

Parsed-IsMessage :
    (bytes : List ℕ) (kind minimum : ℕ) (msg : List ℕ) (len : ℕ)
    → 8 ≤ minimum
    → Parsed bytes kind minimum msg len
    → IsMessage bytes kind minimum msg
Parsed-IsMessage bytes kind minimum msg len least p =
    let whole : msg ++ drop len bytes ≡ bytes = rw p.result (take-append-drop len bytes) in
    let size : length msg ≡ len = rw p.result (omega (arith, length-take len bytes)) in
    record {
      rest = drop len bytes;
      shape = sym whole;
      bounded = p.bounded;
      long = omega arith;
      kind_word =
          u32_at-front msg (drop len bytes) 0 kind (rw whole p.kind_word) (omega arith)
            (omega arith);
      length_word = rw size (
          u32_at-front msg (drop len bytes) 4 len (rw whole p.length_word) (omega arith)
            (omega arith));
    }

-- For any bytes, kind, message and least size of at least 8: `Message::parse` returns the message
-- exactly when the bytes are at most 16384, begin with the message, and the message has the kind
-- and its own length in its first two words and at least the least size.
pub IsMessage-iff :
    (bytes : List ℕ) (kind minimum : ℕ) (msg : List ℕ)
    → 8 ≤ minimum
    → (parse bytes kind minimum ≡ ok msg) ↔ IsMessage bytes kind minimum msg
unfolding parse
IsMessage-iff bytes kind minimum msg least = (
  λ e. Parsed-IsMessage bytes kind minimum msg _ least (parse-Parsed bytes kind minimum msg e),
  λ m. ground (
    arith,
    m.shape,
    length-append msg m.rest,
    u32_at-append msg m.rest 0 kind m.kind_word,
    u32_at-append msg m.rest 4 (length msg) m.length_word,
    take-length_append msg m.rest,
  ),
)

-- The result depends on the response alone, whatever kind and size were asked for.
pub parse-take :
    (bytes : List ℕ) (kind minimum : ℕ) (msg : List ℕ)
    → parse bytes kind minimum ≡ ok msg
    → (msg ≡ take (value_or 0 (u32_at bytes 4)) bytes) × (u32_at bytes 0 ≡ ok kind)
parse-take bytes kind minimum msg e =
    let p = parse-Parsed bytes kind minimum msg e in (p.result, p.kind_word)
