-- ===== src/Rndis/Control/Query.antt =====
-- src/rndis/control.rs, `Query`: the data in the answer to a query.
use galaxybridge.Prelude.{
  ℕ, ◌+◌, ◌^◌, ◌≤◌, ◌<◌, ◌≡◌, ◌⊎◌, inl, inr, not, List, [], ◌++◌, arith, Result, ok, message, ◌>>=◌,
  ◌>>◌, refuse, ok_or, length, ◌==◌, ltb, value_or, checked_add, get_range, get_range_split,
  if◌then◌else◌, some, append_assoc, refl, ◌-◌, ◌∷◌, get_elem?, ◌*◌, length-append, append-nil,
  get_range-middle, sym, ap,
}
use galaxybridge.Rndis.Wire.{u32_at, u32_at-append, words, u32_at-words, length-words}
use galaxybridge.Rndis.Control.Message.{transfer_limit, IsMessage}
use galaxybridge.Rndis.Control.Message

unfoldable pub empty_data : List ℕ → Result (List ℕ)
empty_data msg = do
  offset ← u32_at msg 20
  refuse (not (offset == 0)) (message "empty query result has a nonzero offset")
  ok []

unfoldable pub data_at : List ℕ → ℕ → Result (List ℕ)
data_at msg len = do
  offset ← u32_at msg 20
  start ← ok_or (checked_add offset 8) (message "offset overflow")
  end ← ok_or (checked_add start len) (message "length overflow")
  refuse (ltb start 24) (message "query data overlaps header")
  ok_or (get_range msg start end) (message "query data outside message")

unfoldable pub payload : List ℕ → Result (List ℕ)
unfolding empty_data data_at
payload bytes = do
  msg ← Message.parse bytes 0x8000_0004 24
  status ← u32_at msg 12
  refuse (not (status == 0)) (message "RNDIS query was rejected")
  len ← u32_at msg 16
  if len == 0 then empty_data msg else data_at msg len

-- The data lies in the response: nothing, or the bytes that the length and offset words name, behind
-- the header of the answer.
pub record IsData (bytes found : List ℕ) : Type 0 where
  pub before : List ℕ
  pub after : List ℕ
  pub shape : bytes ≡ before ++ (found ++ after)
  pub length_word : u32_at bytes 16 ≡ ok (length found)
  pub place : (found ≡ []) ⊎ ((24 ≤ length before) × (u32_at bytes 20 ≡ ok (length before - 8)))

record Found (msg found : List ℕ) (len start : ℕ) : Type 0 where
  status_word : u32_at msg 12 ≡ ok 0
  len_word : u32_at msg 16 ≡ ok len
  offset_word : u32_at msg 20 ≡ ok (start - 8)
  choice :
      ((len ≡ 0) × (found ≡ [])) ⊎ ((24 ≤ start) × (get_range msg start (start + len) ≡ some found))

abbrev message_of : List ℕ → List ℕ
message_of bytes = value_or [] (Message.parse bytes 0x8000_0004 24)

payload-Found :
    (bytes found : List ℕ)
    → payload bytes ≡ ok found
    → (Message.parse bytes 0x8000_0004 24 ≡ ok (message_of bytes))
      × Found
          (message_of bytes)
          found
          (value_or 0 (u32_at (message_of bytes) 16))
          (value_or 0 (u32_at (message_of bytes) 20) + 8)
unfolding payload checked_add
payload-Found bytes found e = ground arith

Found-IsData :
    (bytes msg found : List ℕ) (len start : ℕ)
    → IsMessage bytes 0x8000_0004 24 msg
    → Found msg found len start
    → IsData bytes found
Found-IsData bytes msg found len start m f = elim f.choice [
  | inl (none_there, empty) ↦ record {
    before = [];
    after = bytes;
    shape = sym (ap (λ (d : List ℕ). d ++ bytes) empty);
    length_word = rw m.shape (
        u32_at-append msg m.rest 16 (length found) (rw empty (rw none_there at f.len_word))
          (omega arith));
    place = inl empty;
  }
  | inr (behind, range) ↦
      let (before, after, shape, at, size) = get_range_split msg start (start + len) found range in
      let size' : length found ≡ len = omega arith in
      record {
        before = before;
        after = after ++ m.rest;
        shape = rw (m.shape, shape, append_assoc, append_assoc) refl;
        length_word =
            rw (m.shape, size') (u32_at-append msg m.rest 16 len f.len_word (omega arith));
        place = inr (
          omega arith,
          rw (m.shape, at) (u32_at-append msg m.rest 20 (start - 8) f.offset_word (omega arith)),
        );
      }
]

-- For a response from which `Query::data` returns data: the data is a part of the response, as long
-- as the response says, and where it is not empty it lies behind the header at the announced
-- offset.
pub payload-IsData : (bytes found : List ℕ) → payload bytes ≡ ok found → IsData bytes found
payload-IsData bytes found e =
    let (read, f) = payload-Found bytes found e in
    Found-IsData bytes _ found _ _
      ((Message.IsMessage-iff bytes 0x8000_0004 24 _ (omega arith)).0 read) f

-- A device's answer to a query: the header, then the data right behind it.
abbrev pub answer : ℕ → List ℕ → List ℕ
answer id found =
    words (0x8000_0004 ∷ (24 + length found) ∷ id ∷ 0 ∷ length found ∷ 16 ∷ []) ++ found

abbrev answer_words : ℕ → List ℕ → List ℕ
answer_words id found = 0x8000_0004 ∷ (24 + length found) ∷ id ∷ 0 ∷ length found ∷ 16 ∷ []

answer_word :
    (id : ℕ) (found : List ℕ) (i v : ℕ)
    → get_elem? (answer_words id found) i ≡ some v
    → v < 2 ^ 32
    → i < 6
    → u32_at (answer id found) (4 * i) ≡ ok v
answer_word id found i v e small h =
    u32_at-words (answer_words id found) found i v e small (omega arith)

length-answer : (id : ℕ) (found : List ℕ) → length (answer id found) ≡ 24 + length found
length-answer id found = omega (
  arith,
  length-append (words (answer_words id found)) found,
  length-words (answer_words id found),
)

answer-IsMessage :
    (id : ℕ) (found rest : List ℕ)
    → length (answer id found ++ rest) ≤ transfer_limit
    → IsMessage (answer id found ++ rest) 0x8000_0004 24 (answer id found)
answer-IsMessage id found rest fits =
    let size = length-answer id found in
    let total = length-append (answer id found) rest in
    record {
      rest = rest;
      shape = refl;
      bounded = fits;
      long = omega arith;
      kind_word = answer_word id found 0 0x8000_0004 refl (omega arith) (omega arith);
      length_word =
          rw size (answer_word id found 1 (24 + length found) refl (omega arith) (omega arith));
    }

answer_data :
    (id : ℕ) (found : List ℕ) → get_range (answer id found) 24 (24 + length found) ≡ some found
answer_data id found =
    let size = length-words (answer_words id found) in
    rw (size, append-nil) at (get_range-middle (words (answer_words id found)) found [])

-- For a request number, data that is not empty and any bytes after it, within 16384 bytes in all:
-- `Query::data` returns the data of the answer that holds it right behind the header.
pub payload-answer :
    (id : ℕ) (found rest : List ℕ)
    → 0 < length found
    → length (answer id found ++ rest) ≤ transfer_limit
    → payload (answer id found ++ rest) ≡ ok found
unfolding payload checked_add
payload-answer id found rest some_there fits =
    let total = length-append (answer id found) rest in
    let size = length-answer id found in
    ground (
      arith,
      (Message.IsMessage-iff _ 0x8000_0004 24 _ (omega arith)).1
          (answer-IsMessage id found rest fits),
      answer_word id found 3 0 refl (omega arith) (omega arith),
      answer_word id found 4 (length found) refl (omega arith) (omega arith),
      answer_word id found 5 16 refl (omega arith) (omega arith),
      answer_data id found,
    )
