-- ===== src/Rndis/Control/Request.antt =====
-- src/rndis/control.rs, `Request`: the requests of the driver and the check of their completions.
use Prim.Native.Nat.{bit_or}
use mathlib.Core.Option.{get_or}
use galaxybridge.Prelude.{
  ℕ, ◌+◌, ◌≤◌, ◌<◌, ◌≡◌, refl, ◌↔◌, ◌⊎◌, inl, inr, not, List, [], ◌∷◌, Option, none, some, arith,
  Result, ok, message, ◌>>=◌, ◌>>◌, refuse, ok_or, length, ◌==◌, if◌then◌else◌, ◌||◌, IsU32,
  get_elem?, append-nil, ◌∙◌, ◌*◌,
}
use galaxybridge.Rndis.Wire.{u32_at, words, u32_at-words, length-words}
use galaxybridge.Rndis.Control.Message.{transfer_limit, IsMessage}
use galaxybridge.Rndis.Control.Message

abbrev pub mac_address : ℕ
mac_address = 0x0101_0102

abbrev pub packet_filter : ℕ
packet_filter = 0x0001_010e

pub record Request : Type 0 where
  pub id : ℕ
  pub kind : ℕ
  pub bytes : List ℕ

unfoldable pub initialize : ℕ → Request
initialize id = record {
  id = id;
  kind = 2;
  bytes = words (2 ∷ 24 ∷ id ∷ 1 ∷ 0 ∷ transfer_limit ∷ []);
}

unfoldable pub query : ℕ → ℕ → Request
query id oid = record { id = id; kind = 4; bytes = words (4 ∷ 28 ∷ id ∷ oid ∷ 0 ∷ 0 ∷ 0 ∷ []) }

-- Directed, multicast, all multicast and broadcast; not promiscuous.
unfoldable pub filter : ℕ → Request
filter id = record {
  id = id;
  kind = 5;
  bytes = words (5 ∷ 32 ∷ id ∷ packet_filter ∷ 4 ∷ 20 ∷ 0 ∷ 0x0f ∷ []);
}

unfoldable pub keepalive : ℕ → Request
keepalive id = record { id = id; kind = 8; bytes = words (8 ∷ 12 ∷ id ∷ []) }

unfoldable pub halt : ℕ → Request
halt id = record { id = id; kind = 3; bytes = words (3 ∷ 12 ∷ id ∷ []) }

-- The least size of a completion of each kind.
unfoldable pub minimum : ℕ → Option ℕ
minimum kind =
    if kind == 2
    then some 52
    else (if kind == 4 then some 24 else (if kind == 5 || kind == 8 then some 16 else none))

unfoldable pub response : Request → List ℕ → Result (List ℕ)
response request bytes = do
  least ← ok_or (minimum request.kind) (message "unsupported RNDIS completion type")
  msg ← Message.parse bytes (bit_or request.kind 0x8000_0000) least
  id ← u32_at msg 8
  refuse (not (id == request.id)) (message "mismatched control completion")
  status ← u32_at msg 12
  refuse (not (status == 0)) (message "device rejected RNDIS request")
  ok msg

minimum-least : (kind least : ℕ) → minimum kind ≡ some least → 16 ≤ least
unfolding minimum
minimum-least kind least e = ground arith

record Accepted (request : Request) (bytes msg : List ℕ) (least : ℕ) : Type 0 where
  least_size : minimum request.kind ≡ some least
  parsed : Message.parse bytes (bit_or request.kind 0x8000_0000) least ≡ ok msg
  id_word : u32_at msg 8 ≡ ok request.id
  status_word : u32_at msg 12 ≡ ok 0

response-Accepted :
    (request : Request) (bytes msg : List ℕ)
    → response request bytes ≡ ok msg
    → Accepted request bytes msg (get_or (minimum request.kind) 0)
unfolding response
response-Accepted request bytes msg e = ground arith

-- For a request, bytes and a message: `Request::response` returns the message exactly when the kind
-- of the request has a completion, the bytes begin with the message as a bounded control message of
-- the kind with the top bit set and of the least size for that kind, its request number is the one
-- of the request and its status is zero.
pub response_iff :
    (request : Request) (bytes msg : List ℕ)
    → (response request bytes ≡ ok msg) ↔ (
        (least : ℕ) × (minimum request.kind ≡ some least)
        × IsMessage bytes (bit_or request.kind 0x8000_0000) least msg
        × (u32_at msg 8 ≡ ok request.id)
        × (u32_at msg 12 ≡ ok 0))
unfolding response
response_iff request bytes msg = (accepted, complete)
  where
    accepted :
        response request bytes ≡ ok msg
        → (least : ℕ) × (minimum request.kind ≡ some least)
          × IsMessage bytes (bit_or request.kind 0x8000_0000) least msg
          × (u32_at msg 8 ≡ ok request.id)
          × (u32_at msg 12 ≡ ok 0)
    accepted e =
        let p = response-Accepted request bytes msg e in
        (
          _,
          p.least_size,
          (Message.IsMessage-iff _ _ _ _ (omega (arith, minimum-least _ _ p.least_size))).0
              p.parsed,
          p.id_word,
          p.status_word,
        )

    complete :
        (least : ℕ) × (minimum request.kind ≡ some least)
          × IsMessage bytes (bit_or request.kind 0x8000_0000) least msg
          × (u32_at msg 8 ≡ ok request.id)
          × (u32_at msg 12 ≡ ok 0)
        → response request bytes ≡ ok msg
    complete (least, size, m, id_word, status_word) = ground (
      arith,
      size,
      (Message.IsMessage-iff bytes _ least msg
            (omega (arith, minimum-least request.kind least size))).1
          m,
    )

-- The bytes of a request.
pub record IsRequest (request : Request) (kind id : ℕ) : Type 0 where
  pub kind_word : u32_at request.bytes 0 ≡ ok kind
  pub length_word : u32_at request.bytes 4 ≡ ok (length request.bytes)
  pub id_word : u32_at request.bytes 8 ≡ ok id
  pub own_kind : request.kind ≡ kind
  pub own_id : request.id ≡ id

request_word :
    (ws : List ℕ) (i v : ℕ)
    → get_elem? ws i ≡ some v
    → IsU32 v
    → i ≤ 10
    → u32_at (words ws) (4 * i) ≡ ok v
request_word ws i v e h small = rw append-nil at (u32_at-words ws [] i v e h (omega arith))

IsRequest-words :
    (id kind size : ℕ) (more : List ℕ)
    → IsU32 id
    → kind < 16
    → size < 64
    → 4 * length (kind ∷ size ∷ id ∷ more) ≡ size
    → IsRequest (record { id = id; kind = kind; bytes = words (kind ∷ size ∷ id ∷ more) }) kind id
IsRequest-words id kind size more h k s e =
    let ws = kind ∷ size ∷ id ∷ more in
    let whole : length (words ws) ≡ size = length-words ws ∙ e in
    record {
      kind_word = request_word ws 0 kind refl (omega arith) (omega arith);
      length_word = rw whole (request_word ws 1 size refl (omega arith) (omega arith));
      id_word = request_word ws 2 id refl h (omega arith);
      own_kind = refl;
      own_id = refl;
    }

-- For a 32-bit request number and any object identifier: each of the five requests carries its
-- kind, its own length and the number in its first three words, and its record has that kind and
-- number.
pub requests-IsRequest :
    (id oid : ℕ)
    → IsU32 id
    → IsRequest (initialize id) 2 id
      × IsRequest (query id oid) 4 id
      × IsRequest (filter id) 5 id
      × IsRequest (keepalive id) 8 id
      × IsRequest (halt id) 3 id
unfolding initialize query filter keepalive halt
requests-IsRequest id oid h = (
  IsRequest-words id 2 24 _ h (omega arith) (omega arith) (omega arith),
  IsRequest-words id 4 28 _ h (omega arith) (omega arith) (omega arith),
  IsRequest-words id 5 32 _ h (omega arith) (omega arith) (omega arith),
  IsRequest-words id 8 12 _ h (omega arith) (omega arith) (omega arith),
  IsRequest-words id 3 12 _ h (omega arith) (omega arith) (omega arith),
)

completion_kinds :
    (kind least : ℕ)
    → minimum kind ≡ some least
    → (kind ≡ 2) ⊎ ((kind ≡ 4) ⊎ ((kind ≡ 5) ⊎ (kind ≡ 8)))
unfolding minimum
completion_kinds kind least e = ground arith

completion_word :
    (kind least : ℕ) → minimum kind ≡ some least → bit_or kind 0x8000_0000 ≡ kind + 0x8000_0000
completion_word kind least e = elim (completion_kinds kind least e) [
  | inl k ↦ rw k
  | inr (inl k) ↦ rw k
  | inr (inr (inl k)) ↦ rw k
  | inr (inr (inr k)) ↦ rw k
]

-- The first word of a completion is the request's kind with the top bit set.
pub response_kind :
    (request : Request) (bytes msg : List ℕ)
    → response request bytes ≡ ok msg
    → u32_at bytes 0 ≡ ok (request.kind + 0x8000_0000)
response_kind request bytes msg e =
    let p = response-Accepted request bytes msg e in
    rw (← completion_word request.kind _ p.least_size) ((Message.parse-take _ _ _ _ p.parsed).1)

-- For two requests and a response that each of them accepts: they have the same kind and the same
-- number, and get the same message.
pub response_unique :
    (first second : Request) (bytes msg other : List ℕ)
    → response first bytes ≡ ok msg
    → response second bytes ≡ ok other
    → (first.kind ≡ second.kind) × (first.id ≡ second.id) × (msg ≡ other)
response_unique first second bytes msg other e f =
    let p = response-Accepted first bytes msg e in
    let q = response-Accepted second bytes other f in
    let (same, kind) = Message.parse-take _ _ _ _ p.parsed in
    let (same', kind') = Message.parse-take _ _ _ _ q.parsed in
    ground (
      arith,
      same,
      kind,
      same',
      kind',
      p.id_word,
      q.id_word,
      completion_word first.kind _ p.least_size,
      completion_word second.kind _ q.least_size,
    )
