-- ===== src/Usb/Session/Handshake.antt =====
-- What a session that `Session::open` returns has established, and its request numbers.
use galaxybridge.Prelude.{
  ℕ, ◌^◌, ◌≤◌, ◌<◌, ◌≡◌, ◌≢◌, ◌↔◌, false, List, [], arith, ok, length, All, IsByte, value_or,
}
use galaxybridge.Rndis.Control.Request.{
  initialize, query, filter, keepalive, mac_address, response, response_unique,
}
use galaxybridge.Rndis.Control.Negotiation
use galaxybridge.Rndis.Control.Query
use galaxybridge.Ipc.{invalid_mac, invalid_mac_lem, IsUnicast}
use galaxybridge.Usb.Session.{Script, Session, exchange, next_id, handshake}

-- For a 32-bit request number: the next one is a 32-bit number again, is never zero, and is not the
-- one before.
pub next_id_bounds :
    (id : ℕ) → id < 2 ^ 32 → (1 ≤ next_id id) × (next_id id < 2 ^ 32) × (next_id id ≢ id)
unfolding next_id
next_id_bounds id h = (omega arith, omega arith, λ e. omega arith)

pub record IsEstablished (initializing querying filtering : Script) (s : Session) : Type 0 where
  pub init : List ℕ
  pub answer : List ℕ
  pub completion : List ℕ
  pub initialized : exchange (initialize 1) initializing ≡ ok init
  pub negotiated : Negotiation.parse init ≡ ok (record { max_transfer = s.max_transfer })
  pub queried : exchange (query 2 mac_address) querying ≡ ok answer
  pub found : Query.payload answer ≡ ok s.mac
  pub unicast : IsUnicast s.mac
  pub filtered : exchange (filter 3) filtering ≡ ok completion
  pub last : s.id ≡ 3

record Run (initializing querying filtering : Script) (s : Session) : Type 0 where
  init : List ℕ
  answer : List ℕ
  completion : List ℕ
  initialized : exchange (initialize 1) initializing ≡ ok init
  negotiated : Negotiation.parse init ≡ ok (record { max_transfer = s.max_transfer })
  queried : exchange (query 2 mac_address) querying ≡ ok answer
  found : Query.payload answer ≡ ok s.mac
  six : length s.mac ≡ 6
  passed : invalid_mac s.mac ≡ false
  filtered : exchange (filter 3) filtering ≡ ok completion
  last : s.id ≡ 3

handshake-Run : (a b c : Script) (s : Session) → handshake a b c ≡ ok s → Run a b c s
unfolding handshake next_id
handshake-Run a b c s e =
    let init = value_or [] (exchange (initialize 1) a) in
    let answer = value_or [] (exchange (query 2 mac_address) b) in
    let completion = value_or [] (exchange (filter 3) c) in
    record {
      init = init;
      answer = answer;
      completion = completion;
      initialized = ground arith;
      negotiated = ground arith;
      queried = ground arith;
      found = ground arith;
      six = ground arith;
      passed = ground arith;
      filtered = ground arith;
      last = ground arith;
    }

Run-handshake : (a b c : Script) (s : Session) → Run a b c s → handshake a b c ≡ ok s
unfolding handshake next_id
Run-handshake a b c s r =
    ground
      (arith, r.initialized, r.negotiated, r.queried, r.found, r.six, r.passed, r.filtered, r.last)

-- For the scripts of the three exchanges of the handshake and a session whose hardware address
-- consists of bytes: the handshake returns the session exactly when the initialize request (number
-- 1) gets an answer whose negotiation gives the transfer size of the session, the address query
-- (number 2) gets an answer whose data is the address of the session, that address is a unicast
-- one, the filter request (number 3) is completed, and 3 is the number that the session keeps.
pub handshake_iff :
    (initializing querying filtering : Script) (s : Session)
    → All IsByte s.mac
    → (handshake initializing querying filtering ≡ ok s)
      ↔ IsEstablished initializing querying filtering s
handshake_iff a b c s small = (
  λ e.
      let r = handshake-Run a b c s e in
      record {
        init = r.init;
        answer = r.answer;
        completion = r.completion;
        initialized = r.initialized;
        negotiated = r.negotiated;
        queried = r.queried;
        found = r.found;
        unicast = (invalid_mac_lem s.mac small r.six).0 r.passed;
        filtered = r.filtered;
        last = r.last;
      },
  λ h. Run-handshake a b c s (record {
    init = h.init;
    answer = h.answer;
    completion = h.completion;
    initialized = h.initialized;
    negotiated = h.negotiated;
    queried = h.queried;
    found = h.found;
    six = h.unicast.six;
    passed = (invalid_mac_lem s.mac small h.unicast.six).1 h.unicast;
    filtered = h.filtered;
    last = h.last;
  }),
)

-- For a 32-bit request number: a response that completes the keepalive with that number does not
-- complete the keepalive with the next number, so a late completion is refused.
pub keepalive-stale :
    (id : ℕ) (bytes msg : List ℕ)
    → id < 2 ^ 32
    → response (keepalive id) bytes ≡ ok msg
    → ¬ ((other : List ℕ) × (response (keepalive (next_id id)) bytes ≡ ok other))
unfolding keepalive
keepalive-stale id bytes msg h e (other, f) =
    let (_, same, _) =
      response_unique (keepalive id) (keepalive (next_id id)) bytes msg other e f in
    let (_, _, differs) = next_id_bounds id h in differs (cc same)
