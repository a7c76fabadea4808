-- ===== src/Usb/Session.antt =====
-- src/usb/session.rs: the control exchanges with the device. What the USB library and the clock do in
-- an exchange is a script: the outcome of the send, then one event for each round of the loop that
-- starts before the deadline.
pub mod Exchange
pub mod Handshake
use Prim.Native.Nat.{max}
use galaxybridge.Prelude.{
  ℕ, zero, suc, ◌+◌, ◌%◌, ◌^◌, ◌≡◌, Bool, true, false, ◌&&◌, ◌||◌, not, List, [], ◌∷◌, Result, ok,
  err, Error, message, ◌>>=◌, ◌>>◌, refuse, length, text_eq, ltb, ◌==◌, if◌then◌else◌,
}
use galaxybridge.Rndis.Wire.{u32_at}
use galaxybridge.Rndis.Control.Request.{
  Request, initialize, query, filter, keepalive, halt, response, mac_address,
}
use galaxybridge.Rndis.Control.Notification
use galaxybridge.Rndis.Control.Indication
use galaxybridge.Rndis.Control.Indication.{Indication, media_disconnect}
use galaxybridge.Rndis.Control.Negotiation
use galaxybridge.Rndis.Control.Query
use galaxybridge.Ipc.{invalid_mac}

pub data Event : Type 0 where
  -- No notification within the 100 milliseconds of the wait.
  idle : Event
  -- The notification transfer failed.
  failed : Error → Event
  -- A notification, and what reading the response then gives.
  notified : List ℕ → Result (List ℕ) → Event

pub record Script : Type 0 where
  pub sent : Result (Unit {0})
  pub events : List Event

unfoldable pub is_disconnect : Indication → Bool
is_disconnect media_disconnect = true
is_disconnect _ = false

-- What one response means for the exchange: go on waiting, or the completion.
pub data Answer : Type 0 where
  wait : Answer
  done : List ℕ → Answer

-- A status indication: the device may not announce that it is disconnected.
unfoldable pub read_indication : List ℕ → Result Answer
unfolding is_disconnect
read_indication bytes = do
  indication ← Indication.parse bytes
  refuse (is_disconnect indication) (message "RNDIS media disconnected")
  ok wait

unfoldable pub read_completion : Request → List ℕ → Result Answer
read_completion request bytes = do completion ← response request bytes; ok (done completion)

-- A response that was read: one zero byte when there is none yet, a status indication, or the
-- completion of the request.
unfoldable pub read_response : Request → List ℕ → Result Answer
unfolding read_indication read_completion
read_response request bytes =
    let other = u32_at bytes 0 >>= λ kind.
    if kind == 7 then read_indication bytes else read_completion request bytes in
    if text_eq bytes (0 ∷ []) then ok wait else other

-- One notification, `responses` of which came before.
unfoldable pub take_notification : Request → ℕ → List ℕ → Result (List ℕ) → Result Answer
take_notification request responses note answer = do
  Notification.validate note
  refuse (ltb 32 (responses + 1))
      (message "too many RNDIS control indications without a completion")
  bytes ← answer
  read_response request bytes

unfoldable pub exchange_loop : Request → ℕ → List Event → Result (List ℕ)
exchange_loop request responses [] = err (message "RNDIS control response timed out")
exchange_loop request responses (idle ∷ events) = exchange_loop request responses events
exchange_loop request responses (failed e ∷ events) = err e
exchange_loop request responses (notified note answer ∷ events) =
    take_notification request responses note answer >>= elim [
      | wait ↦ exchange_loop request (responses + 1) events
      | done completion ↦ ok completion
    ]

-- `Session::exchange`
unfoldable pub exchange : Request → Script → Result (List ℕ)
exchange request script = do script.sent; exchange_loop request 0 script.events

pub record Session : Type 0 where
  pub id : ℕ
  pub mac : List ℕ
  pub max_transfer : ℕ

-- `self.id.wrapping_add(1).max(1)` on `u32`.
unfoldable pub next_id : ℕ → ℕ
next_id id = max ((id + 1) % 2 ^ 32) 1

-- The handshake of `Session::open`, once the interfaces are claimed, with one script for each of its
-- three exchanges.
unfoldable pub handshake : Script → Script → Script → Result Session
handshake initializing querying filtering = do
  init ← exchange (initialize 1) initializing
  negotiation ← Negotiation.parse init
  let second = next_id 1
  answer ← exchange (query second mac_address) querying
  mac ← Query.payload answer
  refuse (not (length mac == 6)) (message "invalid MAC response length")
  refuse (invalid_mac mac) (message "invalid device MAC")
  let third = next_id second
  completion ← exchange (filter third) filtering
  ok (record { id = third; mac = mac; max_transfer = negotiation.max_transfer })

-- `Session::keepalive`
unfoldable pub keep_alive : Session → Script → Session × Result (Unit {0})
keep_alive s script =
    let id = next_id s.id in
    (record s { id = id }, (exchange (keepalive id) script >>= λ completion. ok tt))

-- The request that dropping a session sends; its outcome is ignored.
unfoldable pub farewell : Session → Request
farewell s = halt ((s.id + 1) % 2 ^ 32)
