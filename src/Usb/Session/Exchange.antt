-- ===== src/Usb/Session/Exchange.antt =====
-- When an exchange succeeds, and with which response.
use galaxybridge.Prelude.{
  ℕ, suc, ◌+◌, ◌<◌, ◌≡◌, ◌≢◌, ◌↔◌, ◌⊎◌, inl, inr, refl, ap, List, [], ◌∷◌, ◌++◌, arith, Result, ok,
  err, All, text_eq, text_eq_iff, Bool-cases, Result-cases, text_eq_refl, ◌==◌,
}
use galaxybridge.Rndis.Wire.{u32_at}
use galaxybridge.Rndis.Control.Request.{Request, response, response_kind}
use galaxybridge.Rndis.Control.Notification
use galaxybridge.Rndis.Control.Indication
use galaxybridge.Rndis.Control.Indication.{Indication, media_connect, media_disconnect, other}
use galaxybridge.Usb.Session.{
  Event, idle, failed, notified, Answer, wait, done, read_indication, read_completion,
  read_response, take_notification, exchange_loop, exchange, Script,
}

-- A status indication other than a disconnection.
abbrev pub IsStatus : List ℕ → Type 0
IsStatus bytes =
    (u32_at bytes 0 ≡ ok 7)
    × ((i : Indication) × (Indication.parse bytes ≡ ok i) × (i ≢ media_disconnect))

-- A round after which the exchange goes on waiting.
abbrev pub IsHarmless : Event → Type 0
IsHarmless idle = Unit
IsHarmless (failed e) = ⊥
IsHarmless (notified note answer) =
    (Notification.validate note ≡ ok tt)
    × ((bytes : List ℕ) × (answer ≡ ok bytes) × ((bytes ≡ 0 ∷ []) ⊎ IsStatus bytes))

-- A valid notification whose response completes the request.
abbrev pub Completes : Request → Event → List ℕ → Type 0
Completes request idle msg = ⊥
Completes request (failed e) msg = ⊥
Completes request (notified note answer) msg =
    (Notification.validate note ≡ ok tt)
    × ((bytes : List ℕ) × (answer ≡ ok bytes) × (response request bytes ≡ ok msg))

abbrev pub notifications : List Event → ℕ
notifications [] = 0
notifications (idle ∷ events) = notifications events
notifications (failed e ∷ events) = notifications events
notifications (notified note answer ∷ events) = suc (notifications events)

read_indication-wait :
    (bytes : List ℕ) (a : Answer)
    → (read_indication bytes ≡ ok a)
      ↔ ((a ≡ wait) × ((i : Indication) × (Indication.parse bytes ≡ ok i) × (i ≢ media_disconnect)))
unfolding read_indication
read_indication-wait bytes a =
    (λ e. forward (Indication.parse bytes) refl e, λ (w, (i, p, n)). back i w p n)
  where
    forward :
        (r : Result Indication)
        → Indication.parse bytes ≡ r
        → read_indication bytes ≡ ok a
        → (a ≡ wait) × ((i : Indication) × (Indication.parse bytes ≡ ok i) × (i ≢ media_disconnect))
    forward (err x) p e = absurd (ground arith)
    forward (ok media_disconnect) p e = absurd (ground arith)
    forward (ok media_connect) p e = (ground arith, (media_connect, p, λ q. cc))
    forward (ok other) p e = (ground arith, (other, p, λ q. cc))

    back :
        (i : Indication)
        → a ≡ wait
        → Indication.parse bytes ≡ ok i
        → i ≢ media_disconnect
        → read_indication bytes ≡ ok a
    back media_disconnect w p n = absurd (n refl)
    back media_connect w p n = ground arith
    back other w p n = ground arith

read_completion-done :
    (request : Request) (bytes : List ℕ) (a : Answer)
    → read_completion request bytes ≡ ok a
    → (msg : List ℕ) × (a ≡ done msg) × (response request bytes ≡ ok msg)
unfolding read_completion
read_completion-done request bytes a e = elim (Result-cases (response request bytes)) [
  | inl (msg, r) ↦ (msg, ground arith, r)
  | inr (x, r) ↦ absurd (ground arith)
]

no_word : (bytes : List ℕ) (v : ℕ) → bytes ≡ 0 ∷ [] → ¬ (u32_at bytes 0 ≡ ok v)
no_word bytes v e = rw e (λ h. absurd (unfold u32_at in cc h))

read_response-cases :
    (request : Request) (bytes : List ℕ) (a : Answer)
    → read_response request bytes ≡ ok a
    → ((bytes ≡ 0 ∷ []) × (a ≡ wait))
      ⊎ (((u32_at bytes 0 ≡ ok 7) × (read_indication bytes ≡ ok a))
          ⊎ (read_completion request bytes ≡ ok a))
unfolding read_response
read_response-cases request bytes a e = elim (Bool-cases (text_eq bytes (0 ∷ []))) [
  | inl t ↦ inl ((text_eq_iff _ _).0 t, ground arith)
  | inr f ↦ elim (Result-cases (u32_at bytes 0)) [
    | inr (x, u) ↦ absurd (ground arith)
    | inl (k, u) ↦ elim (Bool-cases (k == 7)) [
      | inl seven ↦ inr (inl (ground arith, ground arith))
      | inr not_seven ↦ inr (inr (ground arith))
    ]
  ]
]

-- The response makes the exchange go on exactly when it is the placeholder or a status indication.
read_response-wait :
    (request : Request) (bytes : List ℕ)
    → (read_response request bytes ≡ ok wait) ↔ ((bytes ≡ 0 ∷ []) ⊎ IsStatus bytes)
read_response-wait request bytes = (
  λ e. elim (read_response-cases request bytes wait e) [
    | inl (zero_byte, w) ↦ inl zero_byte
    | inr (inl (seven, i)) ↦ inr (seven, ((read_indication-wait bytes wait).0 i).1)
    | inr (inr c) ↦ let (msg, w, r) = read_completion-done request bytes wait c in absurd (cc w)
  ],
  λ h. elim h [
    | inl zero_byte ↦ unfold read_response in rw (zero_byte, text_eq_refl (0 ∷ [])) refl
    | inr (seven, i) ↦ elim (Bool-cases (text_eq bytes (0 ∷ []))) [
      | inl t ↦ absurd (no_word bytes 7 ((text_eq_iff _ _).0 t) seven)
      | inr f ↦
          unfold read_response in ground (arith, (read_indication-wait bytes wait).1 (refl, i))
    ]
  ],
)

read_response-done :
    (request : Request) (bytes msg : List ℕ)
    → (read_response request bytes ≡ ok (done msg)) ↔ (response request bytes ≡ ok msg)
read_response-done request bytes msg = (
  λ e. elim (read_response-cases request bytes (done msg) e) [
    | inl (zero_byte, w) ↦ absurd (cc w)
    | inr (inl (seven, i)) ↦ absurd (cc ((read_indication-wait bytes (done msg)).0 i).0)
    | inr (inr c) ↦
        let (msg', w, r) = read_completion-done request bytes (done msg) c in
        let same : msg ≡ msg' = cc w in rw same r
  ],
  λ r. elim (Bool-cases (text_eq bytes (0 ∷ []))) [
    | inl t ↦ absurd (no_word bytes _ ((text_eq_iff _ _).0 t) (response_kind request bytes msg r))
    | inr f ↦
        unfold read_response read_completion in ground (arith, response_kind request bytes msg r)
  ],
)

take_notification-ok :
    (request : Request) (n : ℕ) (note : List ℕ) (answer : Result (List ℕ)) (a : Answer)
    → take_notification request n note answer ≡ ok a
    → (Notification.validate note ≡ ok tt)
      × (n < 32)
      × ((bytes : List ℕ) × (answer ≡ ok bytes) × (read_response request bytes ≡ ok a))
unfolding take_notification
take_notification-ok request n note (err x) a e = absurd (ground arith)
take_notification-ok request n note (ok bytes) a e =
    (ground arith, ground arith, (bytes, refl, ground arith))

take_notification-back :
    (request : Request) (n : ℕ) (note bytes : List ℕ) (a : Answer)
    → Notification.validate note ≡ ok tt
    → n < 32
    → read_response request bytes ≡ ok a
    → take_notification request n note (ok bytes) ≡ ok a
unfolding take_notification
take_notification-back request n note bytes a v h r = ground arith

-- The first round that is not harmless decides, and it has to come among the first 32 notifications.
abbrev pub Succeeds : Request → ℕ → List Event → List ℕ → Type 0
Succeeds request n events msg =
    (before : List Event) × (after : List Event) × (e : Event) × (events ≡ before ++ (e ∷ after))
    × All IsHarmless before
    × Completes request e msg
    × (n + notifications before < 32)

exchange_loop-Succeeds :
    (request : Request) (n : ℕ) (events : List Event) (msg : List ℕ)
    → exchange_loop request n events ≡ ok msg
    → Succeeds request n events msg
unfolding exchange_loop
exchange_loop-Succeeds request n [] msg e = absurd (cc e)
exchange_loop-Succeeds request n (idle ∷ events) msg e =
    let (before, after, x, shape, safe, c, few) = exchange_loop-Succeeds request n events msg e in
    (idle ∷ before, after, x, ap (◌∷◌ idle) shape, (tt, safe), c, few)
exchange_loop-Succeeds request n (failed x ∷ events) msg e = absurd (cc e)
exchange_loop-Succeeds request n (notified note answer ∷ events) msg e =
    elim (Result-cases (take_notification request n note answer)) [
      | inr (x, t) ↦ absurd (ground arith)
      | inl (done m, t) ↦
          let (v, few, (bytes, got, r)) = take_notification-ok request n note answer (done m) t in
          let same : m ≡ msg = ground arith in
          (
            [],
            events,
            notified note answer,
            refl,
            tt,
            (v, (bytes, got, rw (← same) ((read_response-done request bytes m).0 r))),
            omega arith,
          )
      | inl (wait, t) ↦
          let (v, few, (bytes, got, r)) = take_notification-ok request n note answer wait t in
          let (before, after, x, shape, safe, c, count) =
            exchange_loop-Succeeds request (n + 1) events msg (ground arith) in
          (
            notified note answer ∷ before,
            after,
            x,
            ap (◌∷◌ (notified note answer)) shape,
            ((v, (bytes, got, (read_response-wait request bytes).0 r)), safe),
            c,
            omega arith,
          )
    ]

completing :
    (request : Request) (n : ℕ) (e : Event) (after : List Event) (msg : List ℕ)
    → Completes request e msg
    → n < 32
    → exchange_loop request n (e ∷ after) ≡ ok msg
unfolding exchange_loop
completing request n idle after msg c h = absurd c
completing request n (failed x) after msg c h = absurd c
completing request n (notified note answer) after msg (v, (bytes, got, r)) h =
    rw
      (
        got,
        take_notification-back request n note bytes (done msg) v h
            ((read_response-done request bytes msg).1 r),
      )
      refl

passing :
    (request : Request) (n : ℕ) (before : List Event) (e : Event) (after : List Event)
    (msg : List ℕ)
    → All IsHarmless before
    → Completes request e msg
    → n + notifications before < 32
    → exchange_loop request n (before ++ (e ∷ after)) ≡ ok msg
unfolding exchange_loop
passing request n [] e after msg safe c h = completing request n e after msg c (omega arith)
passing request n (idle ∷ before) e after msg (x, safe) c h =
    passing request n before e after msg safe c h
passing request n (failed x ∷ before) e after msg (never, safe) c h = absurd never
passing request n (notified note answer ∷ before) e after msg ((v, (bytes, got, r)), safe) c h =
    rw
      (
        got,
        take_notification-back request n note bytes wait v (omega arith)
            ((read_response-wait request bytes).1 r),
      )
      (passing request (n + 1) before e after msg safe c (omega arith))

-- For a request, a message and a script of what the device does: the exchange returns the message
-- exactly when the request was sent and, in the script, a first stretch of rounds is harmless (no
-- notification, or a valid one whose response is the single zero byte or a status indication other
-- than a disconnection) with at most 31 notifications, and the round after it is a valid
-- notification whose response completes the request with that message; what comes later is not
-- looked at.
pub exchange_iff :
    (request : Request) (script : Script) (msg : List ℕ)
    → (exchange request script ≡ ok msg)
      ↔ ((script.sent ≡ ok tt) × Succeeds request 0 script.events msg)
unfolding exchange
exchange_iff request script msg = (
  λ e. elim (Result-cases script.sent) [
    | inl (tt, s) ↦ (s, exchange_loop-Succeeds request 0 script.events msg (ground arith))
    | inr (x, s) ↦ absurd (ground arith)
  ],
  λ (s, (before, after, e, shape, safe, c, few)).
      let run = passing request 0 before e after msg safe c few in rw (s, shape) run,
)
