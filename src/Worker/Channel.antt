-- ===== src/Worker/Channel.antt =====
-- The two directions of src/worker.rs as channels: what passes, in which order, and what is lost.
use galaxybridge.Prelude.{
  ℕ, suc, ◌≤◌, ◌≡◌, refl, sym, ap, inl, inr, List, [], ◌∷◌, ◌++◌, map, Option, none, some, Result,
  ok, err, Bool-cases, All, All-append, length, append-nil,
}
use galaxybridge.Ipc.{Message, ready, frame, contains, decode-encode_frame}
use galaxybridge.Ipc
use galaxybridge.Rndis.Packet.{frame_limit}
use galaxybridge.Rndis.Packet
use galaxybridge.Rndis.Packet.Decode.{decode_bounds}
use galaxybridge.Worker.{
  Arrival, Sent, after_send, send_frames, then_receive, with_frames, with_completion, receive,
}

-- A channel that keeps the order, invents nothing, and may lose what it is offered.
pub data Lossy : List (List ℕ) → List (List ℕ) → Type 0 where
  empty : Lossy [] []
  passes :
      {offered passed : List (List ℕ)} (f : List ℕ)
      → Lossy offered passed
      → Lossy (f ∷ offered) (f ∷ passed)
  loses :
      {offered passed : List (List ℕ)} (f : List ℕ)
      → Lossy offered passed
      → Lossy (f ∷ offered) passed

-- The frames of a completed transfer.
abbrev pub frames_of : Result (List (List ℕ)) → List (List ℕ)
frames_of (ok frames) = frames
frames_of (err e) = []

abbrev pub arrived : Option (Result (List ℕ)) → List (List ℕ)
arrived (some (ok buffer)) = frames_of (Packet.decode buffer)
arrived _ = []

-- All frames that the device delivers, in order.
abbrev pub offered : List Arrival → List (List ℕ)
offered [] = []
offered (a ∷ as') = arrived a.completion ++ offered as'

-- The datagrams are those of frames that the lossy channel passes, and the supervisor decodes each to
-- its frame.
pub record Passes (offers datagrams : List (List ℕ)) : Type 0 where
  pub frames : List (List ℕ)
  pub lossy : Lossy offers frames
  pub encoded : datagrams ≡ map (λ f. Ipc.encode (frame f)) frames

lose_all : (offers : List (List ℕ)) → Lossy offers []
lose_all [] = empty
lose_all (f ∷ fs) = loses f (lose_all fs)

Lossy-append :
    {xs ys us vs : List (List ℕ)} → Lossy xs us → Lossy ys vs → Lossy (xs ++ ys) (us ++ vs)
Lossy-append empty k = k
Lossy-append (passes f h) k = passes f (Lossy-append h k)
Lossy-append (loses f h) k = loses f (Lossy-append h k)

nothing : (offers : List (List ℕ)) → Passes offers []
nothing offers = record { frames = []; lossy = lose_all offers; encoded = refl }

after_send-Passes :
    (f : List ℕ) (fs : List (List ℕ)) (r : Result (Unit {0}))
    (rest : List (List ℕ) × Result (Unit {0}))
    → Passes fs rest.0
    → Passes (f ∷ fs) (after_send (Ipc.encode (frame f)) r rest).0
unfolding after_send
after_send-Passes f fs (ok sent) rest h = record {
  frames = f ∷ h.frames;
  lossy = passes f h.lossy;
  encoded = ap (◌∷◌ (Ipc.encode (frame f))) h.encoded;
}
after_send-Passes f fs (err e) rest h = elim (Bool-cases (contains e)) [
  | inl busy ↦ rw busy (record { frames = h.frames; lossy = loses f h.lossy; encoded = h.encoded })
  | inr broken ↦ rw broken (nothing (f ∷ fs))
]

send_frames-Passes : (a : Arrival) (i : ℕ) (fs : List (List ℕ)) → Passes fs (send_frames a i fs).0
unfolding send_frames
send_frames-Passes a i [] = nothing []
send_frames-Passes a i (f ∷ fs) = elim (Bool-cases (a.stops i)) [
  | inl stop ↦ rw stop (nothing (f ∷ fs))
  | inr go ↦ rw go (after_send-Passes f fs (a.sends i) _ (send_frames-Passes a (suc i) fs))
]

map-append : (g : List ℕ → List ℕ) (xs ys : List (List ℕ)) → map g (xs ++ ys) ≡ map g xs ++ map g ys
map-append g [] ys = refl
map-append g (x ∷ xs) ys = ap (◌∷◌ (g x)) (map-append g xs ys)

then_receive-Passes :
    (xs ys : List (List ℕ)) (o : List (List ℕ) × Result (Unit {0})) (rest : Sent)
    → Passes xs o.0
    → Passes ys rest.0
    → Passes (xs ++ ys) (then_receive o rest).0
unfolding then_receive
then_receive-Passes xs ys (ds, err e) rest h k = record {
  frames = h.frames;
  lossy = rw (← append-nil h.frames) (Lossy-append h.lossy (lose_all ys));
  encoded = h.encoded;
}
then_receive-Passes xs ys (ds, ok done) rest h k = record {
  frames = h.frames ++ k.frames;
  lossy = Lossy-append h.lossy k.lossy;
  encoded = rw (h.encoded, k.encoded) (sym (map-append _ h.frames k.frames));
}

with_frames-Passes :
    (a : Arrival) (r : Result (List (List ℕ))) (later : List (List ℕ)) (rest : Sent)
    → Passes later rest.0
    → Passes (frames_of r ++ later) (with_frames a r rest).0
unfolding with_frames
with_frames-Passes a (err e) later rest h = nothing later
with_frames-Passes a (ok frames) later rest h =
    then_receive-Passes frames later (send_frames a 0 frames) rest (send_frames-Passes a 0 frames) h

with_completion-Passes :
    (a : Arrival) (c : Option (Result (List ℕ))) (later : List (List ℕ)) (rest : Sent)
    → Passes later rest.0
    → Passes (arrived c ++ later) (with_completion a c rest).0
unfolding with_completion
with_completion-Passes a none later rest h = h
with_completion-Passes a (some (err e)) later rest h = nothing later
with_completion-Passes a (some (ok buffer)) later rest h =
    with_frames-Passes a (Packet.decode buffer) later rest h

receive-Passes : (as' : List Arrival) → Passes (offered as') (receive as').0
unfolding receive
receive-Passes [] = nothing []
receive-Passes (a ∷ as') = elim (Bool-cases a.stopped) [
  | inl stop ↦ rw stop (nothing _)
  | inr go ↦
      rw go (with_completion-Passes a a.completion (offered as') (receive as') (receive-Passes as'))
]

abbrev IsFrame : List ℕ → Type 0
IsFrame f = (14 ≤ length f) × (length f ≤ frame_limit)

arrived-IsFrame : (c : Option (Result (List ℕ))) → All IsFrame (arrived c)
arrived-IsFrame none = tt
arrived-IsFrame (some (err e)) = tt
arrived-IsFrame (some (ok buffer)) = of (Packet.decode buffer) refl
  where
    of : (r : Result (List (List ℕ))) → Packet.decode buffer ≡ r → All IsFrame (frames_of r)
    of (err e) f = tt
    of (ok frames) f = (decode_bounds buffer frames f).0

offered-IsFrame : (as' : List Arrival) → All IsFrame (offered as')
offered-IsFrame [] = tt
offered-IsFrame (a ∷ as') =
    All-append IsFrame (arrived a.completion) (offered as') (arrived-IsFrame a.completion)
      (offered-IsFrame as')

Lossy-All : {xs ys : List (List ℕ)} (P : List ℕ → Type 0) → Lossy xs ys → All P xs → All P ys
Lossy-All P empty h = tt
Lossy-All P (passes f k) h = (h.0, Lossy-All P k h.1)
Lossy-All P (loses f k) h = Lossy-All P k h.1

-- What the supervisor makes of the datagrams.
relayed :
    (frames : List (List ℕ))
    → All IsFrame frames
    → map Ipc.decode (map (λ f. Ipc.encode (frame f)) frames) ≡ map (λ f. ok (frame f)) frames
relayed [] h = refl
relayed (f ∷ fs) ((lo, hi), h) = rw (decode-encode_frame f lo hi, relayed fs h) refl

-- The datagrams decode to frames that a lossy channel passes.
pub record IsRelayed (offers datagrams : List (List ℕ)) : Type 0 where
  pub frames : List (List ℕ)
  pub lossy : Lossy offers frames
  pub decoded : map Ipc.decode datagrams ≡ map (λ f. ok (frame f)) frames

-- For all turns of the receive thread: what the supervisor decodes of the datagrams that the thread
-- sends are frames that the device delivered, in the order in which it delivered them; some of them
-- may be lost, and none is made up, repeated or refused.
pub receive-IsRelayed : (as' : List Arrival) → IsRelayed (offered as') (receive as').0
receive-IsRelayed as' =
    let p = receive-Passes as' in
    record {
      frames = p.frames;
      lossy = p.lossy;
      decoded = rw p.encoded (relayed p.frames (Lossy-All IsFrame p.lossy (offered-IsFrame as')));
    }
