-- ===== src/Ipc/Tests.antt =====
-- A datagram of the worker.
use galaxybridge.Prelude.{ℕ, ◌≡◌, ◌↔◌, List, [], ◌∷◌, ok, arith, refl}
use galaxybridge.Ipc.{ready, decode, encode, IsValid, invalid_mac, datagram_iff}

abbrev datagram : List ℕ
datagram = 1 ∷ 2 ∷ 0 ∷ 0 ∷ 0 ∷ 0 ∷ 1 ∷ []

decodes_ready : decode datagram ≡ ok (ready (2 ∷ 0 ∷ 0 ∷ 0 ∷ 0 ∷ 1 ∷ []))
unfolding decode invalid_mac
decodes_ready = refl

datagram_iff_example : (decode datagram ≡ ok (ready (2 ∷ 0 ∷ 0 ∷ 0 ∷ 0 ∷ 1 ∷ []))) ↔ (
    IsValid (ready (2 ∷ 0 ∷ 0 ∷ 0 ∷ 0 ∷ 1 ∷ []))
    × (encode (ready (2 ∷ 0 ∷ 0 ∷ 0 ∷ 0 ∷ 1 ∷ [])) ≡ datagram))
datagram_iff_example = datagram_iff datagram (ready (2 ∷ 0 ∷ 0 ∷ 0 ∷ 0 ∷ 1 ∷ [])) (ground arith)
