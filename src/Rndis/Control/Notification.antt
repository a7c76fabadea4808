-- ===== src/Rndis/Control/Notification.antt =====
-- src/rndis/control.rs, `Notification`: the RESPONSE_AVAILABLE notification.
use galaxybridge.Prelude.{
  ℕ, ◌≡◌, ◌↔◌, not, List, [], ◌∷◌, arith, Result, ok, message, ◌>>=◌, ◌>>◌, refuse, length, ◌==◌,
  All, IsByte, refl, take, drop, sym,
}
use galaxybridge.Rndis.Wire.{u32_at, u32_at-eq_ok, from_le_bytes}

unfoldable pub validate : List ℕ → Result (Unit {0})
validate bytes = do
  refuse (not (length bytes == 8)) (message "invalid RESPONSE_AVAILABLE notification")
  first ← u32_at bytes 0
  refuse (not (first == 1)) (message "invalid RESPONSE_AVAILABLE notification")
  second ← u32_at bytes 4
  refuse (not (second == 0)) (message "invalid RESPONSE_AVAILABLE notification")

abbrev pub response_available : List ℕ
response_available = 1 ∷ 0 ∷ 0 ∷ 0 ∷ 0 ∷ 0 ∷ 0 ∷ 0 ∷ []

notification_words :
    (bytes : List ℕ)
    → validate bytes ≡ ok tt
    → (length bytes ≡ 8) × (u32_at bytes 0 ≡ ok 1) × (u32_at bytes 4 ≡ ok 0)
unfolding validate
notification_words bytes v = ground arith

eight_bytes :
    (bytes : List ℕ)
    → All IsByte bytes
    → length bytes ≡ 8
    → from_le_bytes (take 4 bytes) ≡ 1
    → from_le_bytes (take 4 (drop 4 bytes)) ≡ 0
    → bytes ≡ response_available
unfolding from_le_bytes
eight_bytes (a ∷ b ∷ c ∷ d ∷ e ∷ f ∷ g ∷ h ∷ []) small size first second = ground arith
eight_bytes _ small size first second = absurd (omega arith)

-- For a list of bytes: `Notification::validate` accepts it exactly when it is the one notification
-- of eight bytes that says that a response is available.
pub validate_iff :
    (bytes : List ℕ) → All IsByte bytes → (validate bytes ≡ ok tt) ↔ (bytes ≡ response_available)
unfolding validate u32_at from_le_bytes
validate_iff bytes small = (
  λ v.
      let (size, first, second) = notification_words bytes v in
      let one = (u32_at-eq_ok bytes 0 1 first).1 in
      let none = (u32_at-eq_ok bytes 4 0 second).1 in
      eight_bytes bytes small size (sym one) (sym none),
  λ e. rw e refl,
)
