-- ===== src/Text/Avoids.antt =====
-- Texts without two given bytes, decided by evaluation.
use kode.Prelude.{ℕ, ◌≡◌, ◌≢◌, Bool, true, not, ◌&&◌, [], ◌∷◌, All, arith, ◌==◌}
use kode.Text.{Bytes}

-- A Boolean test for a text without two bytes.
unfoldable pub has_neither : ℕ → ℕ → Bytes → Bool
has_neither a b [] = true
has_neither a b (c ∷ s) = not (c == a) && (not (c == b) && has_neither a b s)

pub has_neither-All :
    (a b : ℕ) (s : Bytes) → has_neither a b s ≡ true → All (λ c. (c ≢ a) × (c ≢ b)) s
unfolding has_neither
has_neither-All a b [] h = tt
has_neither-All a b (c ∷ s) h = (ground arith, has_neither-All a b s (ground arith))

pub NoNewline-of : (s : Bytes) → All (λ c. (c ≢ b'\n') × (c ≢ b'\n')) s → All (λ c. c ≢ b'\n') s
NoNewline-of [] h = tt
NoNewline-of (c ∷ s) h = (h.0.0, NoNewline-of s h.1)
