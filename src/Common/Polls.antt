-- ===== src/Common/Polls.antt =====
-- Rust's `Poll`.
pub data Poll {ℓ} (A : Type ℓ) : Type ℓ where
  pending : Poll A
  ready : A → Poll A
