-- ===== src/Exchange/Api.antt =====
-- What exchange/src/lib.rs takes from the framework besides storage: bytes of big numbers, the
-- split of a byte string, and names of tokens.
use sc_chainlink_rs.Prelude.{ℕ, ◌<◌, ◌≡◌, List, [], ◌∷◌}

pub record ExchangeApi : Type 0 where
  -- `BigUint::to_bytes_be`: big-endian, with no leading zero byte
  pub to_bytes_be : ℕ → List ℕ
  pub to_bytes_be_zero : to_bytes_be 0 ≡ []
  pub to_bytes_be_byte : (d : ℕ) → 0 < d → d < 256 → to_bytes_be d ≡ d ∷ []
  -- `BoxedBytes::split`
  pub split : List ℕ → ℕ → List ℕ × List ℕ
  -- `TokenIdentifier::from` and `TokenIdentifier::as_name`
  pub token_from : List ℕ → List ℕ
  pub as_name : List ℕ → List ℕ
