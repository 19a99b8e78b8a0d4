-- ===== src/Checksum.antt =====
-- crates/blackbox-core/src/checksum.rs: the text that Kraken's checksum is taken over, the checksum
-- and its verification. The CRC is that of the dependency `crc32fast`, a parameter.
pub mod Levels
use k_blackbox.Base.{ℕ, List, [], ◌∷◌, ◌++◌, Bool, ◌==◌, take}
use k_blackbox.Decimal.{Decimal, Text, Level}
use k_blackbox.Orderbook.{Orderbook, asks_iter, bids_iter_rev}
use k_blackbox.Precision.{format_fixed}

-- `crc32fast::Hasher`.
pub record Hasher : Type 1 where
  pub State : Type 0
  pub init : State
  pub feed : State → Text → State
  pub finalize : State → ℕ

unfoldable pub compute_crc32 : Hasher → Text → ℕ
compute_crc32 h s = h.finalize (h.feed h.init s)

module _ {D : Type 0} ⦃d : Decimal D⦄ where
  -- The body of both loops: push the price and then the quantity of each level.
  unfoldable pub push_levels : ℕ → ℕ → Text → List (Level D) → Text
  push_levels price_precision qty_precision acc [] = acc
  push_levels price_precision qty_precision acc ((price, qty) ∷ ls) =
      push_levels price_precision qty_precision
        ((acc ++ format_fixed price price_precision) ++ format_fixed qty qty_precision) ls

  unfoldable pub build_checksum_string : Orderbook D → ℕ → ℕ → Text
  build_checksum_string book price_precision qty_precision =
      push_levels price_precision qty_precision
        (push_levels price_precision qty_precision [] (take 10 (asks_iter book)))
        (take 10 (bids_iter_rev book))

  unfoldable pub verify_checksum : Hasher → Orderbook D → ℕ → ℕ → ℕ → Bool
  verify_checksum h book expected price_precision qty_precision =
      compute_crc32 h (build_checksum_string book price_precision qty_precision) == expected
