-- ===== src/Fee/Price.antt =====
-- EffectiveGasPrice and GasFee: the cap and the fallbacks.
use jmdn.Base.{ℕ, ◌+◌, ◌≤◌, ◌≡◌, ◌⊎◌, Option, some, arith}
use jmdn.Fee.{base_fee_wei, or_zero, effective_gas_price}

-- A type-2 transaction with a fee cap pays no more per gas than its cap, no more than the base fee
-- and its tip, and exactly one of the two; its gas price field plays no part.
pub effective_gas_price-type_2 :
    (gas_price tip : Option ℕ) (cap : ℕ)
    → (effective_gas_price 2 gas_price (some cap) tip ≤ cap)
      × (effective_gas_price 2 gas_price (some cap) tip ≤ base_fee_wei + or_zero tip)
      × ((effective_gas_price 2 gas_price (some cap) tip ≡ cap)
          ⊎ (effective_gas_price 2 gas_price (some cap) tip ≡ base_fee_wei + or_zero tip))
unfolding effective_gas_price
effective_gas_price-type_2 gas_price tip cap = (ground arith, ground arith, ground arith)
