-- ===== src/Fee/Tests.antt =====
-- Fees and splits at concrete inputs.
use mathlib.Core.List.{Permᴰ}
use jmdn.Base.{◌+◌, ◌/◌, ◌≤◌, ◌≡◌, refl, ◌⊎◌, none, some, [], ◌∷◌}
use jmdn.Fee.{
  FeeRecipient, split_fee, effective_gas_price, base_fee_wei, sort_recipients, insert_recipient,
  distribute, add_remainder, distributed,
}
use jmdn.Fee.Split.{split_fee_conserves}
use jmdn.Fee.Order.{credited, split_fee-perm}
use jmdn.Fee.Price.{effective_gas_price-type_2}

abbrev heavy : FeeRecipient
heavy = record { addr = 9; weight = 2 }

abbrev light : FeeRecipient
light = record { addr = 4; weight = 1 }

-- 101 wei: 50 to the ZKVM address, and 51 by weight, the spare wei to the lowest address.
split_of_101 :
    split_fee (some 101) 1 (heavy ∷ light ∷ [])
    ≡ (50, record { addr = 4; amount = 17 } ∷ record { addr = 9; amount = 34 } ∷ [])
unfolding split_fee sort_recipients insert_recipient distribute add_remainder
split_of_101 = refl

split_fee_conserves_example :
    ((split_fee (some 101) 1 (heavy ∷ light ∷ [])).0
        + distributed (split_fee (some 101) 1 (heavy ∷ light ∷ [])).1
      ≡ 101)
    × ((split_fee (some 101) 1 (heavy ∷ light ∷ [])).0 ≡ 101 / 2)
split_fee_conserves_example = split_fee_conserves (some 101) 1 (heavy ∷ light ∷ [])

split_fee-perm_example :
    (credited 4 (split_fee (some 100) 1 (heavy ∷ light ∷ [])).1
      ≡ credited 4 (split_fee (some 100) 1 (light ∷ heavy ∷ [])).1)
    × ((split_fee (some 100) 1 (heavy ∷ light ∷ [])).0
        ≡ (split_fee (some 100) 1 (light ∷ heavy ∷ [])).0)
split_fee-perm_example = split_fee-perm (some 100) 1 4 (Permᴰ.swap refl refl)

effective_gas_price-type_2_example :
    (effective_gas_price 2 none (some 40_000_000_000) (some 1) ≤ 40_000_000_000)
    × (effective_gas_price 2 none (some 40_000_000_000) (some 1) ≤ base_fee_wei + 1)
    × ((effective_gas_price 2 none (some 40_000_000_000) (some 1) ≡ 40_000_000_000)
        ⊎ (effective_gas_price 2 none (some 40_000_000_000) (some 1) ≡ base_fee_wei + 1))
effective_gas_price-type_2_example = effective_gas_price-type_2 none (some 1) 40_000_000_000
