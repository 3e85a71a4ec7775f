-- ===== src/Fee.antt =====
-- config/gasfee.go: the gas fee of a transaction and its split. Amounts are Go's `big.Int` and are
-- not negative here; an address is its 20 bytes read as a big-endian number, so that bytes.Compare
-- is the order of the numbers.
pub mod Sorting
pub mod Split
pub mod Order
pub mod Price
mod Tests
use jmdn.Base.{
  ℕ, ◌+◌, ◌-◌, ◌*◌, ◌/◌, Option, none, some, List, [], ◌∷◌, leb, ◌==◌, if◌then◌else◌, sum_by,
}

pub record FeeRecipient : Type 0 where
  pub addr : ℕ
  pub weight : ℕ

pub record FeeCredit : Type 0 where
  pub addr : ℕ
  pub amount : ℕ

abbrev pub or_zero : Option ℕ → ℕ
or_zero none = 0
or_zero (some n) = n

abbrev pub total_weight : List FeeRecipient → ℕ
total_weight = sum_by (λ r. r.weight)

-- sort.Slice by address
unfoldable pub insert_recipient : FeeRecipient → List FeeRecipient → List FeeRecipient
insert_recipient r [] = r ∷ []
insert_recipient r (x ∷ xs) = if leb r.addr x.addr then r ∷ x ∷ xs else x ∷ insert_recipient r xs

unfoldable pub sort_recipients : List FeeRecipient → List FeeRecipient
sort_recipients [] = []
sort_recipients (r ∷ rs) = insert_recipient r (sort_recipients rs)

-- The loop over the ordered recipients: each weight above zero gets its floor.
unfoldable pub distribute : ℕ → ℕ → List FeeRecipient → List FeeCredit
distribute share total [] = []
distribute share total (r ∷ rs) =
    let rest = distribute share total rs in
    if r.weight == 0
    then rest
    else record { addr = r.addr; amount = share * r.weight / total } ∷ rest

abbrev pub distributed : List FeeCredit → ℕ
distributed = sum_by (λ c. c.amount)

-- The remainder goes to the first credit.
unfoldable pub add_remainder : ℕ → List FeeCredit → List FeeCredit
add_remainder rem [] = []
add_remainder rem (c ∷ cs) = record c { amount = c.amount + rem } ∷ cs

-- SplitFee: the ZKVM share, and the credits of the coinbase side.
unfoldable pub split_fee : Option ℕ → ℕ → List FeeRecipient → ℕ × List FeeCredit
split_fee gas_fee coinbase recipients =
    let g = or_zero gas_fee in
    let zkvm_share = g / 2 in
    let coinbase_share = g - zkvm_share in
    let total = total_weight recipients in
    let credits = distribute coinbase_share total (sort_recipients recipients) in
    if total == 0
    then (zkvm_share, record { addr = coinbase; amount = coinbase_share } ∷ [])
    else (zkvm_share, add_remainder (coinbase_share - distributed credits) credits)

abbrev pub base_fee_wei : ℕ
base_fee_wei = 35_000_000_000

abbrev pub fallback_gas_price_wei : ℕ
fallback_gas_price_wei = 1_000_000_000

abbrev pub fallback_tx_gas_limit : ℕ
fallback_tx_gas_limit = 21000

abbrev pub or_else : Option ℕ → ℕ → ℕ
or_else none d = d
or_else (some n) d = n

-- EffectiveGasPrice
unfoldable pub effective_gas_price : ℕ → Option ℕ → Option ℕ → Option ℕ → ℕ
effective_gas_price tx_type gas_price max_fee max_priority_fee =
    let mf = or_else max_fee base_fee_wei in
    let base_plus_tip = base_fee_wei + or_zero max_priority_fee in
    if tx_type == 2
    then (if leb mf base_plus_tip then mf else base_plus_tip)
    else or_else gas_price (or_else max_fee (or_else max_priority_fee fallback_gas_price_wei))

-- EffectiveGasLimit
unfoldable pub effective_gas_limit : ℕ → ℕ
effective_gas_limit gas_limit = if gas_limit == 0 then fallback_tx_gas_limit else gas_limit

-- GasFee
unfoldable pub gas_fee : ℕ → ℕ → Option ℕ → Option ℕ → Option ℕ → ℕ
unfolding effective_gas_limit effective_gas_price
gas_fee tx_type gas_limit gas_price max_fee max_priority_fee =
    effective_gas_limit gas_limit * effective_gas_price tx_type gas_price max_fee max_priority_fee
