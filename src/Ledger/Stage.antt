-- ===== src/Ledger/Stage.antt =====
-- Processing.go: the stage of a transaction, which holds the account documents that the transaction
-- changes until they are written in one commit.
use jmdn.Base.{
  ℕ, ◌+◌, ◌*◌, Bool, not, Option, none, some, List, [], ◌∷◌, ◌++◌, ltb, ◌==◌, u64, if◌then◌else◌, ℤ,
  pos, ◌+ℤ◌, ◌-ℤ◌, ltb_ℤ, Table, find, store,
}
use jmdn.Ledger.{Balance, blank, malformed, amount, Account, Accounts}

pub data TxError : Type 0 where
  nil_address no_connection unreadable_account negative_value : TxError
  no_sender unreadable_recipient no_recipient : TxError
  sender_unavailable recipient_unavailable invalid_balance negative_amount : TxError
  stale_nonce insufficient_balance commit_failed : TxError

-- What a step returns: a value, or the error that ends the transaction.
pub data Result {ℓ} (A : Type ℓ) : Type ℓ where
  err : TxError → Result A
  ok : A → Result A

-- An early return with the error unless the test holds.
abbrev pub guard : Bool → TxError → Result (Unit {0})
guard passed e = if passed then ok tt else err e

infixl 5 ◌>>=◌
abbrev pub ◌>>=◌ {ℓ κ} : {A : Type ℓ} → {B : Type κ} → Result A → (A → Result B) → Result B
err e >>= rest = err e
ok value >>= rest = rest value

infixl 5 ◌>>◌
abbrev pub ◌>>◌ {ℓ} : {B : Type ℓ} → Result (Unit {0}) → Result B → Result B
first >> second = first >>= λ done. second

-- Where a transaction reads an account.
pub data Phase : Type 0 where
  snapshotting checking_sender checking_recipient adopting deducting crediting : Phase

-- Which calls of the database fail, other than by a key that is not found, while a transaction is
-- processed.
pub record Faults : Type 0 where
  pub no_connection : Bool
  pub marker_unread : Bool
  pub unread : Phase → ℕ → Bool
  pub commit_fails : Bool

-- The answer of GetAccount.
pub data Read : Type 0 where
  found : Account → Read
  missing failed : Read

unfoldable pub read_of : Option Account → Read
read_of none = missing
read_of (some doc) = found doc

unfoldable pub get_account : Faults → Phase → Accounts → ℕ → Read
get_account faults phase accounts addr =
    if faults.unread phase addr then failed else read_of (find accounts addr)

pub record Stage : Type 0 where
  pub docs : Accounts
  pub order : List ℕ

abbrev pub empty_stage : Stage
empty_stage = record { docs = []; order = [] }

-- get reads through the stage.
unfoldable pub staged_or_read : Option Account → Read → Read
staged_or_read (some doc) db = found doc
staged_or_read none db = db

unfoldable pub stage_get : Faults → Phase → Accounts → Stage → ℕ → Read
stage_get faults phase accounts s addr =
    staged_or_read (find s.docs addr) (get_account faults phase accounts addr)

unfoldable pub stage_put : ℕ → Account → Stage → Stage
stage_put addr doc s = record {
  docs = store s.docs addr doc;
  order = elim (find s.docs addr) [ none ↦ s.order ++ (addr ∷ []) | some d ↦ s.order ];
}

unfoldable pub adopt_nonce : ℕ → ℕ → Read → Stage → Stage
adopt_nonce addr nonce (found doc) s =
    if doc.nonce == nonce then s else stage_put addr (record doc { nonce = nonce }) s
adopt_nonce addr nonce missing s = s
adopt_nonce addr nonce failed s = s

-- adoptCarriedNonce
unfoldable pub adopt_carried_nonce : Faults → Accounts → Table ℕ → ℕ → Stage → Stage
adopt_carried_nonce faults accounts carried addr s = elim (find carried addr) [
  | none ↦ s
  | some nonce ↦
      if nonce == 0 then s else adopt_nonce addr nonce (stage_get faults adopting accounts s addr) s
]

-- `new(big.Int).SetString(balance, 10)`
unfoldable pub parse_balance : Balance → Result ℤ
parse_balance blank = err invalid_balance
parse_balance malformed = err invalid_balance
parse_balance (amount n) = ok n

unfoldable pub document : TxError → Read → Result Account
document e (found doc) = ok doc
document e missing = err e
document e failed = err e

-- blockTimestamp * int64(time.Second), as a bit pattern
abbrev pub nanos : ℕ → ℕ
nanos timestamp = u64 (timestamp * 1_000_000_000)

unfoldable pub deducted : ℕ → ℤ → ℕ → Account → Account
deducted tx_nonce balance timestamp doc = record doc {
  balance = amount balance;
  tx_nonce = u64 (tx_nonce + 1);
  tx_count_sent = u64 (doc.tx_count_sent + 1);
  updated_at = nanos timestamp;
}

unfoldable pub deduct_from_sender : Faults → Accounts → ℕ → ℕ → ℤ → ℕ → Stage → Result Stage
deduct_from_sender faults accounts from tx_nonce total timestamp s = do
  doc ← document sender_unavailable (stage_get faults deducting accounts s from)
  current ← parse_balance doc.balance
  guard (not (ltb tx_nonce doc.tx_nonce)) stale_nonce
  guard (not (ltb_ℤ total (pos 0))) negative_amount
  guard (not (ltb_ℤ current total)) insufficient_balance
  ok (stage_put from (deducted tx_nonce (current -ℤ total) timestamp doc) s)

unfoldable pub add_to_recipient : Faults → Accounts → ℕ → ℤ → ℕ → Stage → Result Stage
add_to_recipient faults accounts addr credit timestamp s = do
  doc ← document recipient_unavailable (stage_get faults crediting accounts s addr)
  current ← parse_balance doc.balance
  guard (not (ltb_ℤ credit (pos 0))) negative_amount
  ok (
      stage_put addr
        (record doc { balance = amount (current +ℤ credit); updated_at = nanos timestamp }) s)
