-- ===== src/Ledger.antt =====
-- The accounts of the node and the two paths that change them: live execution of a block
-- (messaging/BlockProcessing/Processing.go) and reconciliation (DB_OPs/account_recon.go), over the
-- processed-markers (DB_OPs/tx_markers.go) and the applied anchor (DB_OPs/sync_anchor.go). The two
-- databases are tables. The state-apply lock makes each transaction, a rollback and a reconciliation
-- one step; a call of a database that may fail is told by a record of faults whether it does.
--
-- A balance is stored as a decimal text: here it is what big.Int reads in it. Gas prices are not
-- negative: the gates before execution reject a transaction with a negative one.
pub mod Markers
pub mod Stage
pub mod Execute
pub mod Processing
pub mod Recon
pub mod Ordinals
mod Laws
mod Tests
use jmdn.Base.{ℕ, ◌+◌, Option, none, some, String, List, Dict, ℤ, pos, Table}
use jmdn.Fee.{FeeRecipient}

-- A stored balance: no text, a decimal integer, or any other text.
pub data Balance : Type 0 where
  blank malformed : Balance
  amount : ℤ → Balance

-- DB_OPs.Account, without its optional metadata
pub record Account : Type 0 where
  pub did_address : String
  pub nonce : ℕ
  pub address : ℕ
  pub balance : Balance
  pub tx_nonce : ℕ
  pub tx_count_sent : ℕ
  pub account_type : String
  pub created_at : ℕ
  pub updated_at : ℕ

abbrev pub Accounts : Type 0
Accounts = Table Account

-- config.Transaction: a nil pointer is none.
pub record Tx : Type 0 where
  pub hash : String
  pub from : Option ℕ
  pub to : Option ℕ
  pub value : Option ℤ
  pub tx_type : ℕ
  pub nonce : ℕ
  pub gas_limit : ℕ
  pub gas_price : Option ℕ
  pub max_fee : Option ℕ
  pub max_priority_fee : Option ℕ

-- The fields of config.ZKBlock that the two paths read.
pub record Block : Type 0 where
  pub block_number : ℕ
  pub block_hash : String
  pub timestamp : ℕ
  pub transactions : List Tx
  pub coinbase_addr : Option ℕ
  pub zkvm_addr : Option ℕ
  pub fee_recipients : List FeeRecipient
  pub account_nonces : Table ℕ

-- The value of a marker: an int64, or text that is none.
pub data Marker : Type 0 where
  stamp : ℤ → Marker
  unparseable : Marker

-- accountsdb: accounts, tx_processed and block_processed markers, and the applied anchor.
-- defaultdb: the markers of older versions, the tx_processing marks, and the next ART ordinal.
pub record Ledger : Type 0 where
  pub accounts : Accounts
  pub tx_markers : Dict Marker
  pub block_markers : Dict Marker
  pub anchor : Option ℕ
  pub legacy_tx_markers : Dict Marker
  pub legacy_block_markers : Dict Marker
  pub processing : Dict Marker
  pub art_next : Option ℕ
