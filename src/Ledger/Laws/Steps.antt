-- ===== src/Ledger/Laws/Steps.antt =====
-- The steps of processTransaction when no call of the databases fails.
use jmdn.Base.{
  ℕ, ◌+◌, ◌≤◌, ◌≡◌, refl, inl, inr, true, false, Option, none, some, List, [], ◌∷◌, ◌==◌, ltb,
  length, length-append, All, ℤ, pos, ltb_ℤ, ◌+ℤ◌, ◌-ℤ◌, +ℤ_parts, Table, find, find-store, arith,
  Bool-cases,
}
use jmdn.Fee.{FeeCredit, split_fee}
use jmdn.Ledger.{amount, Account, Accounts, Tx}
use jmdn.Ledger.Stage.{
  Result, ok, ◌>>=◌, Phase, snapshotting, checking_sender, checking_recipient, deducting, crediting,
  Faults, found, read_of, get_account, staged_or_read, Stage, empty_stage, stage_get, stage_put,
  adopt_carried_nonce, document, parse_balance, deducted, deduct_from_sender, add_to_recipient,
  nanos,
}
use jmdn.Ledger.Execute.{
  Env, value_of, parse_transaction, tx_gas_fee, is_failed, is_found, readable, stage_recipient,
  carried_nonce, credit_all, execute,
}
use jmdn.Ledger.Laws.Overlay.{first}
use jmdn.Ledger.Laws.Once.{All-map}

-- No call of the databases fails.
abbrev pub IsCalm : Faults → Type 0
IsCalm faults =
    (faults.no_connection ≡ false)
    × (faults.commit_fails ≡ false)
    × ((phase : Phase) (a : ℕ) → faults.unread phase a ≡ false)

-- An account that is there, with a number for its balance, behind the stage.
abbrev pub IsFunded : Accounts → Stage → ℕ → Type 0
IsFunded accounts s a =
    (doc : Account) × (n : ℤ) × (first (find s.docs a) (find accounts a) ≡ some doc)
    × (doc.balance ≡ amount n)

-- A step that is done, keeps what is funded, and stages at most so many more documents.
abbrev pub Goes : Accounts → ℕ → Stage → Result Stage → Type 0
Goes accounts k s r =
    (s' : Stage) × (r ≡ ok s')
    × ((a : ℕ) → IsFunded accounts s a → IsFunded accounts s' a)
    × (length s'.order ≤ length s.order + k)
    × (length s.order ≤ length s'.order)

put-length :
    (addr : ℕ) (doc : Account) (s : Stage)
    → (length (stage_put addr doc s).order ≤ length s.order + 1)
      × (length s.order ≤ length (stage_put addr doc s).order)
unfolding stage_put
put-length addr doc s = ground (arith, length-append s.order (addr ∷ []))

pub put-IsFunded :
    (accounts : Accounts) (addr : ℕ) (doc : Account) (n : ℤ) (s : Stage) (a : ℕ)
    → doc.balance ≡ amount n
    → IsFunded accounts s a
    → IsFunded accounts (stage_put addr doc s) a
unfolding stage_put
put-IsFunded accounts addr doc n s a e (old, m, g, h) = elim (Bool-cases (addr == a)) [
  | inl q ↦ (doc, n, rw (find-store s.docs addr a doc, q) refl, e)
  | inr q ↦ (old, m, rw (find-store s.docs addr a doc, q) g, h)
]

total_not_negative :
    (v : ℤ) (fee : ℕ) → ltb_ℤ v (pos 0) ≡ false → ltb_ℤ (v +ℤ pos fee) (pos 0) ≡ false
total_not_negative v fee h = ground (arith, h, +ℤ_parts v (pos fee))

module _ (faults : Faults) (calm : IsCalm faults) (accounts : Accounts) where
  stage_get-found :
      (phase : Phase) (s : Stage) (a : ℕ) (doc : Account)
      → first (find s.docs a) (find accounts a) ≡ some doc
      → stage_get faults phase accounts s a ≡ found doc
  unfolding stage_get staged_or_read get_account read_of
  stage_get-found phase s a doc h = ground (arith, h, calm.2 phase a)

  put-Goes :
      (addr : ℕ) (doc : Account) (n : ℤ) (s : Stage) (r : Result Stage)
      → doc.balance ≡ amount n
      → r ≡ ok (stage_put addr doc s)
      → Goes accounts 1 s r
  put-Goes addr doc n s r e h = (
    stage_put addr doc s,
    h,
    (λ a. put-IsFunded accounts addr doc n s a e),
    (put-length addr doc s).0,
    (put-length addr doc s).1,
  )

  add_to_recipient-Goes :
      (addr : ℕ) (credit : ℤ) (timestamp : ℕ) (s : Stage)
      → ltb_ℤ credit (pos 0) ≡ false
      → IsFunded accounts s addr
      → Goes accounts 1 s (add_to_recipient faults accounts addr credit timestamp s)
  unfolding add_to_recipient document parse_balance
  add_to_recipient-Goes addr credit timestamp s c (doc, n, g, h) =
      put-Goes addr (record doc { balance = amount (n +ℤ credit); updated_at = nanos timestamp })
        (n +ℤ credit) s _ refl (rw (stage_get-found crediting s addr doc g, h, c) refl)

  deduct_from_sender-ok :
      (from tx_nonce : ℕ) (total : ℤ) (timestamp : ℕ) (s : Stage) (doc : Account) (n : ℤ)
      → first (find s.docs from) (find accounts from) ≡ some doc
      → doc.balance ≡ amount n
      → ltb tx_nonce doc.tx_nonce ≡ false
      → ltb_ℤ total (pos 0) ≡ false
      → ltb_ℤ n total ≡ false
      → deduct_from_sender faults accounts from tx_nonce total timestamp s
        ≡ ok (stage_put from (deducted tx_nonce (n -ℤ total) timestamp doc) s)
  unfolding deduct_from_sender document parse_balance
  deduct_from_sender-ok from tx_nonce total timestamp s doc n g h t c e =
      rw (stage_get-found deducting s from doc g, h, t, c, e) refl

  then-Goes :
      (k m total : ℕ) (s : Stage) (r : Result Stage) (f : Stage → Result Stage)
      → k + m ≤ total
      → Goes accounts k s r
      → ((s' : Stage)
          → ((a : ℕ) → IsFunded accounts s a → IsFunded accounts s' a)
          → Goes accounts m s' (f s'))
      → Goes accounts total s (r >>= f)
  then-Goes k m total s r f le (s', e, keep, above, below) g =
      let (s'', e', keep', above', below') = g s' keep in
      (
        s'',
        rw e e',
        (λ a q. keep' a (keep a q)),
        omega (arith, le, above, above'),
        omega (arith, below, below'),
      )

  credit_all-Goes :
      (timestamp : ℕ) (credits : List FeeCredit) (s : Stage)
      → All (λ (c : FeeCredit). IsFunded accounts s c.addr) credits
      → Goes accounts (length credits) s (credit_all faults accounts timestamp credits s)
  unfolding credit_all
  credit_all-Goes timestamp [] s h = (s, refl, (λ a q. q), omega arith, omega arith)
  credit_all-Goes timestamp (c ∷ cs) s h =
      then-Goes 1 (length cs) (length (c ∷ cs)) s
        (add_to_recipient faults accounts c.addr (pos c.amount) timestamp s)
        (credit_all faults accounts timestamp cs) (omega arith)
        (add_to_recipient-Goes c.addr (pos c.amount) timestamp s (ground arith) h.0)
        (λ s' keep. credit_all-Goes timestamp cs s' (All-map cs (λ x. keep x.addr) h.1))

  readable-all : (addrs : List ℕ) → readable faults accounts addrs ≡ true
  unfolding readable is_failed get_account read_of
  readable-all [] = refl
  readable-all (a ∷ addrs) = ground (arith, calm.2 snapshotting a, readable-all addrs)

  adopt-none :
      (carried : Table ℕ) (a : ℕ) (s : Stage)
      → find carried a ≡ none
      → adopt_carried_nonce faults accounts carried a s ≡ s
  unfolding adopt_carried_nonce
  adopt-none carried a s h = rw (adopt_carried_nonce, h) refl

  stage_recipient-ok :
      (env : Env) (from to : ℕ) (doc : Account) (carried : Option ℕ)
      → find env.account_nonces from ≡ none
      → find env.account_nonces to ≡ none
      → stage_recipient env faults accounts from to (found doc) carried ≡ ok empty_stage
  unfolding stage_recipient
  stage_recipient-ok env from to doc carried f t =
      rw
        (
          adopt-none env.account_nonces from empty_stage f,
          adopt-none env.account_nonces to empty_stage t,
        )
        refl

  get_account-found :
      (phase : Phase) (a : ℕ) (doc : Account)
      → find accounts a ≡ some doc
      → get_account faults phase accounts a ≡ found doc
  unfolding get_account read_of
  get_account-found phase a doc h = ground (arith, h, calm.2 phase a)

  -- What the rest of execute does after the sender has paid.
  abbrev pub rest_of : Env → ℕ → Tx → ℤ → Stage → Result Stage
  rest_of env to tx value s1 = do
    s2 ← add_to_recipient faults accounts to value env.timestamp s1
    s3 ←
        credit_all faults accounts env.timestamp
          (split_fee (some (tx_gas_fee tx)) env.coinbase env.fee_recipients).1 s2
    add_to_recipient faults accounts env.zkvm
        (pos (split_fee (some (tx_gas_fee tx)) env.coinbase env.fee_recipients).0) env.timestamp s3

  pub execute-rest :
      (env : Env) (from to : ℕ) (tx : Tx) (doc doc' : Account) (n : ℤ)
      → find env.account_nonces from ≡ none
      → find env.account_nonces to ≡ none
      → find accounts from ≡ some doc
      → find accounts to ≡ some doc'
      → doc.balance ≡ amount n
      → ltb tx.nonce doc.tx_nonce ≡ false
      → ltb_ℤ (value_of tx.value) (pos 0) ≡ false
      → ltb_ℤ n (value_of tx.value +ℤ pos (tx_gas_fee tx)) ≡ false
      → execute env faults accounts from to tx
        ≡ rest_of env to tx (value_of tx.value) (
            stage_put from
              (deducted tx.nonce
                (n -ℤ (value_of tx.value +ℤ pos (tx_gas_fee tx)))
                env.timestamp
                doc)
              empty_stage)
  unfolding execute parse_transaction is_found find
  execute-rest env from to tx doc doc' n f t a a' h c v e =
      rw
        (
          readable-all (from ∷ to ∷ env.coinbase ∷ env.zkvm ∷ []),
          v,
          get_account-found checking_sender from doc a,
          get_account-found checking_recipient to doc' a',
          stage_recipient-ok env from to doc' (carried_nonce (find env.account_nonces to)) f t,
          deduct_from_sender-ok from tx.nonce (value_of tx.value +ℤ pos (tx_gas_fee tx))
              env.timestamp empty_stage doc n a h c
              (total_not_negative (value_of tx.value) (tx_gas_fee tx) v) e,
        )
        refl

  pub rest-Goes :
      (env : Env) (to : ℕ) (tx : Tx) (s : Stage)
      → ltb_ℤ (value_of tx.value) (pos 0) ≡ false
      → IsFunded accounts s to
      → All
          (λ (c : FeeCredit). IsFunded accounts s c.addr)
          (split_fee (some (tx_gas_fee tx)) env.coinbase env.fee_recipients).1
      → IsFunded accounts s env.zkvm
      → Goes accounts
          (length (split_fee (some (tx_gas_fee tx)) env.coinbase env.fee_recipients).1 + 2)
          s
          (rest_of env to tx (value_of tx.value) s)
  rest-Goes env to tx s v t c z =
      then-Goes 1 (length credits + 1) (length credits + 2) s
        (add_to_recipient faults accounts to (value_of tx.value) env.timestamp s) _ (omega arith)
        (add_to_recipient-Goes to (value_of tx.value) env.timestamp s v t)
        λ s2 keep.
          then-Goes (length credits) 1 (length credits + 1) s2
            (credit_all faults accounts env.timestamp credits s2) _ (omega arith)
            (credit_all-Goes env.timestamp credits s2 (All-map credits (λ x. keep x.addr) c))
            λ s3 keep'.
              add_to_recipient-Goes env.zkvm _ env.timestamp s3 (ground arith)
                (keep' env.zkvm (keep env.zkvm z))
    where
      credits : List FeeCredit
      credits = (split_fee (some (tx_gas_fee tx)) env.coinbase env.fee_recipients).1
