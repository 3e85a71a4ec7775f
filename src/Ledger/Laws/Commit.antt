-- ===== src/Ledger/Laws/Commit.antt =====
-- The commit of a group: what is stored after it is what was stored, and the deltas of the group.
use jmdn.Base.{
  ℕ, ◌≡◌, refl, ◌∙◌, inl, inr, Bool, Option, none, some, String, List, [], ◌∷◌, ◌==◌, ==_iff,
  member, if◌then◌else◌, ℤ, pos, ◌+ℤ◌, int_laws, find, store, find-store, IsKeyed, store-IsKeyed,
  arith, Bool-cases, Option-cases,
}
use jmdn.Fee.{FeeRecipient, FeeCredit}
use jmdn.Ledger.Execute.{tx_gas_fee}
use jmdn.Ledger.{Account, Accounts, Tx, Block, Ledger}
use jmdn.Ledger.Recon.{
  BlockAccountDelta, Deltas, delta_or_new, base_balance, base_account, with_delta,
  apply_delta_to_account, insert_delta, sort_deltas, cons_doc, group_docs, store_all, commit_docs,
  commit_recon_group, pay_deltas, tx_deltas, deltas_from, debit_sender, credit_receiver,
  credit_coinbase, credit_zkvm, add_delta,
}
use jmdn.Ledger.Laws.Overlay.{worth, worth_of}
use jmdn.Ledger.Laws.Deltas.{delta_at}

find-insert :
    (addr : ℕ) (d : BlockAccountDelta) (ds : Deltas) (a : ℕ)
    → find ds addr ≡ none
    → find (insert_delta addr d ds) a ≡ (if addr == a then some d else find ds a)
unfolding insert_delta find
find-insert addr d [] a h = refl
find-insert addr d ((k, e) ∷ rest) a h = ground (arith, h, find-insert addr d rest a)

insert-IsKeyed :
    (addr : ℕ) (d : BlockAccountDelta) (ds : Deltas)
    → find ds addr ≡ none
    → IsKeyed ds
    → IsKeyed (insert_delta addr d ds)
unfolding insert_delta find
insert-IsKeyed addr d [] h k = (refl, tt)
insert-IsKeyed addr d ((j, e) ∷ rest) h k =
    ground (arith, h, k, find-insert addr d rest j, insert-IsKeyed addr d rest)

find-sort : (ds : Deltas) (a : ℕ) → IsKeyed ds → find (sort_deltas ds) a ≡ find ds a
unfolding sort_deltas find
find-sort [] a k = refl
find-sort ((j, d) ∷ rest) a k =
    find-insert j d (sort_deltas rest) a (find-sort rest j k.1 ∙ k.0)
    ∙ rw (find-sort rest a k.1) refl

sort-IsKeyed : (ds : Deltas) → IsKeyed ds → IsKeyed (sort_deltas ds)
unfolding sort_deltas
sort-IsKeyed [] k = tt
sort-IsKeyed ((j, d) ∷ rest) k =
    insert-IsKeyed j d (sort_deltas rest) (find-sort rest j k.1 ∙ k.0) (sort-IsKeyed rest k.1)

applied-worth :
    (existing : Option Account) (addr : ℕ) (d : BlockAccountDelta) (t : ℕ) (doc : Account)
    → apply_delta_to_account existing addr d t ≡ some doc
    → worth_of doc.balance ≡ worth existing +ℤ d.balance_delta
unfolding apply_delta_to_account base_account base_balance with_delta
applied-worth none addr d t doc h = ground (arith, h)
applied-worth (some acc) addr d t doc h = ground (arith, h)

some_eq : (xs ys : Accounts) → some ys ≡ some xs → xs ≡ ys
some_eq xs ys h = ground (arith, h)

cons_doc-inv :
    (addr : ℕ) (o : Option Account) (os : Option Accounts) (docs : Accounts)
    → cons_doc addr o os ≡ some docs
    → (doc : Account) × (rest : Accounts) × (o ≡ some doc)
      × (os ≡ some rest)
      × (docs ≡ (addr, doc) ∷ rest)
unfolding cons_doc
cons_doc-inv addr none os docs h = absurd (ground (arith, h))
cons_doc-inv addr (some doc) none docs h = absurd (ground (arith, h))
cons_doc-inv addr (some doc) (some rest) docs h = (doc, rest, refl, refl, ground (arith, h))

abbrev after : Accounts → ℤ → Option BlockAccountDelta → ℕ → ℤ
after accounts old none a = old
after accounts old (some d) a = worth (find accounts a) +ℤ d.balance_delta

after-store :
    (accounts before : Accounts) (j : ℕ) (d : BlockAccountDelta) (doc : Account) (rest : Deltas)
    (a : ℕ)
    → find rest j ≡ none
    → worth_of doc.balance ≡ worth (find accounts j) +ℤ d.balance_delta
    → after accounts (worth (find (store before j doc) a)) (find rest a) a
      ≡ after accounts (worth (find before a)) (if j == a then some d else find rest a) a
after-store accounts before j d doc rest a k h = elim (Bool-cases (j == a)) [
  | inl e ↦ rw (find-store before j a doc, e, ← (==_iff j a).0 e, k) h
  | inr e ↦ rw (find-store before j a doc, e) refl
]

-- The documents of a group, written over the accounts.
store_all-worth :
    (accounts before : Accounts) (t : ℕ) (ds : Deltas) (docs : Accounts) (a : ℕ)
    → IsKeyed ds
    → group_docs accounts t ds ≡ some docs
    → worth (find (store_all before docs) a) ≡ after accounts (worth (find before a)) (find ds a) a
unfolding group_docs store_all find
store_all-worth accounts before t [] docs a k h = rw (some_eq docs [] h) refl
store_all-worth accounts before t ((j, d) ∷ rest) docs a k h =
    let (doc, others, e, g, q) =
      cons_doc-inv j (apply_delta_to_account (find accounts j) j d t) (group_docs accounts t rest)
        docs h in
    rw q (
      store_all-worth accounts (store before j doc) t rest others a k.1 g
      ∙ after-store accounts before j d doc rest a k.0
          (applied-worth (find accounts j) j d t doc e))

commit_docs-none :
    (failing : Bool) (group : List String) (applied_at : ℕ) (l l' : Ledger)
    → ¬ (commit_docs failing none group applied_at l ≡ some l')
unfolding commit_docs
commit_docs-none failing group applied_at l l' h = ground (arith, h)

after-delta :
    (accounts : Accounts) (a : ℕ) (o : Option BlockAccountDelta)
    → after accounts (worth (find accounts a)) o a
      ≡ worth (find accounts a) +ℤ (delta_or_new o).balance_delta
unfolding delta_or_new
after-delta accounts a none = omega int_laws
after-delta accounts a (some d) = refl

commit_docs-accounts :
    (failing : Bool) (docs : Accounts) (group : List String) (applied_at : ℕ) (l l' : Ledger)
    → commit_docs failing (some docs) group applied_at l ≡ some l'
    → l'.accounts ≡ store_all l.accounts docs
unfolding commit_docs store_all
commit_docs-accounts failing [] [] applied_at l l' h = ground (arith, h)
commit_docs-accounts failing [] (g ∷ gs) applied_at l l' h = ground (arith, h)
commit_docs-accounts failing (d ∷ ds) group applied_at l l' h = ground (arith, h)

pub commit_recon_group-worth :
    (failing : Bool) (deltas : Deltas) (group : List String) (t applied_at : ℕ) (l l' : Ledger)
    (a : ℕ)
    → IsKeyed deltas
    → commit_recon_group failing deltas group t applied_at l ≡ some l'
    → worth (find l'.accounts a) ≡ worth (find l.accounts a) +ℤ delta_at deltas a
unfolding commit_recon_group delta_at delta_or_new
commit_recon_group-worth failing deltas group t applied_at l l' a k h =
    elim (Option-cases (group_docs l.accounts t (sort_deltas deltas))) [
      | inl e ↦ absurd (commit_docs-none failing group applied_at l l' (rw e at h))
      | inr (docs, e) ↦ rw (commit_docs-accounts failing docs group applied_at l l' (rw e at h)) (
          store_all-worth l.accounts l.accounts t (sort_deltas deltas) docs a
            (sort-IsKeyed deltas k) e
          ∙ rw (find-sort deltas a k) (after-delta l.accounts a (find deltas a)))
    ]

-- The deltas of a block have no address twice.
debit-IsKeyed :
    (fee : ℕ) (tx : Tx) (from : Option ℕ) (ds : Deltas)
    → IsKeyed ds
    → IsKeyed (debit_sender fee tx from ds)
unfolding debit_sender
debit-IsKeyed fee tx none ds k = k
debit-IsKeyed fee tx (some from) ds k = store-IsKeyed ds from _ k

add-IsKeyed : (addr : ℕ) (n : ℤ) (ds : Deltas) → IsKeyed ds → IsKeyed (add_delta addr n ds)
unfolding add_delta
add-IsKeyed addr n ds k = store-IsKeyed ds addr _ k

receiver-IsKeyed :
    (to : Option ℕ) (value : Option ℤ) (ds : Deltas)
    → IsKeyed ds
    → IsKeyed (credit_receiver to value ds)
unfolding credit_receiver
receiver-IsKeyed none value ds k = k
receiver-IsKeyed (some to) none ds k = k
receiver-IsKeyed (some to) (some v) ds k = add-IsKeyed to v ds k

coinbase-IsKeyed :
    (cs : List FeeCredit) (ds : Deltas) → IsKeyed ds → IsKeyed (credit_coinbase cs ds)
unfolding credit_coinbase
coinbase-IsKeyed [] ds k = k
coinbase-IsKeyed (c ∷ cs) ds k =
    coinbase-IsKeyed cs (add_delta c.addr (pos c.amount) ds)
      (add-IsKeyed c.addr (pos c.amount) ds k)

zkvm-IsKeyed :
    (zkvm : Option ℕ) (share : ℕ) (ds : Deltas) → IsKeyed ds → IsKeyed (credit_zkvm zkvm share ds)
unfolding credit_zkvm
zkvm-IsKeyed none share ds k = k
zkvm-IsKeyed (some a) share ds k = add-IsKeyed a (pos share) ds k

pay-IsKeyed :
    (coinbase zkvm : Option ℕ) (recipients : List FeeRecipient) (from to : Option ℕ) (tx : Tx)
    (ds : Deltas)
    → IsKeyed ds
    → IsKeyed (pay_deltas coinbase zkvm recipients from to tx ds)
unfolding pay_deltas
pay-IsKeyed none zkvm recipients from to tx ds k =
    zkvm-IsKeyed zkvm _ _ (receiver-IsKeyed to _ _ (debit-IsKeyed (tx_gas_fee tx) tx from ds k))
pay-IsKeyed (some coinbase) zkvm recipients from to tx ds k =
    zkvm-IsKeyed zkvm _ _
      (coinbase-IsKeyed _ _ (receiver-IsKeyed to _ _ (debit-IsKeyed (tx_gas_fee tx) tx from ds k)))

pub deltas_from-IsKeyed :
    (b : Block) (skip : List String) (txs : List Tx) (ds : Deltas)
    → IsKeyed ds
    → IsKeyed (deltas_from b skip txs ds)
unfolding deltas_from tx_deltas
deltas_from-IsKeyed b skip [] ds k = k
deltas_from-IsKeyed b skip (tx ∷ txs) ds k = elim (Bool-cases (member skip tx.hash)) [
  | inl e ↦ rw e (deltas_from-IsKeyed b skip txs ds k)
  | inr e ↦ rw e (
      deltas_from-IsKeyed b skip txs (tx_deltas b tx ds)
        (pay-IsKeyed b.coinbase_addr b.zkvm_addr b.fee_recipients tx.from tx.to tx ds k))
]
