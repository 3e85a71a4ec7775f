-- ===== src/Ledger/Laws/Live.antt =====
-- What live execution of a block moves, when it is finished.
use jmdn.Base.{
  ℕ, ◌+◌, ◌≡◌, refl, ◌∙◌, inl, inr, false, not, Option, none, some, String, List, [], ◌∷◌, member,
  IsDistinct, str_eq, eq_iff, if◌then◌else◌, if-first, if-second, All, pos, ◌+ℤ◌, int_laws, find,
  arith, Bool-cases,
}
use jmdn.Ledger.{Tx, Ledger}
use jmdn.Ledger.Stage.{TxError, Faults}
use jmdn.Ledger.Execute.{Env, process_transaction, process_between}
use jmdn.Ledger.Markers.{is_tx_applied}
use jmdn.Ledger.Processing.{
  Applying, Step, next, failing, after_tx, process_one, Run, finished, stopped, process_txs,
  tx_hashes,
}
use jmdn.Ledger.Laws.Overlay.{worth, +ℤ_assoc}
use jmdn.Ledger.Laws.Execute.{Applies, process_between-Applies}
use jmdn.Ledger.Laws.Deltas.{effect_between, tx_effect, moved_by}

-- A transaction that is not marked, when there is no error: its effect and its mark alone.
abbrev Done : Env → Option ℕ → Option ℕ → Tx → Ledger → Option TxError × Ledger → Type 0
Done env from to tx l (some e, l') = Unit {0}
Done env from to tx l (none, l') =
    ((x : ℕ)
      → worth (find l'.accounts x) ≡ worth (find l.accounts x) +ℤ effect_between env from to tx x)
    × ((hash : String) → str_eq tx.hash hash ≡ false → is_tx_applied l' hash ≡ is_tx_applied l hash)

Applies-Done :
    (env : Env) (from to : ℕ) (tx : Tx) (l : Ledger) (r : Option TxError × Ledger)
    → Applies env from to tx l r
    → Done env (some from) (some to) tx l r
unfolding Applies effect_between
Applies-Done env from to tx l (some e, l') h = tt
Applies-Done env from to tx l (none, l') h = (h.0, λ hash e. h.1 hash ∙ rw e refl)

between-Done :
    (env : Env) (faults : Faults) (from to : Option ℕ) (tx : Tx) (l : Ledger)
    → is_tx_applied l tx.hash ≡ false
    → Done env from to tx l (process_between env faults from to tx l)
unfolding process_between
between-Done env faults none to tx l h = tt
between-Done env faults (some from) none tx l h = tt
between-Done env faults (some from) (some to) tx l h =
    Applies-Done env from to tx l _
      (process_between-Applies env faults from to tx l (rw h (ground arith)))

module _ (env : Env) (live_applied : List String) where
  abbrev Moves : Tx → Applying → Step → Type 0
  Moves tx a (failing e a') = Unit {0}
  Moves tx a (next a') =
      ((x : ℕ)
        → worth (find a'.ledger.accounts x)
          ≡ worth (find a.ledger.accounts x)
            +ℤ (if not (member live_applied tx.hash) then tx_effect env tx x else pos 0))
      × ((hash : String)
          → str_eq tx.hash hash ≡ false
          → is_tx_applied a'.ledger hash ≡ is_tx_applied a.ledger hash)
      × ((hash : String)
          → str_eq tx.hash hash ≡ false
          → member a'.processed_txs hash ≡ member a.processed_txs hash)

  -- A transaction that was not met before in the block.
  abbrev IsFresh : Applying → Tx → Type 0
  IsFresh a tx =
      (member a.processed_txs tx.hash ≡ false)
      × (member live_applied tx.hash ≡ false → is_tx_applied a.ledger tx.hash ≡ false)

  after_tx-Moves :
      (tx : Tx) (a : Applying) (r : Option TxError × Ledger)
      → member live_applied tx.hash ≡ false
      → Done env tx.from tx.to tx a.ledger r
      → Moves tx a (after_tx tx.hash (record a { processed_txs = tx.hash ∷ a.processed_txs }) r)
  unfolding after_tx member
  after_tx-Moves tx a (some e, l') m d = tt
  after_tx-Moves tx a (none, l') m d = ((λ x. rw m (d.0 x)), d.1, λ hash e. rw e refl)

  process_one-Moves :
      (faults : Faults) (tx : Tx) (a : Applying)
      → IsFresh a tx
      → Moves tx a (process_one env faults live_applied tx a)
  unfolding process_one process_transaction member
  process_one-Moves faults tx a f =
      if-second (Moves tx a) (member a.processed_txs tx.hash) _ f.0
        (elim (Bool-cases (member live_applied tx.hash)) [
          | inl g ↦
              if-first (Moves tx a) (member live_applied tx.hash) _ g
                ((λ x. rw g (omega int_laws)), (λ hash e. refl), λ hash e. rw e refl)
          | inr g ↦
              if-second (Moves tx a) (member live_applied tx.hash) _ g (
                after_tx-Moves tx a _ g (between-Done env faults tx.from tx.to tx a.ledger (f.1 g)))
        ])

  apart :
      (tx t : Tx) (txs : List Tx)
      → member (tx_hashes (t ∷ txs)) tx.hash ≡ false
      → str_eq tx.hash t.hash ≡ false
  unfolding member tx_hashes
  apart tx t txs d = ground (arith, d, eq_iff t.hash tx.hash, eq_iff tx.hash t.hash)

  -- The rest of the block is as fresh as it was.
  still-IsFresh :
      (tx : Tx) (a a' : Applying) (txs : List Tx)
      → member (tx_hashes txs) tx.hash ≡ false
      → Moves tx a (next a')
      → All (IsFresh a) txs
      → All (IsFresh a') txs
  unfolding member tx_hashes
  still-IsFresh tx a a' [] d m f = tt
  still-IsFresh tx a a' (t ∷ txs) d m f = (
    (m.2 t.hash (apart tx t txs d) ∙ f.0.0, λ g. m.1 t.hash (apart tx t txs d) ∙ f.0.1 g),
    still-IsFresh tx a a' txs (ground (arith, d)) m f.1,
  )

  abbrev pub Ends : List Tx → Applying → Run → Type 0
  Ends txs a (stopped e hash a') = Unit {0}
  Ends txs a (finished a') =
      (x : ℕ)
      → worth (find a'.ledger.accounts x)
        ≡ worth (find a.ledger.accounts x)
          +ℤ moved_by env (λ hash. not (member live_applied hash)) txs x

  after_step-Ends :
      (faults : ℕ → Faults) (i : ℕ) (tx : Tx) (txs : List Tx) (a : Applying) (s : Step)
      → Moves tx a s
      → ((a' : Applying)
          → Moves tx a (next a')
          → Ends txs a' (process_txs env faults live_applied i txs a'))
      → Ends (tx ∷ txs) a (elim s [
        | next a' ↦ process_txs env faults live_applied i txs a'
        | failing e a' ↦ stopped e tx.hash a'
      ])
  unfolding moved_by
  after_step-Ends faults i tx txs a (failing e a') m k = tt
  after_step-Ends faults i tx txs a (next a') m k =
      joined (process_txs env faults live_applied i txs a') (k a' m)
    where
      joined : (run : Run) → Ends txs a' run → Ends (tx ∷ txs) a run
      joined (stopped e hash a'') g = tt
      joined (finished a'') g = λ x. g x ∙ rw (m.0 x) (+ℤ_assoc _ _ _)

  pub process_txs-Ends :
      (faults : ℕ → Faults) (i : ℕ) (txs : List Tx) (a : Applying)
      → IsDistinct (tx_hashes txs)
      → All (IsFresh a) txs
      → Ends txs a (process_txs env faults live_applied i txs a)
  unfolding process_txs tx_hashes moved_by
  process_txs-Ends faults i [] a d f = λ x. omega int_laws
  process_txs-Ends faults i (tx ∷ txs) a d f =
      after_step-Ends faults (i + 1) tx txs a _ (process_one-Moves (faults i) tx a f.0)
        (λ a' m. process_txs-Ends faults (i + 1) txs a' d.1 (still-IsFresh tx a a' txs d.0 m f.1))
