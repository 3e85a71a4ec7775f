-- ===== src/Ledger/Laws/Overlay.antt =====
-- The accounts as a transaction sees them through its stage, and what each step moves.
use jmdn.Base.{
  ℕ, ◌≡◌, refl, sym, ◌∙◌, inl, inr, true, false, ◌||◌, not, Option, none, some, List, [], ◌∷◌, ◌++◌,
  ltb, ◌==◌, ==_iff, if◌then◌else◌, ℤ, pos, ◌+ℤ◌, ◌-ℤ◌, ltb_ℤ, int_laws, Table, find, holds,
  find-store, arith, Option-cases, Bool-cases,
}
use jmdn.Ledger.{Balance, blank, malformed, amount, Account, Accounts}
use jmdn.Fee.{FeeCredit}
use jmdn.Ledger.Execute.{credit_all}
use jmdn.Ledger.Stage.{
  TxError, stale_nonce, insufficient_balance, sender_unavailable, recipient_unavailable,
  negative_amount, Result, ok, err, ◌>>=◌, ◌>>◌, guard, Phase, adopting, deducting, crediting,
  Faults, Read, found, missing, failed, read_of, get_account, Stage, staged_or_read, stage_get,
  stage_put, adopt_nonce, adopt_carried_nonce, parse_balance, document, deducted,
  deduct_from_sender, add_to_recipient, nanos,
}

-- What a stored balance is worth: a text that is no number counts as nothing.
abbrev pub worth_of : Balance → ℤ
worth_of blank = pos 0
worth_of malformed = pos 0
worth_of (amount n) = n

abbrev pub worth : Option Account → ℤ
worth none = pos 0
worth (some doc) = worth_of doc.balance

abbrev pub first : Option Account → Option Account → Option Account
first (some doc) o = some doc
first none o = o

-- The balance of an address behind the stage.
unfoldable pub view : Accounts → Stage → ℕ → ℤ
view accounts s a = worth (first (find s.docs a) (find accounts a))

-- An amount that moves at one address.
abbrev pub at : ℕ → ℤ → ℕ → ℤ
at k n a = if k == a then n else pos 0

-- The order lists the staged addresses.
abbrev pub IsOrdered : Stage → Type 0
IsOrdered s = (a : ℕ) → holds s.order a ≡ (elim (find s.docs a) [ none ↦ false | some d ↦ true ])

holds-append : (xs : List ℕ) (k a : ℕ) → holds (xs ++ (k ∷ [])) a ≡ (holds xs a || (k == a))
unfolding holds
holds-append [] k a = ground arith
holds-append (x ∷ xs) k a = ground (arith, holds-append xs k a)

pub stage_put-IsOrdered :
    (addr : ℕ) (doc : Account) (s : Stage) → IsOrdered s → IsOrdered (stage_put addr doc s)
unfolding stage_put
stage_put-IsOrdered addr doc s h a = elim (Option-cases (find s.docs addr)) [
  | inl e ↦ ground (
    arith,
    e,
    h a,
    h addr,
    find-store s.docs addr a doc,
    holds-append s.order addr a,
    ==_iff addr a,
  )
  | inr p ↦ ground (arith, p.1, h a, h addr, find-store s.docs addr a doc, ==_iff addr a)
]

pub view-stage_put :
    (accounts : Accounts) (addr : ℕ) (doc : Account) (s : Stage) (a : ℕ)
    → view accounts (stage_put addr doc s) a
      ≡ (if addr == a then worth_of doc.balance else view accounts s a)
unfolding view stage_put
view-stage_put accounts addr doc s a = ground (arith, find-store s.docs addr a doc)

-- What a read through the stage finds is what the view shows.
stage_get-view :
    (faults : Faults) (phase : Phase) (accounts : Accounts) (s : Stage) (addr : ℕ) (doc : Account)
    → stage_get faults phase accounts s addr ≡ found doc
    → view accounts s addr ≡ worth_of doc.balance
unfolding stage_get staged_or_read get_account read_of view
stage_get-view faults phase accounts s addr doc h = ground (arith, h)

pub +ℤ_assoc : (a b c : ℤ) → (a +ℤ b) +ℤ c ≡ a +ℤ (b +ℤ c)
+ℤ_assoc a b c = omega int_laws

-- What a result leaves, when it is one.
pub data Leaves (P : Stage → Type 0) : Result Stage → Type 0 where
  fails : {e : TxError} → Leaves P (err e)
  leaves : {s : Stage} → P s → Leaves P (ok s)

-- A step after a test or a read: for every value that it may be given.
pub Leaves-after :
    {A : Type 0} {P : Stage → Type 0} {r : Result A} {f : A → Result Stage}
    → ((x : A) → r ≡ ok x → Leaves P (f x))
    → Leaves P (r >>= f)
Leaves-after {r = ok x} k = k x refl
Leaves-after {r = err e} k = fails

pub Leaves-next :
    {P : Stage → Type 0} {r : Result Stage} (m : Result (Unit {0})) → Leaves P r → Leaves P (m >> r)
Leaves-next (ok u) l = l
Leaves-next (err e) l = fails

pub Leaves-then :
    {P Q : Stage → Type 0} {r : Result Stage} {f : Stage → Result Stage}
    → Leaves P r
    → ((s : Stage) → P s → Leaves Q (f s))
    → Leaves Q (r >>= f)
Leaves-then fails k = fails
Leaves-then (leaves p) k = k _ p

pub Leaves-ok : {P : Stage → Type 0} {s : Stage} → Leaves P (ok s) → P s
Leaves-ok (leaves p) = p

pub Leaves-map :
    {P Q : Stage → Type 0} {r : Result Stage} → Leaves P r → ((s : Stage) → P s → Q s) → Leaves Q r
Leaves-map fails k = fails
Leaves-map (leaves p) k = leaves (k _ p)

found-document : (e : TxError) (r : Read) (doc : Account) → document e r ≡ ok doc → r ≡ found doc
unfolding document
found-document e r doc h = ground (arith, h)

worth-parse : (b : Balance) (n : ℤ) → parse_balance b ≡ ok n → worth_of b ≡ n
unfolding parse_balance
worth-parse b n h = ground (arith, h)

-- What a step leaves when it is done: the order is kept, and the amounts have moved.
abbrev pub IsMoved : Accounts → Stage → (ℕ → ℤ) → Stage → Type 0
IsMoved accounts s m s' = IsOrdered s' × ((a : ℕ) → view accounts s' a ≡ view accounts s a +ℤ m a)

-- A change of a document that keeps its balance.
abbrev pub IsKept : Accounts → Stage → Stage → Type 0
IsKept accounts s s' = IsOrdered s' × ((a : ℕ) → view accounts s' a ≡ view accounts s a)

module _ (faults : Faults) (accounts : Accounts) where
  put-IsMoved :
      (addr : ℕ) (doc : Account) (s : Stage) (n : ℤ)
      → IsOrdered s
      → worth_of doc.balance ≡ view accounts s addr +ℤ n
      → IsMoved accounts s (at addr n) (stage_put addr doc s)
  put-IsMoved addr doc s n o w = (
    stage_put-IsOrdered addr doc s o,
    λ a. elim (Bool-cases (addr == a)) [
      | inl e ↦ rw (view-stage_put accounts addr doc s a, e, ← (==_iff addr a).0 e) w
      | inr e ↦ rw (view-stage_put accounts addr doc s a, e) (omega int_laws)
    ],
  )

  -- What a step has read and parsed is what the view shows.
  read-view :
      (e : TxError) (phase : Phase) (s : Stage) (addr : ℕ) (doc : Account) (old : ℤ)
      → document e (stage_get faults phase accounts s addr) ≡ ok doc
      → parse_balance doc.balance ≡ ok old
      → view accounts s addr ≡ old
  read-view e phase s addr doc old h g =
      stage_get-view faults phase accounts s addr doc (found-document e _ doc h)
      ∙ worth-parse doc.balance old g

  pub deduct_from_sender-IsMoved :
      (from tx_nonce : ℕ) (total : ℤ) (timestamp : ℕ) (s : Stage)
      → IsOrdered s
      → Leaves
          (IsMoved accounts s (at from (pos 0 -ℤ total)))
          (deduct_from_sender faults accounts from tx_nonce total timestamp s)
  unfolding deduct_from_sender deducted
  deduct_from_sender-IsMoved from tx_nonce total timestamp s o = Leaves-after λ doc h.
      Leaves-after λ old g. Leaves-next (guard (not (ltb tx_nonce doc.tx_nonce)) stale_nonce) (
        Leaves-next (guard (not (ltb_ℤ total (pos 0))) negative_amount) (
          Leaves-next (guard (not (ltb_ℤ old total)) insufficient_balance) (
            leaves (
              put-IsMoved from (deducted tx_nonce (old -ℤ total) timestamp doc) s (pos 0 -ℤ total) o
                (rw (read-view sender_unavailable deducting s from doc old h g)
                  (omega int_laws))))))

  pub add_to_recipient-IsMoved :
      (addr : ℕ) (credit : ℤ) (timestamp : ℕ) (s : Stage)
      → IsOrdered s
      → Leaves
          (IsMoved accounts s (at addr credit))
          (add_to_recipient faults accounts addr credit timestamp s)
  unfolding add_to_recipient
  add_to_recipient-IsMoved addr credit timestamp s o = Leaves-after λ doc h. Leaves-after λ old g.
      Leaves-next (guard (not (ltb_ℤ credit (pos 0))) negative_amount) (
        leaves (
          put-IsMoved addr
            (record doc { balance = amount (old +ℤ credit); updated_at = nanos timestamp }) s credit
            o (rw (read-view recipient_unavailable crediting s addr doc old h g) refl)))

  pub put-IsKept :
      (addr : ℕ) (doc : Account) (s : Stage)
      → IsOrdered s
      → worth_of doc.balance ≡ view accounts s addr
      → IsKept accounts s (stage_put addr doc s)
  put-IsKept addr doc s o w = (
    stage_put-IsOrdered addr doc s o,
    λ a. elim (Bool-cases (addr == a)) [
      | inl e ↦ rw (view-stage_put accounts addr doc s a, e, ← (==_iff addr a).0 e) w
      | inr e ↦ rw (view-stage_put accounts addr doc s a, e) refl
    ],
  )

  adopt_nonce-IsKept :
      (addr nonce : ℕ) (r : Read) (s : Stage)
      → IsOrdered s
      → ((doc : Account) → r ≡ found doc → view accounts s addr ≡ worth_of doc.balance)
      → IsKept accounts s (adopt_nonce addr nonce r s)
  unfolding adopt_nonce
  adopt_nonce-IsKept addr nonce (found doc) s o k = elim (Bool-cases (doc.nonce == nonce)) [
    | inl e ↦ rw e (o, λ a. refl)
    | inr e ↦ rw e (put-IsKept addr (record doc { nonce = nonce }) s o (sym (k doc refl)))
  ]
  adopt_nonce-IsKept addr nonce missing s o k = (o, λ a. refl)
  adopt_nonce-IsKept addr nonce failed s o k = (o, λ a. refl)

  pub adopt-IsKept :
      (carried : Table ℕ) (addr : ℕ) (s : Stage)
      → IsOrdered s
      → IsKept accounts s (adopt_carried_nonce faults accounts carried addr s)
  unfolding adopt_carried_nonce
  adopt-IsKept carried addr s o = elim (Option-cases (find carried addr)) [
    | inl e ↦ rw (adopt_carried_nonce, e) (o, λ a. refl)
    | inr (nonce, e) ↦ elim (Bool-cases (nonce == 0)) [
      | inl z ↦ rw (adopt_carried_nonce, e, z) (o, λ a. refl)
      | inr z ↦
          rw (adopt_carried_nonce, e, z)
            (adopt_nonce-IsKept addr nonce _ s o
              λ doc h. stage_get-view faults adopting accounts s addr doc h)
    ]
  ]

-- Two steps: the amounts add up.
pub IsMoved-then :
    (accounts : Accounts) (s : Stage) (m n : ℕ → ℤ) {r : Result Stage} {f : Stage → Result Stage}
    → Leaves (IsMoved accounts s m) r
    → ((s' : Stage) → IsOrdered s' → Leaves (IsMoved accounts s' n) (f s'))
    → Leaves (IsMoved accounts s (λ a. m a +ℤ n a)) (r >>= f)
IsMoved-then accounts s m n l k =
    Leaves-then l
      λ s' h. Leaves-map (k s' h.0) λ s'' g. (g.0, λ a. rw (g.1 a, h.1 a) (+ℤ_assoc _ _ _))

-- What the credits of a list pay to an address.
unfoldable pub paid : List FeeCredit → ℕ → ℤ
paid [] a = pos 0
paid (c ∷ cs) a = at c.addr (pos c.amount) a +ℤ paid cs a

module _ (faults : Faults) (accounts : Accounts) where
  pub credit_all-IsMoved :
      (timestamp : ℕ) (credits : List FeeCredit) (s : Stage)
      → IsOrdered s
      → Leaves (IsMoved accounts s (paid credits)) (credit_all faults accounts timestamp credits s)
  unfolding credit_all paid
  credit_all-IsMoved timestamp [] s o = leaves (o, λ a. omega int_laws)
  credit_all-IsMoved timestamp (c ∷ cs) s o =
      IsMoved-then accounts s (at c.addr (pos c.amount)) (paid cs)
        (add_to_recipient-IsMoved faults accounts c.addr (pos c.amount) timestamp s o)
        (credit_all-IsMoved timestamp cs)
