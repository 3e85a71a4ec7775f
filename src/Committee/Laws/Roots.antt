-- ===== src/Committee/Laws/Roots.antt =====
-- What the hash of a block and the root of its transactions bind.
use mathlib.Core.Path.{ap₂}
use jmdn.Base.{
  ℕ, zero, suc, ◌+◌, ◌*◌, ◌%◌, ◌≤◌, ◌<◌, ◌≡◌, refl, ap, ◌∙◌, sym, none, List, [], ◌∷◌, ◌++◌, length,
  All, arith, length-append,
}
use jmdn.Committee.Body.{
  Hash, Hashing, Transaction, ZkBlock, concat_hashes, leaves, duplicate_last, make_even,
  recompute_block_hash_from_txs, pair_up, merkle_loop, merkle_root, recompute_txns_root,
  check_body_binding,
}
use jmdn.Committee.Laws.Linking.{hash_eq_iff}

length-duplicate_last :
    (x : Hash) (xs : List Hash) → length (duplicate_last (x ∷ xs)) ≡ suc (length (x ∷ xs))
unfolding duplicate_last
length-duplicate_last x [] = omega arith
length-duplicate_last x (y ∷ xs) = omega (arith, length-duplicate_last y xs)

abbrev head : ℕ → List ℕ → ℕ
head d [] = d
head d (x ∷ xs) = x

abbrev tail : List ℕ → List ℕ
tail [] = []
tail (x ∷ xs) = xs

append-inj :
    (xs ys us vs : List ℕ) → length xs ≡ length ys → xs ++ us ≡ ys ++ vs → (xs ≡ ys) × (us ≡ vs)
append-inj [] [] us vs l e = (refl, e)
append-inj [] (y ∷ ys) us vs l e = ground arith
append-inj (x ∷ xs) [] us vs l e = ground arith
append-inj (x ∷ xs) (y ∷ ys) us vs l e =
    let r = append-inj xs ys us vs (omega arith) (ap tail e) in
    (ap₂ (λ a l. a ∷ l) (ap (head 0) e) r.0, r.1)

length-leaves : (txs : List Transaction) → length (leaves txs) ≡ length txs
unfolding leaves
length-leaves [] = refl
length-leaves (t ∷ txs) = ap suc (length-leaves txs)

concat_hashes-leaves :
    (txs1 txs2 : List Transaction)
    → All (λ (t : Transaction). length t.hash ≡ 32) txs1
    → All (λ (t : Transaction). length t.hash ≡ 32) txs2
    → concat_hashes txs1 ≡ concat_hashes txs2
    → leaves txs1 ≡ leaves txs2
unfolding concat_hashes leaves
concat_hashes-leaves [] [] w1 w2 e = refl
concat_hashes-leaves [] (t ∷ ts) w1 w2 e =
    ground (arith, ap length e, length-append t.hash (concat_hashes ts), w2.0)
concat_hashes-leaves (t ∷ ts) [] w1 w2 e =
    ground (arith, ap length e, length-append t.hash (concat_hashes ts), w1.0)
concat_hashes-leaves (t ∷ ts) (u ∷ us) w1 w2 e =
    let r =
      append-inj t.hash u.hash (concat_hashes ts) (concat_hashes us) (omega (arith, w1.0, w2.0))
        e in
    ap₂ (λ a l. a ∷ l) r.0 (concat_hashes-leaves ts us w1.1 w2.1 r.1)

module _ (h : Hashing) where
  length-pair_up : (xs : List Hash) → length (pair_up h xs) * 2 ≤ length xs
  unfolding pair_up
  length-pair_up [] = omega arith
  length-pair_up (x ∷ []) = omega arith
  length-pair_up (x ∷ (y ∷ xs)) = omega (arith, length-pair_up xs)

  length-level :
      (x y : Hash) (xs : List Hash)
      → length (pair_up h (make_even (x ∷ (y ∷ xs)))) + 1 ≤ length (x ∷ (y ∷ xs))
  unfolding make_even
  length-level x y xs = ground (
    arith,
    length-duplicate_last x (y ∷ xs),
    length-pair_up (duplicate_last (x ∷ (y ∷ xs))),
    length-pair_up (x ∷ (y ∷ xs)),
  )

  -- As much fuel as the level has nodes is enough.
  merkle_loop-enough :
      (n : ℕ) (level : List Hash)
      → length level ≤ n
      → merkle_loop h (suc n) level ≡ merkle_loop h n level
  unfolding merkle_loop
  merkle_loop-enough zero [] e = refl
  merkle_loop-enough zero (x ∷ level) e = ground arith
  merkle_loop-enough (suc n) [] e = refl
  merkle_loop-enough (suc n) (x ∷ []) e = refl
  merkle_loop-enough (suc n) (x ∷ (y ∷ level)) e =
      merkle_loop-enough n (pair_up h (make_even (x ∷ (y ∷ level))))
        (omega (arith, length-level x y level))

  make_even-duplicate :
      (x : Hash) (xs : List Hash)
      → length (x ∷ xs) % 2 ≡ 1
      → make_even (duplicate_last (x ∷ xs)) ≡ make_even (x ∷ xs)
  unfolding make_even
  make_even-duplicate x xs o = ground (arith, length-duplicate_last x xs)

  merkle_loop-cons :
      (n : ℕ) (x y : Hash) (xs : List Hash)
      → merkle_loop h (suc n) (x ∷ (y ∷ xs))
        ≡ merkle_loop h n (pair_up h (make_even (x ∷ (y ∷ xs))))
  unfolding merkle_loop
  merkle_loop-cons n x y xs = refl

  merkle_root-loop :
      (x y : Hash) (xs : List Hash)
      → merkle_root h (x ∷ (y ∷ xs)) ≡ merkle_loop h (length (x ∷ (y ∷ xs))) (x ∷ (y ∷ xs))
  unfolding merkle_root
  merkle_root-loop x y xs = refl

  loop-duplicate :
      (n : ℕ) (x y z : Hash) (xs : List Hash)
      → length (x ∷ (y ∷ (z ∷ xs))) % 2 ≡ 1
      → merkle_loop h (suc n) (duplicate_last (x ∷ (y ∷ (z ∷ xs))))
        ≡ merkle_loop h (suc n) (x ∷ (y ∷ (z ∷ xs)))
  unfolding duplicate_last
  loop-duplicate n x y z xs o =
      merkle_loop-cons n x y (duplicate_last (z ∷ xs))
      ∙ (ap (λ level. merkle_loop h n (pair_up h level)) (make_even-duplicate x (y ∷ (z ∷ xs)) o)
          ∙ sym (merkle_loop-cons n x y (z ∷ xs)))

  root-fuel :
      (x y z : Hash) (xs : List Hash)
      → merkle_root h (duplicate_last (x ∷ (y ∷ (z ∷ xs))))
        ≡ merkle_loop h (suc (length (x ∷ (y ∷ (z ∷ xs))))) (duplicate_last (x ∷ (y ∷ (z ∷ xs))))
  unfolding duplicate_last
  root-fuel x y z xs =
      merkle_root-loop x y (duplicate_last (z ∷ xs))
      ∙ ap (λ n. merkle_loop h (suc (suc n)) (duplicate_last (x ∷ (y ∷ (z ∷ xs)))))
          (length-duplicate_last z xs)

  merkle_root-duplicate :
      (x y z : Hash) (xs : List Hash)
      → length (x ∷ (y ∷ (z ∷ xs))) % 2 ≡ 1
      → merkle_root h (duplicate_last (x ∷ (y ∷ (z ∷ xs)))) ≡ merkle_root h (x ∷ (y ∷ (z ∷ xs)))
  merkle_root-duplicate x y z xs o =
      root-fuel x y z xs
      ∙ (loop-duplicate (length (x ∷ (y ∷ (z ∷ xs)))) x y z xs o
          ∙ (merkle_loop-enough (length (x ∷ (y ∷ (z ∷ xs)))) (x ∷ (y ∷ (z ∷ xs))) (omega arith)
              ∙ sym (merkle_root-loop x y (z ∷ xs))))

  -- The root of the transactions does not bind them: a list of an odd number of transactions, at
  -- least three, has the root of the list that holds the last one once more.
  pub recompute_txns_root-duplicate :
      (a b c : Transaction) (txs more : List Transaction)
      → length (a ∷ (b ∷ (c ∷ txs))) % 2 ≡ 1
      → leaves more ≡ duplicate_last (leaves (a ∷ (b ∷ (c ∷ txs))))
      → recompute_txns_root h more ≡ recompute_txns_root h (a ∷ (b ∷ (c ∷ txs)))
  unfolding recompute_txns_root leaves duplicate_last
  recompute_txns_root-duplicate a b c txs [] o e = cc
  recompute_txns_root-duplicate a b c txs (t ∷ more) o e =
      ap (λ root. h.append_text "0x" (h.encode_to_string root))
        (ap (merkle_root h) e
          ∙ merkle_root-duplicate a.hash b.hash c.hash (leaves txs)
              (ap (λ n. suc (suc (suc n)) % 2) (length-leaves txs) ∙ o))

  bound-hash :
      (b : ZkBlock)
      → check_body_binding h b ≡ none
      → b.block_hash ≡ recompute_block_hash_from_txs h b.transactions
  unfolding check_body_binding
  bound-hash b p =
      ground (arith, hash_eq_iff b.block_hash (recompute_block_hash_from_txs h b.transactions))

  block_hash-concat :
      (txs : List Transaction)
      → 0 < length txs
      → recompute_block_hash_from_txs h txs ≡ h.keccak256 (concat_hashes txs)
  unfolding recompute_block_hash_from_txs
  block_hash-concat [] l = ground arith
  block_hash-concat (t ∷ txs) l = refl

  -- The hash of the block binds them: two blocks that each hold a transaction and pass the check with
  -- one block hash, where the two strings of concatenated transaction hashes do not collide under
  -- Keccak-256 and each transaction's hash has 32 bytes, have the same transaction hashes in the same
  -- order. A block with no transactions, whose hash is the zero hash, is left out.
  pub check_body_binding-binds :
      (b1 b2 : ZkBlock)
      → check_body_binding h b1 ≡ none
      → check_body_binding h b2 ≡ none
      → b1.block_hash ≡ b2.block_hash
      → 0 < length b1.transactions
      → 0 < length b2.transactions
      → (h.keccak256 (concat_hashes b1.transactions) ≡ h.keccak256 (concat_hashes b2.transactions)
          → concat_hashes b1.transactions ≡ concat_hashes b2.transactions)
      → All (λ (t : Transaction). length t.hash ≡ 32) b1.transactions
      → All (λ (t : Transaction). length t.hash ≡ 32) b2.transactions
      → leaves b1.transactions ≡ leaves b2.transactions
  check_body_binding-binds b1 b2 p1 p2 e l1 l2 inj w1 w2 =
      concat_hashes-leaves b1.transactions b2.transactions w1 w2 (
        inj (
          sym (block_hash-concat b1.transactions l1)
          ∙ (sym (bound-hash b1 p1)
              ∙ (e ∙ (bound-hash b2 p2 ∙ block_hash-concat b2.transactions l2)))))
