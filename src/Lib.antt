-- ===== src/Lib.antt =====
-- A verification library for the core of the JMDT node. A block is voted on by a committee
-- of buddies: the BFT engine brings the buddies of one round to a decision, the committee certificate
-- decides at a receiver whether enough members signed a block, the linkage rules tie the block to the
-- local chain, the ledger executes its transactions on the accounts, live or by reconciliation, the
-- fee code splits what they pay, and the replicated types hold what the
-- nodes share outside the chain.
--
-- Base: the names the library shares. Base/Tests has Boolean tests, Base/Lists and Base/Counting
--   lists and counts over native numbers, Base/Maps Go's maps with string keys as lists of entries,
--   whose order stands for an iteration order, Base/Words machine words, Base/Sorting sort.Strings.
--
-- Quorum: AVC/BFT/bft/math.go and ByzantineQuorum of messaging/consensus_hardening.go. The
--   functions keep their Go names in lower case (BFTThreshold is bft_threshold).
--
-- Bft: the engine of AVC/BFT/bft. Bft has types.go and constants.go; Bft/Digest security_helpers.go
--   and the signer of security.go; Bft/Byzantine byzantine.go; Bft/Engine and Bft/Validate the state
--   and the checks of engine.go; Bft/Phases runPrepare and runCommit; Bft/Consensus bft.go up to
--   RunConsensus. The state of the engine is a record with the fields of the Go struct, and a handler
--   is a function from the state before to the state after. What the network delivers, timeouts
--   included, is a schedule, an explicit list of events, so each loop that waits is a recursion on
--   that list, and the order of the goroutines is the order of the list. SHA-256 and Ed25519 are the
--   fields of a record.
--
-- Fee: config/gasfee.go. big.Int values are natural numbers, nil is none.
--
-- Committee: messaging/consensus_hardening.go. Committee/Text has the functions of Go's package
--   strings that it uses, on ASCII letters; Committee/Eligibility eligibleMembers with the source of
--   the committee and the settings as a record; Committee/Certificate VerifyCertificate with the two
--   BLS verifiers as fields of a record; Committee/Body the block hash and the Merkle root, with
--   Keccak-256, SHA-256 and the hexadecimal print as fields of a record; Committee/Equivocation
--   checkEquivocation over any durable store; Committee/Linkage checkLinkage with the readers of the
--   chain as a record. A rejection is its reason, without the text of its message.
--
-- Ledger: the accounts and the two paths that change them. Ledger has the records of an account
--   (DB_OPs/account_immuclient.go), a transaction and a block (config/ZKBlock.go) and the state, with
--   both databases as tables. Ledger/Markers has DB_OPs/tx_markers.go, the anchor and the marker
--   filter of DB_OPs/sync_anchor.go and the floor of DB_OPs/art_ordinal.go; Ledger/Stage and
--   Ledger/Execute processTransaction of messaging/BlockProcessing/Processing.go and what it stages;
--   Ledger/Processing ProcessBlockTransactions and rollbackState; Ledger/Recon and
--   Ledger/Recon/Groups DB_OPs/account_recon.go; Ledger/Ordinals the rest of DB_OPs/art_ordinal.go,
--   with the order of two addresses' texts as a parameter. Ledger/Laws has a file for what it shows of each.
--   Balances are integers, nil pointers are none, and a nil address that is read is an outcome of its
--   own. Whether a call of a database fails is told by a record of faults, so a statement over all
--   faults covers every pattern of failures. A block reads the clock once. The state-apply
--   lock, which the two paths share, makes each transaction, the rollback and a reconciliation one
--   step, and the lock of a block hash keeps another run of that block away. A call that processes a
--   block is modelled as these steps with nothing in between: steps of another block or of a
--   reconciliation between two of its transactions, which the locks allow, are not modelled. The advisory tx_processing mark is written but
--   not read, as its read only logs; the answer of a commit is that all of it is stored or nothing.
--
-- Crdt: crdt/crdt.go, crdt/Heap.go and crdt/MemoryStore.go, in Crdt/Clock, Crdt/LwwSet,
--   Crdt/Counter, Crdt/Heap and Crdt/Store. Maps are values: the methods that change a map which
--   several objects share (PruneVectorClocks) are not modelled.
--
-- Integers: a uint64 that the code adds to is reduced by 2 ^ 64, an int64 timestamp is its bit
-- pattern, sizes in bytes stay below 2 ^ 63. Fuel: a Merkle level is halved with as much fuel as it
-- has nodes, which is enough because a level of two or more nodes
-- gets shorter; the partition of a block into groups has as much as the block has transactions,
-- because a group takes the first one that is left; every other loop is a recursion on a list.
--
-- Not modelled: the network, the databases and the start-up of the program, whose answers are
-- parameters; logging and metrics; and the components around the core (node
-- selection, synchronisation, set reconciliation, the servers and the command line).
pub mod Base
pub mod Bft
pub mod Committee
pub mod Crdt
pub mod Fee
pub mod Ledger
pub mod Quorum
