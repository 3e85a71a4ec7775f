-- ===== src/Crdt.antt =====
-- crdt/crdt.go, crdt/Heap.go and crdt/MemoryStore.go: vector clocks, the last-writer-wins set, the
-- grow-only counter, the bounded log of operations and the store that holds them. A Go map is a
-- list of entries, the order of which stands for an iteration order; the mutexes make every method
-- one step, so a method is a function from the state before it to the state after it.
pub mod Clock
pub mod LwwSet
pub mod Counter
pub mod Heap
pub mod Store
mod Laws
mod Tests
