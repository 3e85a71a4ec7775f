-- ===== src/Base/Words.antt =====
-- Machine words: a uint64 is a number below 2 ^ 64; an int64 is its bit pattern.
use Prim.Native.Nat.{ℕ, ◌/◌, ◌%◌, ◌^◌}
use mathlib.Core.List.{List, [], ◌∷◌}

abbrev pub u64_mod : ℕ
u64_mod = 2 ^ 64

abbrev pub u64 : ℕ → ℕ
u64 n = n % 2 ^ 64

-- binary.BigEndian, eight bytes
unfoldable pub be64 : ℕ → List ℕ
be64 n =
    (n / 2 ^ 56) % 256
    ∷ (n / 2 ^ 48) % 256
    ∷ (n / 2 ^ 40) % 256
    ∷ (n / 2 ^ 32) % 256
    ∷ (n / 2 ^ 24) % 256
    ∷ (n / 2 ^ 16) % 256
    ∷ (n / 2 ^ 8) % 256
    ∷ n % 256
    ∷ []
