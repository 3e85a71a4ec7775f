-- ===== src/Base/Sorting.antt =====
-- sort.Strings: a slice of texts in the order of Go's `<`.
use Prim.Native.String.{String}
use mathlib.Core.List.{List, [], ◌∷◌}
use jmdn.Base.Tests.{str_lt, if◌then◌else◌}

unfoldable pub insert_string : String → List String → List String
insert_string x [] = x ∷ []
insert_string x (y ∷ ys) =
    let rest = insert_string x ys in if str_lt y x then y ∷ rest else x ∷ (y ∷ ys)

unfoldable pub sort_strings : List String → List String
sort_strings [] = []
sort_strings (x ∷ xs) = insert_string x (sort_strings xs)
