-- ===== src/Prelude/Sorted.antt =====
-- `sorted(set(texts))`, by the order of code points, and the texts that it holds.
use Prim.Native.Nat.{Ordering}
use Prim.Native.String.{String, compare}
use mathlib.Core.Path.{◌≡◌, refl}
use mathlib.Core.Bool.{Bool, false, ◌||◌}
use mathlib.Core.List.{List, [], ◌∷◌, ◌++◌}
use native.Mathlib.Omega.{arith}
use text.Mathlib.Text.{◌==◌ as str_eq}
use text.Mathlib.TextEquality.{eq_iff, path_by_compare}
use sentinel_edge.Prelude.Lists.{any}

pub insert_sorted : String → List String → List String
insert_sorted x [] = x ∷ []
insert_sorted x (y ∷ l) = elim (compare x y) [
  | Ordering.lt ↦ x ∷ y ∷ l
  | Ordering.eq ↦ y ∷ l
  | Ordering.gt ↦ y ∷ insert_sorted x l
]

unfoldable pub sorted_set : List String → List String
unfolding insert_sorted
sorted_set [] = []
sorted_set (x ∷ l) = insert_sorted x (sorted_set l)

-- `x in texts`
abbrev pub has : String → List String → Bool
has x l = any (str_eq x) l

-- `len(texts) != len(set(texts))`
unfoldable pub has_duplicate : List String → Bool
has_duplicate [] = false
has_duplicate (s ∷ l) = has s l || has_duplicate l

has-insert_sorted :
    (a x : String) (l : List String) → has a (insert_sorted x l) ≡ (str_eq a x || has a l)
unfolding insert_sorted
has-insert_sorted a x [] = ground arith
has-insert_sorted a x (y ∷ l) =
    ground (arith, has-insert_sorted a x l, path_by_compare x y, eq_iff a x, eq_iff a y)

pub has-sorted_set : (a : String) (l : List String) → has a (sorted_set l) ≡ has a l
unfolding sorted_set
has-sorted_set a [] = refl
has-sorted_set a (x ∷ l) = ground (arith, has-sorted_set a l, has-insert_sorted a x (sorted_set l))

pub has-append : (a : String) (l m : List String) → has a (l ++ m) ≡ (has a l || has a m)
has-append a [] m = refl
has-append a (x ∷ l) m = ground (arith, has-append a l m)
