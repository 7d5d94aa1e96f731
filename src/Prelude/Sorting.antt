-- ===== src/Prelude/Sorting.antt =====
-- `slices.SortFunc` by an id, as an insertion sort: the ids of a repository differ, so any sort
-- gives the same list. Go compares strings by their bytes, as `compare` does.
use mathlib.Core.List.{List, [], ◌∷◌}
use Prim.Native.String.{String, compare}
use text.Mathlib.Text.{is_lt}
use tok.Prelude.Tests.{if◌then◌else◌}

module _ {ℓ} {A : Type ℓ} (key : A → String) where
  unfoldable pub insert_sorted : A → List A → List A
  insert_sorted v [] = v ∷ []
  insert_sorted v (x ∷ xs) =
      if is_lt (compare (key x) (key v)) then x ∷ insert_sorted v xs else v ∷ x ∷ xs

  unfoldable pub sort_by : List A → List A
  unfolding insert_sorted
  sort_by [] = []
  sort_by (x ∷ xs) = insert_sorted x (sort_by xs)
