-- ===== src/Base/Sets.antt =====
-- Go's sets of integers, map[uint32]bool and map[uint32]struct{}, as lists; maps from integers to such
-- sets; and sort.Slice on integers.
use Prim.Native.Nat.{ℕ, ◌+◌, ◌≤◌}
use mathlib.Core.Path.{◌≡◌, refl, sym, ap, ◌∙◌}
use mathlib.Core.Logic.{inl, inr}
use mathlib.Core.Bool.{Bool, true, false, ◌&&◌, ◌||◌}
use mathlib.Core.Option.{none, some}
use mathlib.Core.List.{List, [], ◌∷◌}
use native.Mathlib.Omega.{arith}
use go_mumble_server.Base.Tests.{◌==◌, ltb, if◌then◌else◌, Bool-cases}
use go_mumble_server.Base.Lists.{length}
use go_mumble_server.Base.Maps.{find, delete, insert, find-insert, find-delete}

unfoldable pub contains : List ℕ → ℕ → Bool
contains [] k = false
contains (x ∷ xs) k = x == k || contains xs k

-- delete(s, k)
unfoldable pub remove : ℕ → List ℕ → List ℕ
remove k [] = []
remove k (x ∷ xs) = if x == k then remove k xs else (x ∷ remove k xs)

unfoldable pub add : ℕ → List ℕ → List ℕ
unfolding contains
add k xs = if contains xs k then xs else (k ∷ xs)

pub contains-remove :
    (k j : ℕ) (xs : List ℕ) → contains (remove k xs) j ≡ (if k == j then false else contains xs j)
unfolding contains remove
contains-remove k j [] = ground arith
contains-remove k j (x ∷ xs) = ground (arith, contains-remove k j xs)

contains_same : (k j : ℕ) (xs : List ℕ) → k ≡ j → contains xs k ≡ contains xs j
contains_same k j xs h = rw h refl

pub contains-add : (k j : ℕ) (xs : List ℕ) → contains (add k xs) j ≡ (k == j || contains xs j)
unfolding contains add
contains-add k j xs = ground (arith, contains_same k j xs)

pub length-remove : (k : ℕ) (xs : List ℕ) → length (remove k xs) ≤ length xs
unfolding remove
length-remove k [] = omega arith
length-remove k (x ∷ xs) = ground (arith, length-remove k xs)

pub length-add : (k : ℕ) (xs : List ℕ) → length (add k xs) ≤ length xs + 1
unfolding add
length-add k xs = ground arith

abbrev pub is_empty {ℓ} : {A : Type ℓ} → List A → Bool
is_empty [] = true
is_empty (x ∷ xs) = false

-- m[k] for a map of sets, where a missing set is read as an empty one.
abbrev pub members : ℕ → List (ℕ × List ℕ) → List ℕ
members k m = elim (find k m) [ none ↦ [] | some s ↦ s ]

-- Take `x` out of the set of `k`, and the set out of the map if nothing is left of it.
unfoldable pub drop_member : ℕ → ℕ → List (ℕ × List ℕ) → List (ℕ × List ℕ)
unfolding remove
drop_member k x m =
    if is_empty (remove x (members k m)) then delete k m else insert k (remove x (members k m)) m

-- `x` is in the set of `k`.
abbrev pub related : List (ℕ × List ℕ) → ℕ → ℕ → Bool
related m k x = contains (members k m) x

pub related-delete :
    (k j x : ℕ) (m : List (ℕ × List ℕ))
    → related (delete k m) j x ≡ (if k == j then false else related m j x)
unfolding contains
related-delete k j x m = ground (arith, find-delete k j m)

pub related-insert :
    (k j x : ℕ) (s : List ℕ) (m : List (ℕ × List ℕ))
    → related (insert k s m) j x ≡ (if k == j then contains s x else related m j x)
related-insert k j x s m = ground (arith, find-insert k j s m)

contains-empty : (s : List ℕ) (y : ℕ) → is_empty s ≡ true → contains s y ≡ false
unfolding contains
contains-empty [] y h = refl
contains-empty (x ∷ s) y h = absurd (cc)

related_same : (k j x : ℕ) (m : List (ℕ × List ℕ)) → k ≡ j → related m k x ≡ related m j x
related_same k j x m h = rw h refl

drop_member_left :
    (k x j y : ℕ) (m : List (ℕ × List ℕ))
    → related (drop_member k x m) j y
      ≡ (if k == j then contains (remove x (members k m)) y else related m j y)
unfolding drop_member
drop_member_left k x j y m = elim (Bool-cases (is_empty (remove x (members k m)))) [
  | inl e ↦ rw e (
      related-delete k j y m
      ∙ ap (λ (b : Bool). if k == j then b else related m j y)
          (sym (contains-empty (remove x (members k m)) y e)))
  | inr e ↦ rw e (related-insert k j y (remove x (members k m)) m)
]

pub related-drop_member :
    (k x j y : ℕ) (m : List (ℕ × List ℕ))
    → related (drop_member k x m) j y ≡ (if k == j && x == y then false else related m j y)
related-drop_member k x j y m =
    drop_member_left k x j y m
    ∙ ground (arith, contains-remove x y (members k m), related_same k j y m)

-- Insertion into an ordered list, and sort.Slice by `<`.
unfoldable pub place : ℕ → List ℕ → List ℕ
place k [] = k ∷ []
place k (x ∷ xs) = if ltb x k then (x ∷ place k xs) else (k ∷ x ∷ xs)

unfoldable pub sort : List ℕ → List ℕ
unfolding place
sort [] = []
sort (x ∷ xs) = place x (sort xs)

pub contains-place : (k j : ℕ) (xs : List ℕ) → contains (place k xs) j ≡ (k == j || contains xs j)
unfolding contains place
contains-place k j [] = refl
contains-place k j (x ∷ xs) = ground (arith, contains-place k j xs)

pub contains-sort : (j : ℕ) (xs : List ℕ) → contains (sort xs) j ≡ contains xs j
unfolding contains sort
contains-sort j [] = refl
contains-sort j (x ∷ xs) = ground (arith, contains-place x j (sort xs), contains-sort j xs)
