-- ===== src/Base/Counting.antt =====
-- Sets as lists: no repeats, sizes, and the members that a test keeps.
use Prim.Native.Nat.{◌≤◌, ℕ, suc}
use mathlib.Core.Path.{◌≡◌, refl, ap, ◌∙◌}
use mathlib.Core.Logic.{inl, inr}
use mathlib.Core.Bool.{Bool, true, false, ◌&&◌, ◌||◌}
use mathlib.Core.List.{List, [], ◌∷◌, ◌++◌}
use native.Mathlib.Omega.{arith}
use go_mumble_server.Base.Tests.{◌==◌, if◌then◌else◌, Bool-cases, ==_iff}
use go_mumble_server.Base.Lists.{length}
use go_mumble_server.Base.Sets.{length-remove, contains, remove, add, contains-remove, contains-add}

-- A list without repeats.
abbrev pub NoRepeats : List ℕ → Type 0
NoRepeats [] = Unit {0}
NoRepeats (x ∷ xs) = (contains xs x ≡ false) × NoRepeats xs

remove_missing : (k : ℕ) (xs : List ℕ) → contains xs k ≡ false → remove k xs ≡ xs
unfolding contains remove
remove_missing k [] h = refl
remove_missing k (x ∷ xs) h = ground (arith, ap (◌∷◌ x) (remove_missing k xs (ground arith)))

pub length-remove_one :
    (k : ℕ) (xs : List ℕ)
    → NoRepeats xs
    → contains xs k ≡ true
    → suc (length (remove k xs)) ≡ length xs
unfolding contains remove
length-remove_one k [] d h = ground arith
length-remove_one k (x ∷ xs) d h = elim (Bool-cases (x == k)) [
  | inl e ↦
      let same : remove k xs ≡ remove x xs = rw ((==_iff x k).0 e) refl in
      rw e (ap (λ (ys : List ℕ). suc (length ys)) (same ∙ remove_missing x xs d.0))
  | inr e ↦ rw e (ap suc (length-remove_one k xs d.1 (ground arith)))
]

pub NoRepeats-remove : (k : ℕ) (xs : List ℕ) → NoRepeats xs → NoRepeats (remove k xs)
unfolding remove
NoRepeats-remove k [] d = tt
NoRepeats-remove k (x ∷ xs) d = elim (Bool-cases (x == k)) [
  | inl e ↦ rw e (NoRepeats-remove k xs d.1)
  | inr e ↦ rw e (ground (arith, contains-remove k x xs), NoRepeats-remove k xs d.1)
]

pub NoRepeats-add : (k : ℕ) (xs : List ℕ) → NoRepeats xs → NoRepeats (add k xs)
unfolding add
NoRepeats-add k xs d = elim (Bool-cases (contains xs k)) [ inl e ↦ rw e d | inr e ↦ rw e (e, d) ]

pub length-add_one :
    (k : ℕ) (xs : List ℕ) → contains xs k ≡ false → length (add k xs) ≡ suc (length xs)
unfolding add
length-add_one k xs h = rw h refl

-- The rest of a set lies in the other one without the member.
inside :
    (x : ℕ) (xs ys : List ℕ)
    → contains xs x ≡ false
    → ((z : ℕ) → contains (x ∷ xs) z ≡ true → contains ys z ≡ true)
    → (z : ℕ) → contains xs z ≡ true
    → contains (remove x ys) z ≡ true
unfolding contains
inside x xs ys new sub z i = elim (Bool-cases (x == z)) [
  | inl same ↦ ground (arith, i, new, ap (contains xs) ((==_iff x z).0 same))
  | inr other ↦ ground (arith, other, sub z (ground (arith, i)), contains-remove x z ys)
]

-- A set that lies in another one of the same size is that one.
pub whole :
    (xs ys : List ℕ)
    → NoRepeats xs
    → NoRepeats ys
    → length xs ≡ length ys
    → ((z : ℕ) → contains xs z ≡ true → contains ys z ≡ true)
    → (z : ℕ) → contains ys z ≡ true
    → contains xs z ≡ true
unfolding contains
whole [] [] d e h sub z i = i
whole [] (y ∷ ys) d e h sub z i = ground (arith, h)
whole (x ∷ xs) ys d e h sub z i = elim (Bool-cases (x == z)) [
  | inl same ↦ ground (arith, same)
  | inr other ↦
      let there : contains ys x ≡ true = sub x (ground arith) in
      let shorter = length-remove_one x ys e there in
      let rest =
        whole xs (remove x ys) d.1 (NoRepeats-remove x ys e) (omega (arith, h, shorter))
          (inside x xs ys d.0 sub) z (ground (arith, i, other, contains-remove x z ys)) in
      ground (arith, rest)
]

-- The set of a list's members.
unfoldable pub set_of : List ℕ → List ℕ
unfolding add
set_of [] = []
set_of (x ∷ xs) = add x (set_of xs)

pub contains-set_of : (z : ℕ) (xs : List ℕ) → contains (set_of xs) z ≡ contains xs z
unfolding set_of contains
contains-set_of z [] = refl
contains-set_of z (x ∷ xs) =
    contains-add x z (set_of xs) ∙ ap (◌||◌ (x == z)) (contains-set_of z xs)

pub NoRepeats-set_of : (xs : List ℕ) → NoRepeats (set_of xs)
unfolding set_of
NoRepeats-set_of [] = tt
NoRepeats-set_of (x ∷ xs) = NoRepeats-add x (set_of xs) (NoRepeats-set_of xs)

-- The members that a test keeps.
unfoldable pub filter : (ℕ → Bool) → List ℕ → List ℕ
filter p [] = []
filter p (x ∷ xs) = if p x then (x ∷ filter p xs) else filter p xs

pub contains-filter :
    (p : ℕ → Bool) (z : ℕ) (xs : List ℕ) → contains (filter p xs) z ≡ (p z && contains xs z)
unfolding filter contains
contains-filter p z [] = ground arith
contains-filter p z (x ∷ xs) = elim (Bool-cases (x == z)) [
  | inl same ↦
      let e : p x ≡ p z = ap p ((==_iff x z).0 same) in
      ground (arith, e, same, contains-filter p z xs)
  | inr other ↦ ground (arith, other, contains-filter p z xs)
]

pub contains-append :
    (z : ℕ) (xs ys : List ℕ) → contains (xs ++ ys) z ≡ (contains xs z || contains ys z)
unfolding contains
contains-append z [] ys = refl
contains-append z (x ∷ xs) ys = ground (arith, contains-append z xs ys)

remove_shorter :
    (k : ℕ) (xs : List ℕ) → contains xs k ≡ true → suc (length (remove k xs)) ≤ length xs
unfolding contains remove
remove_shorter k [] h = ground (arith, h)
remove_shorter k (x ∷ xs) h = elim (Bool-cases (x == k)) [
  | inl e ↦ rw e (omega (arith, length-remove k xs))
  | inr e ↦ rw e (omega (arith, remove_shorter k xs (ground (arith, h, e))))
]

-- A set that lies in another one is not larger.
pub length-within :
    (xs ys : List ℕ)
    → NoRepeats xs
    → ((z : ℕ) → contains xs z ≡ true → contains ys z ≡ true)
    → length xs ≤ length ys
unfolding contains
length-within [] ys d sub = omega arith
length-within (x ∷ xs) ys d sub =
    let shorter = remove_shorter x ys (sub x (ground arith)) in
    omega (arith, shorter, length-within xs (remove x ys) d.1 (inside x xs ys d.0 sub))
