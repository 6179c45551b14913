-- ===== src/Base/Maps.antt =====
-- Go maps with integer keys, as association lists. An update drops the old binding, so that a key
-- is bound once; where Go ranges over a map in an unspecified order, the list's order stands for it.
use Prim.Native.Nat.{ℕ, suc}
use mathlib.Core.Path.{◌≡◌, refl, sym, ap, ◌∙◌, subst₂}
use mathlib.Core.Logic.{inl, inr}
use mathlib.Core.Option.{Option, none, some}
use mathlib.Core.List.{List, [], ◌∷◌}
use native.Mathlib.Omega.{arith}
use go_mumble_server.Base.Lists.{length}
use go_mumble_server.Base.Tests.{◌==◌, ==_iff, Bool-cases, if◌then◌else◌}

module _ {ℓ} {V : Type ℓ} where
  -- m[k]
  unfoldable pub find : ℕ → List (ℕ × V) → Option V
  find k [] = none
  find k ((j, v) ∷ m) = if j == k then some v else find k m

  -- delete(m, k)
  unfoldable pub delete : ℕ → List (ℕ × V) → List (ℕ × V)
  delete k [] = []
  delete k ((j, v) ∷ m) = if j == k then delete k m else ((j, v) ∷ delete k m)

  -- m[k] = v
  unfoldable pub insert : ℕ → V → List (ℕ × V) → List (ℕ × V)
  insert k v [] = (k, v) ∷ []
  insert k v ((j, w) ∷ m) = if j == k then ((k, v) ∷ m) else ((j, w) ∷ insert k v m)

  pub find-insert :
      (k j : ℕ) (v : V) (m : List (ℕ × V))
      → find j (insert k v m) ≡ (if k == j then some v else find j m)
  unfolding find insert
  find-insert k j v [] = refl
  find-insert k j v ((i, w) ∷ m) = ground (arith, find-insert k j v m)

  pub find-delete :
      (k j : ℕ) (m : List (ℕ × V)) → find j (delete k m) ≡ (if k == j then none else find j m)
  unfolding find delete
  find-delete k j [] = ground arith
  find-delete k j ((i, w) ∷ m) = ground (arith, find-delete k j m)

-- A property of every binding.
module _ {ℓ κ} {V : Type ℓ} (P : ℕ → V → Type κ) where
  abbrev pub Each : List (ℕ × V) → Type κ
  Each [] = Unit {κ}
  Each ((k, v) ∷ m) = P k v × Each m

  pub Each-insert : (k : ℕ) (v : V) (m : List (ℕ × V)) → P k v → Each m → Each (insert k v m)
  unfolding insert
  Each-insert k v [] h p = (h, tt)
  Each-insert k v ((j, w) ∷ m) h p = elim (Bool-cases (j == k)) [
    | inl e ↦ rw e (h, p.1)
    | inr e ↦ rw e (p.0, Each-insert k v m h p.1)
  ]

  pub Each-delete : (k : ℕ) (m : List (ℕ × V)) → Each m → Each (delete k m)
  unfolding delete
  Each-delete k [] p = tt
  Each-delete k ((j, w) ∷ m) p = elim (Bool-cases (j == k)) [
    | inl e ↦ rw e (Each-delete k m p.1)
    | inr e ↦ rw e (p.0, Each-delete k m p.1)
  ]

  pub Each-find : (k : ℕ) (m : List (ℕ × V)) {v : V} → Each m → find k m ≡ some v → P k v
  unfolding find
  Each-find k [] p h = cc
  Each-find k ((j, w) ∷ m) {v} p h = elim (Bool-cases (j == k)) [
    | inl e ↦
        let hv : w ≡ v = ground arith in let hk : j ≡ k = (==_iff j k).0 e in subst₂ P hk hv p.0
    | inr e ↦ Each-find k m p.1 (ground arith)
  ]

module _ {ℓ κ κ'} {V : Type ℓ} {P : ℕ → V → Type κ} {Q : ℕ → V → Type κ'}
    (f : (k : ℕ) (v : V) → P k v → Q k v) where
  pub Each-map : (m : List (ℕ × V)) → Each P m → Each Q m
  Each-map [] p = tt
  Each-map ((k, v) ∷ m) p = (f k v p.0, Each-map m p.1)

-- No key is bound twice.
module _ {ℓ} {V : Type ℓ} where
  abbrev pub Distinct : List (ℕ × V) → Type ℓ
  Distinct [] = Unit {ℓ}
  Distinct ((k, v) ∷ m) = (find k m ≡ none) × Distinct m

  pub Distinct-insert : (k : ℕ) (v : V) (m : List (ℕ × V)) → Distinct m → Distinct (insert k v m)
  unfolding insert
  Distinct-insert k v [] d = (unfold find in refl, tt)
  Distinct-insert k v ((j, w) ∷ m) d = elim (Bool-cases (j == k)) [
    | inl e ↦ rw e (ap (λ i. find i m) (sym ((==_iff j k).0 e)) ∙ d.0, d.1)
    | inr e ↦ rw e (ground (arith, find-insert k j v m), Distinct-insert k v m d.1)
  ]

  pub Distinct-delete : (k : ℕ) (m : List (ℕ × V)) → Distinct m → Distinct (delete k m)
  unfolding delete
  Distinct-delete k [] d = tt
  Distinct-delete k ((j, w) ∷ m) d = elim (Bool-cases (j == k)) [
    | inl e ↦ rw e (Distinct-delete k m d.1)
    | inr e ↦ rw e (ground (arith, find-delete k j m), Distinct-delete k m d.1)
  ]

  pub length-insert_new :
      (k : ℕ) (v : V) (m : List (ℕ × V)) → find k m ≡ none → length (insert k v m) ≡ suc (length m)
  unfolding find insert
  length-insert_new k v [] h = refl
  length-insert_new k v ((j, w) ∷ m) h = elim (Bool-cases (j == k)) [
    | inl e ↦ ground (arith, e, h)
    | inr e ↦ rw e (ap suc (length-insert_new k v m (ground (arith, e, h))))
  ]

  pub length-insert_old :
      (k : ℕ) (v : V) (m : List (ℕ × V)) {w : V}
      → find k m ≡ some w
      → length (insert k v m) ≡ length m
  unfolding find insert
  length-insert_old k v [] h = ground (arith, h)
  length-insert_old k v ((j, x) ∷ m) {w} h = elim (Bool-cases (j == k)) [
    | inl e ↦ rw e refl
    | inr e ↦ rw e (ap suc (length-insert_old k v m {w = w} (ground (arith, e, h))))
  ]

  delete_missing : (k : ℕ) (m : List (ℕ × V)) → find k m ≡ none → delete k m ≡ m
  unfolding find delete
  delete_missing k [] h = refl
  delete_missing k ((j, w) ∷ m) h = elim (Bool-cases (j == k)) [
    | inl e ↦ ground (arith, e, h)
    | inr e ↦ rw e (ap (◌∷◌ (j, w)) (delete_missing k m (ground (arith, e, h))))
  ]

  pub length-delete_one :
      (k : ℕ) (m : List (ℕ × V)) {v : V}
      → Distinct m
      → find k m ≡ some v
      → suc (length (delete k m)) ≡ length m
  unfolding find delete
  length-delete_one k [] d h = ground arith
  length-delete_one k ((j, w) ∷ m) {v} d h = elim (Bool-cases (j == k)) [
    | inl e ↦
        let gone : find k m ≡ none = ap (λ i. find i m) (sym ((==_iff j k).0 e)) ∙ d.0 in
        rw e (ap (λ (n : List (ℕ × V)). suc (length n)) (delete_missing k m gone))
    | inr e ↦ rw e (ap suc (length-delete_one k m {v = v} d.1 (ground (arith, e, h))))
  ]
