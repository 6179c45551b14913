-- ===== src/Channel/Ancestors.antt =====
-- The walk up to the root ends, and goes from each channel to its parent.
use go_mumble_server.Base.{
  ℕ, zero, suc, ◌+◌, ◌≤◌, ◌<◌, ◌≡◌, refl, true, false, some, List, [], ◌∷◌, length, ◌==◌,
  if◌then◌else◌, arith, Bool-cases, Option-cases, inl, inr, none, ◌⊎◌, ◌≢◌, ==_iff,
}
use go_mumble_server.Base.Maps.{find}
use go_mumble_server.Channel.{Tree, Node, contains, chain_loop, ancestor_chain, root_id}

-- The channels that the walk has not marked.
unseen : Tree → List ℕ → ℕ
unseen [] seen = 0
unseen ((k, n) ∷ t) seen = (if contains seen k then 0 else 1) + unseen t seen

unseen-le : (t : Tree) (seen : List ℕ) → unseen t seen ≤ length t
unfolding unseen
unseen-le [] seen = omega arith
unseen-le ((k, n) ∷ t) seen = ground (arith, unseen-le t seen)

unseen_mono : (t : Tree) (seen : List ℕ) (id : ℕ) → unseen t (id ∷ seen) ≤ unseen t seen
unfolding unseen contains
unseen_mono [] seen id = omega arith
unseen_mono ((k, n) ∷ t) seen id = ground (arith, unseen_mono t seen id)

unseen-falls :
    (t : Tree) (seen : List ℕ) (id : ℕ) {n : Node}
    → find id t ≡ some n
    → contains seen id ≡ false
    → unseen t (id ∷ seen) < unseen t seen
unfolding unseen contains find
unseen-falls [] seen id h e = cc
unseen-falls ((k, x) ∷ t) seen id {n} h e =
    ground (arith, unseen_mono t seen id, unseen-falls t seen id {n = n})

-- More fuel than there are channels to mark changes nothing.
chain_loop_fuel :
    (f g : ℕ) (t : Tree) (seen : List ℕ) (id : ℕ)
    → unseen t seen < f
    → unseen t seen < g
    → chain_loop f t seen id ≡ chain_loop g t seen id
unfolding chain_loop
chain_loop_fuel zero g t seen id hf hg = absurd (omega arith)
chain_loop_fuel (suc f) zero t seen id hf hg = absurd (omega arith)
chain_loop_fuel (suc f) (suc g) t seen id hf hg = elim (Option-cases (find id t)) [
  | inl e ↦ rw e
  | inr (n, e) ↦ elim (Bool-cases (contains seen id)) [
    | inl old ↦ rw (e, old)
    | inr new ↦ rw (
      e,
      new,
      chain_loop_fuel f g t (id ∷ seen) n.parent_id
          (omega (arith, unseen-falls t seen id {n = n} e new))
          (omega (arith, unseen-falls t seen id {n = n} e new)),
    )
  ]
]

-- A walk from `id` to the root, behind the channels `passed`. It goes through channels of the tree, from
-- each to its parent. It ends behind the root, and elsewhere only before a channel that the tree does
-- not hold or that was passed.
abbrev pub IsWalk : Tree → List ℕ → ℕ → List ℕ → Type 0
IsWalk t passed id [] = (find id t ≡ none) ⊎ (contains passed id ≡ true)
IsWalk t passed id (x ∷ xs) =
    (x ≡ id)
    × (n : Node) × (find id t ≡ some n)
    × (contains passed id ≡ false)
    × (((id ≡ root_id) × (xs ≡ [])) ⊎ ((id ≢ root_id) × IsWalk t (id ∷ passed) n.parent_id xs))

chain_loop-IsWalk :
    (fuel : ℕ) (t : Tree) (seen : List ℕ) (id : ℕ)
    → unseen t seen < fuel
    → IsWalk t seen id (chain_loop fuel t seen id)
unfolding chain_loop
chain_loop-IsWalk zero t seen id h = absurd (omega arith)
chain_loop-IsWalk (suc fuel) t seen id h = elim (Option-cases (find id t)) [
  | inl e ↦ rw e (inl e)
  | inr (n, e) ↦ elim (Bool-cases (contains seen id)) [
    | inl old ↦ rw (e, old) (inr old)
    | inr new ↦ elim (Bool-cases (id == root_id)) [
      | inl root ↦ rw (e, new, root) (refl, n, e, new, inl ((==_iff id root_id).0 root, refl))
      | inr inner ↦
          rw (e, new, inner)
            (
              refl,
              n,
              e,
              new,
              inr (
                λ z. ground arith,
                chain_loop-IsWalk fuel t (id ∷ seen) n.parent_id
                    (omega (arith, unseen-falls t seen id {n = n} e new)),
              ),
            )
    ]
  ]
]

-- No id that the walk has marked comes again.
chain_loop-fresh :
    (fuel : ℕ) (t : Tree) (seen : List ℕ) (id k : ℕ)
    → contains seen k ≡ true
    → contains (chain_loop fuel t seen id) k ≡ false
unfolding chain_loop contains
chain_loop-fresh zero t seen id k h = refl
chain_loop-fresh (suc fuel) t seen id k h = elim (Option-cases (find id t)) [
  | inl e ↦ rw e
  | inr (n, e) ↦ elim (Bool-cases (contains seen id)) [
    | inl old ↦ rw (e, old)
    | inr new ↦ rw (e, new) (ground (arith, new, chain_loop-fresh fuel t (id ∷ seen) n.parent_id k))
  ]
]

abbrev pub NoRepeat : List ℕ → Type 0
NoRepeat [] = Unit {0}
NoRepeat (x ∷ xs) = (contains xs x ≡ false) × NoRepeat xs

contains_self : (xs : List ℕ) (k : ℕ) → contains (k ∷ xs) k ≡ true
unfolding contains
contains_self xs k = ground arith

chain_loop-NoRepeat :
    (fuel : ℕ) (t : Tree) (seen : List ℕ) (id : ℕ) → NoRepeat (chain_loop fuel t seen id)
unfolding chain_loop
chain_loop-NoRepeat zero t seen id = tt
chain_loop-NoRepeat (suc fuel) t seen id = elim (Option-cases (find id t)) [
  | inl e ↦ rw e tt
  | inr (n, e) ↦ elim (Bool-cases (contains seen id)) [
    | inl old ↦ rw (e, old) tt
    | inr new ↦ elim (Bool-cases (id == root_id)) [
      | inl root ↦ rw (e, new, root) (unfold contains in refl, tt)
      | inr inner ↦
          rw (e, new, inner)
            (
              chain_loop-fresh fuel t (id ∷ seen) n.parent_id id (contains_self seen id),
              chain_loop-NoRepeat fuel t (id ∷ seen) n.parent_id,
            )
    ]
  ]
]

-- `AncestorChain` ends on every tree, also where the parents run in a circle: any number of rounds
-- above the number of channels gives the same chain. The chain goes from the channel to its parent and so
-- on. It ends behind the root, and elsewhere only where the next channel is not in the tree or was
-- already passed, so that it is empty only when the channel is not in the tree; it holds no channel twice.
pub ancestor_chain_lem :
    (t : Tree) (id more : ℕ)
    → (chain_loop (length t + 1 + more) t [] id ≡ ancestor_chain t id)
      × IsWalk t [] id (ancestor_chain t id)
      × NoRepeat (ancestor_chain t id)
unfolding ancestor_chain
ancestor_chain_lem t id more = (
  chain_loop_fuel (length t + 1 + more) (length t + 1) t [] id (omega (arith, unseen-le t []))
      (omega (arith, unseen-le t [])),
  chain_loop-IsWalk (length t + 1) t [] id (omega (arith, unseen-le t [])),
  chain_loop-NoRepeat (length t + 1) t [] id,
)
