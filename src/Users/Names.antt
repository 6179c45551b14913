-- ===== src/Users/Names.antt =====
-- A Go map whose keys are strings, as an association list that binds a key once.
use go_mumble_server.Base.{
  ◌≡◌, ◌∙◌, refl, sym, ap, ap₂, true, false, Option, none, some, List, [], ◌∷◌, if◌then◌else◌,
  arith, Bool-cases, inl, inr, ==_iff,
}
use go_mumble_server.Acl.Selector.{Text, same_text}

pub same_text_refl : (a : Text) → same_text a a ≡ true
same_text_refl [] = refl
same_text_refl (x ∷ a) = ground (arith, same_text_refl a)

pub same_text_equal : (a b : Text) → same_text a b ≡ true → a ≡ b
same_text_equal [] [] h = refl
same_text_equal [] (y ∷ b) h = ground arith
same_text_equal (x ∷ a) [] h = ground arith
same_text_equal (x ∷ a) (y ∷ b) h =
    ap₂ ◌∷◌ ((==_iff x y).0 (ground arith)) (same_text_equal a b (ground arith))

module _ {ℓ} {V : Type ℓ} where
  unfoldable pub find_name : Text → List (Text × V) → Option V
  find_name k [] = none
  find_name k ((j, v) ∷ m) = if same_text j k then some v else find_name k m

  unfoldable pub delete_name : Text → List (Text × V) → List (Text × V)
  delete_name k [] = []
  delete_name k ((j, v) ∷ m) = if same_text j k then delete_name k m else ((j, v) ∷ delete_name k m)

  unfoldable pub insert_name : Text → V → List (Text × V) → List (Text × V)
  unfolding delete_name
  insert_name k v m = (k, v) ∷ delete_name k m

  pub find_name-delete_name :
      (k j : Text) (m : List (Text × V))
      → find_name j (delete_name k m) ≡ (if same_text k j then none else find_name j m)
  unfolding find_name delete_name
  find_name-delete_name k j [] = ground arith
  find_name-delete_name k j ((i, w) ∷ m) =
      let rest = find_name-delete_name k j m in
      elim (Bool-cases (same_text i k)) [
        | inl e ↦ let e' : i ≡ k = same_text_equal i k e in rw e (rest ∙ (rw e' (ground arith)))
        | inr e ↦ rw e (elim (Bool-cases (same_text i j)) [
          | inl f ↦
              let f' : i ≡ j = same_text_equal i j f in
              let g : same_text k j ≡ false = other k j (rw (sym f') e) in rw (f, g) refl
          | inr f ↦ rw f rest
        ])
      ]
    where
      other : (k j : Text) → same_text j k ≡ false → same_text k j ≡ false
      other k j h = elim (Bool-cases (same_text k j)) [
        | inl e ↦
            ground (arith, h, ap (λ i. same_text j i) (same_text_equal k j e), same_text_refl j)
        | inr e ↦ e
      ]

  pub find_name-insert_name :
      (k j : Text) (v : V) (m : List (Text × V))
      → find_name j (insert_name k v m) ≡ (if same_text k j then some v else find_name j m)
  unfolding find_name insert_name
  find_name-insert_name k j v m = ground (arith, find_name-delete_name k j m)
