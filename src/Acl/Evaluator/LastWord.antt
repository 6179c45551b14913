-- ===== src/Acl/Evaluator/LastWord.antt =====
-- internal/acl/evaluator.go: on one channel the entries decide in their order, the last one first.
use go_mumble_server.Base.{
  ℕ, ◌≡◌, ◌∙◌, refl, sym, Bool, true, false, Option, none, some, List, [], ◌∷◌, ◌==◌, if◌then◌else◌,
  ◌&&◌, ◌||◌, ap, inl, inr, bit_and, bit_or, arith, Bool-cases, Option-cases,
}
use go_mumble_server.Base.Bits.{bit, bit-and, bit-or, bit-and_not, bit-lt-two, bit-zero}
use go_mumble_server.Channel.{Tree}
use go_mumble_server.Acl.Selector.{User, Outside, Row}
use go_mumble_server.Acl.Group.{entry_matches}
use go_mumble_server.Acl.Evaluator.{
  Progress, ordinary_permissions, root_permissions, is_own, is_inherited, grant_root, grant_row,
  apply_row, eval_rows,
}
use go_mumble_server.Acl.Evaluator.Bounds.{some-injective, none≢some}

-- Whether an entry of channel `cid` matches the subject and is one that the target has.
abbrev pub counts : Outside → Tree → ℕ → ℕ → Option User → ℕ → Row → Bool
counts w t id target u cid row = elim (entry_matches w t row id target u) [
  | none ↦ false
  | some m ↦ m && (is_own row cid target || is_inherited row cid target)
]

-- What an entry says about the permission with the bit `k`: a denial comes before a grant.
abbrev pub word : ℕ → Row → Option ℕ
word k row = if bit row.deny k == 1 then some 0 else (if bit row.grant k == 1 then some 1 else none)

-- What the last entry that counts and names the permission says.
abbrev pub last_word : (Row → Bool) → ℕ → List Row → Option ℕ
last_word counted k [] = none
last_word counted k (row ∷ rows) = elim (last_word counted k rows) [
  | some v ↦ some v
  | none ↦ if counted row then word k row else none
]

abbrev pub or_else : Option ℕ → ℕ → ℕ
or_else none old = old
or_else (some v) old = v

or_else-later :
    (later first : Option ℕ) (old : ℕ)
    → or_else later (or_else first old)
      ≡ or_else (elim later [ some v ↦ some v | none ↦ first ]) old
or_else-later none first old = refl
or_else-later (some v) first old = refl

root-or-ordinary : (k : ℕ) → bit ordinary_permissions k ≡ 1 → bit root_permissions k ≡ 0
root-or-ordinary k h = omega (arith, bit-and 0x1F0000 0xFFF k, bit-zero k, bit-lt-two 0x1F0000 k)

module _ (k : ℕ) (h : bit ordinary_permissions k ≡ 1) where
  grant_root-bit : (row : Row) (cid target g : ℕ) → bit (grant_root row cid target g) k ≡ bit g k
  unfolding grant_root
  grant_root-bit row cid target g = ground (
    arith,
    bit-or g (bit_and row.grant root_permissions) k,
    bit-and row.grant root_permissions k,
    root-or-ordinary k h,
  )

  grant_row-bit :
      (row : Row) (cid target g : ℕ)
      → bit (grant_row row cid target g) k
        ≡ or_else
            (if is_own row cid target || is_inherited row cid target then word k row else none)
            (bit g k)
  unfolding grant_row
  grant_row-bit row cid target g =
      elim (Bool-cases (is_own row cid target || is_inherited row cid target)) [
        | inl e ↦
            rw (grant_row, e)
              (ground (
                arith,
                bit-and_not (bit_or g (bit_and row.grant ordinary_permissions)) row.deny k,
                bit-or g (bit_and row.grant ordinary_permissions) k,
                bit-and row.grant ordinary_permissions k,
                bit-lt-two row.deny k,
                bit-lt-two row.grant k,
                bit-lt-two g k,
              ))
        | inr e ↦ rw (grant_row, e) refl
      ]

  apply_row-bit :
      (row : Row) (cid target : ℕ) (s : Progress)
      → bit (apply_row row cid target s).granted k
        ≡ or_else
            (if is_own row cid target || is_inherited row cid target then word k row else none)
            (bit s.granted k)
  unfolding apply_row
  apply_row-bit row cid target s =
      grant_row-bit row cid target (grant_root row cid target s.granted)
      ∙ ap
          (or_else
            (if is_own row cid target || is_inherited row cid target then word k row else none))
          (grant_root-bit row cid target s.granted)

  row-bit :
      (m : Bool) (row : Row) (cid target : ℕ) (s : Progress)
      → bit (if m then apply_row row cid target s else s).granted k
        ≡ or_else
            (if m && (is_own row cid target || is_inherited row cid target)
              then word k row
              else none)
            (bit s.granted k)
  row-bit true row cid target s = apply_row-bit row cid target s
  row-bit false row cid target s = refl

-- For a permission that every channel has (a bit of `ordinary_permissions`, not one of the root's own), the entries of one channel leave what the last of them
-- says that matches the subject, is one that the target has, and names the permission; where none
-- does, the permission is as it was before the channel.
pub eval_rows_lem :
    (w : Outside) (t : Tree) (id target : ℕ) (u : Option User) (cid : ℕ) (rows : List Row)
    (s s' : Progress) (k : ℕ)
    → bit ordinary_permissions k ≡ 1
    → eval_rows w t id target u cid rows s ≡ some s'
    → bit s'.granted k ≡ or_else (last_word (counts w t id target u cid) k rows) (bit s.granted k)
unfolding eval_rows
eval_rows_lem w t id target u cid [] s s' k h e = rw (some-injective e) refl
eval_rows_lem w t id target u cid (row ∷ rows) s s' k h e =
    elim (Option-cases (entry_matches w t row id target u)) [
      | inl q ↦
          let step : eval_rows w t id target u cid (row ∷ rows) s ≡ none = rw (eval_rows, q) in
          absurd (none≢some (sym step ∙ e))
      | inr (m, q) ↦
          let next : Progress = if m then apply_row row cid target s else s in
          let step : eval_rows w t id target u cid (row ∷ rows) s
              ≡ eval_rows w t id target u cid rows next =
            rw (eval_rows, q) in
          let later = last_word (counts w t id target u cid) k rows in
          let counted : counts w t id target u cid row
              ≡ (m && (is_own row cid target || is_inherited row cid target)) =
            rw (counts, q) in
          let said =
            if m && (is_own row cid target || is_inherited row cid target)
            then word k row
            else none in
          eval_rows_lem w t id target u cid rows next s' k h (sym step ∙ e)
          ∙ (ap (or_else later) (row-bit k h m row cid target s)
              ∙ (or_else-later later said (bit s.granted k)
                  ∙ ap
                      (λ x.
                        or_else
                          (elim later [ some v ↦ some v | none ↦ if x then word k row else none ])
                          (bit s.granted k))
                      (sym counted)))
    ]
