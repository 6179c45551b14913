-- ===== src/Acl/Evaluator/Bounds.antt =====
-- internal/acl/evaluator.go: no permission appears that the channel cannot have.
use mathlib.Core.List.{reverse}
use go_mumble_server.Base.{
  ℕ, ◌≤◌, ◌≡◌, ◌∙◌, ◌≢◌, refl, sym, Bool, true, false, Option, none, some, List, [], ◌∷◌, ◌==◌,
  if◌then◌else◌, ◌&&◌, ◌||◌, inl, inr, not, bit_and, bit_or, arith, Bool-cases, Option-cases,
}
use go_mumble_server.Base.Bits.{and_not, bit, bit-and, bit-or, bit-and_not, bit-zero}
use go_mumble_server.Base.Maps.{find}
use go_mumble_server.Channel.{Tree, root_id, ancestor_chain}
use go_mumble_server.Acl.Selector.{User, Outside, Row}
use go_mumble_server.Acl.Group.{entry_matches, is_api_user, last_is_root}
use go_mumble_server.Acl.Evaluator.{
  Progress, Walk, failed, blocked, reached, ordinary_permissions, all_permissions,
  default_permissions, write_permissions, write_bit, has, is_own, is_inherited, grant_root,
  grant_row, apply_row, eval_rows, eval_path, start_channel, conclude, finish, initial_permissions,
  evaluate,
}

-- No bit of `p` is outside `mask`.
abbrev pub Within : ℕ → ℕ → Type 0
Within mask p = (k : ℕ) → bit p k ≤ bit mask k

Within-or : (mask a b : ℕ) → Within mask a → Within mask b → Within mask (bit_or a b)
Within-or mask a b p q k = omega (arith, bit-or a b k, p k, q k)

Within-and : (mask a : ℕ) → Within mask (bit_and a mask)
Within-and mask a k = omega (arith, bit-and a mask k)

Within-and_not : (mask a b : ℕ) → Within mask a → Within mask (and_not a b)
Within-and_not mask a b p k = omega (arith, bit-and_not a b k, p k)

pub some-injective : {A : Type 0} {a b : A} → some a ≡ some b → a ≡ b
some-injective e = cc

pub none≢some : {A : Type 0} {a : A} → ¬ (none ≡ some a)
none≢some e = absurd cc

reached-injective : {a b : Progress} → reached a ≡ reached b → a ≡ b
reached-injective e = cc

failed≢reached : {a : Progress} → ¬ (failed ≡ reached a)
failed≢reached e = absurd cc

blocked≢reached : {a : Progress} → ¬ (blocked ≡ reached a)
blocked≢reached e = absurd cc

module _ (target : ℕ) (h : target ≢ 0) where
  abbrev Ordinary : Progress → Type 0
  Ordinary s = Within ordinary_permissions s.granted

  grant_root_noop : (row : Row) (cid g : ℕ) → grant_root row cid target g ≡ g
  unfolding grant_root
  grant_root_noop row cid g = ground arith

  grant_row-Within :
      (row : Row) (cid g : ℕ)
      → Within ordinary_permissions g
      → Within ordinary_permissions (grant_row row cid target g)
  unfolding grant_row
  grant_row-Within row cid g p =
      elim (Bool-cases (is_own row cid target || is_inherited row cid target)) [
        | inl e ↦ rw e (
            Within-and_not ordinary_permissions (bit_or g (bit_and row.grant ordinary_permissions))
              row.deny
              (Within-or ordinary_permissions g (bit_and row.grant ordinary_permissions) p
                (Within-and ordinary_permissions row.grant)))
        | inr e ↦ rw e p
      ]

  apply_row-Within :
      (row : Row) (cid : ℕ) (s : Progress) → Ordinary s → Ordinary (apply_row row cid target s)
  unfolding apply_row
  apply_row-Within row cid s p =
      rw (grant_root_noop row cid s.granted) (grant_row-Within row cid s.granted p)

  row-Within :
      (m : Bool) (row : Row) (cid : ℕ) (s : Progress)
      → Ordinary s
      → Ordinary (if m then apply_row row cid target s else s)
  row-Within true row cid s p = apply_row-Within row cid s p
  row-Within false row cid s p = p

  start-Within :
      (inherit : Bool) (def : ℕ) (s : Progress)
      → Within ordinary_permissions def
      → Ordinary s
      → Ordinary (start_channel inherit def s)
  start-Within true def s q p = p
  start-Within false def s q p = q

  eval_rows-Within :
      (w : Outside) (t : Tree) (id : ℕ) (u : Option User) (cid : ℕ) (rows : List Row)
      (s s' : Progress)
      → Ordinary s
      → eval_rows w t id target u cid rows s ≡ some s'
      → Ordinary s'
  unfolding eval_rows
  eval_rows-Within w t id u cid [] s s' p e = rw (sym (some-injective e)) p
  eval_rows-Within w t id u cid (row ∷ rows) s s' p e =
      elim (Option-cases (entry_matches w t row id target u)) [
        | inl q ↦
            let step : eval_rows w t id target u cid (row ∷ rows) s ≡ none = rw (eval_rows, q) in
            absurd (none≢some (sym step ∙ e))
        | inr (m, q) ↦
            let next : Progress = if m then apply_row row cid target s else s in
            let step : eval_rows w t id target u cid (row ∷ rows) s
                ≡ eval_rows w t id target u cid rows next =
              rw (eval_rows, q) in
            eval_rows-Within w t id u cid rows next s' (row-Within m row cid s p) (sym step ∙ e)
      ]

  eval_path-Within :
      (w : Outside) (t : Tree) (id : ℕ) (u : Option User) (def : ℕ) (path : List ℕ)
      (s s' : Progress)
      → Within ordinary_permissions def
      → Ordinary s
      → eval_path w t id target u def path s ≡ reached s'
      → Ordinary s'
  unfolding eval_path
  eval_path-Within w t id u def [] s s' q p e = rw (sym (reached-injective e)) p
  eval_path-Within w t id u def (cid ∷ path) s s' q p e = elim (Option-cases (find cid t)) [
    | inl x ↦
        let step : eval_path w t id target u def (cid ∷ path) s ≡ failed = rw (eval_path, x) in
        absurd (failed≢reached (sym step ∙ e))
    | inr (n, x) ↦ elim (Option-cases (w.rows cid)) [
      | inl y ↦
          let step : eval_path w t id target u def (cid ∷ path) s ≡ failed = rw (eval_path, x, y) in
          absurd (failed≢reached (sym step ∙ e))
      | inr (rows, y) ↦
          let first = start_channel n.inherit_acl def s in
          elim (Option-cases (eval_rows w t id target u cid rows first)) [
            | inl z ↦
                let step : eval_path w t id target u def (cid ∷ path) s ≡ failed =
                  rw (eval_path, x, y, z) in
                absurd (failed≢reached (sym step ∙ e))
            | inr (now, z) ↦
                let after =
                  eval_rows-Within w t id u cid rows first now
                    (start-Within n.inherit_acl def s q p) z in
                let stop : Bool = not now.traverse && not now.write in
                let step : eval_path w t id target u def (cid ∷ path) s
                    ≡ (if stop then blocked else eval_path w t id target u def path now) =
                  rw (eval_path, x, y, z) in
                elim (Bool-cases stop) [
                  | inl b ↦
                      let halt : (if stop then blocked else eval_path w t id target u def path now)
                          ≡ blocked =
                        rw b in
                      absurd (blocked≢reached (sym halt ∙ (sym step ∙ e)))
                  | inr b ↦
                      let on : (if stop then blocked else eval_path w t id target u def path now)
                          ≡ eval_path w t id target u def path now =
                        rw b in
                      eval_path-Within w t id u def path now s' q after (sym on ∙ (sym step ∙ e))
                ]
          ]
    ]
  ]

-- The bits that a channel can have.
abbrev pub allowed : ℕ → ℕ
allowed target = if target == root_id then all_permissions else ordinary_permissions

Within-and_left : (mask a b : ℕ) → Within mask a → Within mask (bit_and a b)
Within-and_left mask a b p k = omega (arith, bit-and a b k, p k)

first-Within : (admin : Bool) → Within ordinary_permissions (if admin then 0xB0F else 0xB0E)
first-Within true = Within-and ordinary_permissions 0xB0F
first-Within false = Within-and ordinary_permissions 0xB0E

initial-Within :
    (w : Outside) (id def : ℕ)
    → initial_permissions w id ≡ some def
    → Within ordinary_permissions def
unfolding initial_permissions
initial-Within w id def e = elim (Bool-cases (is_api_user id)) [
  | inr a ↦
      let step : initial_permissions w id ≡ some default_permissions =
        rw (initial_permissions, a) in
      rw (sym (some-injective (sym step ∙ e))) (Within-and ordinary_permissions default_permissions)
  | inl a ↦ elim (Option-cases (w.api_admin id)) [
    | inl b ↦
        let step : initial_permissions w id ≡ none = rw (initial_permissions, a, b) in
        absurd (none≢some (sym step ∙ e))
    | inr (admin, b) ↦
        let first : ℕ = if admin then 0xB0F else 0xB0E in
        let step : initial_permissions w id ≡ some first = rw (initial_permissions, a, b) in
        rw (sym (some-injective (sym step ∙ e))) (first-Within admin)
  ]
]

conclude-Within :
    (target granted : ℕ)
    → target ≢ 0
    → Within ordinary_permissions granted
    → Within ordinary_permissions (conclude target granted)
unfolding conclude
conclude-Within target granted h p =
    let no_root : (target == root_id) ≡ false = ground arith in
    elim (Bool-cases (has granted write_bit)) [
      | inl b ↦
          let step : conclude target granted
              ≡ bit_and (bit_or granted write_permissions) all_permissions =
            rw (conclude, b, no_root) in
          rw step (
            Within-and_left ordinary_permissions (bit_or granted write_permissions) all_permissions
              (Within-or ordinary_permissions granted write_permissions p
                (Within-and ordinary_permissions write_permissions)))
      | inr b ↦
          let step : conclude target granted ≡ bit_and granted all_permissions = rw (conclude, b) in
          rw step (Within-and_left ordinary_permissions granted all_permissions p)
    ]

zero-Within : (mask : ℕ) → Within mask 0
zero-Within mask k = rw (bit-zero k) (omega arith)

finish-ordinary :
    (target : ℕ) (walk : Walk) (p : ℕ)
    → target ≢ 0
    → ((s : Progress) → walk ≡ reached s → Within ordinary_permissions s.granted)
    → finish target walk ≡ some p
    → Within ordinary_permissions p
finish-ordinary target failed p h q e = absurd (none≢some e)
finish-ordinary target blocked p h q e =
    rw (sym (some-injective e)) (zero-Within ordinary_permissions)
finish-ordinary target (reached s) p h q e =
    rw (sym (some-injective e)) (conclude-Within target s.granted h (q s refl))

finish-all :
    (target : ℕ) (walk : Walk) (p : ℕ) → finish target walk ≡ some p → Within all_permissions p
unfolding conclude
finish-all target failed p e = absurd (none≢some e)
finish-all target blocked p e = rw (sym (some-injective e)) (zero-Within all_permissions)
finish-all target (reached s) p e = rw (sym (some-injective e)) (Within-and all_permissions _)

-- What an evaluation that does not fail ends with.
evaluate-finish :
    (w : Outside) (t : Tree) (id target : ℕ) (u : Option User) (p : ℕ)
    → evaluate w t id target u ≡ some p
    → (def : ℕ) × (initial_permissions w id ≡ some def)
      × (finish target (
            eval_path w t id target u def
              (reverse (ancestor_chain t target))
              (record { granted = def; traverse = true; write = has def write_bit }))
          ≡ some p)
unfolding evaluate
evaluate-finish w t id target u p e =
    let chain = ancestor_chain t target in
    elim (Bool-cases (last_is_root chain)) [
      | inr a ↦
          let step : evaluate w t id target u ≡ none = rw (evaluate, a) in
          absurd (none≢some (sym step ∙ e))
      | inl a ↦ elim (Option-cases (initial_permissions w id)) [
        | inl b ↦
            let step : evaluate w t id target u ≡ none = rw (evaluate, a, b) in
            absurd (none≢some (sym step ∙ e))
        | inr (def, b) ↦
            let step : evaluate w t id target u
                ≡ finish target (
                    eval_path w t id target u def (reverse chain)
                      (record { granted = def; traverse = true; write = has def write_bit })) =
              rw (evaluate, a, b) in
            (def, b, sym step ∙ e)
      ]
    ]

-- Whatever the entries, the groups and the rest of the database are, the permissions that an
-- evaluation returns are permissions that there are, and on a channel other than the root none of them
-- is one that only the root has (kick, ban, register and the like).
pub evaluate-Within :
    (w : Outside) (t : Tree) (id target : ℕ) (u : Option User) (p : ℕ)
    → evaluate w t id target u ≡ some p
    → Within (allowed target) p
evaluate-Within w t id target u p e =
    let (def, q, f) = evaluate-finish w t id target u p e in
    let path = reverse (ancestor_chain t target) in
    let first : Progress = record { granted = def; traverse = true; write = has def write_bit } in
    elim (Bool-cases (target == root_id)) [
      | inl b ↦ rw b (finish-all target (eval_path w t id target u def path first) p f)
      | inr b ↦
          let h : target ≢ 0 = λ x. absurd (ground arith) in
          let within = initial-Within w id def q in
          rw b (
            finish-ordinary target (eval_path w t id target u def path first) p h
              (λ s x. eval_path-Within target h w t id u def path first s within within x) f)
    ]
