-- ===== src/Ban/Match.antt =====
-- internal/ban/manager.go: which addresses an entry of the ban list covers, and for how long.
use go_mumble_server.Base.{
  ℕ, suc, zero, ◌+◌, ◌*◌, ◌-◌, ◌^◌, ◌%◌, ◌<◌, ◌≤◌, ◌≡◌, ◌∙◌, refl, ap, ◌⊎◌, inl, inr, Bool-cases,
  Bool, true, false, Option, some, List, [], ◌∷◌, length, drop, get_or, leb, ◌==◌, if◌then◌else◌,
  ◌&&◌, ◌||◌, bit_and, map, arith,
}
use go_mumble_server.Base.Bits.{bit_and_mask}
use go_mumble_server.Acl.Selector.{Text}
use go_mumble_server.Ban.{
  BanEntry, Row, Manager, Database, create_rows, replace, list, byte_mask, match_loop, match_addr,
  loaded, load, bans, is_banned,
}

-- The first `n` bytes agree, and the lowest `bits` bits of the next one, where there is one.
abbrev pub agree : ℕ → ℕ → ℕ → List ℕ → List ℕ → Bool
agree zero n bits ip addr = true
agree (suc len) zero bits ip addr = get_or addr 0 0 % 2 ^ bits == get_or ip 0 0 % 2 ^ bits
agree (suc len) (suc n) bits ip addr =
    get_or addr 0 0 % 256 == get_or ip 0 0 % 256 && agree len n bits (drop 1 ip) (drop 1 addr)

match_loop_zero : (n : ℕ) (ip addr : List ℕ) → match_loop n ip addr 0 ≡ true
unfolding match_loop
match_loop_zero zero ip addr = refl
match_loop_zero (suc n) ip addr = refl

if_and : (b c : Bool) → (if b then c else false) ≡ (b && c)
if_and true c = refl
if_and false c = refl

and-true : (b : Bool) → (b && true) ≡ b
and-true true = refl
and-true false = refl

low_byte_mask : (a bits : ℕ) → bits < 8 → bit_and a (byte_mask bits) ≡ a % 2 ^ bits
low_byte_mask a bits h =
    let e : byte_mask bits ≡ 2 ^ bits - 1 = ground arith in rw e (bit_and_mask bits a)

full_byte_mask : (a m : ℕ) → 8 ≤ m → bit_and a (byte_mask m) ≡ a % 256
full_byte_mask a m h = let e : byte_mask m ≡ 255 = ground arith in rw e (bit_and_mask 8 a)

-- One more byte, by what its mask selects and what is left of the mask.
match_loop_step :
    (len m next x y : ℕ) (ip addr : List ℕ)
    → 0 < m
    → bit_and (get_or addr 0 0) (byte_mask m) ≡ x
    → bit_and (get_or ip 0 0) (byte_mask m) ≡ y
    → (if leb 8 m then m - 8 else 0) ≡ next
    → match_loop (suc len) ip addr m ≡ ((x == y) && match_loop len (drop 1 ip) (drop 1 addr) next)
unfolding match_loop
match_loop_step len m next x y ip addr h hx hy hn =
    let nonzero : (m == 0) ≡ false = ground arith in
    rw (match_loop, nonzero, hx, hy, hn)
      (if_and (x == y) (match_loop len (drop 1 ip) (drop 1 addr) next))

match_loop_lem :
    (len n bits : ℕ) (ip addr : List ℕ)
    → bits < 8
    → match_loop len ip addr (n * 8 + bits) ≡ agree len n bits ip addr
unfolding match_loop
match_loop_lem zero n bits ip addr h = refl
match_loop_lem (suc len) zero zero ip addr h = ground arith
match_loop_lem (suc len) zero (suc b) ip addr h =
    let x = get_or addr 0 0 in
    let y = get_or ip 0 0 in
    let z : 0 * 8 + suc b ≡ suc b = omega arith in
    ap (match_loop (suc len) ip addr) z
    ∙ (match_loop_step len (suc b) 0 (x % 2 ^ suc b) (y % 2 ^ suc b) ip addr (omega arith)
          (low_byte_mask x (suc b) h) (low_byte_mask y (suc b) h) (ground arith)
        ∙ rw (match_loop_zero len (drop 1 ip) (drop 1 addr))
            (and-true (x % 2 ^ suc b == y % 2 ^ suc b)))
match_loop_lem (suc len) (suc n) bits ip addr h =
    let x = get_or addr 0 0 in
    let y = get_or ip 0 0 in
    let m = suc n * 8 + bits in
    match_loop_step len m (n * 8 + bits) (x % 256) (y % 256) ip addr (omega arith)
      (full_byte_mask x m (omega arith)) (full_byte_mask y m (omega arith)) (ground arith)
    ∙ ap (◌&&◌ (x % 256 == y % 256)) (match_loop_lem len n bits (drop 1 ip) (drop 1 addr) h)

-- On an address of version 4 and an entry with at least four bytes, `matchAddr` compares as many whole
-- bytes as the mask has octets, and of the byte behind them the LOWEST bits, as many as are left of the
-- mask; bytes behind the fourth do not count.
pub match_addr_lem :
    (ip addr : List ℕ) (n bits : ℕ)
    → 4 ≤ length addr
    → bits < 8
    → match_addr (some ip) addr (n * 8 + bits) ≡ agree 4 n bits ip addr
unfolding match_addr
match_addr_lem ip addr n bits h hb =
    let long : leb 4 (length addr) ≡ true = ground arith in
    rw (match_addr, long) (match_loop_lem 4 n bits ip addr hb)

-- The entries with any other start and duration.
abbrev pub retimed : (BanEntry → ℕ) → (BanEntry → ℕ) → List BanEntry → List BanEntry
retimed start duration [] = []
retimed start duration (b ∷ bs) =
    record b { start = start b; duration = duration b } ∷ retimed start duration bs

-- When a ban started and how long it was to last make no difference to `IsBanned`: no ban ends.
pub is_banned-retimed :
    (to_lower : Text → Text) (bs : List BanEntry) (ip : Option (List ℕ)) (hash : Text)
    (start duration : BanEntry → ℕ)
    → is_banned to_lower (retimed start duration bs) ip hash ≡ is_banned to_lower bs ip hash
unfolding is_banned
is_banned-retimed to_lower [] ip hash start duration = refl
is_banned-retimed to_lower (b ∷ bs) ip hash start duration =
    ap (◌||◌ (bans ip (to_lower hash) b)) (is_banned-retimed to_lower bs ip hash start duration)

-- The entries with their hashes in lower case.
abbrev pub lowered : (Text → Text) → List Row → List Row
lowered to_lower [] = []
lowered to_lower (b ∷ bs) = record b { hash = to_lower b.hash } ∷ lowered to_lower bs

list-load :
    (to_lower : Text → Text) (rows : List Row)
    → list (map (loaded to_lower) rows) ≡ lowered to_lower rows
unfolding list
list-load to_lower [] = refl
list-load to_lower (b ∷ bs) = ap (◌∷◌ (record b { hash = to_lower b.hash })) (list-load to_lower bs)

-- The rows as the table has them after a replacement: a mask of 0 is 32, and hashes are in lower case.
abbrev pub as_stored : (Text → Text) → List Row → List Row
as_stored to_lower [] = []
as_stored to_lower (b ∷ bs) =
    record b { mask = if b.mask == 0 then 32 else b.mask; hash = to_lower b.hash }
    ∷ as_stored to_lower bs

lowered-as_stored :
    (to_lower : Text → Text) (rows : List Row)
    → ((s : Text) → to_lower (to_lower s) ≡ to_lower s)
    → lowered to_lower (as_stored to_lower rows) ≡ as_stored to_lower rows
lowered-as_stored to_lower [] h = refl
lowered-as_stored to_lower (b ∷ bs) h = rw (h b.hash, lowered-as_stored to_lower bs h) refl

created_all :
    (to_lower : Text → Text) (db : Database) (rows : List Row)
    → (create_rows to_lower db rows).1 ≡ true
    → (create_rows to_lower db rows).0 ≡ as_stored to_lower rows
unfolding create_rows
created_all to_lower db [] h = refl
created_all to_lower db (b ∷ bs) h =
    let row = record b { mask = if b.mask == 0 then 32 else b.mask; hash = to_lower b.hash } in
    elim (Bool-cases (db.creates row)) [
      | inl e ↦ rw e (ap (◌∷◌ row) (created_all to_lower db bs (ground arith)))
      | inr e ↦ absurd (ground arith)
    ]

-- What `Replace` leaves, in all cases. Without an error the table holds the new rows, with the mask 32
-- for 0 and with hashes in lower case; the list is these rows when they could be read again, and the old
-- entries otherwise. With an error the entries that `IsBanned` reads are the old ones. (`strings.ToLower`
-- on its own result changes nothing.)
pub list-replace :
    (to_lower : Text → Text) (db : Database) (m : Manager) (rows : List Row)
    → ((s : Text) → to_lower (to_lower s) ≡ to_lower s)
    → let r = replace to_lower db m rows in
      ((r.1 ≡ true)
        × (r.0.table ≡ as_stored to_lower rows)
        × (((db.finds ≡ true) × (list r.0.entries ≡ as_stored to_lower rows))
            ⊎ ((db.finds ≡ false) × (r.0.entries ≡ m.entries))))
      ⊎ ((r.1 ≡ false) × (r.0.entries ≡ m.entries))
unfolding replace
list-replace to_lower db m rows h = elim (Bool-cases db.deletes) [
  | inr e ↦ inr (rw e refl, rw e refl)
  | inl e ↦ elim (Bool-cases (create_rows to_lower db rows).1) [
    | inr c ↦ inr (rw (e, c) refl, rw (e, c) refl)
    | inl c ↦ elim (Bool-cases db.finds) [
      | inl f ↦ inl (
        rw (e, c) refl,
        rw (replace, e, c, load, f) (created_all to_lower db rows c),
        inl (
          f,
          rw (replace, e, c, load, f)
              (list-load to_lower (create_rows to_lower db rows).0
                ∙ (ap (lowered to_lower) (created_all to_lower db rows c)
                    ∙ lowered-as_stored to_lower rows h)),
        ),
      )
      | inr f ↦ inl (
        rw (e, c) refl,
        rw (replace, e, c, load, f) (created_all to_lower db rows c),
        inr (f, rw (replace, e, c, load, f) refl),
      )
    ]
  ]
]
