-- ===== src/Ban.antt =====
-- internal/ban/manager.go: the ban list of a server. The database keeps a list of rows, and its calls may fail; what the source
-- asks of strings.ToLower, of the parse of the address and of the clock are parameters.
pub mod Match
mod Tests
use go_mumble_server.Base.{
  ℕ, suc, zero, ◌-◌, ◌^◌, Bool, true, false, Option, none, some, List, [], ◌∷◌, length, drop,
  get_or, ltb, leb, ◌==◌, if◌then◌else◌, ◌&&◌, ◌||◌, not, bit_and, map,
}
use go_mumble_server.Acl.Selector.{Text, same_text}

-- `banEntry`; a time is a number of seconds.
pub record BanEntry : Type 0 where
  pub addr : List ℕ
  pub mask : ℕ
  pub hash : Text
  pub name : Text
  pub reason : Text
  pub start : ℕ
  pub duration : ℕ
  pub active : Bool

-- A row of the table, which is also what a client sends once its start is known.
pub record Row : Type 0 where
  pub addr : List ℕ
  pub mask : ℕ
  pub hash : Text
  pub name : Text
  pub reason : Text
  pub start : ℕ
  pub duration : ℕ

-- The rows of the server in the database, and the list that is kept of them.
pub record Manager : Type 0 where
  pub table : List Row
  pub entries : List BanEntry

-- Which calls of the database succeed.
pub record Database : Type 0 where
  pub finds : Bool
  pub deletes : Bool
  pub creates : Row → Bool

-- A round of `loadLocked`.
abbrev pub loaded : (Text → Text) → Row → BanEntry
loaded to_lower b = record {
  addr = b.addr;
  mask = b.mask;
  hash = to_lower b.hash;
  name = b.name;
  reason = b.reason;
  start = b.start;
  duration = b.duration;
  active = true;
}

-- `loadLocked`: a failed query keeps the old list.
unfoldable pub load : (Text → Text) → Database → Manager → Manager
load to_lower db m = if db.finds then record m { entries = map (loaded to_lower) m.table } else m

-- The column's `default:32` (internal/database/models/ban.go) is what a mask of 0 is stored as.
abbrev pub stored_mask : ℕ → ℕ
stored_mask mask = if mask == 0 then 32 else mask

-- The loop of `Replace`: the rows that are created, and whether all were.
unfoldable pub create_rows : (Text → Text) → Database → List Row → List Row × Bool
create_rows to_lower db [] = ([], true)
create_rows to_lower db (b ∷ bs) =
    let row : Row = record b { mask = stored_mask b.mask; hash = to_lower b.hash } in
    let rest = create_rows to_lower db bs in
    if db.creates row then (row ∷ rest.0, rest.1) else ([], false)

-- `Replace`: the new state, and whether there was no error.
unfoldable pub replace : (Text → Text) → Database → Manager → List Row → Manager × Bool
unfolding create_rows load
replace to_lower db m rows =
    let created = create_rows to_lower db rows in
    if db.deletes
    then (if created.1
        then (load to_lower db (record m { table = created.0 }), true)
        else (record m { table = created.0 }, false))
    else (m, false)

-- `List`
unfoldable pub list : List BanEntry → List Row
list [] = []
list (b ∷ bs) =
    let rest = list bs in
    if b.active
    then (record {
      addr = b.addr;
      mask = b.mask;
      hash = b.hash;
      name = b.name;
      reason = b.reason;
      start = b.start;
      duration = b.duration;
    }
        ∷ rest)
    else rest

-- The bits of a byte that a mask of so many remaining bits compares.
abbrev pub byte_mask : ℕ → ℕ
byte_mask mask = if ltb mask 8 then 2 ^ mask - 1 else 0xFF

-- The loop of `matchAddr` over at most `n` more bytes, the first of them being number `i`.
unfoldable pub match_loop : ℕ → List ℕ → List ℕ → ℕ → Bool
match_loop zero ip addr mask = true
match_loop (suc n) ip addr mask =
    let rest = match_loop n (drop 1 ip) (drop 1 addr) (if leb 8 mask then mask - 8 else 0) in
    let m = byte_mask mask in
    if mask == 0
    then true
    else (if bit_and (get_or addr 0 0) m == bit_and (get_or ip 0 0) m then rest else false)

-- `matchAddr`, where `ip` is what `To4` returns: `none` for an address that is none of version 4.
unfoldable pub match_addr : Option (List ℕ) → List ℕ → ℕ → Bool
unfolding match_loop
match_addr none addr mask = false
match_addr (some ip) addr mask = if leb 4 (length addr) then match_loop 4 ip addr mask else false

abbrev is_empty : {A : Type 0} → List A → Bool
is_empty [] = true
is_empty (x ∷ xs) = false

-- One entry of the loop of `IsBanned`. The test of an empty address is that of its length.
unfoldable pub bans : Option (List ℕ) → Text → BanEntry → Bool
unfolding match_addr
bans ip hash b =
    b.active
    && ((not (is_empty b.hash) && not (is_empty hash) && same_text b.hash hash)
        || (not (is_empty b.addr) && match_addr ip b.addr b.mask))

-- `IsBanned`
unfoldable pub is_banned : (Text → Text) → List BanEntry → Option (List ℕ) → Text → Bool
unfolding bans
is_banned to_lower [] ip cert_hash = false
is_banned to_lower (b ∷ rest) ip cert_hash =
    bans ip (to_lower cert_hash) b || is_banned to_lower rest ip cert_hash
