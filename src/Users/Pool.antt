-- ===== src/Users/Pool.antt =====
-- internal/user/manager.go: the ids of the sessions. A list of freed ids is the stack with its top first;
-- a limit of 0 stands for every limit that is not positive, which is no limit.
pub mod Fresh
use go_mumble_server.Base.{
  ℕ, ◌+◌, ◌*◌, ◌%◌, ◌^◌, Bool, true, false, Option, none, some, List, [], ◌∷◌, length,
  if◌then◌else◌, ltb, leb, ◌&&◌, not,
}
use go_mumble_server.Base.Sets.{contains, add, remove}

-- `sessionPool`
pub record Pool : Type 0 where
  pub next : ℕ
  pub free : List ℕ
  pub in_use : List ℕ
  pub max : ℕ

unfoldable pub new_pool : ℕ → Pool
new_pool max = record { next = 1; free = []; in_use = []; max = max }

-- The second half of `Alloc`: a freed id, or the next one.
unfoldable pub take_id : Pool → List ℕ → Pool × Option ℕ
take_id p (sid ∷ free) = (record p { free = free; in_use = add sid p.in_use }, some sid)
take_id p [] =
    let sid = p.next in
    let p' = record p { next = (sid + 1) % 2 ^ 32 } in
    if ltb 0 p.max && leb (p.max * 2 % 2 ^ 32) sid
    then (p', none)
    else (record p' { in_use = add sid p.in_use }, some sid)

-- `Alloc`
unfoldable pub alloc : Pool → Pool × Option ℕ
unfolding take_id
alloc p = if leb p.max (length p.in_use) && ltb 0 p.max then (p, none) else take_id p p.free

-- `Free`
unfoldable pub release : Pool → ℕ → Pool
release p sid =
    if not (contains p.in_use sid)
    then p
    else record p { in_use = remove sid p.in_use; free = sid ∷ p.free }
