-- ===== src/Acl/Evaluator/Stale.antt =====
-- internal/acl/evaluator.go: a subject that is bound to a connection which is gone.
use go_mumble_server.Base.{ℕ, ◌≡◌, ◌≢◌, refl, false, none, some, List, arith}
use go_mumble_server.Base.Bits.{zero-bit_and}
use go_mumble_server.Base.Maps.{find}
use go_mumble_server.Channel.{Tree}
use go_mumble_server.Acl.Selector.{User, Outside}
use go_mumble_server.Acl.Evaluator.{Subject, resolve_user, permissions, check}

resolve_user-stale :
    (users : List (ℕ × User)) (s : Subject) (u : User)
    → find s.session_id users ≡ some u
    → s.session_id ≢ 0
    → s.generation ≢ 0
    → s.generation ≢ u.generation
    → resolve_user users s ≡ none
unfolding resolve_user
resolve_user-stale users s u f h g n = rw (resolve_user, f) (ground arith)

-- A subject that names a session and a generation is granted nothing once another connection uses the
-- session's id, whatever the entries are and whoever that connection is, a superuser included.
pub check-stale :
    (w : Outside) (t : Tree) (users : List (ℕ × User)) (s : Subject) (u : User) (cid permission : ℕ)
    → find s.session_id users ≡ some u
    → s.session_id ≢ 0
    → s.generation ≢ 0
    → s.generation ≢ u.generation
    → permission ≢ 0
    → check w t users s cid permission ≡ false
unfolding check
check-stale w t users s u cid permission f h g n p =
    let unresolved = resolve_user-stale users s u f h g n in
    let nothing : permissions w t users s cid ≡ 0 = rw (permissions, unresolved) refl in
    rw (check, nothing, zero-bit_and permission) (ground arith)
