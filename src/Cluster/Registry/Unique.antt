-- ===== src/Cluster/Registry/Unique.antt =====
-- internal/cluster/registry.go: the map of sessions binds no id twice, so that what holds of one call
-- on such a registry holds after any calls.
use go_mumble_server.Base.{
  ℕ, ◌≡◌, refl, Bool, false, Option, none, some, List, [], ◌∷◌, ◌==◌, ◌||◌, arith, Bool-cases, inl,
  inr,
}
use go_mumble_server.Base.Maps.{find, Distinct, Distinct-insert, Distinct-delete}
use go_mumble_server.Cluster.Registry.{
  Registry, Entry, SessionRef, SessionState, new_registry, register_edge, bind, snapshot,
  remove_edge, drop_edge, edge_is, put, commit_entry, close_entry, unbind_entry,
  begin_cleanup_entry,
}
use go_mumble_server.Cluster.Registry.Ownership.{Call, step, run, run-IsOwned}
use go_mumble_server.Cluster.Registry.Lifecycle.{Follows, step-Follows}

abbrev pub IsUnique : Registry → Type 0
IsUnique r = Distinct r.sessions

put-IsUnique : (r : Registry) (e : Entry) → IsUnique r → IsUnique (put r e)
unfolding put
put-IsUnique r e d = Distinct-insert e.ref.session_id e r.sessions d

register_edge-IsUnique : (r : Registry) (id g : ℕ) → IsUnique r → IsUnique (register_edge r id g).0
unfolding register_edge
register_edge-IsUnique r id g d = ground arith

bind-IsUnique :
    (r : Registry) (ref : SessionRef) (edge : ℕ) → IsUnique r → IsUnique (bind r ref edge).0
unfolding bind
bind-IsUnique r ref edge d = ground (
  arith,
  Distinct-insert ref.session_id
      (record { ref = ref; edge = edge; state = SessionState.syncing; announced = false })
      r.sessions d,
)

commit_entry-IsUnique :
    (o : Option Entry) (r : Registry) (announce : Bool)
    → IsUnique r
    → IsUnique (commit_entry o r announce).0
unfolding commit_entry
commit_entry-IsUnique none r announce d = d
commit_entry-IsUnique (some e) r announce d =
    let e' : Entry = record e {
      state = SessionState.active;
      announced = announce || e.announced;
    } in
    ground (arith, put-IsUnique r e' d)

close_entry-IsUnique : (o : Option Entry) (r : Registry) → IsUnique r → IsUnique (close_entry o r).0
unfolding close_entry
close_entry-IsUnique none r d = d
close_entry-IsUnique (some e) r d =
    let e' : Entry = record e { state = SessionState.closing } in
    ground (arith, put-IsUnique r e' d)

unbind_entry-IsUnique :
    (o : Option Entry) (r : Registry) → IsUnique r → IsUnique (unbind_entry o r).0
unfolding unbind_entry
unbind_entry-IsUnique none r d = d
unbind_entry-IsUnique (some e) r d = Distinct-delete e.ref.session_id r.sessions d

begin_cleanup_entry-IsUnique :
    (o : Option Entry) (r : Registry) → IsUnique r → IsUnique (begin_cleanup_entry o r).0
unfolding begin_cleanup_entry
begin_cleanup_entry-IsUnique none r d = d
begin_cleanup_entry-IsUnique (some e) r d =
    put-IsUnique r (record e { state = SessionState.closing }) d

drop_edge-find :
    (id k : ℕ) (m : List (ℕ × Entry)) → find k m ≡ none → find k (drop_edge id m) ≡ none
unfolding drop_edge find
drop_edge-find id k [] h = refl
drop_edge-find id k ((sid, e) ∷ m) h = ground (arith, drop_edge-find id k m)

drop_edge-Distinct : (id : ℕ) (m : List (ℕ × Entry)) → Distinct m → Distinct (drop_edge id m)
unfolding drop_edge
drop_edge-Distinct id [] d = tt
drop_edge-Distinct id ((sid, e) ∷ m) d = elim (Bool-cases (e.edge == id)) [
  | inl gone ↦ rw gone (drop_edge-Distinct id m d.1)
  | inr kept ↦ rw kept (drop_edge-find id sid m d.0, drop_edge-Distinct id m d.1)
]

remove_edge-IsUnique : (r : Registry) (id g : ℕ) → IsUnique r → IsUnique (remove_edge r id g).0
unfolding remove_edge
remove_edge-IsUnique r id g d = elim (Bool-cases (edge_is r id g)) [
  | inl e ↦ rw e (drop_edge-Distinct id r.sessions d)
  | inr e ↦ rw e d
]

step-IsUnique : (r : Registry) (c : Call) → IsUnique r → IsUnique (step r c)
unfolding step
step-IsUnique r (Call.registers id g) d = register_edge-IsUnique r id g d
step-IsUnique r (Call.binds ref edge) d = bind-IsUnique r ref edge d
step-IsUnique r (Call.commits ref announce) d = commit_entry-IsUnique (snapshot r ref) r announce d
step-IsUnique r (Call.closes ref) d = close_entry-IsUnique (snapshot r ref) r d
step-IsUnique r (Call.unbinds ref) d = unbind_entry-IsUnique (snapshot r ref) r d
step-IsUnique r (Call.removes id g) d = remove_edge-IsUnique r id g d
step-IsUnique r (Call.begins_cleanup ref) d = begin_cleanup_entry-IsUnique (snapshot r ref) r d

run-IsUnique : (r : Registry) (cs : List Call) → IsUnique r → IsUnique (run r cs)
unfolding run
run-IsUnique r [] d = d
run-IsUnique r (c ∷ cs) d = run-IsUnique (step r c) cs (step-IsUnique r c d)

new_registry-IsUnique : IsUnique new_registry
unfolding new_registry
new_registry-IsUnique = tt

-- After any calls on a new registry one more call is made. A session that is there before and after
-- it under one reference stays on its edge, and its state does not go back: it goes from syncing to
-- active to closing.
pub run-Follows :
    (cs : List Call) (c : Call) (ref : SessionRef) (e e' : Entry)
    → snapshot (run new_registry cs) ref ≡ some e
    → snapshot (step (run new_registry cs) c) ref ≡ some e'
    → Follows e e'
run-Follows cs c ref e e' h h' =
    step-Follows (run new_registry cs) c ref e e'
      (run-IsUnique new_registry cs new_registry-IsUnique) (run-IsOwned cs) h h'
