-- ===== src/Cluster/Registry/Ownership.antt =====
-- Every live session belongs to a registered edge, after any calls.
use go_mumble_server.Base.{
  ℕ, ◌≡◌, ◌≢◌, refl, sym, ◌∙◌, Bool, true, false, Option, none, some, List, [], ◌∷◌, ◌++◌, ◌==◌,
  arith, ◌⊎◌, ◌||◌, Bool-cases, inl, inr, Option-cases, ==_iff, ap, if◌then◌else◌,
}
use go_mumble_server.Base.Maps.{
  find, delete, insert, find-insert, find-delete, Each, Each-insert, Each-delete, Each-find,
  Each-map, Distinct,
}
use go_mumble_server.Cluster.Registry.{
  Registry, RegistryError, Entry, SessionRef, SessionState, new_registry, register_edge, bind,
  snapshot, commit_active, begin_close, unbind, remove_edge, begin_cleanup, close_and_unbind,
  finish_cleanup, drop_edge, edge_is, valid_ref, same_ref, of_generation, put, commit_entry,
  close_entry, unbind_entry, begin_cleanup_entry,
}

-- What holds of an entry: it stands under its own session id, its reference is valid, its edge is
-- registered, and it is not closed.
abbrev pub EntryOk : List (ℕ × ℕ) → ℕ → Entry → Type 0
EntryOk edges sid e =
    (e.ref.session_id ≡ sid)
    × (valid_ref e.ref ≡ true)
    × (find e.edge edges ≢ none)
    × (e.state ≢ SessionState.closed)

abbrev pub IsOwned : Registry → Type 0
IsOwned r = Each (EntryOk r.edges) r.sessions

-- A call of the registry. `CloseAndUnbind` is two, `begins_cleanup` and `unbinds`, with any others between.
pub data Call : Type 0 where
  registers : ℕ → ℕ → Call
  binds : SessionRef → ℕ → Call
  commits : SessionRef → Bool → Call
  closes : SessionRef → Call
  unbinds : SessionRef → Call
  removes : ℕ → ℕ → Call
  begins_cleanup : SessionRef → Call

unfoldable pub step : Registry → Call → Registry
unfolding register_edge bind commit_active begin_close unbind remove_edge begin_cleanup snapshot
step r (Call.registers id g) = (register_edge r id g).0
step r (Call.binds ref edge) = (bind r ref edge).0
step r (Call.commits ref announce) = (commit_active r ref announce).0
step r (Call.closes ref) = (begin_close r ref).0
step r (Call.unbinds ref) = (unbind r ref).0
step r (Call.removes id g) = (remove_edge r id g).0
step r (Call.begins_cleanup ref) = (begin_cleanup r ref).0

unfoldable pub run : Registry → List Call → Registry
unfolding step
run r [] = r
run r (c ∷ cs) = run (step r c) cs

EntryOk-insert :
    (edges : List (ℕ × ℕ)) (id g sid : ℕ) (e : Entry)
    → EntryOk edges sid e
    → EntryOk (insert id g edges) sid e
EntryOk-insert edges id g sid e h = (
  h.0,
  h.1,
  λ n.
      ground
        (arith, find-insert id e.edge g edges, h.2 (ground (arith, find-insert id e.edge g edges))),
  h.3,
)

pub snapshot_found :
    (r : Registry) (ref : SessionRef) {e : Entry}
    → snapshot r ref ≡ some e
    → (find ref.session_id r.sessions ≡ some e) × (same_ref e.ref ref ≡ true)
unfolding snapshot
snapshot_found r ref h = go (find ref.session_id r.sessions) h
  where
    go :
        (o : Option Entry) {e : Entry}
        → of_generation o ref ≡ some e
        → (o ≡ some e) × (same_ref e.ref ref ≡ true)
    go none h = cc
    go (some e) h = ground arith

-- An entry that is found is in order.
pub snapshot-EntryOk :
    (r : Registry) (ref : SessionRef) {e : Entry}
    → IsOwned r
    → snapshot r ref ≡ some e
    → EntryOk r.edges e.ref.session_id e
snapshot-EntryOk r ref {e} v h =
    let (f, s) = snapshot_found r ref h in
    let ok = Each-find (EntryOk r.edges) ref.session_id r.sessions v f in (refl, ok.1, ok.2, ok.3)

-- A new state for a session that is not closed.
put-IsOwned :
    (r : Registry) (e : Entry) → IsOwned r → EntryOk r.edges e.ref.session_id e → IsOwned (put r e)
unfolding put
put-IsOwned r e v h = Each-insert (EntryOk r.edges) e.ref.session_id e r.sessions h v

register_edge-IsOwned : (r : Registry) (id g : ℕ) → IsOwned r → IsOwned (register_edge r id g).0
unfolding register_edge
register_edge-IsOwned r id g v = ground (
  arith,
  Each-map {P = EntryOk r.edges} {Q = EntryOk (insert id g r.edges)} (EntryOk-insert r.edges id g)
      r.sessions v,
)

bind-IsOwned :
    (r : Registry) (ref : SessionRef) (edge : ℕ) → IsOwned r → IsOwned (bind r ref edge).0
unfolding bind
bind-IsOwned r ref edge v = ground (
  arith,
  Each-insert (EntryOk r.edges) ref.session_id
      (record { ref = ref; edge = edge; state = SessionState.syncing; announced = false })
      r.sessions,
)

module _ (r : Registry) (ref : SessionRef) (v : IsOwned r) where
  commit_active-IsOwned : (announce : Bool) → IsOwned (commit_active r ref announce).0
  unfolding commit_active
  commit_active-IsOwned announce = go (snapshot r ref) (λ e. snapshot-EntryOk r ref v)
    where
      go :
          (o : Option Entry)
          → ((e : Entry) → o ≡ some e → EntryOk r.edges e.ref.session_id e)
          → IsOwned (commit_entry o r announce).0
      go none h = v
      go (some e) h =
          let ok = h e refl in
          let e' : Entry = record e {
            state = SessionState.active;
            announced = announce || e.announced;
          } in
          ground (arith, put-IsOwned r e' v (ok.0, ok.1, ok.2, λ p. cc))

  begin_close-IsOwned : IsOwned (begin_close r ref).0
  unfolding begin_close
  begin_close-IsOwned = go (snapshot r ref) (λ e. snapshot-EntryOk r ref v)
    where
      go :
          (o : Option Entry)
          → ((e : Entry) → o ≡ some e → EntryOk r.edges e.ref.session_id e)
          → IsOwned (close_entry o r).0
      go none h = v
      go (some e) h =
          let ok = h e refl in
          let e' : Entry = record e { state = SessionState.closing } in
          ground (arith, put-IsOwned r e' v (ok.0, ok.1, ok.2, λ p. cc))

  unbind-IsOwned : IsOwned (unbind r ref).0
  unfolding unbind
  unbind-IsOwned = go (snapshot r ref)
    where
      go : (o : Option Entry) → IsOwned (unbind_entry o r).0
      go none = v
      go (some e) = Each-delete (EntryOk r.edges) e.ref.session_id r.sessions v

  begin_cleanup-IsOwned : IsOwned (begin_cleanup r ref).0
  unfolding begin_cleanup
  begin_cleanup-IsOwned = go (snapshot r ref) (λ e. snapshot-EntryOk r ref v)
    where
      go :
          (o : Option Entry)
          → ((e : Entry) → o ≡ some e → EntryOk r.edges e.ref.session_id e)
          → IsOwned (begin_cleanup_entry o r).0
      go none h = v
      go (some e) h =
          let ok = h e refl in
          put-IsOwned r (record e { state = SessionState.closing }) v (ok.0, ok.1, ok.2, λ p. cc)

drop_edge-Each :
    (edges : List (ℕ × ℕ)) (id : ℕ) (m : List (ℕ × Entry))
    → Each (EntryOk edges) m
    → Each (EntryOk (delete id edges)) (drop_edge id m)
unfolding drop_edge
drop_edge-Each edges id [] p = tt
drop_edge-Each edges id ((sid, e) ∷ m) p = elim (Bool-cases (e.edge == id)) [
  | inl gone ↦ rw gone (drop_edge-Each edges id m p.1)
  | inr kept ↦
      let stays : find e.edge (delete id edges) ≡ find e.edge edges =
        ground (arith, find-delete id e.edge edges) in
      rw kept ((p.0.0, p.0.1, λ n. p.0.2 (sym stays ∙ n), p.0.3), drop_edge-Each edges id m p.1)
]

remove_edge-IsOwned : (r : Registry) (id g : ℕ) → IsOwned r → IsOwned (remove_edge r id g).0
unfolding remove_edge
remove_edge-IsOwned r id g v = elim (Bool-cases (edge_is r id g)) [
  | inl e ↦ rw e (drop_edge-Each r.edges id r.sessions v)
  | inr e ↦ rw e v
]

-- Every call keeps each live session under its own valid id, on a registered edge and not closed.
pub step-IsOwned : (r : Registry) (c : Call) → IsOwned r → IsOwned (step r c)
unfolding step
step-IsOwned r (Call.registers id g) v = register_edge-IsOwned r id g v
step-IsOwned r (Call.binds ref edge) v = bind-IsOwned r ref edge v
step-IsOwned r (Call.commits ref announce) v = commit_active-IsOwned r ref v announce
step-IsOwned r (Call.closes ref) v = begin_close-IsOwned r ref v
step-IsOwned r (Call.unbinds ref) v = unbind-IsOwned r ref v
step-IsOwned r (Call.removes id g) v = remove_edge-IsOwned r id g v
step-IsOwned r (Call.begins_cleanup ref) v = begin_cleanup-IsOwned r ref v

run-IsOwned_from : (r : Registry) (cs : List Call) → IsOwned r → IsOwned (run r cs)
unfolding run
run-IsOwned_from r [] v = v
run-IsOwned_from r (c ∷ cs) v = run-IsOwned_from (step r c) cs (step-IsOwned r c v)

-- After any sequence of calls on a new registry, every session that it holds stands under its own
-- session id, has a valid reference, belongs to an edge that is registered, and is not closed.
pub run-IsOwned : (cs : List Call) → IsOwned (run new_registry cs)
unfolding new_registry
run-IsOwned cs = run-IsOwned_from new_registry cs tt

run-append : (r : Registry) (cs ds : List Call) → run r (cs ++ ds) ≡ run (run r cs) ds
unfolding run
run-append r [] ds = refl
run-append r (c ∷ cs) ds = run-append (step r c) cs ds

run_begins :
    (r : Registry) (ref : SessionRef) (cs : List Call)
    → run r (Call.begins_cleanup ref ∷ cs) ≡ run (begin_cleanup r ref).0 cs
unfolding run
run_begins r ref cs = refl

run_unbinds : (r : Registry) (ref : SessionRef) → run r (Call.unbinds ref ∷ []) ≡ (unbind r ref).0
unfolding run
run_unbinds r ref = refl

-- `CloseAndUnbind`, with any calls of others while its callback runs, changes nothing or is these calls
-- between its two steps.
pub close_and_unbind-run :
    (r : Registry) (ref : SessionRef) (cs : List Call)
    → ((close_and_unbind (λ now. run now cs) r ref).0 ≡ r)
      ⊎ ((close_and_unbind (λ now. run now cs) r ref).0
          ≡ run r (Call.begins_cleanup ref ∷ (cs ++ (Call.unbinds ref ∷ []))))
unfolding close_and_unbind
close_and_unbind-run r ref cs = go (begin_cleanup r ref) refl
  where
    go :
        (p : Registry × Option Entry × Option RegistryError)
        → p.0 ≡ (begin_cleanup r ref).0
        → ((finish_cleanup (λ now. run now cs) r ref p).0 ≡ r)
          ⊎ ((finish_cleanup (λ now. run now cs) r ref p).0
              ≡ run r (Call.begins_cleanup ref ∷ (cs ++ (Call.unbinds ref ∷ []))))
    go (r', none, e) h = inl refl
    go (r', some snap, e) h = inr (
        ap (λ x. (unbind (run x cs) ref).0) h
        ∙ sym (
            run_begins r ref (cs ++ (Call.unbinds ref ∷ []))
            ∙ run-append (begin_cleanup r ref).0 cs (Call.unbinds ref ∷ [])
            ∙ run_unbinds (run (begin_cleanup r ref).0 cs) ref))

-- What `drop_edge` leaves has no session of the edge.
no_session_left : (id : ℕ) (m : List (ℕ × Entry)) → Each (λ sid e. e.edge ≢ id) (drop_edge id m)
unfolding drop_edge
no_session_left id [] = tt
no_session_left id ((sid, e) ∷ m) = elim (Bool-cases (e.edge == id)) [
  | inl gone ↦ rw gone (no_session_left id m)
  | inr kept ↦ rw kept (λ h. ground arith, no_session_left id m)
]

-- What is left of a stored entry when an edge goes.
abbrev pub unless_on : ℕ → Option Entry → Option Entry
unless_on id none = none
unless_on id (some e) = if e.edge == id then none else some e

find-drop_edge :
    (id k : ℕ) (m : List (ℕ × Entry))
    → Distinct m
    → find k (drop_edge id m) ≡ unless_on id (find k m)
unfolding find drop_edge
find-drop_edge id k [] d = refl
find-drop_edge id k ((sid, x) ∷ m) d =
    let same : (sid == k) ≡ true → find k m ≡ none =
      λ e. ap (λ i. find i m) (sym ((==_iff sid k).0 e)) ∙ d.0 in
    ground (arith, find-drop_edge id k m d.1, same)

registered : (r : Registry) (id g g' : ℕ) → find id r.edges ≡ some g' → edge_is r id g ≡ (g' == g)
unfolding edge_is
registered r id g g' e = rw (edge_is, e) refl

unregistered : (r : Registry) (id g : ℕ) → find id r.edges ≡ none → edge_is r id g ≡ false
unfolding edge_is
unregistered r id g e = rw (edge_is, e) refl

other : {g : ℕ} (g' : ℕ) → (g' == g) ≡ false → some g' ≡ some g → ⊥
other {g} g' f h = ground (arith, f, h)

-- In a registry that binds no session id twice: removing an edge under the generation that it is
-- registered with takes that edge away and no other, and of the sessions exactly those of this
-- edge. Under any other generation, or when the edge is not registered, nothing changes.
pub remove_edge_lem :
    (r : Registry) (id g k j : ℕ)
    → Distinct r.sessions
    → let r' = (remove_edge r id g).0 in
      ((find id r.edges ≡ some g)
        × (find j r'.edges ≡ (if j == id then none else find j r.edges))
        × (find k r'.sessions ≡ unless_on id (find k r.sessions)))
      ⊎ ((find id r.edges ≢ some g) × (r' ≡ r))
unfolding remove_edge
remove_edge_lem r id g k j d = elim (Option-cases (find id r.edges)) [
  | inl e ↦ inr (λ f. cc, rw (unregistered r id g e) refl)
  | inr (g', e) ↦ elim (Bool-cases (g' == g)) [
    | inl f ↦
        let now : edge_is r id g ≡ true = registered r id g g' e ∙ f in
        inl (
          e ∙ ap some ((==_iff g' g).0 f),
          rw now (find-delete id j r.edges ∙ ground arith),
          rw now (find-drop_edge id k r.sessions d),
        )
    | inr f ↦ inr (λ h. other g' f (sym e ∙ h), rw (registered r id g g' e ∙ f) refl)
  ]
]
