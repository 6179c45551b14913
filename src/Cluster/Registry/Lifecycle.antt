-- ===== src/Cluster/Registry/Lifecycle.antt =====
-- A session's life goes one way.
use go_mumble_server.Base.{
  ℕ, ◌≤◌, ◌≡◌, ◌≢◌, refl, sym, ap, ◌∙◌, Bool, false, Option, none, some, List, [], ◌∷◌, arith, ◌||◌,
  ◌==◌, Option-cases, inl, inr,
}
use go_mumble_server.Base.Maps.{find, delete, find-insert, find-delete, Distinct}
use go_mumble_server.Cluster.Registry.Ownership.{
  Call, step, snapshot_found, snapshot-EntryOk, IsOwned,
}
use go_mumble_server.Cluster.Registry.{
  Registry, Entry, SessionRef, SessionState, RegistryError, register_edge, bind, snapshot,
  commit_active, begin_close, unbind, remove_edge, close_and_unbind, drop_edge, of_generation, put,
  commit_entry, close_entry, unbind_entry, begin_cleanup, begin_cleanup_entry, finish_cleanup,
}

abbrev pub rank : SessionState → ℕ
rank SessionState.syncing = 1
rank SessionState.active = 2
rank SessionState.closing = 3
rank SessionState.closed = 4

rank_live : (s : SessionState) → s ≢ SessionState.closed → rank s ≤ 3
rank_live SessionState.syncing h = omega arith
rank_live SessionState.active h = omega arith
rank_live SessionState.closing h = omega arith
rank_live SessionState.closed h = absurd (h refl)

-- What a later entry of the same session may be.
abbrev pub Follows : Entry → Entry → Type 0
Follows e e' = (e'.edge ≡ e.edge) × (rank e.state ≤ rank e'.state)

find-drop_edge_back :
    (id k : ℕ) (m : List (ℕ × Entry)) {e : Entry}
    → Distinct m
    → find k (drop_edge id m) ≡ some e
    → find k m ≡ some e
unfolding find drop_edge
find-drop_edge_back id k [] d h = h
find-drop_edge_back id k ((sid, x) ∷ m) {e} d h =
    ground (arith, find-drop_edge_back id k m {e = e} d.1)

-- A stored entry seen through a reference.
snapshot_of :
    (r : Registry) (ref : SessionRef)
    → snapshot r ref ≡ of_generation (find ref.session_id r.sessions) ref
unfolding snapshot
snapshot_of r ref = refl

snapshot-put :
    (r : Registry) (x x' e e' : Entry) (ref ref' : SessionRef)
    → snapshot r ref' ≡ some x
    → x'.ref ≡ x.ref
    → Follows x x'
    → snapshot r ref ≡ some e
    → snapshot (put r x') ref ≡ some e'
    → Follows e e'
unfolding put
snapshot-put r x x' e e' ref ref' hx hr hf he he' =
    let a = snapshot_found r ref' hx in
    let b = snapshot_found r ref he in
    let c = snapshot_found (put r x') ref he' in
    ground (arith, a, b, c, find-insert x'.ref.session_id ref.session_id x' r.sessions)

-- A session that is left alone.
same_session :
    (r r' : Registry) (e e' : Entry) (ref : SessionRef)
    → ((x : Entry)
        → find ref.session_id r'.sessions ≡ some x
        → find ref.session_id r.sessions ≡ some x)
    → snapshot r ref ≡ some e
    → snapshot r' ref ≡ some e'
    → Follows e e'
same_session r r' e e' ref back he he' =
    let b = snapshot_found r ref he in
    let c = snapshot_found r' ref he' in ground (arith, b.0, back e' c.0)

-- Taking away one id leaves the entries of the others.
delete_back :
    (r : Registry) (k j : ℕ) (x : Entry)
    → find j (delete k r.sessions) ≡ some x
    → find j r.sessions ≡ some x
delete_back r k j x h = ground (arith, find-delete k j r.sessions)

module _ (r : Registry) (ref : SessionRef) (e e' : Entry) (he : snapshot r ref ≡ some e) where
  register_edge-Follows :
      (id g : ℕ) → snapshot (register_edge r id g).0 ref ≡ some e' → Follows e e'
  register_edge-Follows id g he' =
      same_session r (register_edge r id g).0 e e' ref
        (λ x h. ap (find ref.session_id) (sym kept) ∙ h) he he'
    where
      kept : (register_edge r id g).0.sessions ≡ r.sessions
      kept = unfold register_edge in ground arith

  bind-Follows :
      (ref' : SessionRef) (edge : ℕ) → snapshot (bind r ref' edge).0 ref ≡ some e' → Follows e e'
  bind-Follows ref' edge he' = same_session r (bind r ref' edge).0 e e' ref (λ x. kept x) he he'
    where
      kept :
          (x : Entry)
          → find ref.session_id (bind r ref' edge).0.sessions ≡ some x
          → find ref.session_id r.sessions ≡ some x
      kept x =
          unfold bind in
          ground (
            arith,
            (snapshot_found r ref he).0,
            find-insert ref'.session_id ref.session_id
                (record {
                  ref = ref';
                  edge = edge;
                  state = SessionState.syncing;
                  announced = false;
                })
                r.sessions,
          )

  commit_active-Follows :
      (ref' : SessionRef) (announce : Bool)
      → snapshot (commit_active r ref' announce).0 ref ≡ some e'
      → Follows e e'
  unfolding commit_active
  commit_active-Follows ref' announce = go (snapshot r ref') (λ x h. h)
    where
      go :
          (o : Option Entry)
          → ((x : Entry) → o ≡ some x → snapshot r ref' ≡ some x)
          → snapshot (commit_entry o r announce).0 ref ≡ some e'
          → Follows e e'
      go none f h = same_session r r e e' ref (λ x p. p) he h
      go (some x) f h =
          let x' : Entry = record x {
            state = SessionState.active;
            announced = announce || x.announced;
          } in
          ground (
            arith,
            snapshot-put r x x' e e' ref ref' (f x refl),
            same_session r r e e' ref (λ x p. p) he,
          )

  begin_close-Follows :
      (ref' : SessionRef) → snapshot (begin_close r ref').0 ref ≡ some e' → Follows e e'
  unfolding begin_close
  begin_close-Follows ref' = go (snapshot r ref') (λ x h. h)
    where
      go :
          (o : Option Entry)
          → ((x : Entry) → o ≡ some x → snapshot r ref' ≡ some x)
          → snapshot (close_entry o r).0 ref ≡ some e'
          → Follows e e'
      go none f h = same_session r r e e' ref (λ x p. p) he h
      go (some x) f h =
          let x' : Entry = record x { state = SessionState.closing } in
          ground (
            arith,
            snapshot-put r x x' e e' ref ref' (f x refl),
            same_session r r e e' ref (λ x p. p) he,
          )

  unbind-Follows : (ref' : SessionRef) → snapshot (unbind r ref').0 ref ≡ some e' → Follows e e'
  unfolding unbind
  unbind-Follows ref' = go (snapshot r ref')
    where
      go : (o : Option Entry) → snapshot (unbind_entry o r).0 ref ≡ some e' → Follows e e'
      go none h = same_session r r e e' ref (λ x p. p) he h
      go (some y) h = same_session r _ e e' ref (delete_back r y.ref.session_id ref.session_id) he h

  begin_cleanup-Follows :
      (ref' : SessionRef)
      → IsOwned r
      → snapshot (begin_cleanup r ref').0 ref ≡ some e'
      → Follows e e'
  unfolding begin_cleanup
  begin_cleanup-Follows ref' v = go (snapshot r ref') (λ x h. h)
    where
      go :
          (o : Option Entry)
          → ((x : Entry) → o ≡ some x → snapshot r ref' ≡ some x)
          → snapshot (begin_cleanup_entry o r).0 ref ≡ some e'
          → Follows e e'
      go none f h = same_session r r e e' ref (λ x p. p) he h
      go (some x) f h =
          let x' : Entry = record x { state = SessionState.closing } in
          let live = (snapshot-EntryOk r ref' {e = x} v (f x refl)).3 in
          snapshot-put r x x' e e' ref ref' (f x refl) refl (refl, rank_live x.state live) he h

  remove_edge-Follows :
      (id g : ℕ)
      → Distinct r.sessions
      → snapshot (remove_edge r id g).0 ref ≡ some e'
      → Follows e e'
  remove_edge-Follows id g d he' =
      same_session r (remove_edge r id g).0 e e' ref (λ x. kept x) he he'
    where
      kept :
          (x : Entry)
          → find ref.session_id (remove_edge r id g).0.sessions ≡ some x
          → find ref.session_id r.sessions ≡ some x
      kept x =
          unfold remove_edge in
          ground (arith, find-drop_edge_back id ref.session_id r.sessions {e = x} d)

-- One call on a registry that binds no session id twice and holds no closed session. A session that is there before and after
-- under one reference stays on its edge, and its state does not go back: it goes from syncing to
-- active to closing.
pub step-Follows :
    (r : Registry) (c : Call) (ref : SessionRef) (e e' : Entry)
    → Distinct r.sessions
    → IsOwned r
    → snapshot r ref ≡ some e
    → snapshot (step r c) ref ≡ some e'
    → Follows e e'
unfolding step
step-Follows r (Call.registers id g) ref e e' d v he = register_edge-Follows r ref e e' he id g
step-Follows r (Call.binds ref' edge) ref e e' d v he = bind-Follows r ref e e' he ref' edge
step-Follows r (Call.commits ref' announce) ref e e' d v he =
    commit_active-Follows r ref e e' he ref' announce
step-Follows r (Call.closes ref') ref e e' d v he = begin_close-Follows r ref e e' he ref'
step-Follows r (Call.unbinds ref') ref e e' d v he = unbind-Follows r ref e e' he ref'
step-Follows r (Call.removes id g) ref e e' d v he = remove_edge-Follows r ref e e' he id g d
step-Follows r (Call.begins_cleanup ref') ref e e' d v he =
    begin_cleanup-Follows r ref e e' he ref' v

stale-snapshot :
    (r : Registry) (ref : SessionRef)
    → ((e : Entry)
        → find ref.session_id r.sessions ≡ some e
        → (e.ref.generation == ref.generation) ≡ false)
    → snapshot r ref ≡ none
unfolding snapshot
stale-snapshot r ref h = elim (Option-cases (find ref.session_id r.sessions)) [
  | inl e ↦ rw e refl
  | inr (x, e) ↦ rw e (unfold of_generation in ground (arith, h x e))
]

-- A reference to a session id that the registry does not hold, or holds under another generation, is
-- refused as stale by every transition, which changes nothing, whatever `others` would do during a
-- `CloseAndUnbind`.
pub stale_refused :
    (others : Registry → Registry) (r : Registry) (ref : SessionRef) (announce : Bool)
    → ((e : Entry)
        → find ref.session_id r.sessions ≡ some e
        → (e.ref.generation == ref.generation) ≡ false)
    → (commit_active r ref announce ≡ (r, some RegistryError.stale_session))
      × (begin_close r ref ≡ (r, none, some RegistryError.stale_session))
      × (unbind r ref ≡ (r, some RegistryError.stale_session))
      × (close_and_unbind others r ref ≡ (r, none, some RegistryError.stale_session))
unfolding commit_active begin_close unbind close_and_unbind
stale_refused others r ref announce stale =
    let h = stale-snapshot r ref stale in
    (
      ap (λ o. commit_entry o r announce) h,
      ap (λ o. close_entry o r) h,
      ap (λ o. unbind_entry o r) h,
      ap (λ o. finish_cleanup others r ref (begin_cleanup_entry o r)) h,
    )
