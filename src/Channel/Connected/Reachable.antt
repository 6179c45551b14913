-- ===== src/Channel/Connected/Reachable.antt =====
-- internal/channel/manager.go: the connected channels are those that links reach.
use go_mumble_server.Base.{
  ℕ, zero, suc, ◌+◌, ◌≤◌, ◌≡◌, ◌⊎◌, ◌∙◌, refl, sym, ap, Bool, true, false, List, [], ◌∷◌, ◌++◌,
  length, ◌==◌, ◌&&◌, ◌||◌, not, arith, Bool-cases, inl, inr, ==_iff, length-append,
}
use mathlib.Core.Path.{subst}
use go_mumble_server.Base.Sets.{contains, contains-sort}
use go_mumble_server.Base.Counting.{
  length-within, NoRepeats, filter, contains-append, contains-filter,
}
use go_mumble_server.Channel.{Tree, has_channel}
use go_mumble_server.Channel.Links.{ids, links_of, live_links, inbound}
use go_mumble_server.Channel.Links.Update.{contains-ids}
use go_mumble_server.Channel.Connected.{adjacent, visit, connect, connected_channel_ids}

-- One of two channels of the tree holds a link to the other.
abbrev pub is_joined : Tree → ℕ → ℕ → Bool
is_joined t i j =
    (has_channel t i && has_channel t j && not (j == i))
    && (contains (links_of t i) j || contains (links_of t j) i)

-- A path of links, in either direction.
pub data Linked (t : Tree) (start : ℕ) : ℕ → Type 0 where
  here : Linked t start start
  step : {i j : ℕ} → Linked t start i → is_joined t i j ≡ true → Linked t start j

-- What one visit does: it marks the neighbours, and queues those that were not marked.
record Visited (ns seen queue : List ℕ) (r : List ℕ × List ℕ) : Type 0 where
  marks : (z : ℕ) → contains r.0 z ≡ (contains ns z || contains seen z)
  queues : (z : ℕ) → contains r.1 z ≡ true → (contains queue z ≡ true) ⊎ (contains ns z ≡ true)
  keeps : (z : ℕ) → contains r.0 z ≡ true → (contains seen z ≡ true) ⊎ (contains r.1 z ≡ true)
  stays : (z : ℕ) → contains queue z ≡ true → contains r.1 z ≡ true
  balance : length r.0 + length queue ≡ length seen + length r.1
  once : NoRepeats seen → NoRepeats r.0

visit-Visited : (ns seen queue : List ℕ) → Visited ns seen queue (visit ns seen queue)
unfolding visit contains
visit-Visited [] seen queue = record {
  marks = λ z. refl;
  queues = λ z h. inl h;
  keeps = λ z h. inl h;
  stays = λ z h. h;
  balance = omega arith;
  once = λ d. d;
}
visit-Visited (id ∷ ns) seen queue = elim (Bool-cases (contains seen id)) [
  | inl e ↦
      let v = visit-Visited ns seen queue in
      let same : (z : ℕ) → (id == z) ≡ true → contains seen z ≡ true =
        λ z f. ap (contains seen) (sym ((==_iff id z).0 f)) ∙ e in
      rw e (record {
        marks = λ z. v.marks z ∙ old_marks z (contains ns z) (same z);
        queues = λ z h. elim (v.queues z h) [ inl q ↦ inl q | inr q ↦ inr (ground (arith, q)) ];
        keeps = v.keeps;
        stays = v.stays;
        balance = v.balance;
        once = v.once;
      })
  | inr e ↦
      let v = visit-Visited ns (id ∷ seen) (queue ++ (id ∷ [])) in
      rw e (record {
        marks = λ z. v.marks z ∙ ground arith;
        queues =
            λ z h. elim (v.queues z h) [ inl q ↦ queued z q | inr q ↦ inr (ground (arith, q)) ];
        keeps = λ z h. elim (v.keeps z h) [
          | inl k ↦ elim (Bool-cases (id == z)) [
            | inl f ↦ inr (v.stays z (contains-append z queue (id ∷ []) ∙ ground (arith, f)))
            | inr f ↦ inl (ground (arith, k, f))
          ]
          | inr k ↦ inr k
        ];
        stays = λ z h. v.stays z (contains-append z queue (id ∷ []) ∙ ground (arith, h));
        balance = omega (arith, v.balance, length-append queue (id ∷ []));
        once = λ d. v.once (e, d);
      })
]
  where
    old_marks :
        (z : ℕ) (b : Bool)
        → ((id == z) ≡ true → contains seen z ≡ true)
        → (b || contains seen z) ≡ ((id == z || b) || contains seen z)
    old_marks z b f = ground (arith, f)

    queued :
        (z : ℕ)
        → contains (queue ++ (id ∷ [])) z ≡ true
        → (contains queue z ≡ true) ⊎ (contains (id ∷ ns) z ≡ true)
    queued z h = elim (Bool-cases (contains queue z)) [
      | inl f ↦ inl f
      | inr f ↦ inr (ground (arith, f, sym (contains-append z queue (id ∷ [])) ∙ h))
    ]

-- What the code takes for neighbours, from the links on both sides.
contains-adjacent : (t : Tree) (i j : ℕ) → contains (adjacent t i) j ≡ is_joined t i j
unfolding adjacent live_links inbound
contains-adjacent t i j =
    let live = live_links t i in
    let into = filter (λ k. not (k == i)) (inbound t i) in
    let live_value =
      contains-filter (λ linked. not (linked == i) && has_channel t linked) j (links_of t i) in
    let into_value = contains-filter (λ k. not (k == i)) j (inbound t i) in
    let in_value = contains-filter (λ k. contains (links_of t k) i) j (ids t) in
    elim (Bool-cases (has_channel t i)) [
      | inr e ↦ rw e (unfold contains in refl)
      | inl e ↦ rw e (
          contains-append j live into
          ∙ either (not (j == i)) (has_channel t j) (contains (links_of t i) j)
              (contains (links_of t j) i) live_value
              (into_value
                ∙ ap (λ b. not (j == i) && b)
                    (in_value ∙ ap (λ b. contains (links_of t j) i && b) (contains-ids t j))))
    ]
  where
    either :
        {x y : Bool} (p b c d : Bool)
        → x ≡ (p && b && c)
        → y ≡ (p && (d && b))
        → (x || y) ≡ ((true && b && p) && (c || d))
    either p b c d e f = ground (arith, e, f)

adjacent_there : (t : Tree) (i j : ℕ) → contains (adjacent t i) j ≡ true → has_channel t j ≡ true
adjacent_there t i j h =
    there (has_channel t i) (has_channel t j) _ _ (sym (contains-adjacent t i j) ∙ h)
  where
    there : (p q b c : Bool) → ((p && q && b) && c) ≡ true → q ≡ true
    there p q b c f = ground (arith, f)

-- The state of the search.
record Searched (t : Tree) (start : ℕ) (seen queue : List ℕ) : Type 0 where
  sound : (z : ℕ) → contains seen z ≡ true → Linked t start z
  known : (z : ℕ) → contains queue z ≡ true → contains seen z ≡ true
  closed :
      (z : ℕ)
      → contains seen z ≡ true
      → (contains queue z ≡ true)
        ⊎ ((j : ℕ) → contains (adjacent t z) j ≡ true → contains seen j ≡ true)
  started : contains seen start ≡ true
  once : NoRepeats seen
  there : (z : ℕ) → contains seen z ≡ true → has_channel t z ≡ true

visit-Searched :
    (t : Tree) (start id : ℕ) (seen queue : List ℕ)
    → Searched t start seen (id ∷ queue)
    → let r = visit (adjacent t id) seen queue in Searched t start r.0 r.1
visit-Searched t start id seen queue s = record {
  sound = λ z h. elim (from z h) [
    | inl n ↦ Linked.step (s.sound id top) (sym (contains-adjacent t id z) ∙ n)
    | inr o ↦ s.sound z o
  ];
  known = λ z h. elim (v.queues z h) [
    | inl q ↦ old z (s.known z (unfold contains in ground (arith, q)))
    | inr n ↦ new z n
  ];
  closed = λ z h. elim (v.keeps z h) [
    | inr q ↦ inl q
    | inl o ↦ elim (s.closed z o) [
      | inr f ↦ inr (λ j a. old j (f j a))
      | inl q ↦ elim (Bool-cases (id == z)) [
        | inl same ↦
            inr (λ j a. new j (ap (λ i. contains (adjacent t i) j) ((==_iff id z).0 same) ∙ a))
        | inr other ↦ inl (v.stays z (in_tail z q other))
      ]
    ]
  ];
  started = old start s.started;
  once = v.once s.once;
  there = λ z h. elim (from z h) [ inl n ↦ adjacent_there t id z n | inr o ↦ s.there z o ];
}
  where
    r : List ℕ × List ℕ
    r = visit (adjacent t id) seen queue

    v : Visited (adjacent t id) seen queue (visit (adjacent t id) seen queue)
    v = visit-Visited (adjacent t id) seen queue

    top : contains seen id ≡ true
    top = s.known id (unfold contains in ground arith)

    new : (z : ℕ) → contains (adjacent t id) z ≡ true → contains r.0 z ≡ true
    new z n = v.marks z ∙ rw n refl

    old : (z : ℕ) → contains seen z ≡ true → contains r.0 z ≡ true
    old z o = v.marks z ∙ rw o (ground arith)

    in_tail : (z : ℕ) → contains (id ∷ queue) z ≡ true → (id == z) ≡ false → contains queue z ≡ true
    in_tail z q other = unfold contains in ground (arith, q, other)

    from :
        (z : ℕ)
        → contains r.0 z ≡ true
        → (contains (adjacent t id) z ≡ true) ⊎ (contains seen z ≡ true)
    from z h = elim (Bool-cases (contains (adjacent t id) z)) [
      | inl n ↦ inl n
      | inr n ↦ inr (ground (arith, n, v.marks z, h))
    ]

length-ids : (t : Tree) → length (ids t) ≡ length t
length-ids [] = refl
length-ids ((id, n) ∷ t) = ap suc (length-ids t)

-- The search ends with an empty queue.
connect-Searched :
    (fuel : ℕ) (t : Tree) (start : ℕ) (seen queue : List ℕ)
    → length t + length queue ≤ fuel + length seen
    → Searched t start seen queue
    → Searched t start (connect fuel t seen queue) []
unfolding connect
connect-Searched zero t start seen [] h s = s
connect-Searched (suc fuel) t start seen [] h s = s
connect-Searched zero t start seen (id ∷ queue) h s = absurd (
    omega (
      arith,
      h,
      length-within seen (ids t) s.once (λ z i. contains-ids t z ∙ s.there z i),
      length-ids t,
    ))
connect-Searched (suc fuel) t start seen (id ∷ queue) h s =
    let r = visit (adjacent t id) seen queue in
    let v = visit-Visited (adjacent t id) seen queue in
    connect-Searched fuel t start r.0 r.1 (omega (arith, h, v.balance))
      (visit-Searched t start id seen queue s)

reached :
    (t : Tree) (start : ℕ) (seen : List ℕ)
    → Searched t start seen []
    → (z : ℕ) → Linked t start z
    → contains seen z ≡ true
reached t start seen s _ Linked.here = s.started
reached t start seen s _ (Linked.step {i} {j} path a) =
    elim (s.closed i (reached t start seen s i path)) [
      | inl q ↦ elim (nobody i q) [ ]
      | inr f ↦ f j (contains-adjacent t i j ∙ a)
    ]
  where
    nobody : (k : ℕ) → contains [] k ≡ true → ⊥
    nobody k f = unfold contains in ground (arith, f)

start-Searched : (t : Tree) (id : ℕ) → has_channel t id ≡ true → Searched t id (id ∷ []) (id ∷ [])
unfolding contains
start-Searched t id h = record {
  sound = λ z i. subst (Linked t id) (one z i) Linked.here;
  known = λ z i. i;
  closed = λ z i. inl i;
  started = ground arith;
  once = (refl, tt);
  there = λ z i. ap (has_channel t) (sym (one z i)) ∙ h;
}
  where
    one : (z : ℕ) → contains (id ∷ []) z ≡ true → id ≡ z
    one z i = (==_iff id z).0 (ground (arith, i))

-- For a channel of the tree, the channels returned are exactly those that a path reaches from it, of which
-- each step goes between two different channels of the tree of which the first links to the second or
-- the second to the first.
pub connected_channel_ids_lem :
    (t : Tree) (id z : ℕ)
    → has_channel t id ≡ true
    → (contains (connected_channel_ids t id) z ≡ true → Linked t id z)
      × (Linked t id z → contains (connected_channel_ids t id) z ≡ true)
unfolding connected_channel_ids
connected_channel_ids_lem t id z h =
    let found = connect (length t) t (id ∷ []) (id ∷ []) in
    let s =
      connect-Searched (length t) t id (id ∷ []) (id ∷ []) (omega arith) (start-Searched t id h) in
    rw h (
      (λ i. s.sound z (sym (contains-sort z found) ∙ i)),
      λ path. contains-sort z found ∙ reached t id found s z path,
    )
