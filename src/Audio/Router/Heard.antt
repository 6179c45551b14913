-- ===== src/Audio/Router/Heard.antt =====
-- internal/audio/router.go: who is among the recipients of a frame to the channel.
use go_mumble_server.Base.{
  ℕ, ◌≡◌, ◌∙◌, refl, ap, ap₂, Bool, true, false, not, ◌&&◌, ◌||◌, none, some, List, [], ◌∷◌, ◌==◌,
  arith, Bool-cases, inl, inr, ==_iff, Option, Option-cases, All, sym,
}
use go_mumble_server.Base.Maps.{find, insert, find-insert}
use go_mumble_server.Base.Sets.{contains}
use go_mumble_server.Cluster.Registry.{SessionRef}
use go_mumble_server.Audio.Legacy.{Frame, Delivery}
use go_mumble_server.Audio.Router.{
  RouterConfig, add_recipient, add_users, add_listeners, add_channels, context_normal,
  context_listen, unit_volume, Recipient, canonical, route_ref, route_normal,
}

abbrev pub has_entry : List (ℕ × Delivery) → ℕ → Bool
has_entry rs sid = elim (find sid rs) [ none ↦ false | some d ↦ true ]

or_false : (b : Bool) → b ≡ (b || false)
or_false true = refl
or_false false = refl

regroup : (a b c p : Bool) → ((a || (b && p)) || (c && p)) ≡ (a || ((b || c) && p))
regroup true b c p = refl
regroup false true c true = refl
regroup false true true false = refl
regroup false true false false = refl
regroup false false c p = refl

has_entry-insert :
    (rs : List (ℕ × Delivery)) (sid : ℕ) (d : Delivery) (j : ℕ)
    → has_entry (insert sid d rs) j ≡ (sid == j || has_entry rs j)
has_entry-insert rs sid d j = ground (arith, find-insert sid j d rs)

module _ (cfg : RouterConfig) (sender : ℕ) (frame : Frame) where
  -- Whether a session may be a recipient at all.
  abbrev pub is_open : ℕ → Bool
  is_open sid = not (sid == sender) && cfg.filter_recipient sender sid

  -- Whether a session is in one of the channels that the sender may speak in, or listens to it.
  abbrev pub hears : (ℕ → List ℕ) → List ℕ → ℕ → Bool
  hears users [] sid = false
  hears users (cid ∷ cids) sid =
      (cfg.can_sender_speak_in_chan sender cid
        && (contains (users cid) sid || contains (cfg.get_listeners_in_chan cid) sid))
      || hears users cids sid

  has_entry-add_recipient :
      (rs : List (ℕ × Delivery)) (sid context volume j : ℕ)
      → has_entry (add_recipient cfg sender frame rs sid context volume) j
        ≡ (has_entry rs j || (sid == j && is_open j))
  unfolding add_recipient
  has_entry-add_recipient rs sid context volume j =
      let same : (sid == j) ≡ true → is_open sid ≡ is_open j =
        λ f. ap is_open ((==_iff sid j).0 f) in
      elim (Bool-cases (sid == sender || not (cfg.filter_recipient sender sid))) [
        | inl e ↦ rw e (kept (has_entry rs j) same (shut sid e))
        | inr e ↦ rw e (has_entry-insert rs sid _ j ∙ put (has_entry rs j) same (opened sid e))
      ]
    where
      shut :
          (s : ℕ) → (s == sender || not (cfg.filter_recipient sender s)) ≡ true → is_open s ≡ false
      shut s e = ground (arith, e)

      opened :
          (s : ℕ) → (s == sender || not (cfg.filter_recipient sender s)) ≡ false → is_open s ≡ true
      opened s e = ground (arith, e)

      put :
          (b : Bool)
          → ((sid == j) ≡ true → is_open sid ≡ is_open j)
          → is_open sid ≡ true
          → (sid == j || b) ≡ (b || (sid == j && is_open j))
      put b same e = ground (arith, same, e)

      kept :
          (b : Bool)
          → ((sid == j) ≡ true → is_open sid ≡ is_open j)
          → is_open sid ≡ false
          → b ≡ (b || (sid == j && is_open j))
      kept b same e = ground (arith, same, e)

  has_entry-add_users :
      (sids : List ℕ) (rs : List (ℕ × Delivery)) (j : ℕ)
      → has_entry (add_users cfg sender frame sids rs) j
        ≡ (has_entry rs j || (contains sids j && is_open j))
  unfolding add_users contains
  has_entry-add_users [] rs j = or_false (has_entry rs j)
  has_entry-add_users (sid ∷ sids) rs j =
      has_entry-add_users sids (add_recipient cfg sender frame rs sid context_normal unit_volume) j
      ∙ ap (λ b. b || (contains sids j && is_open j))
          (has_entry-add_recipient rs sid context_normal unit_volume j)
      ∙ regroup (has_entry rs j) (sid == j) (contains sids j) (is_open j)

  has_entry-add_listeners :
      (cid : ℕ) (sids : List ℕ) (rs : List (ℕ × Delivery)) (j : ℕ)
      → has_entry (add_listeners cfg sender frame cid sids rs) j
        ≡ (has_entry rs j || (contains sids j && is_open j))
  unfolding add_listeners contains
  has_entry-add_listeners cid [] rs j = or_false (has_entry rs j)
  has_entry-add_listeners cid (sid ∷ sids) rs j =
      let volume = cfg.get_listener_volume sid cid in
      has_entry-add_listeners cid sids (add_recipient cfg sender frame rs sid context_listen volume)
        j
      ∙ ap (λ b. b || (contains sids j && is_open j))
          (has_entry-add_recipient rs sid context_listen volume j)
      ∙ regroup (has_entry rs j) (sid == j) (contains sids j) (is_open j)

  has_entry-add_channels :
      (users : ℕ → List ℕ) (cids : List ℕ) (rs : List (ℕ × Delivery)) (j : ℕ)
      → has_entry (add_channels cfg sender frame users cids rs) j
        ≡ (has_entry rs j || (hears users cids j && is_open j))
  unfolding add_channels
  has_entry-add_channels users [] rs j = or_false (has_entry rs j)
  has_entry-add_channels users (cid ∷ cids) rs j =
      let there = add_users cfg sender frame (users cid) rs in
      let both = add_listeners cfg sender frame cid (cfg.get_listeners_in_chan cid) there in
      let in_channel = contains (users cid) j || contains (cfg.get_listeners_in_chan cid) j in
      elim (Bool-cases (cfg.can_sender_speak_in_chan sender cid)) [
        | inr e ↦ rw e (has_entry-add_channels users cids rs j)
        | inl e ↦ rw e (
            has_entry-add_channels users cids both j
            ∙ ap (λ b. b || (hears users cids j && is_open j))
                (has_entry-add_listeners cid (cfg.get_listeners_in_chan cid) there j
                  ∙ ap (λ b. b || (contains (cfg.get_listeners_in_chan cid) j && is_open j))
                      (has_entry-add_users (users cid) rs j)
                  ∙ regroup (has_entry rs j) (contains (users cid) j)
                      (contains (cfg.get_listeners_in_chan cid) j) (is_open j))
            ∙ regroup (has_entry rs j) in_channel (hears users cids j) (is_open j))
      ]

abbrev pub is_there {ℓ} : {A : Type ℓ} → Option A → Bool
is_there none = false
is_there (some a) = true

abbrev pub is_recipient : List Recipient → ℕ → Bool
is_recipient [] sid = false
is_recipient (r ∷ rs) sid = r.session_id == sid || is_recipient rs sid

canonical_gone :
    (resolve : ℕ → Option SessionRef) (j : ℕ) (d : Delivery) (rs : List (ℕ × Delivery))
    → resolve j ≡ none
    → canonical resolve ((j, d) ∷ rs) ≡ canonical resolve rs
unfolding canonical
canonical_gone resolve j d rs e = rw (canonical, e) refl

canonical_kept :
    (resolve : ℕ → Option SessionRef) (j : ℕ) (d : Delivery) (rs : List (ℕ × Delivery))
    {ref : SessionRef}
    → resolve j ≡ some ref
    → canonical resolve ((j, d) ∷ rs)
      ≡ record { session_id = j; session = ref; delivery = d } ∷ canonical resolve rs
unfolding canonical
canonical_kept resolve j d rs e = rw (canonical, e) refl

has_entry_head :
    (j sid : ℕ) (d : Delivery) (rs : List (ℕ × Delivery))
    → has_entry ((j, d) ∷ rs) sid ≡ (j == sid || has_entry rs sid)
unfolding find
has_entry_head j sid d rs = ground arith

and_false : (b : Bool) → false ≡ (b && false)
and_false true = refl
and_false false = refl

is_recipient-canonical :
    (resolve : ℕ → Option SessionRef) (rs : List (ℕ × Delivery)) (sid : ℕ)
    → is_recipient (canonical resolve rs) sid ≡ (is_there (resolve sid) && has_entry rs sid)
unfolding find canonical
is_recipient-canonical resolve [] sid = and_false (is_there (resolve sid))
is_recipient-canonical resolve ((j, d) ∷ rs) sid = elim (Option-cases (resolve j)) [
  | inl e ↦
      let there : (j == sid) ≡ true → is_there (resolve sid) ≡ false =
        λ f. ap is_there (ap resolve (sym ((==_iff j sid).0 f)) ∙ e) in
      ap (λ l. is_recipient l sid) (canonical_gone resolve j d rs e)
      ∙ is_recipient-canonical resolve rs sid
      ∙ gone (has_entry rs sid) there
      ∙ ap (λ b. is_there (resolve sid) && b) (sym (has_entry_head j sid d rs))
  | inr (ref, e) ↦
      let there : (j == sid) ≡ true → is_there (resolve sid) ≡ true =
        λ f. ap is_there (ap resolve (sym ((==_iff j sid).0 f)) ∙ e) in
      ap (λ l. is_recipient l sid) (canonical_kept resolve j d rs e)
      ∙ ap (λ b. j == sid || b) (is_recipient-canonical resolve rs sid)
      ∙ kept (has_entry rs sid) there
      ∙ ap (λ b. is_there (resolve sid) && b) (sym (has_entry_head j sid d rs))
]
  where
    gone :
        {s : Bool} (b : Bool) → ((j == sid) ≡ true → s ≡ false) → (s && b) ≡ (s && (j == sid || b))
    gone b f = ground (arith, f)

    kept :
        {s : Bool} (b : Bool)
        → ((j == sid) ≡ true → s ≡ true)
        → (j == sid || (s && b)) ≡ (s && (j == sid || b))
    kept b f = ground (arith, f)

-- Every recipient goes to the connection that its session id stands for.
abbrev pub IsResolved : (ℕ → Option SessionRef) → Recipient → Type 0
IsResolved resolve r = resolve r.session_id ≡ some r.session

canonical-IsResolved :
    (resolve : ℕ → Option SessionRef) (rs : List (ℕ × Delivery))
    → All (IsResolved resolve) (canonical resolve rs)
unfolding canonical
canonical-IsResolved resolve [] = tt
canonical-IsResolved resolve ((j, d) ∷ rs) = elim (Option-cases (resolve j)) [
  | inl e ↦ rw (canonical_gone resolve j d rs e) (canonical-IsResolved resolve rs)
  | inr (ref, e) ↦ rw (canonical_kept resolve j d rs e) (e, canonical-IsResolved resolve rs)
]

to_channel :
    (cfg : RouterConfig) (ref : SessionRef) (frame : Frame)
    → cfg.has_sender ≡ true
    → frame.target ≡ 0
    → cfg.can_sender_speak ref.session_id ≡ true
    → route_ref cfg ref frame
      ≡ route_normal cfg ref
          (record frame { sender_session = ref.session_id })
          cfg.get_chan
          cfg.get_users_in_chan
unfolding route_ref
to_channel cfg ref frame hs ht hp = rw (hs, ht, hp) refl

-- A frame to the channel (target 0) from a sender who may speak, in a server that knows the channel of
-- each session and the users of each channel. It is sent with the sender's session in it. Its
-- recipients are exactly the sessions that still have a connection, are not the sender, pass the filter,
-- and are in, or listen to, the sender's channel or one linked to it, in which the sender may
-- speak. Each is sent to the connection that has the session id.
pub route_ref_lem :
    (cfg : RouterConfig) (ref : SessionRef) (frame : Frame) (chan : ℕ → ℕ) (users : ℕ → List ℕ)
    (sid : ℕ)
    → cfg.has_sender ≡ true
    → frame.target ≡ 0
    → cfg.can_sender_speak ref.session_id ≡ true
    → cfg.get_chan ≡ some chan
    → cfg.get_users_in_chan ≡ some users
    → let sender = ref.session_id in
      let sent = record frame { sender_session = sender } in
      let here = chan sender in
      (rs : List Recipient) × (route_ref cfg ref frame ≡ some (sent, rs))
      × (is_recipient rs sid ≡ (
          is_there (cfg.resolve_session sid)
          && (hears cfg sender sent users (here ∷ cfg.get_linked_chans here) sid
              && is_open cfg sender sent sid)))
      × All (IsResolved cfg.resolve_session) rs
unfolding route_ref
route_ref_lem cfg ref frame chan users sid hs ht hp hc hu =
    let sender = ref.session_id in
    let sent = record frame { sender_session = sender } in
    let here = chan sender in
    let found = add_channels cfg sender sent users (here ∷ cfg.get_linked_chans here) [] in
    (
      canonical cfg.resolve_session found,
      to_channel cfg ref frame hs ht hp
          ∙ ap₂ (route_normal cfg ref sent) hc hu
          ∙ (unfold route_normal in refl),
      is_recipient-canonical cfg.resolve_session found sid
          ∙ ap (λ b. is_there (cfg.resolve_session sid) && b)
              (has_entry-add_channels cfg sender sent users (here ∷ cfg.get_linked_chans here) []
                  sid
                ∙ (unfold find in refl)),
      canonical-IsResolved cfg.resolve_session found,
    )
