-- ===== src/Server/Listeners/Limits.antt =====
-- internal/mumble/listeners.go: the limit for the listeners of a channel, in a request that nobody
-- interrupts and in one that is overtaken.
use go_mumble_server.Base.{
  ℕ, ◌+◌, ◌∙◌, true, false, suc, ◌≤◌, ◌<◌, ◌≡◌, List, [], ◌∷◌, length, ◌==◌, if◌then◌else◌, arith,
}
use go_mumble_server.Base.Maps.{find-insert, find-delete}
use go_mumble_server.Base.Sets.{related, remove, members, drop_member, length-remove}
use go_mumble_server.Server.Listeners.{
  Listeners, Context, Applied, ensure, put_member, count_in_channel, apply_add, apply_remove, add,
  over, count_for_session, apply_volume, apply_listening, nobody, nothing_applied,
}
use go_mumble_server.Server.Listeners.Dual.{fold_left-keeps, related-ensure, related-put_member}

-- No channel has more listeners than the limit.
abbrev pub IsWithin : {V : Type 0} → ℕ → Listeners V → Type 0
IsWithin limit l = (channel : ℕ) → length (members channel l.by_channel) ≤ limit

size-ensure :
    (k j : ℕ) (m : List (ℕ × List ℕ)) → length (members j (ensure k m)) ≡ length (members j m)
unfolding ensure
size-ensure k j m = ground (arith, find-insert k j [] m)

size-put_member :
    (k x j : ℕ) (m : List (ℕ × List ℕ))
    → length (members j (put_member k x m))
      ≡ (if k == j then suc (length (members k m)) else length (members j m))
unfolding put_member
size-put_member k x j m = ground (arith, find-insert k j (x ∷ members k m) m)

size-drop_member :
    (k x j limit : ℕ) (m : List (ℕ × List ℕ))
    → ((i : ℕ) → length (members i m) ≤ limit)
    → length (members j (drop_member k x m)) ≤ limit
unfolding drop_member
size-drop_member k x j limit m h = ground (
  arith,
  h j,
  h k,
  find-delete k j m,
  find-insert k j (remove x (members k m)) m,
  length-remove x (members k m),
)

module _ {V : Type 0} (ctx : Context) (session : ℕ) (limited : 0 < ctx.max_channel_listeners) where
  abbrev Kept : Applied V → Type 0
  Kept a = IsWithin ctx.max_channel_listeners a.listeners

  apply_add-Kept :
      (a : Applied V) (channel : ℕ) → Kept a → Kept (apply_add nobody ctx session a channel)
  unfolding apply_add
  apply_add-Kept a channel h c = ground (
    arith,
    h c,
    h channel,
    size-ensure channel c a.listeners.by_channel,
    size-ensure channel channel a.listeners.by_channel,
    size-put_member channel session c (ensure channel a.listeners.by_channel),
  )

  apply_remove-Kept :
      (a : Applied V) (channel : ℕ) → Kept a → Kept (apply_remove nobody session a channel)
  unfolding apply_remove
  apply_remove-Kept a channel h c = ground (
    arith,
    h c,
    size-drop_member channel session c ctx.max_channel_listeners a.listeners.by_channel h,
  )

  apply_volume-Kept :
      (a : Applied V) (va : ℕ × V) → Kept a → Kept (apply_volume nobody session a va)
  unfolding apply_volume
  apply_volume-Kept a va h c = ground (arith, h c)

-- With a limit for the listeners of a channel, a request between whose steps no other connection changes
-- the listeners never brings a channel above it: if every channel was
-- within the limit before, each is afterwards, whatever was asked for and in whatever order.
pub apply_listening-IsWithin :
    {V : Type 0} (ctx : Context) (l : Listeners V) (session : ℕ) (wanted unwanted : List ℕ)
    (vols : List (ℕ × V)) (channel : ℕ)
    → 0 < ctx.max_channel_listeners
    → IsWithin ctx.max_channel_listeners l
    → count_in_channel (apply_listening nobody ctx l session wanted unwanted vols).listeners channel
      ≤ ctx.max_channel_listeners
unfolding apply_listening count_in_channel
apply_listening-IsWithin {V} ctx l session wanted unwanted vols channel limited h =
    let P : Applied V → Type 0 = λ a. IsWithin ctx.max_channel_listeners a.listeners in
    fold_left-keeps P (apply_volume nobody session) (apply_volume-Kept ctx session limited) vols _
      (fold_left-keeps P (apply_remove nobody session) (apply_remove-Kept ctx session limited)
        unwanted _
        (fold_left-keeps P (apply_add nobody ctx session) (apply_add-Kept ctx session limited)
          wanted (nothing_applied l) h))
      channel

module _ {V : Type 0} where
  count-add :
      (l : Listeners V) (session channel : ℕ)
      → related l.by_session session channel ≡ false
      → count_in_channel (add l session channel).0 channel ≡ suc (count_in_channel l channel)
  unfolding add count_in_channel
  count-add l session channel h = ground (
    arith,
    h,
    related-ensure session session channel l.by_session,
    size-ensure channel channel l.by_channel,
    size-put_member channel session channel (ensure channel l.by_channel),
  )

  related-add_other :
      (l : Listeners V) (rival session channel : ℕ)
      → (rival == session) ≡ false
      → related (add l rival channel).0.by_session session channel
        ≡ related l.by_session session channel
  unfolding add
  related-add_other l rival session channel h = ground (
    arith,
    h,
    related-ensure rival session channel l.by_session,
    related-put_member rival channel session channel (ensure rival l.by_session),
  )

  -- Another connection lets `rival` listen to the channel, after the count and before the addition.
  abbrev pub overtakes : ℕ → ℕ → ℕ → Listeners V → Listeners V
  overtakes rival channel moment now = if moment == 2 then (add now rival channel).0 else now

-- A channel with one place left, which the session may listen to, no limit per user, and a request of a
-- session; neither it nor the rival session listens to the channel yet. When nobody
-- comes between, the channel is full afterwards. When another connection adds a session of its own between
-- the count and the addition, the channel has one listener more than the limit.
pub overtaken_request :
    {V : Type 0} (ctx : Context) (l : Listeners V) (session rival channel : ℕ)
    → ctx.has_channel channel ≡ true
    → ctx.may_listen channel ≡ true
    → ctx.max_listeners_per_user ≡ 0
    → count_in_channel l channel + 1 ≡ ctx.max_channel_listeners
    → (rival == session) ≡ false
    → related l.by_session session channel ≡ false
    → related l.by_session rival channel ≡ false
    → let alone = apply_listening nobody ctx l session (channel ∷ []) [] [] in
      let late = apply_listening (overtakes rival channel) ctx l session (channel ∷ []) [] [] in
      (count_in_channel alone.listeners channel ≡ ctx.max_channel_listeners)
      × (count_in_channel late.listeners channel ≡ ctx.max_channel_listeners + 1)
unfolding apply_listening apply_add count_in_channel
overtaken_request ctx l session rival channel hc hm hu hl hr hs ho =
    let room : over ctx.max_channel_listeners (count_in_channel l channel) ≡ false = ground arith in
    let free : over ctx.max_listeners_per_user (count_for_session l session) ≡ false =
      ground (arith, hu) in
    let joined = (add l rival channel).0 in
    let still : related joined.by_session session channel ≡ false =
      related-add_other l rival session channel hr ∙ hs in
    (
      rw (hc, hm, room, free) (omega (arith, count-add l session channel hs, hl)),
      rw (hc, hm, room, free)
          (omega (arith, count-add joined session channel still, count-add l rival channel ho, hl)),
    )
