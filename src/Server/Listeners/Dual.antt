-- ===== src/Server/Listeners/Dual.antt =====
-- internal/mumble/listeners.go: the two indices hold the same pairs.
use go_mumble_server.Base.{
  ℕ, ◌≡◌, ◌∙◌, refl, sym, ap, false, some, List, [], ◌∷◌, ◌==◌, if◌then◌else◌, ◌&&◌, ◌||◌, arith,
  Option-cases, inl, inr,
}
use go_mumble_server.Base.Maps.{find, find-insert}
use go_mumble_server.Base.Sets.{
  contains, members, drop_member, related, related-delete, related-insert, related-drop_member,
}
use go_mumble_server.Server.Listeners.{
  Listeners, ensure, put_member, drop_from, add, remove_pair, remove_all_for, remove_channel,
  set_volume, Context, Applied, apply_add, apply_remove, apply_volume, fold_left, apply_listening,
  wait, nothing_applied,
}

pub related-ensure : (k j x : ℕ) (m : List (ℕ × List ℕ)) → related (ensure k m) j x ≡ related m j x
unfolding ensure contains
related-ensure k j x m = ground (arith, find-insert k j [] m)

pub related-put_member :
    (k x j y : ℕ) (m : List (ℕ × List ℕ))
    → related (put_member k x m) j y ≡ ((k == j && x == y) || related m j y)
unfolding put_member contains
related-put_member k x j y m =
    related-insert k j y (x ∷ members k m) m ∙ ground (arith, ap (λ i. related m i y))

related-drop_from :
    (ks : List ℕ) (x j y : ℕ) (m : List (ℕ × List ℕ))
    → related (drop_from ks x m) j y ≡ (if contains ks j && x == y then false else related m j y)
unfolding drop_from contains
related-drop_from [] x j y m = refl
related-drop_from (k ∷ ks) x j y m =
    ground (arith, related-drop_from ks x j y (drop_member k x m), related-drop_member k x j y m)

-- A session is in the set of a channel exactly if the channel is in the set of the session.
abbrev pub IsDual : {V : Type 0} → Listeners V → Type 0
IsDual l =
    (session channel : ℕ)
    → related l.by_session session channel ≡ related l.by_channel channel session

found_members :
    (k j x : ℕ) (m : List (ℕ × List ℕ)) (xs : List ℕ)
    → find k m ≡ some xs
    → k ≡ j
    → contains xs x ≡ related m j x
found_members k j x m xs h e =
    let found : members k m ≡ xs = rw (members, h) refl in rw (sym e, found) refl

module _ {V : Type 0} (l : Listeners V) (d : IsDual l) where
  add-IsDual : (session channel : ℕ) → IsDual (add l session channel).0
  unfolding add
  add-IsDual session channel s c =
      let bs = ensure session l.by_session in
      let bc = ensure channel l.by_channel in
      ground (
        arith,
        d s c,
        related-ensure session s c l.by_session,
        related-ensure channel c s l.by_channel,
        related-put_member session channel s c bs,
        related-put_member channel session c s bc,
      )

  remove_pair-IsDual : (session channel : ℕ) → IsDual (remove_pair l session channel).0
  unfolding remove_pair
  remove_pair-IsDual session channel s c = ground (
    arith,
    d s c,
    related-drop_member session channel s c l.by_session,
    related-drop_member channel session c s l.by_channel,
  )

  remove_all_for-IsDual : (session : ℕ) → IsDual (remove_all_for l session).0
  unfolding remove_all_for
  remove_all_for-IsDual session s c = elim (Option-cases (find session l.by_session)) [
    | inl e ↦ rw (remove_all_for, e) (d s c)
    | inr (chans, e) ↦
        rw (remove_all_for, e)
          (ground (
            arith,
            d s c,
            related-delete session s c l.by_session,
            related-drop_from chans session c s l.by_channel,
            found_members session s c l.by_session chans e,
          ))
  ]

  remove_channel-IsDual : (channel : ℕ) → IsDual (remove_channel l channel).0
  unfolding remove_channel
  remove_channel-IsDual channel s c = elim (Option-cases (find channel l.by_channel)) [
    | inl e ↦ rw (remove_channel, e) (d s c)
    | inr (sessions, e) ↦
        rw (remove_channel, e)
          (ground (
            arith,
            d s c,
            related-delete channel c s l.by_channel,
            related-drop_from sessions channel s c l.by_session,
            found_members channel c s l.by_channel sessions e,
          ))
  ]

  set_volume-IsDual : (session channel : ℕ) (v : V) → IsDual (set_volume l session channel v)
  unfolding set_volume
  set_volume-IsDual session channel v s c = ground (arith, d s c)

-- A change of the relation under its lock.
pub data Change (V : Type 0) : Type 0 where
  adds : ℕ → ℕ → Change V
  removes : ℕ → ℕ → Change V
  leaves : ℕ → Change V
  loses_channel : ℕ → Change V
  sets_volume : ℕ → ℕ → V → Change V

-- A call: a change, or a request to listen with the changes that other connections make before each of
-- its steps.
pub data Call (V : Type 0) : Type 0 where
  changes : Change V → Call V
  applies : (ℕ → List (Change V)) → Context → ℕ → List ℕ → List ℕ → List (ℕ × V) → Call V

abbrev pub no_listeners : {V : Type 0} → Listeners V
no_listeners = record { by_session = []; by_channel = []; volumes = [] }

module _ {V : Type 0} where
  unfoldable pub change : Listeners V → Change V → Listeners V
  unfolding add remove_pair remove_all_for remove_channel set_volume
  change l (Change.adds session channel) = (add l session channel).0
  change l (Change.removes session channel) = (remove_pair l session channel).0
  change l (Change.leaves session) = (remove_all_for l session).0
  change l (Change.loses_channel channel) = (remove_channel l channel).0
  change l (Change.sets_volume session channel v) = set_volume l session channel v

  unfoldable pub change_all : Listeners V → List (Change V) → Listeners V
  unfolding change
  change_all l [] = l
  change_all l (c ∷ cs) = change_all (change l c) cs

  unfoldable pub step : Listeners V → Call V → Listeners V
  unfolding change_all apply_listening
  step l (Call.changes c) = change l c
  step l (Call.applies between ctx session wanted unwanted vols) =
      (apply_listening (λ moment now. change_all now (between moment)) ctx l session wanted unwanted
        vols).listeners

  unfoldable pub run : Listeners V → List (Call V) → Listeners V
  unfolding step
  run l [] = l
  run l (c ∷ cs) = run (step l c) cs

  -- What each round of a loop keeps, the loop keeps.
  pub fold_left-keeps :
      {A : Type 0} (P : Applied V → Type 0) (f : Applied V → A → Applied V)
      → ((a : Applied V) (x : A) → P a → P (f a x))
      → (xs : List A) (a : Applied V) → P a
      → P (fold_left f a xs)
  fold_left-keeps P f keep [] a p = p
  fold_left-keeps P f keep (x ∷ xs) a p = fold_left-keeps P f keep xs (f a x) (keep a x p)

  change-IsDual : (l : Listeners V) (c : Change V) → IsDual l → IsDual (change l c)
  unfolding change
  change-IsDual l (Change.adds session channel) d = add-IsDual l d session channel
  change-IsDual l (Change.removes session channel) d = remove_pair-IsDual l d session channel
  change-IsDual l (Change.leaves session) d = remove_all_for-IsDual l d session
  change-IsDual l (Change.loses_channel channel) d = remove_channel-IsDual l d channel
  change-IsDual l (Change.sets_volume session channel v) d = set_volume-IsDual l d session channel v

  change_all-IsDual : (l : Listeners V) (cs : List (Change V)) → IsDual l → IsDual (change_all l cs)
  unfolding change_all
  change_all-IsDual l [] d = d
  change_all-IsDual l (c ∷ cs) d = change_all-IsDual (change l c) cs (change-IsDual l c d)

  module _ (others : ℕ → Listeners V → Listeners V)
      (kept : (moment : ℕ) (l : Listeners V) → IsDual l → IsDual (others moment l)) where
    wait-IsDual : (a : Applied V) → IsDual a.listeners → IsDual (wait others a).listeners
    wait-IsDual a d = kept a.clock a.listeners d

    apply_add-IsDual :
        (ctx : Context) (session : ℕ) (a : Applied V) (channel : ℕ)
        → IsDual a.listeners
        → IsDual (apply_add others ctx session a channel).listeners
    unfolding apply_add
    apply_add-IsDual ctx session a channel d s c =
        let d₁ = wait-IsDual a d in
        let d₂ = wait-IsDual (wait others a) d₁ in
        let ready = wait others (wait others (wait others a)) in
        let d₃ = wait-IsDual (wait others (wait others a)) d₂ in
        ground (arith, d s c, d₁ s c, d₂ s c, add-IsDual ready.listeners d₃ session channel s c)

    apply_remove-IsDual :
        (session : ℕ) (a : Applied V) (channel : ℕ)
        → IsDual a.listeners
        → IsDual (apply_remove others session a channel).listeners
    unfolding apply_remove
    apply_remove-IsDual session a channel d =
        remove_pair-IsDual (wait others a).listeners (wait-IsDual a d) session channel

    apply_volume-IsDual :
        (session : ℕ) (a : Applied V) (va : ℕ × V)
        → IsDual a.listeners
        → IsDual (apply_volume others session a va).listeners
    unfolding apply_volume
    apply_volume-IsDual session a va d s c =
        let d₁ = wait-IsDual a d in
        let ready = wait others (wait others a) in
        let d₂ = wait-IsDual (wait others a) d₁ in
        ground (arith, d₁ s c, set_volume-IsDual ready.listeners d₂ session va.0 va.1 s c)

    apply_listening-IsDual :
        (ctx : Context) (l : Listeners V) (session : ℕ) (wanted unwanted : List ℕ)
        (vols : List (ℕ × V))
        → IsDual l
        → IsDual (apply_listening others ctx l session wanted unwanted vols).listeners
    unfolding apply_listening
    apply_listening-IsDual ctx l session wanted unwanted vols d =
        let P : Applied V → Type 0 = λ a. IsDual a.listeners in
        fold_left-keeps P (apply_volume others session) (apply_volume-IsDual session) vols _ (
          fold_left-keeps P (apply_remove others session) (apply_remove-IsDual session) unwanted _ (
            fold_left-keeps P (apply_add others ctx session) (apply_add-IsDual ctx session) wanted
              (nothing_applied l) d))

  step-IsDual : (l : Listeners V) (c : Call V) → IsDual l → IsDual (step l c)
  unfolding step
  step-IsDual l (Call.changes c) d = change-IsDual l c d
  step-IsDual l (Call.applies between ctx session wanted unwanted vols) d =
      apply_listening-IsDual (λ moment now. change_all now (between moment))
        (λ moment now. change_all-IsDual now (between moment)) ctx l session wanted unwanted vols d

  run-IsDual_from : (l : Listeners V) (cs : List (Call V)) → IsDual l → IsDual (run l cs)
  unfolding run
  run-IsDual_from l [] d = d
  run-IsDual_from l (c ∷ cs) d = run-IsDual_from (step l c) cs (step-IsDual l c d)

-- After any calls, also when other connections come between the steps of a request, the two indices agree: a session listens to a channel by the one exactly if it does by
-- the other, so that what a voice packet is sent to is what the sessions asked for.
pub run-IsDual :
    {V : Type 0} (cs : List (Call V)) (session channel : ℕ)
    → let l = run no_listeners cs in
      related l.by_session session channel ≡ related l.by_channel channel session
unfolding find contains
run-IsDual cs = run-IsDual_from no_listeners cs (λ s c. refl)
