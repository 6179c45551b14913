-- ===== src/Audio/Legacy/Merge.antt =====
-- pkg/mumble/audio/cache.go: in which order deliveries may be merged.
use go_mumble_server.Base.{
  ℕ, ◌≡◌, ◌∙◌, refl, sym, ap, Bool, true, false, ltb, not, ◌&&◌, if◌then◌else◌, arith, Bool-cases,
  inl, inr,
}
use go_mumble_server.Audio.Legacy.{Delivery, merge_delivery, is_nan, float_rank, is_greater}

-- What a merge decides, the context and the volume as a number.
abbrev pub SameRoute : Delivery → Delivery → Type 0
SameRoute a b =
    (a.context ≡ b.context) × (float_rank a.volume_adjustment ≡ float_rank b.volume_adjustment)

abbrev pub later : ℕ → ℕ → ℕ
later x y = if ltb x y then y else x

abbrev pub lesser : ℕ → ℕ → ℕ
lesser x y = if ltb y x then y else x

lesser_laws :
    (x y z : ℕ)
    → (lesser x y ≡ lesser y x)
      × (lesser (lesser x y) z ≡ lesser x (lesser y z))
      × (lesser (lesser x y) y ≡ lesser x y)
lesser_laws x y z = (ground arith, ground arith, ground arith)

later_laws :
    (x y z : ℕ)
    → (later x y ≡ later y x)
      × (later (later x y) z ≡ later x (later y z))
      × (later (later x y) y ≡ later x y)
later_laws x y z = (ground arith, ground arith, ground arith)

merged_context : (a b : Delivery) → (merge_delivery a b).context ≡ lesser a.context b.context
unfolding merge_delivery
merged_context a b = refl

merged_volume :
    (a b : Delivery)
    → (merge_delivery a b).volume_adjustment ≡ (
        if is_greater b.volume_adjustment a.volume_adjustment
        then b.volume_adjustment
        else a.volume_adjustment)
unfolding merge_delivery
merged_volume a b = refl

above_lem : (p q c : Bool) → p ≡ false → q ≡ false → (not q && (not p && c)) ≡ c
above_lem p q c hp hq = ground (arith, hp, hq)

never_left : (p q c : Bool) → p ≡ true → (not p && (not q && c)) ≡ false
never_left p q c h = ground (arith, h)

never_right : (p q c : Bool) → q ≡ true → (not p && (not q && c)) ≡ false
never_right p q c h = ground (arith, h)

-- Of two numbers the merge takes the one of the higher rank.
pub volume_lem :
    (a b : Delivery)
    → is_nan a.volume_adjustment ≡ false
    → is_nan b.volume_adjustment ≡ false
    → (float_rank (merge_delivery a b).volume_adjustment
        ≡ later (float_rank a.volume_adjustment) (float_rank b.volume_adjustment))
      × (is_nan (merge_delivery a b).volume_adjustment ≡ false)
volume_lem a b ha hb =
    let x = a.volume_adjustment in
    let y = b.volume_adjustment in
    let above = ltb (float_rank x) (float_rank y) in
    let e : is_greater y x ≡ above = above_lem (is_nan x) (is_nan y) above ha hb in
    elim (Bool-cases above) [
      | inl f ↦
          let v = merged_volume a b ∙ ap (λ c. if c then y else x) (e ∙ f) in
          (ap float_rank v ∙ rw f refl, ap is_nan v ∙ hb)
      | inr f ↦
          let v = merged_volume a b ∙ ap (λ c. if c then y else x) (e ∙ f) in
          (ap float_rank v ∙ rw f refl, ap is_nan v ∙ ha)
    ]

-- The context and the volume, as a number, of merged deliveries depend neither on their order nor on how
-- they are grouped nor on how often one occurs, when no volume is a NaN. A delivery whose volume is a
-- NaN never changes the volume, and never loses its own.
pub merge_delivery_lem :
    (a b c n : Delivery)
    → is_nan a.volume_adjustment ≡ false
    → is_nan b.volume_adjustment ≡ false
    → is_nan c.volume_adjustment ≡ false
    → is_nan n.volume_adjustment ≡ true
    → SameRoute (merge_delivery a b) (merge_delivery b a)
      × SameRoute (merge_delivery (merge_delivery a b) c) (merge_delivery a (merge_delivery b c))
      × SameRoute (merge_delivery (merge_delivery a b) b) (merge_delivery a b)
      × ((merge_delivery a n).volume_adjustment ≡ a.volume_adjustment)
      × ((merge_delivery n a).volume_adjustment ≡ n.volume_adjustment)
merge_delivery_lem a b c n ha hb hc hn =
    let ab = volume_lem a b ha hb in
    let ba = volume_lem b a hb ha in
    let bc = volume_lem b c hb hc in
    let ab_c = volume_lem (merge_delivery a b) c ab.1 hc in
    let a_bc = volume_lem a (merge_delivery b c) ha bc.1 in
    let ab_b = volume_lem (merge_delivery a b) b ab.1 hb in
    let low = lesser_laws a.context b.context c.context in
    let high =
      later_laws (float_rank a.volume_adjustment) (float_rank b.volume_adjustment)
        (float_rank c.volume_adjustment) in
    let x = float_rank a.volume_adjustment in
    let z = float_rank c.volume_adjustment in
    (
      (merged_context a b ∙ low.0 ∙ sym (merged_context b a), ab.0 ∙ high.0 ∙ sym ba.0),
      (
        merged_context (merge_delivery a b) c
            ∙ ap (λ i. lesser i c.context) (merged_context a b)
            ∙ low.1
            ∙ sym (
                merged_context a (merge_delivery b c) ∙ ap (lesser a.context) (merged_context b c)),
        ab_c.0 ∙ ap (λ i. later i z) ab.0 ∙ high.1 ∙ sym (a_bc.0 ∙ ap (later x) bc.0),
      ),
      (
        merged_context (merge_delivery a b) b
            ∙ ap (λ i. lesser i b.context) (merged_context a b)
            ∙ low.2
            ∙ sym (merged_context a b),
        ab_b.0 ∙ ap (λ i. later i (float_rank b.volume_adjustment)) ab.0 ∙ high.2 ∙ sym ab.0,
      ),
      merged_volume a n
          ∙ ap (λ b. if b then n.volume_adjustment else a.volume_adjustment)
              (never_left (is_nan n.volume_adjustment) (is_nan a.volume_adjustment) _ hn),
      merged_volume n a
          ∙ ap (λ b. if b then a.volume_adjustment else n.volume_adjustment)
              (never_right (is_nan a.volume_adjustment) (is_nan n.volume_adjustment) _ hn),
    )
