-- ===== src/Users/Pool/Fresh.antt =====
-- internal/user/manager.go: a session's id is no other session's, and there is one while the server is
-- not full.
use go_mumble_server.Base.{
  ℕ, suc, ◌+◌, ◌*◌, ◌%◌, ◌^◌, ◌≤◌, ◌<◌, ◌≡◌, refl, ap, true, false, Option, some, List, [], ◌∷◌,
  length, ltb, leb, ◌==◌, arith, Bool-cases, inl, inr, ==_iff,
}
use mathlib.Core.Path.{subst}
use go_mumble_server.Base.Counting.{
  NoRepeats, NoRepeats-add, NoRepeats-remove, length-add_one, length-remove_one,
}
use go_mumble_server.Base.Sets.{contains, add, remove, contains-remove, contains-add}
use go_mumble_server.Users.Pool.{Pool, new_pool, alloc, take_id, release}

-- Every id below the next one is in use or free, once; none is 0.
pub record IsPool (p : Pool) : Type 0 where
  pub limited : 0 < p.max
  pub limit_fits : p.max < 2 ^ 31
  pub used_up : p.next ≡ 1 + length p.in_use + length p.free
  pub within : length p.in_use + length p.free ≤ p.max
  pub in_use_once : NoRepeats p.in_use
  pub free_once : NoRepeats p.free
  pub in_use_known : (sid : ℕ) → contains p.in_use sid ≡ true → (0 < sid) × (sid < p.next)
  pub free_known :
      (sid : ℕ)
      → contains p.free sid ≡ true
      → (0 < sid) × (sid < p.next) × (contains p.in_use sid ≡ false)

pub new_pool-IsPool : (max : ℕ) → 0 < max → max < 2 ^ 31 → IsPool (new_pool max)
unfolding new_pool contains
new_pool-IsPool max h k = record {
  limited = h;
  limit_fits = k;
  used_up = refl;
  within = omega arith;
  in_use_once = tt;
  free_once = tt;
  in_use_known = λ sid e. ground arith;
  free_known = λ sid e. ground arith;
}

-- An id that is in a set is not one that is not.
differs :
    (sid s : ℕ) (xs : List ℕ) → contains xs sid ≡ false → contains xs s ≡ true → (sid == s) ≡ false
differs sid s xs h k = elim (Bool-cases (sid == s)) [
  | inl same ↦ ground (arith, h, k, ap (contains xs) ((==_iff sid s).0 same))
  | inr other ↦ other
]

-- What an allocation gives: an id that was not in use and now is, and that only.
pub record Given (p : Pool) (r : Pool × Option ℕ) : Type 0 where
  pub sid : ℕ
  pub gives : r.1 ≡ some sid
  pub positive : 0 < sid
  pub small : sid ≤ p.max
  pub was_free : contains p.in_use sid ≡ false
  pub uses : r.0.in_use ≡ add sid p.in_use
  pub still : IsPool r.0

module _ (p : Pool) (h : IsPool p) (room : length p.in_use < p.max) where
  take_free : (sid : ℕ) (free : List ℕ) → p.free ≡ sid ∷ free → Given p (take_id p (sid ∷ free))
  unfolding take_id
  take_free sid free e =
      let top : contains p.free sid ≡ true = rw e (unfold contains in ground arith) in
      let known = h.free_known sid top in
      let longer = length-add_one sid p.in_use known.2 in
      let count : length p.free ≡ suc (length free) = ap (λ (xs : List ℕ). length xs) e in
      let once : NoRepeats (sid ∷ free) = subst NoRepeats e h.free_once in
      record {
        sid = sid;
        gives = refl;
        positive = known.0;
        small = omega (arith, known.1, h.used_up, h.within);
        was_free = known.2;
        uses = refl;
        still = record {
          limited = h.limited;
          limit_fits = h.limit_fits;
          used_up = omega (arith, h.used_up, longer, count);
          within = omega (arith, h.within, longer, count);
          in_use_once = NoRepeats-add sid p.in_use h.in_use_once;
          free_once = once.1;
          in_use_known = λ s i. used_known s i;
          free_known = λ s i. free_left s i;
        };
      }
    where
      used_known : (s : ℕ) → contains (add sid p.in_use) s ≡ true → (0 < s) × (s < p.next)
      used_known s i = elim (Bool-cases (sid == s)) [
        | inl same ↦
            let top : contains p.free sid ≡ true = rw e (unfold contains in ground arith) in
            subst (λ (x : ℕ). (0 < x) × (x < p.next)) ((==_iff sid s).0 same)
              ((h.free_known sid top).0, (h.free_known sid top).1)
        | inr other ↦ h.in_use_known s (ground (arith, contains-add sid s p.in_use))
      ]

      free_left :
          (s : ℕ)
          → contains free s ≡ true
          → (0 < s) × (s < p.next) × (contains (add sid p.in_use) s ≡ false)
      free_left s i =
          let once : NoRepeats (sid ∷ free) = subst NoRepeats e h.free_once in
          let there : contains p.free s ≡ true = rw e (unfold contains in ground arith) in
          let known = h.free_known s there in
          let differ : (sid == s) ≡ false = differs sid s free once.0 i in
          (known.0, known.1, ground (arith, contains-add sid s p.in_use, known.2))

  take_next : p.free ≡ [] → Given p (take_id p [])
  unfolding take_id
  take_next e =
      let none_free : length p.free ≡ 0 = ap (λ (xs : List ℕ). length xs) e in
      let fits : leb (p.max * 2 % 2 ^ 32) p.next ≡ false =
        ground (arith, h.used_up, none_free, room, h.limit_fits) in
      let fresh : contains p.in_use p.next ≡ false = unused in
      let longer = length-add_one p.next p.in_use fresh in
      let limited : ltb 0 p.max ≡ true = ground (arith, h.limited) in
      rw (fits, limited)
        (record {
          sid = p.next;
          gives = refl;
          positive = omega (arith, h.used_up);
          small = omega (arith, h.used_up, none_free, room);
          was_free = fresh;
          uses = refl;
          still = record {
            limited = h.limited;
            limit_fits = h.limit_fits;
            used_up = omega (arith, h.used_up, none_free, room, h.limit_fits, longer);
            within = omega (arith, none_free, room, longer);
            in_use_once = NoRepeats-add p.next p.in_use h.in_use_once;
            free_once = h.free_once;
            in_use_known = λ s i. used_known s i;
            free_known = λ s i. elim (none_left s i) [ ];
          };
        })
    where
      none_left : (s : ℕ) → contains p.free s ≡ true → ⊥
      none_left s i =
          let absurd : contains [] s ≡ true = subst (λ (xs : List ℕ). contains xs s ≡ true) e i in
          unfold contains in ground (arith, absurd)

      unused : contains p.in_use p.next ≡ false
      unused = elim (Bool-cases (contains p.in_use p.next)) [
        | inl used ↦ ground (arith, (h.in_use_known p.next used).1)
        | inr free ↦ free
      ]

      used_known :
          (s : ℕ) → contains (add p.next p.in_use) s ≡ true → (0 < s) × (s < (p.next + 1) % 2 ^ 32)
      used_known s i =
          let room_above : (p.next + 1) % 2 ^ 32 ≡ p.next + 1 =
            omega (arith, h.used_up, h.within, h.limit_fits) in
          elim (Bool-cases (p.next == s)) [
            | inl same ↦ ground (arith, h.used_up, room_above)
            | inr other ↦
                let known = h.in_use_known s (ground (arith, i, contains-add p.next s p.in_use)) in
                omega (arith, known.0, known.1, room_above)
          ]

-- While fewer sessions than the limit are in use, another one gets an id: it is not 0, not above the
-- limit and not in use.
pub alloc-Given : (p : Pool) → IsPool p → length p.in_use < p.max → Given p (alloc p)
unfolding alloc
alloc-Given p h room =
    let open_ : leb p.max (length p.in_use) ≡ false = ground (arith, room) in
    rw open_ (by_free p.free refl)
  where
    by_free : (free : List ℕ) → p.free ≡ free → Given p (take_id p free)
    by_free [] e = take_next p h room e
    by_free (sid ∷ free) e = take_free p h room sid free e

pub release-IsPool : (p : Pool) (sid : ℕ) → IsPool p → IsPool (release p sid)
unfolding release
release-IsPool p sid h = elim (Bool-cases (contains p.in_use sid)) [
  | inr e ↦ rw e h
  | inl e ↦
      let shorter = length-remove_one sid p.in_use h.in_use_once e in
      rw e (record {
        limited = h.limited;
        limit_fits = h.limit_fits;
        used_up = omega (arith, h.used_up, shorter);
        within = omega (arith, h.within, shorter);
        in_use_once = NoRepeats-remove sid p.in_use h.in_use_once;
        free_once = (not_free e, h.free_once);
        in_use_known = λ s i. h.in_use_known s (ground (arith, i, contains-remove sid s p.in_use));
        free_known = λ s i. free_again e s i;
      })
]
  where
    not_free : contains p.in_use sid ≡ true → contains p.free sid ≡ false
    not_free e = elim (Bool-cases (contains p.free sid)) [
      | inl f ↦ ground (arith, e, (h.free_known sid f).2)
      | inr f ↦ f
    ]

    free_again :
        contains p.in_use sid ≡ true
        → (s : ℕ) → contains (sid ∷ p.free) s ≡ true
        → (0 < s) × (s < p.next) × (contains (remove sid p.in_use) s ≡ false)
    free_again e s i = elim (Bool-cases (sid == s)) [
      | inl same ↦
          let known =
            subst (λ (x : ℕ). (0 < x) × (x < p.next)) ((==_iff sid s).0 same)
              (h.in_use_known sid e) in
          (known.0, known.1, ground (arith, same, contains-remove sid s p.in_use))
      | inr other ↦
          let known = h.free_known s (unfold contains in ground (arith, i, other)) in
          (known.0, known.1, ground (arith, known.2, contains-remove sid s p.in_use))
    ]
