-- ===== src/Clock/Elapsed.antt =====
-- What cm_tspecdiff makes of two readings of a clock.
use cmocka.Prelude.{ℕ, ◌+◌, ◌*◌, ◌<◌, ◌≤◌, ◌≡◌, ◌-◌, Bool-cases, inl, inr, refl, true, false, arith}
use cmocka.Prelude.Int.{ℤ, pos, pos_part, neg_part, ◌+ℤ◌, ◌-ℤ◌, ◌*ℤ◌, ltb_ℤ, ◌≤ℤ◌, int_laws}
use cmocka.Clock.{Timespec, Doubles, billion, carried, borrowed, cm_tspecdiff, nanoseconds}

-- The nanoseconds of a reading are less than a second.
abbrev pub IsNormal : Timespec → Type 0
IsNormal t = (n : ℕ) × (t.tv_nsec ≡ pos n) × (n < 1000000000)

-- What IEEE 754 says of doubles this small: a quotient below 1 is cut to 0, an integer is compared with
-- 1E9 as it is, and 1E9 times 0 is 0.
pub record IsExact {F : Type 0} (d : Doubles F) : Type 0 where
  pub quotient_below :
      (n : ℕ)
      → n < 1000000000
      → d.to_long (d.over (d.of_long (pos n)) (d.plus d.one_e9 (d.of_long (pos 1)))) ≡ pos 0
  pub above_below :
      (n : ℤ) → ltb_ℤ (pos 1000000000) n ≡ false → d.above (d.of_long n) d.one_e9 ≡ false
  pub times_zero : d.to_long (d.times d.one_e9 (d.of_long (pos 0))) ≡ pos 0

+ℤ_zero : (a : ℤ) → a +ℤ pos 0 ≡ a
unfolding ◌+ℤ◌
+ℤ_zero a = ground arith

-ℤ_zero : (a : ℤ) → a -ℤ pos 0 ≡ a
unfolding ◌-ℤ◌
-ℤ_zero a = ground arith

difference-natural : (a b : ℤ) (m n : ℕ) → a ≡ pos m → b ≡ pos n → n ≤ m → a -ℤ b ≡ pos (m - n)
unfolding ◌-ℤ◌
difference-natural a b m n e f le = ground arith

difference-below :
    (a b : ℤ) (k l : ℕ) → a ≡ pos k → b ≡ pos l → k < 1000000000 → ltb_ℤ billion (a -ℤ b) ≡ false
unfolding ◌-ℤ◌
difference-below a b k l e f small = ground arith

module _ {F : Type 0} (d : Doubles F) (exact : IsExact d) where
  -- A difference of less than a second has no whole seconds.
  carried-normal : (t u : Timespec) → IsNormal t → IsNormal u → carried d t u ≡ u
  unfolding carried
  carried-normal t u (n, e, small) (m, f, small') = elim (Bool-cases (ltb_ℤ t.tv_nsec u.tv_nsec)) [
    | inl lt ↦
        let difference = difference-natural u.tv_nsec t.tv_nsec m n f e (ground arith) in
        rw
          (
            lt,
            difference,
            exact.quotient_below (m - n) (omega arith),
            exact.times_zero,
            +ℤ_zero u.tv_sec,
            -ℤ_zero u.tv_nsec,
          )
          refl
    | inr ge ↦ rw ge refl
  ]

  borrowed-normal : (t u : Timespec) → IsNormal t → IsNormal u → borrowed d t u ≡ u
  unfolding borrowed
  borrowed-normal t u (n, e, small) (m, f, small') =
      rw
        (exact.above_below (t.tv_nsec -ℤ u.tv_nsec)
          (difference-below t.tv_nsec u.tv_nsec n m e f small))
        refl

forward : (a b : ℤ) → b ≤ℤ a → ltb_ℤ a b ≡ false
forward a b le = ground arith

scaled_parts :
    (a : ℤ)
    → pos_part (a *ℤ billion) + 1000000000 * neg_part a
      ≡ neg_part (a *ℤ billion) + 1000000000 * pos_part a
unfolding ◌*ℤ◌
scaled_parts a = ground arith

doubled_parts :
    (a : ℤ) → pos_part (pos 2 *ℤ a) + 2 * neg_part a ≡ neg_part (pos 2 *ℤ a) + 2 * pos_part a
unfolding ◌*ℤ◌
doubled_parts a = ground arith

-- Where doubles are exact on integers up to 1E9 (a quotient below 1 is cut to 0, the comparison
-- with 1E9 is that of the integers, 1E9 times 0 is 0), for two clock readings with nanoseconds
-- below a second, the nanoseconds that cm_tspecdiff stands for are their difference where the
-- seconds do not go back; where they do, they are the difference the other way round and twice the
-- difference of the nanoseconds.
pub cm_tspecdiff_cases :
    {F : Type 0} (d : Doubles F) (clock1 clock0 : Timespec)
    → IsExact d
    → IsNormal clock1
    → IsNormal clock0
    → (clock0.tv_sec ≤ℤ clock1.tv_sec
        → nanoseconds (cm_tspecdiff d clock1 clock0) ≡ nanoseconds clock1 -ℤ nanoseconds clock0)
      × (ltb_ℤ clock1.tv_sec clock0.tv_sec ≡ true
          → nanoseconds (cm_tspecdiff d clock1 clock0)
            ≡ nanoseconds clock0
              -ℤ nanoseconds clock1
              +ℤ pos 2 *ℤ (clock1.tv_nsec -ℤ clock0.tv_nsec))
unfolding cm_tspecdiff
cm_tspecdiff_cases d clock1 clock0 exact h k =
    let same = borrowed-normal d exact clock1 clock0 h k in
    let kept = carried-normal d exact clock1 clock0 h k in
    (
      λ le.
          rw (cm_tspecdiff, kept, same)
            (rw (forward clock1.tv_sec clock0.tv_sec le) (omega (int_laws, scaled_parts))),
      λ lt. rw (cm_tspecdiff, kept, same) (rw lt (omega (int_laws, scaled_parts, doubled_parts))),
    )
