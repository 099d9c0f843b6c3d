-- ===== src/Clock.antt =====
-- The run times of tests: cm_tspecdiff and cm_secdiff of src/cmocka.c. The `double`s are a parameter.
pub mod Elapsed
use cmocka.Prelude.{ℕ, Bool, if◌then◌else◌}
use cmocka.Prelude.Int.{ℤ, pos, ◌+ℤ◌, ◌-ℤ◌, ◌*ℤ◌, ltb_ℤ}

pub record Timespec : Type 0 where
  pub tv_sec : ℤ
  pub tv_nsec : ℤ

-- The `double`s of C: the conversion of an integer, the one back, which cuts, three operators, `>` and the
-- constant 1E9.
pub record Doubles (F : Type 0) : Type 0 where
  pub of_long : ℤ → F
  pub to_long : F → ℤ
  pub plus : F → F → F
  pub times : F → F → F
  pub over : F → F → F
  pub above : F → F → Bool
  pub one_e9 : F

module _ {F : Type 0} (d : Doubles F) where
  -- `time0` behind each of the two adjustments.
  unfoldable pub carried : Timespec → Timespec → Timespec
  carried time1 time0 =
      let xsec = d.to_long (
        d.over (d.of_long (time0.tv_nsec -ℤ time1.tv_nsec))
          (d.plus d.one_e9 (d.of_long (pos 1)))) in
      if ltb_ℤ time1.tv_nsec time0.tv_nsec
      then record {
        tv_sec = time0.tv_sec +ℤ xsec;
        tv_nsec = time0.tv_nsec -ℤ d.to_long (d.times d.one_e9 (d.of_long xsec));
      }
      else time0

  unfoldable pub borrowed : Timespec → Timespec → Timespec
  borrowed time1 time0 =
      let xsec = d.to_long (d.over (d.of_long (time1.tv_nsec -ℤ time0.tv_nsec)) d.one_e9) in
      if d.above (d.of_long (time1.tv_nsec -ℤ time0.tv_nsec)) d.one_e9
      then record {
        tv_sec = time0.tv_sec -ℤ xsec;
        tv_nsec = time0.tv_nsec +ℤ d.to_long (d.times d.one_e9 (d.of_long xsec));
      }
      else time0

  unfoldable pub cm_tspecdiff : Timespec → Timespec → Timespec
  unfolding carried borrowed
  cm_tspecdiff time1 time0 =
      let adjusted = borrowed time1 (carried time1 time0) in
      record {
        tv_sec =
            if ltb_ℤ time1.tv_sec adjusted.tv_sec
            then pos 0 -ℤ (time1.tv_sec -ℤ adjusted.tv_sec)
            else time1.tv_sec -ℤ adjusted.tv_sec;
        tv_nsec = time1.tv_nsec -ℤ adjusted.tv_nsec;
      }

  unfoldable pub cm_secdiff : Timespec → Timespec → F
  unfolding cm_tspecdiff
  cm_secdiff clock1 clock0 =
      let diff = cm_tspecdiff clock1 clock0 in
      d.plus (d.of_long diff.tv_sec) (d.over (d.of_long diff.tv_nsec) d.one_e9)

abbrev pub billion : ℤ
billion = pos 1000000000

abbrev pub nanoseconds : Timespec → ℤ
nanoseconds t = t.tv_sec *ℤ billion +ℤ t.tv_nsec
