-- ===== src/Runner/Fixtures.antt =====
-- A fixture that returns, and a setup with its teardown, in cmocka_run_one_test_or_fixture.
use cmocka.Prelude.{
  ℕ, ◌≡◌, refl, sym, ◌∙◌, false, Option, none, some, List, [], append-nil, CString,
}
use cmocka.Prelude.Int.{ℤ, pos}
use cmocka.State.{Global, Stream, MallocBlockInfoData}
use cmocka.State.Run.{ok}
use cmocka.Report.Steady.{Same}
use cmocka.Mocks.{initialize_testing, teardown_testing}
use cmocka.Mocks.Leftover.{fail_if_leftover_values}
use cmocka.Mocks.Settled.{IsSettled, has_leftover_values-ok, without_satisfied}
use cmocka.Alloc.{CheckPoint, check_point_allocated_blocks}
use cmocka.Alloc.CheckPoints.{IsDistinct, fail_if_blocks_allocated_iff}
use cmocka.Runner.{FixtureFunction, run_one_test_or_fixture, protected_run, run_function}
use cmocka.Runner.Single.{started, cleared}
use cmocka.Runner.Plain.{ReturnsIn, IsReady, IsReady-Same}

-- Started from `g`, the fixture returns `rc` with nothing left over, with those blocks, and without
-- raising the stop flag.
pub record Completes (fixture : FixtureFunction) (rc : ℤ) (state : ℕ) (g : Global)
    (blocks : List MallocBlockInfoData) : Type 0 where
  pub end : Global
  pub returns_in : ReturnsIn (fixture (started state g)) rc end
  pub settled : IsSettled end
  pub libc : end.libc ≡ g.libc
  pub not_stopped : end.stop_test ≡ false
  pub allocated : end.allocated_blocks ≡ blocks

-- The state with those blocks.
abbrev pub with_blocks : List MallocBlockInfoData → Global → Global
with_blocks blocks g = record g { allocated_blocks = blocks }

pub IsReady-with_blocks :
    (blocks : List MallocBlockInfoData) (g h : Global)
    → IsReady g
    → IsDistinct blocks
    → Same (with_blocks blocks g) h
    → IsReady h
IsReady-with_blocks blocks g h ready distinct same =
    IsReady-Same (with_blocks blocks g) h
      (record {
        not_skipped = ready.not_skipped;
        not_stopped = ready.not_stopped;
        no_abort = ready.no_abort;
        distinct = distinct;
      })
      same

-- A setup that returns 0, and a teardown that takes back the blocks that the setup has added and returns
-- `rc`.
abbrev pub IsPaired : FixtureFunction → FixtureFunction → ℤ → Type 0
IsPaired setup teardown rc =
    (state : ℕ) (g : Global)
    → IsReady g
    → (blocks : List MallocBlockInfoData) × IsDistinct blocks
      × Completes setup (pos 0) state g blocks
      × ((later : ℕ) (h : Global)
          → IsReady h
          → h.allocated_blocks ≡ blocks
          → Completes teardown rc later h g.allocated_blocks)

module _ (fixture : FixtureFunction) (name : CString) (rc : ℤ) (state : ℕ) (g : Global)
    (blocks : List MallocBlockInfoData) (ready : IsReady g)
    (c : Completes fixture rc state g blocks) where
  completed-Same :
      (message : Option CString) (lines : List (Stream × CString))
      → Same (with_blocks blocks g) (cleared (without_satisfied c.end message lines))
  completed-Same message lines = record {
    libc = c.libc;
    skip_test = c.returns_in.not_skipped ∙ sym ready.not_skipped;
    stop_test = c.not_stopped ∙ sym ready.not_stopped;
    allocated_blocks = c.allocated;
  }

  pub setup_completes :
      (point : Option CheckPoint)
      → (cell : ℕ) × (g' : Global) × (run_one_test_or_fixture name none
            (some fixture)
            none
            state
            point
            g
          ≡ ok (rc, cell) g')
        × Same (with_blocks blocks g) g'
  unfolding run_one_test_or_fixture initialize_testing teardown_testing protected_run run_function
      fail_if_leftover_values
  setup_completes point =
      let (left, message, lines, e, iff) =
        has_leftover_values-ok c.end c.returns_in.results c.returns_in.parameters in
      let nothing = iff.1 c.settled in
      (
        c.end.state_cell,
        cleared (without_satisfied c.end message lines),
        rw c.returns_in.returns (rw e (rw nothing)),
        completed-Same message lines,
      )

  -- The leak check is against the blocks of `g₀`.
  pub teardown_completes :
      (g₀ : Global)
      → IsDistinct g₀.allocated_blocks
      → blocks ≡ g₀.allocated_blocks
      → (cell : ℕ) × (g' : Global) × (run_one_test_or_fixture name none none
            (some fixture)
            state
            (some (check_point_allocated_blocks g₀))
            g
          ≡ ok (rc, cell) g')
        × Same (with_blocks blocks g) g'
  unfolding run_one_test_or_fixture initialize_testing teardown_testing protected_run run_function
      fail_if_leftover_values
  teardown_completes g₀ distinct same =
      let kept =
        (fail_if_blocks_allocated_iff name g₀ c.end [] distinct
            (c.allocated ∙ same ∙ sym (append-nil g₀.allocated_blocks))).0
          refl in
      let (left, message, lines, e, iff) =
        has_leftover_values-ok c.end c.returns_in.results c.returns_in.parameters in
      let nothing = iff.1 c.settled in
      (
        c.end.state_cell,
        cleared (without_satisfied c.end message lines),
        rw c.returns_in.returns (rw kept (rw e (rw nothing))),
        completed-Same message lines,
      )
