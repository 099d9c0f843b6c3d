-- ===== src/Runner/GroupFixtures.antt =====
-- The setup and the teardown of a group in _cmocka_run_group_tests.
use cmocka.Prelude.{ℕ, ◌≡◌, refl, ◌∙◌, Bool, not, Option, none, some, List, CString, codes}
use cmocka.Prelude.Int.{ℤ, pos, eq_ℤ}
use cmocka.State.{Global}
use cmocka.State.Run.{ok, ◌>>=◌, ◌>>◌, when, gets}
use cmocka.Report.Steady.{
  Same, Same-refl, Same-trans, IsSteady, pure-IsSteady, >>-IsSteady, when-IsSteady,
  read_state-IsSteady, print_error-IsSteady,
}
use cmocka.Alloc.{CheckPoint, check_point_allocated_blocks}
use cmocka.Runner.{FixtureFunction, run_group_fixture}
use cmocka.Runner.Print.{cmprintf, test_error}
use cmocka.Runner.Group.{run_group_setup, run_group_teardown, flush_message}
use cmocka.Runner.Steady.{cmprintf-IsSteady}
use cmocka.Runner.Plain.{IsReady}
use cmocka.Runner.Fixtures.{Completes, with_blocks, setup_completes, teardown_completes}
use cmocka.State.{MallocBlockInfoData}
use cmocka.Alloc.CheckPoints.{IsDistinct}

-- From blocks `blocks` the teardown comes back to `start`, and returns some number.
abbrev pub TearsDown :
    Option FixtureFunction → List MallocBlockInfoData → List MallocBlockInfoData → Type 0
TearsDown none blocks start = blocks ≡ start
TearsDown (some teardown) blocks start =
    (state : ℕ) (g : Global)
    → IsReady g
    → g.allocated_blocks ≡ blocks
    → (rc : ℤ) × Completes teardown rc state g start

-- A setup returns 0 with nothing left over, and the teardown takes back the blocks that it has added.
abbrev pub HasGroupFixtures : Option FixtureFunction → Option FixtureFunction → Type 0
HasGroupFixtures none group_teardown =
    (start : List MallocBlockInfoData) → TearsDown group_teardown start start
HasGroupFixtures (some setup) group_teardown =
    (state : ℕ) (g : Global)
    → IsReady g
    → (blocks : List MallocBlockInfoData) × IsDistinct blocks
      × Completes setup (pos 0) state g blocks
      × TearsDown group_teardown blocks g.allocated_blocks

pub group_setup_runs :
    (group_setup group_teardown : Option FixtureFunction) (point : CheckPoint) (g : Global)
    → HasGroupFixtures group_setup group_teardown
    → IsReady g
    → (state : ℕ) × (blocks : List MallocBlockInfoData) × (g' : Global) × IsDistinct blocks
      × (run_group_setup group_setup point g ≡ ok (pos 0, state) g')
      × Same (with_blocks blocks g) g'
      × TearsDown group_teardown blocks g.allocated_blocks
unfolding run_group_setup run_group_fixture
group_setup_runs none group_teardown point g fixtures ready =
    (0, g.allocated_blocks, g, ready.distinct, refl, Same-refl g, fixtures g.allocated_blocks)
group_setup_runs (some setup) group_teardown point g fixtures ready =
    let (blocks, distinct, up, down) = fixtures 0 g ready in
    let (cell, g', e, same) =
      setup_completes setup (codes "cmocka_group_setup") (pos 0) 0 g blocks ready up (some point) in
    (cell, blocks, g', distinct, e, same, down)

flush_message-IsSteady : (message : Option CString) → IsSteady (flush_message message)
unfolding flush_message
flush_message-IsSteady none = pure-IsSteady
flush_message-IsSteady (some text) = >>-IsSteady _ _ (print_error-IsSteady _ _) (record {
  runs = λ g. (
    record g { error_message = none },
    refl,
    record { libc = refl; skip_test = refl; stop_test = refl; allocated_blocks = refl },
  );
})

reported-IsSteady :
    (failing : Bool) (group_name : CString)
    → IsSteady (
        when failing (do
          g ← gets (λ g. g)
          flush_message g.error_message
          cmprintf test_error 0 group_name (some (codes "[  FAILED  ] GROUP TEARDOWN"))))
reported-IsSteady failing group_name = when-IsSteady _ _ (
    read_state-IsSteady _
      λ g. >>-IsSteady _ _ (flush_message-IsSteady g.error_message) (cmprintf-IsSteady _ _ _ _))

-- The check point is that of the group's start `g₀`.
pub group_teardown_runs :
    (group_teardown : Option FixtureFunction) (group_name : CString) (state : ℕ)
    (blocks : List MallocBlockInfoData) (g₀ g : Global)
    → TearsDown group_teardown blocks g₀.allocated_blocks
    → IsDistinct g₀.allocated_blocks
    → IsReady g
    → g.allocated_blocks ≡ blocks
    → (g' : Global) × (run_group_teardown group_teardown group_name state
          (check_point_allocated_blocks g₀)
          g
        ≡ ok tt g')
      × Same (with_blocks g₀.allocated_blocks g) g'
unfolding run_group_teardown run_group_fixture
group_teardown_runs none group_name state blocks g₀ g down distinct ready same = (
  g,
  refl,
  record { libc = refl; skip_test = refl; stop_test = refl; allocated_blocks = same ∙ down },
)
group_teardown_runs (some teardown) group_name state blocks g₀ g down distinct ready same =
    let (rc, c) = down state g ready same in
    let (cell, g₁, e, same₁) =
      teardown_completes teardown (codes "cmocka_group_teardown") rc state g g₀.allocated_blocks
        ready c g₀ distinct refl in
    let (g₂, e₂, same₂) = (reported-IsSteady (not (eq_ℤ rc (pos 0))) group_name).runs g₁ in
    (g₂, rw e e₂, Same-trans (with_blocks g₀.allocated_blocks g) g₁ g₂ same₁ same₂)
