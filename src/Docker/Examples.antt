-- ===== src/Docker/Examples.antt =====
-- The theorems of the request guard at concrete schedules.
use touchgrass.Base.{
  ℕ, suc, ◌≤◌, ◌≡◌, refl, true, false, List, [], ◌∷◌, some, length, count, leb, arith,
}
use touchgrass.Base.Ints.{pos}
use touchgrass.Docker.Guard.{
  GuardConfig, RequestGuard, new_guard, is_open, record_call, outside, holding, calling, Action,
  enter, take, recheck, finish, System, run, step,
}
use touchgrass.Docker.Guard.Permits.{is_calling, idle, limit, IsAccounted, run_bounded}
use touchgrass.Docker.Guard.Breaker.{failures_at, trips_iff}

abbrev config : GuardConfig
config = record { max_concurrent = pos 2; failure_limit = pos 2; cooldown = pos 50 }

abbrev crowd : List (Unit {0})
crowd = tt ∷ tt ∷ tt ∷ []

abbrev schedule : List Action
schedule =
    enter 0 5 ∷ enter 1 5 ∷ take 1 ∷ recheck 1 6 ∷ take 0 ∷ finish 1 7 true false ∷ recheck 0 8 ∷ []

abbrev guard_after : RequestGuard
guard_after = record {
  capacity = 2;
  failure_limit = 2;
  cooldown = 50;
  permits = 1;
  failures = 1;
  window_start = 7;
  open_until = 0;
}

abbrev system_after : System
system_after = record { guard = guard_after; callers = calling ∷ outside ∷ outside ∷ [] }

schedule_runs : run schedule (idle config crowd) ≡ some system_after
unfolding run step is_open new_guard record_call
schedule_runs = refl

run_bounded_example :
    IsAccounted system_after × (count is_calling system_after.callers ≤ limit config)
run_bounded_example = run_bounded config crowd schedule {s = system_after} schedule_runs

abbrev times : List ℕ
times = 20 ∷ []

trips_iff_example :
    (is_open 30 (failures_at (7 ∷ times) (new_guard config))).0
    ≡ leb (new_guard config).failure_limit (suc (length times))
unfolding new_guard
trips_iff_example =
    trips_iff config 7 30 times (omega arith) ((omega arith, omega arith), tt) (omega arith)

-- The breaker is open until 70; one caller holds a permit and one is in its call.
abbrev tripped : System
tripped = record {
  guard = record guard_after { permits = 2; failures = 2; open_until = 70 };
  callers = calling ∷ holding ∷ outside ∷ [];
}

abbrev in_the_pause : List Action
in_the_pause = recheck 1 30 ∷ enter 2 31 ∷ finish 0 32 true false ∷ []

abbrev after_the_pause : System
after_the_pause = record {
  guard = record guard_after { permits = 0; failures = 3; open_until = 82 };
  callers = outside ∷ outside ∷ outside ∷ [];
}

pause_runs : run in_the_pause tripped ≡ some after_the_pause
unfolding run step is_open record_call
pause_runs = refl
