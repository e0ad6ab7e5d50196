-- ===== src/ThreadPool/Tests.antt =====
-- Each theorem on the pool, with two workers and one task.
use quant_sim_x.Prelude.{ℕ, ◌≡◌, refl, false, true, [], some, set, All}
use quant_sim_x.ThreadPool.{
  Pool, System, start, enqueue, work_at, with_pool, wait_over, enqueued, worked, Steps, done, step,
}
use quant_sim_x.ThreadPool.Stuck.{never_runs, wait_all_lem}

abbrev empty_pool : System ℕ
empty_pool = start 2

-- with the task 7 in the first slot
abbrev one_task : Pool ℕ
one_task = record (empty_pool.pool) {
  tasks = set empty_pool.pool.tasks 0 (record { taken = false; func = some 7 });
  head = 1;
  task_count = 1;
}

accepted : enqueue empty_pool.pool 7 ≡ some (true, one_task)
unfolding enqueue
accepted = refl

abbrev waiting : System ℕ
waiting = with_pool empty_pool one_task

one-Steps : Steps waiting (work_at 1 waiting)
one-Steps =
    step waiting (work_at 1 waiting) (work_at 1 waiting) (worked waiting 1)
      (done (work_at 1 waiting))

two-Steps : Steps (start 2) (work_at 1 waiting)
two-Steps =
    step empty_pool waiting (work_at 1 waiting) (enqueued empty_pool 7 true one_task accepted)
      one-Steps

never_runs_example :
    ((work_at 1 waiting).ran ≡ [])
    × ((work_at 1 waiting).pool.task_count ≡ (work_at 1 waiting).pool.head)
    × ((work_at 1 waiting).pool.tail ≡ 0)
    × All (λ t. t.taken ≡ false) (work_at 1 waiting).pool.tasks
never_runs_example = never_runs 2 (work_at 1 waiting) two-Steps

wait_all_lem_example : wait_over (work_at 1 waiting) ≡ false
wait_all_lem_example =
    wait_all_lem 2 empty_pool (work_at 1 waiting) 7 one_task (done empty_pool) accepted one-Steps
