-- ===== src/ThreadPool.antt =====
-- `ThreadPool` (include/ThreadPool.h, src/ThreadPool.cpp): the pool that all threads share, and a
-- worker as a machine whose steps are its accesses to the pool.
pub mod Stuck
mod Tests
use quant_sim_x.Prelude.{
  ℕ, zero, suc, ◌+◌, ◌%◌, ◌<◌, ◌≡◌, Bool, true, false, Option, none, some, List, [], ◌∷◌, ◌++◌,
  length, get_or, set, replicate, leb, ltb, add64, sub64, if◌then◌else◌,
}

abbrev pub max_tasks : ℕ
max_tasks = 4096

-- `func` is none for an empty `std::function`.
pub record Task {ℓ} (F : Type ℓ) : Type ℓ where
  pub taken : Bool
  pub func : Option F

pub record Pool {ℓ} (F : Type ℓ) : Type ℓ where
  pub tasks : List (Task F)
  pub head : ℕ
  pub tail : ℕ
  pub task_count : ℕ
  pub stop : Bool

-- Where a worker stands in the loop of `worker_thread`.
pub data Worker {ℓ} (F : Type ℓ) : Type ℓ where
  at_loop : Worker F
  at_tail : Worker F
  at_head : ℕ → Worker F
  at_task : ℕ → Worker F
  at_take : ℕ → Worker F
  at_store : ℕ → Worker F
  at_run : ℕ → Worker F
  at_done : Worker F
  at_exit : Worker F

-- The pool, its workers, and the tasks that have been run so far.
pub record System {ℓ} (F : Type ℓ) : Type ℓ where
  pub pool : Pool F
  pub workers : List (Worker F)
  pub ran : List F

module _ {ℓ} {F : Type ℓ} where
  abbrev pub no_task : Task F
  no_task = record { taken = false; func = none }

  abbrev pub start : ℕ → System F
  start n = record {
    pool = record {
      tasks = replicate max_tasks no_task;
      head = 0;
      tail = 0;
      task_count = 0;
      stop = false;
    };
    workers = replicate n at_loop;
    ran = [];
  }

  -- A whole call, since one thread enqueues. `none` is the `while` on a taken slot, in which nothing
  -- changes `count`: it ends only when a worker releases the slot, and none ever does.
  pub enqueue : Pool F → F → Option (Bool × Pool F)
  enqueue p task =
      let idx = p.head % max_tasks in
      if p.stop
      then some (false, p)
      else if leb max_tasks p.task_count
      then some (false, p)
      else if (get_or p.tasks idx no_task).taken
      then none
      else some (
        true,
        record p {
          tasks = set p.tasks idx (record { taken = false; func = some task });
          head = add64 p.head 1;
          task_count = add64 p.task_count 1;
        },
      )

  abbrev pub run_task : Option F → List F → List F
  run_task none ran = ran
  run_task (some f) ran = ran ++ f ∷ []

  -- one step of a worker: the pool, the worker and the tasks run, after it
  pub work : Pool F → Worker F → List F → Pool F × Worker F × List F
  work p at_loop ran = (p, if p.stop then at_exit else at_tail, ran)
  work p at_tail ran = (p, at_head p.tail, ran)
  work p (at_head tail) ran = (p, if leb tail p.head then at_loop else at_task tail, ran)
  work p (at_task tail) ran =
      (p, if (get_or p.tasks (tail % max_tasks) no_task).taken then at_loop else at_take tail, ran)
  work p (at_take tail) ran =
      let idx = tail % max_tasks in
      (
        record p { tasks = set p.tasks idx (record (get_or p.tasks idx no_task) { taken = true }) },
        at_store tail,
        ran,
      )
  work p (at_store tail) ran = (record p { tail = add64 tail 1 }, at_run tail, ran)
  work p (at_run tail) ran =
      (p, at_done, run_task (get_or p.tasks (tail % max_tasks) no_task).func ran)
  work p at_done ran = (record p { task_count = sub64 p.task_count 1 }, at_loop, ran)
  work p at_exit ran = (p, at_exit, ran)

  -- the next step of the worker `i`
  pub work_at : ℕ → System F → System F
  unfolding work
  work_at i s =
      let (pool, worker, ran) = work s.pool (get_or s.workers i at_exit) s.ran in
      record { pool = pool; workers = set s.workers i worker; ran = ran }

  abbrev pub with_pool : System F → Pool F → System F
  with_pool s p = record s { pool = p }

  -- `wait_all` returns in the states where this holds.
  pub wait_over : System F → Bool
  wait_over s = if ltb 0 s.pool.task_count then false else true

  -- Any interleaving of the thread that enqueues, the workers, and the destructor's stop.
  pub data Step : System F → System F → Type ℓ where
    enqueued :
        (s : System F) (f : F) (done : Bool) (p : Pool F)
        → enqueue s.pool f ≡ some (done, p)
        → Step s (with_pool s p)
    worked : (s : System F) (i : ℕ) → Step s (work_at i s)
    stopped : (s : System F) → Step s (with_pool s (record (s.pool) { stop = true }))

  pub data Steps : System F → System F → Type ℓ where
    done : (s : System F) → Steps s s
    step : (s t u : System F) → Step s t → Steps t u → Steps s u
