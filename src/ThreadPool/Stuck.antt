-- ===== src/ThreadPool/Stuck.antt =====
-- The test `tail <= head` of the workers holds in every state that the pool can reach.
use mathlib.Core.Option.{some-injective}
use quant_sim_x.Prelude.{
  ℕ, zero, suc, ◌%◌, ◌<◌, ◌≤◌, ◌≡◌, refl, sym, subst, Bool, true, false, some, List, [], ◌∷◌, All,
  arith, get_or, set, replicate, Bool-cases, ◌⊎◌, inl, inr, ap, ◌∙◌, leb, add64,
}
use quant_sim_x.ThreadPool.{
  max_tasks, Pool, Worker, at_loop, at_tail, at_head, at_task, at_take, at_store, at_run, at_done,
  at_exit, System, no_task, start, enqueue, work, work_at, with_pool, wait_over, Step, enqueued,
  worked, stopped, Steps, done, step,
}

All-set {ℓ κ} :
    {A : Type ℓ} (P : A → Type κ) (xs : List A) (i : ℕ) (v : A)
    → All P xs
    → P v
    → All P (set xs i v)
All-set P [] i v h p = tt
All-set P (x ∷ xs) zero v h p = (p, h.1)
All-set P (x ∷ xs) (suc i) v h p = (h.0, All-set P xs i v h.1 p)

All-get_or {ℓ κ} :
    {A : Type ℓ} (P : A → Type κ) (xs : List A) (i : ℕ) (d : A) → All P xs → P d → P (get_or xs i d)
All-get_or P [] i d h p = p
All-get_or P (x ∷ xs) zero d h p = h.0
All-get_or P (x ∷ xs) (suc i) d h p = All-get_or P xs i d h.1 p

All-replicate {ℓ κ} : {A : Type ℓ} (P : A → Type κ) (n : ℕ) (a : A) → P a → All P (replicate n a)
All-replicate P zero a p = tt
All-replicate P (suc n) a p = (p, All-replicate P n a p)

module _ {F : Type 0} where
  -- A worker that is before the test, with the tail that the pool starts with.
  abbrev Waits : Worker F → Type 0
  Waits at_loop = Unit
  Waits at_tail = Unit
  Waits (at_head tail) = tail ≡ 0
  Waits (at_task tail) = ⊥
  Waits (at_take tail) = ⊥
  Waits (at_store tail) = ⊥
  Waits (at_run tail) = ⊥
  Waits at_done = ⊥
  Waits at_exit = Unit

  -- Nothing has been taken or run, and every task that was accepted is still counted.
  pub record IsStuck (s : System F) : Type 0 where
    pub at_start : s.pool.tail ≡ 0
    pub counted : s.pool.task_count ≡ s.pool.head
    pub within : s.pool.head ≤ 4096
    pub free : All (λ t. t.taken ≡ false) s.pool.tasks
    pub waits : All Waits s.workers
    pub ran_none : s.ran ≡ []

  start-IsStuck : (n : ℕ) → IsStuck (start n)
  start-IsStuck n = record {
    at_start = refl;
    counted = refl;
    within = omega arith;
    free = All-replicate (λ t. t.taken ≡ false) 4096 (no_task {F = F}) refl;
    waits = All-replicate Waits n at_loop tt;
    ran_none = refl;
  }

  -- The pool and the tasks run stay as they are, and the worker stays before the test.
  work-Waits :
      (p : Pool F) (w : Worker F) (ran : List F)
      → p.tail ≡ 0
      → Waits w
      → (work p w ran ≡ (p, (work p w ran).1, ran)) × Waits (work p w ran).1
  unfolding work
  work-Waits p at_loop ran e h = (refl, ground arith)
  work-Waits p at_tail ran e h = (refl, e)
  work-Waits p (at_head tail) ran e h = (refl, ground arith)
  work-Waits p (at_task tail) ran e h = absurd h
  work-Waits p (at_take tail) ran e h = absurd h
  work-Waits p (at_store tail) ran e h = absurd h
  work-Waits p (at_run tail) ran e h = absurd h
  work-Waits p at_done ran e h = absurd h
  work-Waits p at_exit ran e h = (refl, tt)

  work_at-IsStuck :
      (i : ℕ) (s : System F)
      → IsStuck s
      → IsStuck (work_at i s) × (s.pool.task_count ≤ (work_at i s).pool.task_count)
  unfolding work_at
  work_at-IsStuck i s v =
      let w = get_or s.workers i at_exit in
      let (same, waits) =
        work-Waits s.pool w s.ran v.at_start (All-get_or Waits s.workers i at_exit v.waits tt) in
      subst
        (λ r.
          IsStuck (record { pool = r.0; workers = set s.workers i r.1; ran = r.2 })
          × (s.pool.task_count ≤ r.0.task_count))
        (sym same)
        (
          record {
            at_start = v.at_start;
            counted = v.counted;
            within = v.within;
            free = v.free;
            waits = All-set Waits s.workers i (work s.pool w s.ran).1 v.waits waits;
            ran_none = v.ran_none;
          },
          omega arith,
        )

  abbrev pushed : Pool F → F → Pool F
  pushed p f = record p {
    tasks = set p.tasks (p.head % max_tasks) (record { taken = false; func = some f });
    head = add64 p.head 1;
    task_count = add64 p.task_count 1;
  }

  enqueue_lem :
      (p : Pool F) (f : F)
      → (get_or p.tasks (p.head % max_tasks) no_task).taken ≡ false
      → (enqueue p f ≡ some (false, p))
        ⊎ ((p.task_count < 4096) × (enqueue p f ≡ some (true, pushed p f)))
  unfolding enqueue
  enqueue_lem p f free = elim (Bool-cases p.stop) [
    | inl e ↦ inl (rw (e, enqueue) refl)
    | inr e ↦ elim (Bool-cases (leb max_tasks p.task_count)) [
      | inl l ↦ inl (rw (e, enqueue, l) refl)
      | inr l ↦ inr (ground arith, rw (e, enqueue, l, free) refl)
    ]
  ]

  -- what a call leaves behind
  abbrev Kept : System F → Bool × Pool F → Type 0
  Kept s (ok, p) =
      IsStuck (with_pool s p) × (s.pool.task_count ≤ p.task_count) × (ok ≡ true → 0 < p.task_count)

  pushed-Kept :
      (s : System F) (f : F) → s.pool.task_count < 4096 → IsStuck s → Kept s (true, pushed s.pool f)
  pushed-Kept s f l v = (
    record {
      at_start = v.at_start;
      counted = ap (λ n. add64 n 1) v.counted;
      within = omega (arith, v.counted);
      free =
          All-set (λ t. t.taken ≡ false) s.pool.tasks (s.pool.head % max_tasks)
            (record { taken = false; func = some f }) v.free refl;
      waits = v.waits;
      ran_none = v.ran_none;
    },
    omega arith,
    λ _. omega arith,
  )

  enqueue-Kept :
      (s : System F) (f : F) (ok : Bool) (p : Pool F)
      → IsStuck s
      → enqueue s.pool f ≡ some (ok, p)
      → Kept s (ok, p)
  enqueue-Kept s f ok p v e =
      let idx = s.pool.head % max_tasks in
      let free = All-get_or (λ t. t.taken ≡ false) s.pool.tasks idx no_task v.free refl in
      elim (enqueue_lem s.pool f free) [
        | inl a ↦ subst (Kept s) (some-injective _ _ (sym a ∙ e)) (v, omega arith, λ h. cc)
        | inr (l, a) ↦ subst (Kept s) (some-injective _ _ (sym a ∙ e)) (pushed-Kept s f l v)
      ]

  -- One step keeps the pool stuck, and never takes a task out of the count.
  Step-IsStuck :
      {s t : System F} → Step s t → IsStuck s → IsStuck t × (s.pool.task_count ≤ t.pool.task_count)
  Step-IsStuck (enqueued s f ok p e) v = let (a, b, _) = enqueue-Kept s f ok p v e in (a, b)
  Step-IsStuck (worked s i) v = work_at-IsStuck i s v
  Step-IsStuck (stopped s) v = (
    record {
      at_start = v.at_start;
      counted = v.counted;
      within = v.within;
      free = v.free;
      waits = v.waits;
      ran_none = v.ran_none;
    },
    omega arith,
  )

  Steps-IsStuck :
      {s t : System F} → Steps s t → IsStuck s → IsStuck t × (s.pool.task_count ≤ t.pool.task_count)
  Steps-IsStuck (done s) v = (v, omega arith)
  Steps-IsStuck (step s t u a rest) v =
      let (v', le) = Step-IsStuck a v in
      let (v'', le') = Steps-IsStuck rest v' in (v'', omega arith)

  -- With any number of workers and any interleaving of calls of `enqueue`, of the workers' steps and of
  -- the stop, no task is ever run: every accepted task is still counted, `tail` is still 0, and no slot
  -- of the array is marked as taken.
  pub never_runs :
      (n : ℕ) (s : System F)
      → Steps (start n) s
      → (s.ran ≡ [])
        × (s.pool.task_count ≡ s.pool.head)
        × (s.pool.tail ≡ 0)
        × All (λ t. t.taken ≡ false) s.pool.tasks
  never_runs n s steps =
      let (v, _) = Steps-IsStuck steps (start-IsStuck n) in
      (v.ran_none, v.counted, v.at_start, v.free)

  -- After a call of `enqueue` that succeeded, `wait_all` can return in no later state.
  pub wait_all_lem :
      (n : ℕ) (s t : System F) (f : F) (p : Pool F)
      → Steps (start n) s
      → enqueue s.pool f ≡ some (true, p)
      → Steps (with_pool s p) t
      → wait_over t ≡ false
  unfolding wait_over
  wait_all_lem n s t f p before e after =
      let (v, _) = Steps-IsStuck before (start-IsStuck n) in
      let (v', _, some_left) = enqueue-Kept s f true p v e in
      let (_, more) = Steps-IsStuck after v' in
      let left : 0 < p.task_count = some_left refl in ground arith
