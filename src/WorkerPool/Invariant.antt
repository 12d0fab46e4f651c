-- ===== src/WorkerPool/Invariant.antt =====
-- What holds of a pool between two calls.
use fastedgy.Prelude.{
  ℕ, ◌+◌, ◌≤◌, ◌≡◌, refl, ap, ◌∙◌, true, false, List, [], ◌∷◌, ◌++◌, length, length-append,
  Bool-cases, inl, inr, ltb, arith,
}
use mathlib.Core.Path.{subst}
use fastedgy.Prelude.Keys.{
  member, remove, put, Distinct, member-append, member-remove, member-put, Distinct-remove,
  Distinct-snoc, length-remove,
}
use fastedgy.WorkerPool.{
  WorkerPool, new_pool, create_worker, get_from, get_available_worker, return_worker, idle_timeout,
  shutdown, total_workers,
}

pub record IsValid (p : WorkerPool) : Type 0 where
  -- no worker is both idle and busy
  pub apart : (w : ℕ) → member w p.idle_workers ≡ true → member w p.busy_workers ≡ false
  pub idle_once : Distinct p.idle_workers
  pub busy_once : Distinct p.busy_workers
  -- just the idle workers have a timer
  pub timed : (w : ℕ) → member w p.worker_timeout_tasks ≡ member w p.idle_workers
  pub bounded : total_workers p ≤ p.max_workers

new_pool-IsValid : (n : ℕ) → IsValid (new_pool n)
unfolding new_pool member
new_pool-IsValid n = record {
  apart = λ w h. cc;
  idle_once = tt;
  busy_once = tt;
  timed = λ w. refl;
  bounded = omega arith;
}

shutdown-IsValid : (p : WorkerPool) → IsValid (shutdown p)
unfolding shutdown member
shutdown-IsValid p = record {
  apart = λ w h. cc;
  idle_once = tt;
  busy_once = tt;
  timed = λ w. refl;
  bounded = omega arith;
}

-- `put` of a new key appends it.
put_new : (k : ℕ) (xs : List ℕ) → member k xs ≡ false → put k xs ≡ xs ++ k ∷ []
unfolding put
put_new k xs h = rw h

length-put : (k : ℕ) (xs : List ℕ) → member k xs ≡ false → length (put k xs) ≡ length xs + 1
length-put k xs h = rw (put_new k xs h) (length-append xs (k ∷ []))

Distinct-put : (k : ℕ) (xs : List ℕ) → member k xs ≡ false → Distinct xs → Distinct (put k xs)
Distinct-put k xs h d = rw (put_new k xs h) (Distinct-snoc k xs h d)

module _ (w : ℕ) (p : WorkerPool) (v : IsValid p) where
  busy_not_idle : member w p.busy_workers ≡ true → member w p.idle_workers ≡ false
  busy_not_idle h = ground (arith, v.apart w)

  return_worker-IsValid : member w p.busy_workers ≡ true → IsValid (return_worker w p)
  unfolding return_worker member
  return_worker-IsValid h = record {
    apart = λ u i. ground (
      arith,
      member-append u p.idle_workers (w ∷ []),
      member-remove u w p.busy_workers,
      v.apart u,
    );
    idle_once = Distinct-snoc w p.idle_workers (busy_not_idle h) v.idle_once;
    busy_once = Distinct-remove w p.busy_workers v.busy_once;
    timed = λ u. ground (
      arith,
      member-append u p.idle_workers (w ∷ []),
      member-put u w p.worker_timeout_tasks,
      v.timed u,
    );
    bounded = ground (
      arith,
      v.bounded,
      length-append p.idle_workers (w ∷ []),
      length-remove w p.busy_workers v.busy_once,
    );
  }

  timeout_fired : IsValid (record p {
    idle_workers = remove w p.idle_workers;
    worker_timeout_tasks = remove w p.worker_timeout_tasks;
  })
  timeout_fired = record {
    apart = λ u i. ground (arith, member-remove u w p.idle_workers, v.apart u);
    idle_once = Distinct-remove w p.idle_workers v.idle_once;
    busy_once = v.busy_once;
    timed = λ u. ground (
      arith,
      member-remove u w p.idle_workers,
      member-remove u w p.worker_timeout_tasks,
      v.timed u,
    );
    bounded = omega (arith, v.bounded, length-remove w p.idle_workers v.idle_once);
  }

  idle_timeout-IsValid : IsValid (idle_timeout w p)
  unfolding idle_timeout
  idle_timeout-IsValid = elim (Bool-cases (member w p.worker_timeout_tasks)) [
    | inl live ↦ rw live timeout_fired
    | inr gone ↦ rw gone v
  ]

-- The identifier is new to the pool.
abbrev pub IsFresh : ℕ → WorkerPool → Type 0
IsFresh fresh p = (member fresh p.busy_workers ≡ false) × (member fresh p.idle_workers ≡ false)

module _ (fresh : ℕ) (p : WorkerPool) (v : IsValid p) where
  create_worker-IsValid : IsFresh fresh p → IsValid (create_worker fresh p).1
  unfolding create_worker
  create_worker-IsValid new = elim (Bool-cases (ltb (total_workers p) p.max_workers)) [
    | inl room ↦ rw room (record {
      apart = λ u i. ground (arith, member-put u fresh p.busy_workers, v.apart u);
      idle_once = v.idle_once;
      busy_once = Distinct-put fresh p.busy_workers new.0 v.busy_once;
      timed = v.timed;
      bounded = ground (arith, length-put fresh p.busy_workers new.0);
    })
    | inr full ↦ rw full v
  ]

  get_from-IsValid :
      (idle : List ℕ) → p.idle_workers ≡ idle → IsFresh fresh p → IsValid (get_from idle fresh p).1
  unfolding get_from member
  get_from-IsValid [] e new = create_worker-IsValid new
  get_from-IsValid (w ∷ ws) e new =
      let first : Distinct (w ∷ ws) = subst Distinct e v.idle_once in
      let held : member w p.idle_workers ≡ true = rw e (ground arith) in
      let not_busy = v.apart w held in
      record {
        apart = λ u i.
            let idle : member u p.idle_workers ≡ true = rw e (ground arith) in
            ground (arith, member-put u w p.busy_workers, v.apart u idle, first.0);
        idle_once = first.1;
        busy_once = Distinct-put w p.busy_workers not_busy v.busy_once;
        timed = λ u.
            let timed : member u p.worker_timeout_tasks ≡ member u (w ∷ ws) =
              v.timed u ∙ ap (member u) e in
            ground (arith, member-remove u w p.worker_timeout_tasks, first.0);
        bounded =
            omega (arith, v.bounded, length-put w p.busy_workers not_busy, ap (length {A = ℕ}) e);
      }

  get_available_worker-IsValid : IsFresh fresh p → IsValid (get_available_worker fresh p).1
  unfolding get_available_worker
  get_available_worker-IsValid new = get_from-IsValid p.idle_workers refl new

-- The calls that the manager makes: it returns only workers that it holds.
pub data Step : WorkerPool → WorkerPool → Type 0 where
  gets : (p : WorkerPool) (fresh : ℕ) → IsFresh fresh p → Step p (get_available_worker fresh p).1
  returns : (p : WorkerPool) (w : ℕ) → member w p.busy_workers ≡ true → Step p (return_worker w p)
  times_out : (p : WorkerPool) (w : ℕ) → Step p (idle_timeout w p)
  shuts_down : (p : WorkerPool) → Step p (shutdown p)

pub data Reach (p : WorkerPool) : WorkerPool → Type 0 where
  here : Reach p p
  next : {q r : WorkerPool} → Reach p q → Step q r → Reach p r

Step-IsValid : {p q : WorkerPool} → Step p q → IsValid p → IsValid q
Step-IsValid (gets p fresh new) v = get_available_worker-IsValid fresh p v new
Step-IsValid (returns p w h) v = return_worker-IsValid w p v h
Step-IsValid (times_out p w) v = idle_timeout-IsValid w p v
Step-IsValid (shuts_down p) v = shutdown-IsValid p

-- In every pool that the calls reach from a new one, no worker is both idle and busy or is listed
-- twice, just the idle workers have a timer, and there are at most `max_workers` workers.
pub Reach-IsValid : (n : ℕ) {p : WorkerPool} → Reach (new_pool n) p → IsValid p
Reach-IsValid n here = new_pool-IsValid n
Reach-IsValid n (next r s) = Step-IsValid s (Reach-IsValid n r)
