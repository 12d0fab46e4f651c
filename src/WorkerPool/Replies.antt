-- ===== src/WorkerPool/Replies.antt =====
-- Whom the pool hands out.
use fastedgy.Prelude.{
  ℕ, ◌≤◌, ◌≡◌, refl, ap, ◌↔◌, true, false, none, some, List, [], ◌∷◌, length, arith,
}
use mathlib.Core.Path.{subst}
use fastedgy.Prelude.Keys.{member, Distinct, member-remove, member-put}
use fastedgy.WorkerPool.{WorkerPool, create_worker, get_from, get_available_worker}
use fastedgy.WorkerPool.Invariant.{IsValid, IsFresh}

get_from-none :
    (fresh : ℕ) (p : WorkerPool) (idle : List ℕ)
    → p.idle_workers ≡ idle
    → ((get_from idle fresh p).0 ≡ none) ↔ ((idle ≡ []) × (p.max_workers ≤ length p.busy_workers))
unfolding get_from create_worker
get_from-none fresh p [] e =
    let n : length p.idle_workers ≡ 0 = ap (length {A = ℕ}) e in
    (λ h. (refl, ground arith), λ h. ground arith)
get_from-none fresh p (w ∷ ws) e = (λ h. cc, λ h. cc)

-- The pool refuses a worker exactly where no worker is idle and all the workers that it may have are
-- busy.
pub get_available_worker-none :
    (fresh : ℕ) (p : WorkerPool)
    → ((get_available_worker fresh p).0 ≡ none)
      ↔ ((p.idle_workers ≡ []) × (p.max_workers ≤ length p.busy_workers))
unfolding get_available_worker
get_available_worker-none fresh p = get_from-none fresh p p.idle_workers refl

-- What is promised of a worker that was handed out.
abbrev pub HandedOut : ℕ → WorkerPool → WorkerPool → Type 0
HandedOut w p q =
    (member w p.busy_workers ≡ false)
    × (member w q.busy_workers ≡ true)
    × (member w q.idle_workers ≡ false)
    × (member w q.worker_timeout_tasks ≡ false)

create_worker-HandedOut :
    (fresh : ℕ) (p : WorkerPool) (w : ℕ)
    → IsValid p
    → IsFresh fresh p
    → (create_worker fresh p).0 ≡ some w
    → HandedOut w p (create_worker fresh p).1
unfolding create_worker
create_worker-HandedOut fresh p w v new h =
    ground (arith, member-put w fresh p.busy_workers, v.timed fresh, new.0, new.1)

get_from-HandedOut :
    (fresh : ℕ) (p : WorkerPool) (idle : List ℕ) (w : ℕ)
    → p.idle_workers ≡ idle
    → IsValid p
    → IsFresh fresh p
    → (get_from idle fresh p).0 ≡ some w
    → HandedOut w p (get_from idle fresh p).1
unfolding get_from member
get_from-HandedOut fresh p [] w e v new h = create_worker-HandedOut fresh p w v new h
get_from-HandedOut fresh p (u ∷ us) w e v new h =
    let first : Distinct (u ∷ us) = subst Distinct e v.idle_once in
    let held : member u p.idle_workers ≡ true = rw e (ground arith) in
    ground (
      arith,
      member-put w u p.busy_workers,
      member-remove w u p.worker_timeout_tasks,
      v.apart u held,
      first.0,
    )

-- In a valid pool the worker that is handed out was not busy before, and is busy then, not idle, and
-- without a timer that could remove it.
pub get_available_worker-HandedOut :
    (fresh : ℕ) (p : WorkerPool) (w : ℕ)
    → IsValid p
    → IsFresh fresh p
    → (get_available_worker fresh p).0 ≡ some w
    → HandedOut w p (get_available_worker fresh p).1
unfolding get_available_worker
get_available_worker-HandedOut fresh p w v new h =
    get_from-HandedOut fresh p p.idle_workers w refl v new h
