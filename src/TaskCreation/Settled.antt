-- ===== src/TaskCreation/Settled.antt =====
-- Every request comes to its row or its error.
use fastedgy.Prelude.{
  ◌≡◌, refl, sym, ◌∙◌, ℕ, ◌+◌, ◌*◌, ◌-◌, ◌<◌, ◌≤◌, true, Option, none, some, List, [], ◌∷◌, ◌++◌,
  filter, length, All, Bool-cases, inl, inr, append-nil, arith,
}
use mathlib.Core.Path.{subst}
use fastedgy.TaskCreation.{
  RefState, unresolved, failed, identified, TaskCreationRequest, Round, QueuedTasks, is_child,
  settle_ref, with_round, create_child, create_next, next_round, tick_round, tick_task, tick, Reach,
  fresh, adds, ticks, run_ticks,
}
use fastedgy.TaskCreation.Pending.{no_parent, backed, has_ref-filter, Backed-filter}
use fastedgy.TaskCreation.Covered.{
  is_settled, Covers, Valid, IsValid, steps_of, steps, Covers-tail, add_task-IsValid,
}

settle_ref-Covers :
    (r : TaskCreationRequest) (rs : List TaskCreationRequest) (parent o : Option ℕ)
    (s : QueuedTasks)
    → Covers s.refs s.next_ref (r ∷ rs)
    → Covers (settle_ref r parent o s).refs s.next_ref rs
unfolding settle_ref
settle_ref-Covers r rs parent none s c = Covers-tail s.refs s.next_ref failed r rs refl c
settle_ref-Covers r rs parent (some id) s c =
    Covers-tail s.refs s.next_ref (identified id) r rs refl c

settle_ref-Ticked :
    (r : TaskCreationRequest) (b : Round) (parent o : Option ℕ) (s : QueuedTasks)
    → s.locks ≡ 1
    → All (λ q. is_child q ≡ true) b.with_parent_requests
    → Covers s.refs s.next_ref
        (r ∷ (b.no_parent_requests ++ b.with_parent_requests) ++ s.creation_queue)
    → IsValid (settle_ref r parent o (with_round b s))
      × (steps (settle_ref r parent o (with_round b s)) ≡ steps_of (some b) s.creation_queue)
unfolding settle_ref
settle_ref-Ticked r b parent none s l a c = (
  (
    settle_ref-Covers r ((b.no_parent_requests ++ b.with_parent_requests) ++ s.creation_queue)
        parent none s c,
    (l, a),
  ),
  refl,
)
settle_ref-Ticked r b parent (some id) s l a c = (
  (
    settle_ref-Covers r ((b.no_parent_requests ++ b.with_parent_requests) ++ s.creation_queue)
        parent (some id) s c,
    (l, a),
  ),
  refl,
)

-- A step leaves a valid state with less to do.
abbrev Ticked : QueuedTasks → Option Round → QueuedTasks → Type 0
Ticked s t new = IsValid new × (steps new + 1 ≤ steps_of t s.creation_queue)

length-filters :
    (q : List TaskCreationRequest)
    → length (filter no_parent q) + length (filter is_child q) ≡ length q
length-filters [] = omega arith
length-filters (r ∷ rs) = let below = length-filters rs in ground arith

filter-is_child : (q : List TaskCreationRequest) → All (λ r. is_child r ≡ true) (filter is_child q)
filter-is_child [] = tt
filter-is_child (r ∷ rs) = elim (Bool-cases (is_child r)) [
  | inl y ↦ rw y (y, filter-is_child rs)
  | inr n ↦ rw n (filter-is_child rs)
]

next_round-Ticked :
    (queue : List TaskCreationRequest) (s : QueuedTasks)
    → s.locks ≡ 1
    → s.creation_queue ≡ queue
    → Covers s.refs s.next_ref queue
    → IsValid (next_round queue s) × (steps (next_round queue s) + 1 ≤ 1 + 2 * length queue)
unfolding next_round
next_round-Ticked [] s l e c =
    ((subst (Covers s.refs s.next_ref) (sym e) c, (e, omega (arith, l))), omega arith)
next_round-Ticked (r ∷ rs) s l e (waits, backs) =
    let q = r ∷ rs in
    let front = filter no_parent q ++ filter is_child q in
    let count = length-filters q in
    let covers : Covers s.refs s.next_ref front = (
      λ p h n. has_ref-filter p q ∙ waits p h n,
      Backed-filter (λ p. is_settled (s.refs p)) q backs,
    ) in
    (
      (subst (Covers s.refs s.next_ref) (sym (append-nil front)) covers, (l, filter-is_child q)),
      omega (arith, count),
    )

create_child-Ticked :
    (x : RefState) (r : TaskCreationRequest) (rest : Round) (o : Option ℕ) (s : QueuedTasks)
    → is_settled x ≡ true
    → s.locks ≡ 1
    → All (λ q. is_child q ≡ true) rest.with_parent_requests
    → Covers s.refs s.next_ref
        (r ∷ (rest.no_parent_requests ++ rest.with_parent_requests) ++ s.creation_queue)
    → IsValid (create_child r rest o x s)
      × (steps (create_child r rest o x s) ≡ steps_of (some rest) s.creation_queue)
create_child-Ticked unresolved r rest o s h l a c = ground arith
create_child-Ticked failed r rest o s h l a c = settle_ref-Ticked r rest none none s l a c
create_child-Ticked (identified p) r rest o s h l a c = settle_ref-Ticked r rest (some p) o s l a c

create_next-Ticked :
    (parent : Option ℕ) (r : TaskCreationRequest) (rest : Round) (o : Option ℕ) (s : QueuedTasks)
    → r.parent_ref ≡ parent
    → is_child r ≡ true
    → s.locks ≡ 1
    → All (λ q. is_child q ≡ true) rest.with_parent_requests
    → Covers s.refs s.next_ref
        (r ∷ (rest.no_parent_requests ++ rest.with_parent_requests) ++ s.creation_queue)
    → IsValid (create_next r rest o parent s)
      × (steps (create_next r rest o parent s) ≡ steps_of (some rest) s.creation_queue)
create_next-Ticked none r rest o s e h l a c = ground arith
create_next-Ticked (some p) r rest o s e h l a c =
    create_child-Ticked (s.refs p) r rest o s
      (subst (λ x. backed (λ q. is_settled (s.refs q)) x ≡ true) e c.1.0) l a c

tick_round-Ticked :
    (ns ws : List TaskCreationRequest) (o : Option ℕ) (s : QueuedTasks)
    → Valid s (some (record { no_parent_requests = ns; with_parent_requests = ws }))
    → Ticked s
        (some (record { no_parent_requests = ns; with_parent_requests = ws }))
        (tick_round ns ws o s)
tick_round-Ticked (r ∷ rs) ws o s (c, (l, a)) =
    let (v, e) =
      settle_ref-Ticked r (record { no_parent_requests = rs; with_parent_requests = ws }) none o s l
        a c in
    (v, omega (arith, e))
tick_round-Ticked [] (w ∷ ws) o s (c, (l, a)) =
    let (v, e) =
      create_next-Ticked w.parent_ref w
        (record { no_parent_requests = []; with_parent_requests = ws }) o s refl a.0 l a.1 c in
    (v, omega (arith, e))
tick_round-Ticked [] [] o s (c, (l, a)) =
    let (v, e) = next_round-Ticked s.creation_queue s l refl c in (v, omega (arith, e))

tick_task-Ticked :
    (t : Option Round) (o : Option ℕ) (s : QueuedTasks)
    → s.creation_task ≡ t
    → Valid s t
    → IsValid (tick_task t o s) × (steps (tick_task t o s) ≤ steps_of t s.creation_queue - 1)
tick_task-Ticked none o s e v = rw e (v, omega arith)
tick_task-Ticked (some b) o s e v =
    let (w, l) = tick_round-Ticked b.no_parent_requests b.with_parent_requests o s v in
    (w, omega (arith, l))

pub Reach-IsValid : (s : QueuedTasks) → Reach s → IsValid s
unfolding tick
Reach-IsValid s fresh = ((λ r l n. ground arith, tt), (refl, refl))
Reach-IsValid s (adds {s = t} parent k r) = add_task-IsValid parent t k (Reach-IsValid t r)
Reach-IsValid s (ticks {s = t} o r) =
    (tick_task-Ticked t.creation_task o t refl (Reach-IsValid t r)).0

-- Every reference is settled, no task works off the queue and the lock is released.
abbrev pub AllSettled : QueuedTasks → Type 0
AllSettled s =
    ((r : ℕ) → r < s.next_ref → is_settled (s.refs r) ≡ true)
    × (s.creation_task ≡ none)
    × (s.locks ≡ 0)

idle-AllSettled :
    (t : Option Round) (s : QueuedTasks)
    → s.creation_task ≡ t
    → Valid s t
    → steps_of t s.creation_queue ≡ 0
    → AllSettled s
idle-AllSettled none s e (c, (q, l)) h =
    (λ r k. let w = (subst (Covers s.refs s.next_ref) q c).0 r k in ground arith, e, l)
idle-AllSettled (some b) s e v h = ground arith

run_ticks-AllSettled :
    (os : List (Option ℕ)) (s : QueuedTasks)
    → IsValid s
    → steps s ≤ length os
    → AllSettled (run_ticks os s)
unfolding run_ticks tick
run_ticks-AllSettled [] s v h = idle-AllSettled s.creation_task s refl v (omega (arith, h))
run_ticks-AllSettled (o ∷ os) s v h =
    let (w, l) = tick_task-Ticked s.creation_task o s refl v in
    run_ticks-AllSettled os (tick o s) w (omega (arith, l, h))

-- Whatever calls of add_task and steps of the task came before, and whatever the creations of the
-- rows come to: after as many steps as are left every reference has its id or its error, no task
-- works off the queue, and the lock of the application is released. None waits for its parent for
-- ever.
pub Reach-AllSettled :
    (s : QueuedTasks) (os : List (Option ℕ))
    → Reach s
    → steps s ≤ length os
    → AllSettled (run_ticks os s)
Reach-AllSettled s os r h = run_ticks-AllSettled os s (Reach-IsValid s r) h
