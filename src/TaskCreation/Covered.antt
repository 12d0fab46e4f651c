-- ===== src/TaskCreation/Covered.antt =====
-- What a request waits for, as calls of add_task come in.
use fastedgy.Prelude.{
  ◌≡◌, refl, ap, ◌∙◌, ℕ, ◌+◌, ◌*◌, ◌<◌, Bool, true, false, ◌||◌, Option, none, some, List, [], ◌∷◌,
  ◌++◌, ◌==◌, length, All, Bool-cases, inl, inr, append_assoc, arith,
}
use mathlib.Core.Path.{subst}
use fastedgy.TaskCreation.{
  RefState, unresolved, failed, identified, TaskCreationRequest, Round, QueuedTasks, set_ref,
  is_child, start_creation, add_task, Known,
}
use fastedgy.TaskCreation.Pending.{
  has_ref, backed, Backed, has_ref-append, Backed-Within, Backed-append,
}

abbrev pub is_settled : RefState → Bool
is_settled unresolved = false
is_settled failed = true
is_settled (identified id) = true

-- Each reference that was made is settled or has a request to do, whose parent is settled or has a
-- request in front of it.
abbrev pub Covers : (ℕ → RefState) → ℕ → List TaskCreationRequest → Type 0
Covers refs next todo =
    ((r : ℕ) → r < next → is_settled (refs r) ≡ false → has_ref r todo ≡ true)
    × Backed (λ p. is_settled (refs p)) todo

abbrev pub todo_of : Option Round → List TaskCreationRequest → List TaskCreationRequest
todo_of none queue = queue
todo_of (some b) queue = (b.no_parent_requests ++ b.with_parent_requests) ++ queue

-- The lock is held just while a task works off the queue, and else the queue is empty.
abbrev pub Running : Option Round → List TaskCreationRequest → ℕ → Type 0
Running none queue locks = (queue ≡ []) × (locks ≡ 0)
Running (some b) queue locks = (locks ≡ 1) × All (λ r. is_child r ≡ true) b.with_parent_requests

abbrev pub Valid : QueuedTasks → Option Round → Type 0
Valid s t =
    Covers s.refs s.next_ref (todo_of t s.creation_queue) × Running t s.creation_queue s.locks

abbrev pub IsValid : QueuedTasks → Type 0
IsValid s = Valid s s.creation_task

-- What is left for the task to do.
abbrev pub steps_of : Option Round → List TaskCreationRequest → ℕ
steps_of none queue = 0
steps_of (some b) queue =
    1 + length b.no_parent_requests + length b.with_parent_requests + 2 * length queue

abbrev pub steps : QueuedTasks → ℕ
steps s = steps_of s.creation_task s.creation_queue

pub set_ref-here :
    (r q : ℕ) (x : RefState) (refs : ℕ → RefState) → q == r ≡ true → set_ref r x refs q ≡ x
set_ref-here r q x refs h = rw h refl

pub set_ref-other :
    (r q : ℕ) (x : RefState) (refs : ℕ → RefState) → q == r ≡ false → set_ref r x refs q ≡ refs q
set_ref-other r q x refs h = rw h refl

-- The first request is settled.
pub Covers-tail :
    (refs : ℕ → RefState) (next : ℕ) (x : RefState) (r : TaskCreationRequest)
    (rs : List TaskCreationRequest)
    → is_settled x ≡ true
    → Covers refs next (r ∷ rs)
    → Covers (set_ref r.ref x refs) next rs
Covers-tail refs next x r rs h (waits, backs) = (
  λ q l n. elim (Bool-cases (q == r.ref)) [
    | inl y ↦ let e = set_ref-here r.ref q x refs y in ground arith
    | inr d ↦ let e = set_ref-other r.ref q x refs d in let w = waits q l in ground arith
  ],
  Backed-Within (λ p. p == r.ref || is_settled (refs p)) (λ p. is_settled (set_ref r.ref x refs p))
      rs
      (λ p k. elim (Bool-cases (p == r.ref)) [
        | inl y ↦ ap is_settled (set_ref-here r.ref p x refs y) ∙ h
        | inr d ↦ ap is_settled (set_ref-other r.ref p x refs d) ∙ ground arith
      ])
      backs.1,
)

Covers-snoc :
    (refs : ℕ → RefState) (next : ℕ) (parent : Option ℕ) (todo : List TaskCreationRequest)
    → backed (λ p. has_ref p todo || is_settled (refs p)) parent ≡ true
    → Covers refs next todo
    → Covers refs (next + 1) (todo ++ record { ref = next; parent_ref = parent } ∷ [])
Covers-snoc refs next parent todo h (waits, backs) = (
  λ q l n.
      let last = has_ref-append q todo (record { ref = next; parent_ref = parent } ∷ []) in
      let w = waits q in ground arith,
  Backed-append (λ p. is_settled (refs p)) todo (record { ref = next; parent_ref = parent } ∷ [])
      backs (h, tt),
)

Known-backed :
    (parent : Option ℕ) (s : QueuedTasks) (todo : List TaskCreationRequest)
    → Known parent s
    → Covers s.refs s.next_ref todo
    → backed (λ p. has_ref p todo || is_settled (s.refs p)) parent ≡ true
Known-backed none s todo k c = refl
Known-backed (some p) s todo k c = let w = c.0 p k in ground arith

-- A request behind the queue.
abbrev pub enlist : Option ℕ → QueuedTasks → QueuedTasks
enlist parent s = record s {
  creation_queue = s.creation_queue ++ record { ref = s.next_ref; parent_ref = parent } ∷ [];
  next_ref = s.next_ref + 1;
}

start_creation-IsValid :
    (t : Option Round) (parent : Option ℕ) (s : QueuedTasks)
    → s.creation_task ≡ t
    → Known parent s
    → Valid s t
    → IsValid (start_creation t (enlist parent s))
start_creation-IsValid none parent s e k (c, r) =
    let h = Known-backed parent s s.creation_queue k c in
    (Covers-snoc s.refs s.next_ref parent s.creation_queue h c, (omega (arith, r.1), tt))
start_creation-IsValid (some b) parent s e k (c, r) =
    let front = b.no_parent_requests ++ b.with_parent_requests in
    let h = Known-backed parent s (front ++ s.creation_queue) k c in
    rw e (
      subst (Covers s.refs (s.next_ref + 1))
          (append_assoc front s.creation_queue
            (record { ref = s.next_ref; parent_ref = parent } ∷ []))
          (Covers-snoc s.refs s.next_ref parent (front ++ s.creation_queue) h c),
      r,
    )

pub add_task-IsValid :
    (parent : Option ℕ) (s : QueuedTasks) → Known parent s → IsValid s → IsValid (add_task parent s)
unfolding add_task
add_task-IsValid parent s k v = start_creation-IsValid s.creation_task parent s refl k v
