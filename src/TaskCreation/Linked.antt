-- ===== src/TaskCreation/Linked.antt =====
-- Which parents the rows are made with.
use fastedgy.Prelude.{
  ◌≡◌, refl, sym, ap, ◌∙◌, ℕ, Option, none, some, List, [], ◌∷◌, ◌++◌, ◌==◌, ==_iff, not, filter,
  All, append-nil, append_assoc, Bool-cases, inl, inr, arith,
}
use mathlib.Core.List.{Memᴰ}
use mathlib.Core.List.Memᴰ
use mathlib.Core.Path.{subst}
use fastedgy.TaskCreation.Covered.{set_ref-here, set_ref-other}
use fastedgy.TaskCreation.{
  RefState, unresolved, failed, identified, TaskCreationRequest, Creation, Round, QueuedTasks,
  is_child, start_creation, add_task, settle_ref, with_round, create_child, create_next, next_round,
  tick_round, tick_task, tick, Reach, fresh, adds, ticks,
}

-- The parent of a row asked for without one is none; that of any other is the row that was made before
-- for the reference it was asked for with.
abbrev pub ParentFrom : List Creation → Option ℕ → Option ℕ → Type 0
ParentFrom earlier none id = id ≡ none
ParentFrom earlier (some p) id =
    (d : Creation) × Memᴰ d earlier × (d.request.ref ≡ p) × (id ≡ some d.id)

abbrev pub LinkedFrom : List Creation → List Creation → Type 0
LinkedFrom earlier [] = Unit
LinkedFrom earlier (c ∷ cs) =
    ParentFrom earlier c.request.parent_ref c.parent_id × LinkedFrom (earlier ++ c ∷ []) cs

-- The rows in the order in which they are made.
abbrev pub IsLinked : List Creation → Type 0
IsLinked log = LinkedFrom [] log

LinkedFrom-snoc :
    (earlier cs : List Creation) (c : Creation)
    → LinkedFrom earlier cs
    → ParentFrom (earlier ++ cs) c.request.parent_ref c.parent_id
    → LinkedFrom earlier (cs ++ c ∷ [])
LinkedFrom-snoc earlier [] c l p =
    (subst (λ xs. ParentFrom xs c.request.parent_ref c.parent_id) (append-nil earlier) p, tt)
LinkedFrom-snoc earlier (x ∷ xs) c l p = (
  l.0,
  LinkedFrom-snoc (earlier ++ x ∷ []) xs c l.1 (
      subst (λ ys. ParentFrom ys c.request.parent_ref c.parent_id)
        (sym (append_assoc earlier (x ∷ []) xs)) p),
)

-- Each id of a reference is that of a row made for it.
abbrev Logged : (ℕ → RefState) → List Creation → Type 0
Logged refs log =
    (r id : ℕ)
    → refs r ≡ identified id
    → (d : Creation) × Memᴰ d log × (d.request.ref ≡ r) × (d.id ≡ id)

abbrev Orphans : Option Round → Type 0
Orphans none = Unit
Orphans (some b) = All (λ r. r.parent_ref ≡ none) b.no_parent_requests

abbrev Holds : QueuedTasks → Type 0
Holds s = Logged s.refs s.log × IsLinked s.log

abbrev IsValid : QueuedTasks → Type 0
IsValid s = Holds s × Orphans s.creation_task

settle_ref-none-Holds :
    (r : TaskCreationRequest) (parent : Option ℕ) (s : QueuedTasks)
    → Holds s
    → Holds (settle_ref r parent none s)
unfolding settle_ref
settle_ref-none-Holds r parent s (g, l) = (
  λ q id e. elim (Bool-cases (q == r.ref)) [
    | inl y ↦ let f = set_ref-here r.ref q failed s.refs y in cc
    | inr n ↦ g q id (sym (set_ref-other r.ref q failed s.refs n) ∙ e)
  ],
  l,
)

settle_ref-Holds :
    (r : TaskCreationRequest) (parent o : Option ℕ) (s : QueuedTasks)
    → ParentFrom s.log r.parent_ref parent
    → Holds s
    → Holds (settle_ref r parent o s)
unfolding settle_ref
settle_ref-Holds r parent none s p h = settle_ref-none-Holds r parent s h
settle_ref-Holds r parent (some i) s p (g, l) =
    let c : Creation = record { id = i; request = r; parent_id = parent } in
    (
      λ q id e. elim (Bool-cases (q == r.ref)) [
        | inl y ↦
            let f = set_ref-here r.ref q (identified i) s.refs y in
            (c, Memᴰ.append_right s.log (Memᴰ.head refl), sym ((==_iff q r.ref).0 y), cc)
        | inr n ↦
            let (d, m, h, k) = g q id (sym (set_ref-other r.ref q (identified i) s.refs n) ∙ e) in
            (d, Memᴰ.append_left (c ∷ []) m, h, k)
      ],
      LinkedFrom-snoc [] s.log c l p,
    )

settle_ref-task :
    (r : TaskCreationRequest) (parent o : Option ℕ) (s : QueuedTasks)
    → (settle_ref r parent o s).creation_task ≡ s.creation_task
unfolding settle_ref
settle_ref-task r parent none s = refl
settle_ref-task r parent (some i) s = refl

settle_ref-IsValid :
    (r : TaskCreationRequest) (parent o : Option ℕ) (b : Round) (s : QueuedTasks)
    → All (λ q. q.parent_ref ≡ none) b.no_parent_requests
    → ParentFrom s.log r.parent_ref parent
    → Holds s
    → IsValid (settle_ref r parent o (with_round b s))
settle_ref-IsValid r parent o b s a p h = (
  settle_ref-Holds r parent o (with_round b s) p h,
  subst Orphans (sym (settle_ref-task r parent o (with_round b s))) a,
)

create_child-IsValid :
    (x : RefState) (r : TaskCreationRequest) (rest : Round) (p : ℕ) (o : Option ℕ) (s : QueuedTasks)
    → s.refs p ≡ x
    → r.parent_ref ≡ some p
    → All (λ q. q.parent_ref ≡ none) rest.no_parent_requests
    → IsValid s
    → IsValid (create_child r rest o x s)
create_child-IsValid unresolved r rest p o s e h a v = v
create_child-IsValid failed r rest p o s e h a v = (
  settle_ref-none-Holds r none (with_round rest s) v.0,
  subst Orphans (sym (settle_ref-task r none none (with_round rest s))) a,
)
create_child-IsValid (identified i) r rest p o s e h a v =
    let (d, m, k, l) = v.0.0 p i e in
    settle_ref-IsValid r (some i) o rest s a
      (subst (λ x. ParentFrom s.log x (some i)) (sym h) (d, m, k, ap some (sym l))) v.0

create_next-IsValid :
    (parent : Option ℕ) (r : TaskCreationRequest) (rest : Round) (o : Option ℕ) (s : QueuedTasks)
    → r.parent_ref ≡ parent
    → All (λ q. q.parent_ref ≡ none) rest.no_parent_requests
    → IsValid s
    → IsValid (create_next r rest o parent s)
create_next-IsValid none r rest o s h a v = (v.0, a)
create_next-IsValid (some p) r rest o s h a v =
    create_child-IsValid (s.refs p) r rest p o s refl h a v

filter-orphans :
    (q : List TaskCreationRequest)
    → All (λ r. r.parent_ref ≡ none) (filter (λ r. not (is_child r)) q)
filter-orphans [] = tt
filter-orphans (r ∷ rs) = elim (Bool-cases (is_child r)) [
  | inl y ↦ rw y (filter-orphans rs)
  | inr n ↦ rw n (ground arith, filter-orphans rs)
]

next_round-IsValid :
    (queue : List TaskCreationRequest) (s : QueuedTasks) → Holds s → IsValid (next_round queue s)
unfolding next_round
next_round-IsValid [] s h = (h, tt)
next_round-IsValid (r ∷ rs) s h = (h, filter-orphans (r ∷ rs))

tick_round-IsValid :
    (ns ws : List TaskCreationRequest) (o : Option ℕ) (s : QueuedTasks)
    → All (λ q. q.parent_ref ≡ none) ns
    → IsValid s
    → IsValid (tick_round ns ws o s)
tick_round-IsValid (r ∷ rs) ws o s a v =
    settle_ref-IsValid r none o (record { no_parent_requests = rs; with_parent_requests = ws }) s
      a.1 (subst (λ x. ParentFrom s.log x none) (sym a.0) refl) v.0
tick_round-IsValid [] (w ∷ ws) o s a v =
    create_next-IsValid w.parent_ref w
      (record { no_parent_requests = []; with_parent_requests = ws }) o s refl tt v
tick_round-IsValid [] [] o s a v = next_round-IsValid s.creation_queue s v.0

tick_task-IsValid :
    (t : Option Round) (o : Option ℕ) (s : QueuedTasks)
    → Orphans t
    → IsValid s
    → IsValid (tick_task t o s)
tick_task-IsValid none o s a v = v
tick_task-IsValid (some b) o s a v =
    tick_round-IsValid b.no_parent_requests b.with_parent_requests o s a v

start_creation-IsValid :
    (t : Option Round) (s : QueuedTasks) → IsValid s → IsValid (start_creation t s)
start_creation-IsValid none s v = (v.0, tt)
start_creation-IsValid (some b) s v = v

Reach-IsValid : (s : QueuedTasks) → Reach s → IsValid s
unfolding tick add_task
Reach-IsValid s fresh = ((λ r id e. ground arith, tt), tt)
Reach-IsValid s (adds {s = t} parent k r) =
    start_creation-IsValid t.creation_task _ (Reach-IsValid t r)
Reach-IsValid s (ticks {s = t} o r) =
    let v = Reach-IsValid t r in tick_task-IsValid t.creation_task o t v.1 v

-- However the calls of add_task and the steps of the task are mixed: each row asked for with a parent
-- is made after the row of that parent and with its id, and each row asked for without one is made
-- without one.
pub Reach-IsLinked : (s : QueuedTasks) → Reach s → IsLinked s.log
Reach-IsLinked s r = (Reach-IsValid s r).0.1
