-- ===== src/QueueWorker/AutoRemove/Ancestors.antt =====
-- The chain of parents that the removal of a finished task goes up.
use fastedgy.Prelude.{
  ◌∙◌, ℕ, ◌≡◌, refl, sym, inl, inr, Bool, true, Option, some, List, [], ◌∷◌, Bool-cases, arith,
}
use mathlib.Core.List.{Memᴰ}
use mathlib.Core.Path.{subst}
use fastedgy.QueuedTask.{QueuedTask}
use fastedgy.QueueWorker.AutoRemove.{returned_parent}

-- The tasks up the chain of parents from a task, with the task.
pub data IsAncestor (table : List QueuedTask) (root : ℕ) : ℕ → Type 0 where
  itself : IsAncestor table root root
  parent_of :
      {p : ℕ} (t : QueuedTask)
      → IsAncestor table root t.id
      → Memᴰ t table
      → t.parent_task ≡ some p
      → IsAncestor table root p

-- The parent that a deletion returns is that of a row which it deletes.
returned_parent-some :
    (test : QueuedTask → Bool) (rows : List QueuedTask) (parent : Option ℕ)
    → returned_parent test rows ≡ some parent
    → (t : QueuedTask) × Memᴰ t rows × (test t ≡ true) × (t.parent_task ≡ parent)
unfolding returned_parent
returned_parent-some test [] parent e = ground arith
returned_parent-some test (t ∷ ts) parent e = elim (Bool-cases (test t)) [
  | inl y ↦ (t, Memᴰ.head refl, y, ground arith)
  | inr n ↦
      let (u, m, h, f) = returned_parent-some test ts parent (ground arith) in
      (u, Memᴰ.tail m, h, f)
]

-- The parent of an ancestor is one.
abbrev pub Leads : List QueuedTask → ℕ → Option ℕ → Type 0
Leads table root o = (p : ℕ) → o ≡ some p → IsAncestor table root p

pub returned-Leads :
    (test : QueuedTask → Bool) (root id : ℕ) (table rows : List QueuedTask) (parent : Option ℕ)
    → ((t : QueuedTask) → test t ≡ true → t.id ≡ id)
    → IsAncestor table root id
    → ((t : QueuedTask) → Memᴰ t rows → Memᴰ t table)
    → returned_parent test rows ≡ some parent
    → Leads table root parent
returned-Leads test root id table rows parent same a sub e p h =
    let (t, m, y, f) = returned_parent-some test rows parent e in
    parent_of t (subst (IsAncestor table root) (sym (same t y)) a) (sub t m) (f ∙ h)
