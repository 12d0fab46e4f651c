-- ===== src/QueueWorker/AutoRemove/Guards.antt =====
-- The tests that the removal of a finished task makes of the logs and of the rows.
use fastedgy.Prelude.{
  ap, ◌∙◌, ℕ, ◌≡◌, refl, sym, inl, inr, Bool, true, false, none, String, List, [], ◌∷◌, ◌==◌,
  Bool-cases, ==_iff, arith,
}
use mathlib.Core.List.{Memᴰ}
use mathlib.Core.Path.{subst}
use text.Mathlib.Text.{◌==◌ as str_eq}
use fastedgy.QueuedTask.{
  QueuedTask, QueuedTaskState, enqueued, waiting, doing, stopped, done, failed, cancelled,
}
use fastedgy.Queue.Cascade.{is_failed}
use fastedgy.Queue.{is_done}
use fastedgy.QueueWorker.AutoRemove.{has_grave_log, has_failed, returned_parent}

pub done-of : (s : QueuedTaskState) → is_done s ≡ true → s ≡ done
done-of s h = ground arith

pub log-has_grave_log :
    (all : List (ℕ × String)) (id : ℕ) (l : String)
    → Memᴰ (id, l) all
    → has_grave_log all id ≡ false
    → (str_eq l "error" ≡ false) × (str_eq l "critical" ≡ false)
unfolding has_grave_log
log-has_grave_log [] id l m h = elim m [ ]
log-has_grave_log ((task, k) ∷ rest) id l (Memᴰ.head e) h =
    let first = ap (λ (x : ℕ × String). x.0) e in
    let same = (==_iff task id).1 (sym first) in
    let kind : (str_eq k "error" ≡ false) × (str_eq k "critical" ≡ false) = ground arith in
    subst (λ x. (str_eq x "error" ≡ false) × (str_eq x "critical" ≡ false))
      (sym (ap (λ (x : ℕ × String). x.1) e)) kind
log-has_grave_log ((task, k) ∷ rest) id l (Memᴰ.tail m) h =
    log-has_grave_log rest id l m (ground arith)

pub no_grave-has_grave_log :
    (all : List (ℕ × String)) (id : ℕ)
    → ((l : String) → Memᴰ (id, l) all → (str_eq l "error" ≡ false) × (str_eq l "critical" ≡ false))
    → has_grave_log all id ≡ false
unfolding has_grave_log
no_grave-has_grave_log [] id h = refl
no_grave-has_grave_log ((task, k) ∷ rest) id h =
    let below = no_grave-has_grave_log rest id (λ l m. h l (Memᴰ.tail m)) in
    elim (Bool-cases (task == id)) [
      | inl y ↦
          let kind = h k (Memᴰ.head (ap (λ i. (i, k)) (sym ((==_iff task id).0 y)))) in ground arith
      | inr n ↦ ground arith
    ]

not_first :
    (id : ℕ) (t u : QueuedTask) (us : List QueuedTask)
    → (u.id == id) ≡ false
    → Memᴰ t (u ∷ us)
    → t.id ≡ id
    → Memᴰ t us
not_first id t u us n (Memᴰ.head h) e =
    let same = (==_iff u.id id).1 (ap (λ (x : QueuedTask). x.id) (sym h) ∙ e) in ground arith
not_first id t u us n (Memᴰ.tail m) e = m

not_failed : (s : QueuedTaskState) → ¬ (s ≡ failed) → is_failed s ≡ false
not_failed failed n = elim (n refl) [ ]
not_failed enqueued n = refl
not_failed waiting n = refl
not_failed doing n = refl
not_failed stopped n = refl
not_failed done n = refl
not_failed cancelled n = refl

pub failed-has_failed :
    (id : ℕ) (t : QueuedTask) (rows : List QueuedTask)
    → ((u : QueuedTask) → Memᴰ u rows → u.id ≡ id → u.state ≡ failed)
    → Memᴰ t rows
    → t.id ≡ id
    → has_failed rows id ≡ true
unfolding has_failed
failed-has_failed id t [] all m e = elim m [ ]
failed-has_failed id t (u ∷ us) all m e = elim (Bool-cases (u.id == id)) [
  | inl y ↦ let ended = all u (Memᴰ.head refl) ((==_iff u.id id).0 y) in rw y (rw ended refl)
  | inr n ↦
      rw n (failed-has_failed id t us (λ v k. all v (Memᴰ.tail k)) (not_first id t u us n m e) e)
]

pub open-has_failed :
    (id : ℕ) (rows : List QueuedTask)
    → ((u : QueuedTask) → Memᴰ u rows → u.id ≡ id → ¬ (u.state ≡ failed))
    → has_failed rows id ≡ false
unfolding has_failed
open-has_failed id [] all = refl
open-has_failed id (u ∷ us) all = elim (Bool-cases (u.id == id)) [
  | inl y ↦
      let other = all u (Memᴰ.head refl) ((==_iff u.id id).0 y) in rw y (not_failed u.state other)
  | inr n ↦ rw n (open-has_failed id us (λ v k. all v (Memᴰ.tail k)))
]

pub returned_parent-none :
    (test : QueuedTask → Bool) (t : QueuedTask) (rows : List QueuedTask)
    → returned_parent test rows ≡ none
    → Memᴰ t rows
    → test t ≡ false
unfolding returned_parent
returned_parent-none test t [] e m = elim m [ ]
returned_parent-none test t (u ∷ us) e (Memᴰ.head h) =
    subst (λ x. test x ≡ false) (sym h) (ground arith)
returned_parent-none test t (u ∷ us) e (Memᴰ.tail m) =
    returned_parent-none test t us (ground arith) m
