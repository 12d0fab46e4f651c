-- ===== src/Sync/Names.antt =====
-- Names of the fields of a payload: kept, filtered, removed and popped.
use fastedgy.Prelude.{
  Bool, true, false, none, String, List, [], ◌∷◌, filter, if◌then◌else◌, ◌≡◌, refl, arith, ◌&&◌,
  eq_iff,
}
use fastedgy.Prelude.Dict.{has_name, lookup, pop, keys, keep_keys, lookup-pop}
use fastedgy.Sync.{Value, remove_first, pop_all}
use fastedgy.Sync.Rounds.{no_repeat}

pub has_name-filter :
    (g : String) (test : String → Bool) (ks : List String)
    → has_name g (filter test ks) ≡ (test g && has_name g ks)
unfolding has_name
has_name-filter g test [] = ground arith
has_name-filter g test (k ∷ ks) = ground (arith, eq_iff k g, has_name-filter g test ks)

pub no_repeat-filter :
    (test : String → Bool) (ks : List String)
    → no_repeat ks ≡ true
    → no_repeat (filter test ks) ≡ true
unfolding no_repeat
no_repeat-filter test [] h = refl
no_repeat-filter test (k ∷ ks) h =
    let rest = no_repeat-filter test ks (ground arith) in
    ground (arith, rest, has_name-filter k test ks)

pub has_name-keep_keys :
    (g : String) (keep : String → Bool) (d : List (String × Value))
    → has_name g (keys (keep_keys keep d)) ≡ (keep g && has_name g (keys d))
unfolding has_name keys keep_keys
has_name-keep_keys g keep [] = ground arith
has_name-keep_keys g keep ((k, v) ∷ d) = ground (arith, eq_iff k g, has_name-keep_keys g keep d)

pub no_repeat-keep_keys :
    (keep : String → Bool) (d : List (String × Value))
    → no_repeat (keys d) ≡ true
    → no_repeat (keys (keep_keys keep d)) ≡ true
unfolding no_repeat keys keep_keys
no_repeat-keep_keys keep [] h = refl
no_repeat-keep_keys keep ((k, v) ∷ d) h =
    let rest = no_repeat-keep_keys keep d (ground arith) in
    ground (arith, rest, has_name-keep_keys k keep d)

pub has_name-remove_own :
    (g : String) (js : List String) → no_repeat js ≡ true → has_name g (remove_first g js) ≡ false
unfolding has_name no_repeat
has_name-remove_own g [] h = refl
has_name-remove_own g (j ∷ js) h =
    let rest = has_name-remove_own g js (ground arith) in ground (arith, eq_iff j g, rest)

pub lookup-pop_all :
    (g : String) (fs : List String) (d : List (String × Value))
    → lookup g (pop_all fs d) ≡ (if has_name g fs then none else lookup g d)
unfolding has_name pop_all
lookup-pop_all g [] d = refl
lookup-pop_all g (f ∷ fs) d =
    ground (arith, eq_iff f g, lookup-pop f g d, lookup-pop_all g fs (pop f d))
