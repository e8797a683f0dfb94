-- ===== src/Tests/Starting.antt =====
-- The pool at start-up, and two tasks that race for it.
use quant_api_gateway.Prelude.{◌≡◌, refl, some, [], ◌∷◌, arith}
use quant_api_gateway.DbPools.{
  Store, start, enter, arrive, Step, Run, also, done, enters_alone, arrives_alone, IsOwned,
  serial-Run-IsOwned, get_pool-leaks,
}

serial-Run-IsOwned_example : IsOwned (arrive (enter start))
serial-Run-IsOwned_example =
    serial-Run-IsOwned (
      also (also done (enters_alone start (refl, refl)))
        (arrives_alone (enter start) (omega arith)))

get_pool-leaks_example :
    (t : Store) × Run Step start t × (t.pool ≡ some 1) × (t.opened ≡ 1 ∷ 0 ∷ [])
get_pool-leaks_example = get_pool-leaks start refl
