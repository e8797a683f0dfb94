-- ===== src/DbPools.antt =====
-- db/postgres.py and db/csm_set_postgres.py: a pool that is created on first use and kept in a global of
-- its module. The tasks of the event loop interleave where the functions await: between the test of
-- `get_pool` and its assignment, and between the close of a pool and the reset of the global. A pool
-- is its number.
use quant_api_gateway.Prelude.{
  ℕ, suc, ◌-◌, ◌≤◌, ◌≡◌, refl, ap, ◌∙◌, inl, inr, true, Option, none, some, List, [], ◌∷◌, arith,
  ◌==◌, if◌then◌else◌, Option-cases, is_none,
}

pub record Store : Type 0 where
  pub pool : Option ℕ
  pub next : ℕ
  -- the tasks that await `create_pool`, and the pool whose `close` is awaited
  pub waiting : ℕ
  pub closing : Option ℕ
  -- the pools that were created and not closed
  pub opened : List ℕ

abbrev pub start : Store
start = record { pool = none; next = 0; waiting = 0; closing = none; opened = [] }

-- `get_pool` up to its first await, or to its return.
abbrev pub enter : Store → Store
enter s = record {
  pool = s.pool;
  next = s.next;
  waiting = if is_none s.pool then suc s.waiting else s.waiting;
  closing = s.closing;
  opened = s.opened;
}

-- `_pool = await asyncpg.create_pool(…)`, when the call returns a pool.
abbrev pub arrive : Store → Store
arrive s = record {
  pool = some s.next;
  next = suc s.next;
  waiting = s.waiting - 1;
  closing = s.closing;
  opened = s.next ∷ s.opened;
}

-- The same, when it raises.
abbrev give_up : Store → Store
give_up s = record {
  pool = s.pool;
  next = s.next;
  waiting = s.waiting - 1;
  closing = s.closing;
  opened = s.opened;
}

-- `close_pool` up to its await.
abbrev begin_close : Store → Store
begin_close s = record {
  pool = s.pool;
  next = s.next;
  waiting = s.waiting;
  closing = s.pool;
  opened = s.opened;
}

abbrev pub without : ℕ → List ℕ → List ℕ
without p [] = []
without p (q ∷ qs) = let rest = without p qs in if p == q then rest else q ∷ rest

-- The pool is closed, and `_pool = None`.
abbrev end_close : ℕ → Store → Store
end_close p s = record {
  pool = none;
  next = s.next;
  waiting = s.waiting;
  closing = none;
  opened = without p s.opened;
}

-- No task is in the midst of either function.
abbrev IsIdle : Store → Type 0
IsIdle s = (s.waiting ≡ 0) × (s.closing ≡ none)

-- A step of some task, and the same where a function is only entered when no other runs.
pub data Step : Store → Store → Type 0 where
  enters : (s : Store) → Step s (enter s)
  arrives : (s : Store) → 1 ≤ s.waiting → Step s (arrive s)
  gives_up : (s : Store) → 1 ≤ s.waiting → Step s (give_up s)
  begins : (s : Store) → Step s (begin_close s)
  ends : (s : Store) (p : ℕ) → s.closing ≡ some p → Step s (end_close p s)

pub data SerialStep : Store → Store → Type 0 where
  enters_alone : (s : Store) → IsIdle s → SerialStep s (enter s)
  arrives_alone : (s : Store) → 1 ≤ s.waiting → SerialStep s (arrive s)
  gives_up_alone : (s : Store) → 1 ≤ s.waiting → SerialStep s (give_up s)
  begins_alone : (s : Store) → IsIdle s → SerialStep s (begin_close s)
  ends_alone : (s : Store) (p : ℕ) → s.closing ≡ some p → SerialStep s (end_close p s)

pub data Run (R : Store → Store → Type 0) : Store → Store → Type 0 where
  done : {s : Store} → Run R s s
  also : {s t u : Store} → Run R s t → R t u → Run R s u

abbrev held : Option ℕ → List ℕ
held none = []
held (some p) = p ∷ []

-- The pools that are open are the one in the global; a task awaits `create_pool` only while there
-- is none and none is being closed, and only the pool in the global is being closed.
abbrev pub IsOwned : Store → Type 0
IsOwned s =
    (s.opened ≡ held s.pool)
    × (s.waiting ≤ 1)
    × (1 ≤ s.waiting → (s.pool ≡ none) × (s.closing ≡ none))
    × ((p : ℕ) → s.closing ≡ some p → s.pool ≡ some p)

enter-IsOwned : (s : Store) → IsIdle s → IsOwned s → IsOwned (enter s)
enter-IsOwned s (idle, open_) (own, one, empty, same) = elim (Option-cases s.pool) [
  | inl e ↦ (own, rw e (omega arith), λ h. (e, open_), same)
  | inr (p, e) ↦
      (own, rw e one, λ h. let k : 1 ≤ s.waiting = rw e at h in absurd (omega arith), same)
]

without-held : (p : ℕ) → without p (held (some p)) ≡ []
without-held p = let e : (p == p) ≡ true = ground arith in rw e refl

step-IsOwned : {s t : Store} → SerialStep s t → IsOwned s → IsOwned t
step-IsOwned (enters_alone s idle) own = enter-IsOwned s idle own
step-IsOwned (arrives_alone s h) (own, one, empty, same) =
    let (no_pool, not_closing) = empty h in
    (
      ap (λ o. s.next ∷ o) (own ∙ ap held no_pool),
      omega arith,
      λ k. absurd (omega arith),
      λ p e. cc,
    )
step-IsOwned (gives_up_alone s h) (own, one, empty, same) =
    (own, omega arith, λ k. absurd (omega arith), same)
step-IsOwned (begins_alone s (idle, open_)) (own, one, empty, same) =
    (own, one, λ k. absurd (omega arith), λ p e. e)
step-IsOwned (ends_alone s p e) (own, one, empty, same) =
    (ap (without p) (own ∙ ap held (same p e)) ∙ without-held p, one, λ h. (refl, refl), λ q f. cc)

-- Where no task enters `get_pool` or `close_pool` while another is in the midst of one, every pool
-- that is open is the one in the global, after any number of steps.
pub serial-Run-IsOwned : {s : Store} → Run SerialStep start s → IsOwned s
serial-Run-IsOwned done = (refl, omega arith, λ h. absurd (omega arith), λ p e. cc)
serial-Run-IsOwned (also r st) = step-IsOwned st (serial-Run-IsOwned r)

-- Two tasks that enter `get_pool` one after the other before the first pool is there each create one:
-- the second replaces the first in the global, and the first stays open.
pub get_pool-leaks :
    (s : Store)
    → s.pool ≡ none
    → (t : Store) × Run Step s t
      × (t.pool ≡ some (suc s.next))
      × (t.opened ≡ suc s.next ∷ s.next ∷ s.opened)
get_pool-leaks s empty = (
  arrive (arrive (enter (enter s))),
  also
      (also (also (also done (enters s)) (enters (enter s)))
        (arrives (enter (enter s)) (rw empty (omega arith))))
      (arrives (arrive (enter (enter s))) (rw empty (omega arith))),
  refl,
  refl,
)
