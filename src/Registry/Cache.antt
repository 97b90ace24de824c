-- ===== src/Registry/Cache.antt =====
-- The cache of src/registry/registry-index.service.ts, as a machine over what happens to it: calls
-- of `getSnapshot` and `invalidate`, and the end of a load.
pub mod Laws
use examples_service.Common.{
  ℕ, suc, ◌-◌, Bool, true, false, ◌&&◌, Option, none, some, List, [], ◌∷◌,
}
use examples_service.Common.{ltb, ◌==◌, nat_eq, if◌then◌else◌, filter, not}

module _ (Snapshot : Type 0) where
  -- `loading` is the load that `loadingPromise` stands for; `in_flight` lists the loads that have
  -- been started and have not ended, and `started` counts all of them.
  pub record State : Type 0 where
    pub cached_snapshot : Option Snapshot
    pub cached_at : ℕ
    pub loading : Option ℕ
    pub in_flight : List ℕ
    pub started : ℕ

  -- What `getSnapshot` returns: the cached snapshot, or the promise of a load.
  pub data Answer : Type 0 where
    cached : Snapshot → Answer
    promised : ℕ → Answer

  -- A call carries the time, as does the end of a load that sets the cache.
  pub data Event : Type 0 where
    get_snapshot : ℕ → Event
    loaded : ℕ → Snapshot → ℕ → Event
    failed : ℕ → Event
    invalidate : Event

-- The loads in flight after the end of one.
abbrev pub ended : ℕ → List ℕ → List ℕ
ended id = filter (λ i. not (i == id))

module _ {Snapshot : Type 0} where
  abbrev pub load_or_join : Option ℕ → State Snapshot → State Snapshot × Answer Snapshot
  load_or_join (some id) s = (s, promised id)
  load_or_join none s = (
    record s {
      loading = some s.started;
      in_flight = s.started ∷ s.in_flight;
      started = suc s.started;
    },
    promised s.started,
  )

module _ {Snapshot : Type 0} (ttl : ℕ) where
  abbrev pub initial : State Snapshot
  initial = record {
    cached_snapshot = none;
    cached_at = 0;
    loading = none;
    in_flight = [];
    started = 0;
  }

  abbrev pub is_fresh : ℕ → State Snapshot → Bool
  is_fresh now s = ltb 0 ttl && ltb (now - s.cached_at) ttl

  abbrev pub answer_from : ℕ → Option Snapshot → State Snapshot → State Snapshot × Answer Snapshot
  answer_from now none s = load_or_join s.loading s
  answer_from now (some snapshot) s =
      if is_fresh now s then (s, cached snapshot) else load_or_join s.loading s

  unfoldable pub call : ℕ → State Snapshot → State Snapshot × Answer Snapshot
  call now s = answer_from now s.cached_snapshot s

  -- The handlers of a load's end do not look whether `loadingPromise` is still theirs.
  unfoldable pub step : Event Snapshot → State Snapshot → State Snapshot
  step (get_snapshot now) s = (call now s).0
  step (loaded id snapshot now) s = record s {
    cached_snapshot = some snapshot;
    cached_at = now;
    loading = none;
    in_flight = ended id s.in_flight;
  }
  step (failed id) s = record s { loading = none; in_flight = ended id s.in_flight }
  step invalidate s = record s { cached_snapshot = none; cached_at = 0; loading = none }

  -- The state after a history, whose latest event stands first.
  unfoldable pub after : List (Event Snapshot) → State Snapshot
  after [] = initial
  after (e ∷ history) = step e (after history)
