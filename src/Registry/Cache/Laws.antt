-- ===== src/Registry/Cache/Laws.antt =====
-- What the cache serves, and how many loads it has under way.
use examples_service.Common.{ℕ, ◌-◌, ◌<◌, ◌≡◌, refl, ap, ◌∙◌, sym, subst, Bool, true, false, arith}
use examples_service.Common.{Option, none, some, List, [], ◌∷◌, ◌++◌, All, any, ◌==◌, nat_eq}
use examples_service.Common.{Bool-cases, inl, inr}
use mathlib.Core.Option.{some-injective}
use examples_service.Registry.Cache.{State, cached, Event, get_snapshot, loaded, failed, invalidate}
use examples_service.Registry.Cache.{is_fresh, load_or_join, answer_from, call, ended, step, after}

-- Neither fills the cache nor empties it.
abbrev pub is_quiet : {Snapshot : Type 0} → Event Snapshot → Bool
is_quiet (get_snapshot now) = true
is_quiet (loaded id snapshot now) = false
is_quiet (failed id) = true
is_quiet invalidate = false

-- The latest event of the history that fills or empties the cache is a load, which brought `snapshot` at
-- the time `at`.
pub record IsFilledBy {Snapshot : Type 0} (history : List (Event Snapshot)) (snapshot : Snapshot)
    (at : ℕ) : Type 0 where
  pub since : List (Event Snapshot)
  pub before : List (Event Snapshot)
  pub load : ℕ
  pub quiet : All (λ e. is_quiet e ≡ true) since
  pub split : history ≡ since ++ loaded load snapshot at ∷ before

module _ {Snapshot : Type 0} (ttl : ℕ) where
  load_or_join-keeps :
      (loading : Option ℕ) (s : State Snapshot)
      → ((load_or_join loading s).0.cached_snapshot ≡ s.cached_snapshot)
        × ((load_or_join loading s).0.cached_at ≡ s.cached_at)
  load_or_join-keeps none s = (refl, refl)
  load_or_join-keeps (some id) s = (refl, refl)

  answer_from-keeps :
      (now : ℕ) (o : Option Snapshot) (s : State Snapshot)
      → ((answer_from ttl now o s).0.cached_snapshot ≡ s.cached_snapshot)
        × ((answer_from ttl now o s).0.cached_at ≡ s.cached_at)
  answer_from-keeps now none s = load_or_join-keeps s.loading s
  answer_from-keeps now (some x) s = elim (Bool-cases (is_fresh ttl now s)) [
    | inl e ↦ rw e (refl, refl)
    | inr e ↦ rw e (load_or_join-keeps s.loading s)
  ]

  filled_later :
      (e : Event Snapshot) (history : List (Event Snapshot)) (snapshot : Snapshot) (at : ℕ)
      → is_quiet e ≡ true
      → IsFilledBy history snapshot at
      → IsFilledBy (e ∷ history) snapshot at
  filled_later e history snapshot at q f = record {
    since = e ∷ f.since;
    before = f.before;
    load = f.load;
    quiet = (q, f.quiet);
    split = ap (λ h. e ∷ h) f.split;
  }

  after-IsFilledBy :
      (history : List (Event Snapshot)) (snapshot : Snapshot)
      → (after ttl history).cached_snapshot ≡ some snapshot
      → IsFilledBy history snapshot (after ttl history).cached_at
  unfolding after step call
  after-IsFilledBy [] snapshot h = absurd cc
  after-IsFilledBy (get_snapshot now ∷ history) snapshot h =
      let s = after ttl history in
      let (same, when) = answer_from-keeps now s.cached_snapshot s in
      let older = after-IsFilledBy history snapshot (sym same ∙ h) in
      subst (IsFilledBy _ snapshot) (sym when) (filled_later _ _ _ _ refl older)
  after-IsFilledBy (loaded id x now ∷ history) snapshot h = record {
    since = [];
    before = history;
    load = id;
    quiet = tt;
    split = ap (λ y. loaded id y now ∷ history) (some-injective x snapshot h);
  }
  after-IsFilledBy (failed id ∷ history) snapshot h =
      filled_later _ _ _ _ refl (after-IsFilledBy history snapshot h)
  after-IsFilledBy (invalidate ∷ history) snapshot h = absurd cc

  load_or_join-promises :
      (loading : Option ℕ) (s : State Snapshot) (snapshot : Snapshot)
      → (load_or_join loading s).1 ≡ cached snapshot
      → ⊥
  load_or_join-promises none s snapshot h = cc
  load_or_join-promises (some id) s snapshot h = cc

  answer_cached :
      (now : ℕ) (o : Option Snapshot) (s : State Snapshot) (snapshot : Snapshot)
      → (answer_from ttl now o s).1 ≡ cached snapshot
      → (o ≡ some snapshot) × (0 < ttl) × (now - s.cached_at < ttl)
  answer_cached now none s snapshot h = absurd (load_or_join-promises s.loading s snapshot h)
  answer_cached now (some x) s snapshot h = elim (Bool-cases (is_fresh ttl now s)) [
    | inl e ↦ (ground arith, ground arith, ground arith)
    | inr e ↦ absurd (load_or_join-promises s.loading s snapshot (ground arith))
  ]

  -- A snapshot that is served from the cache was brought by the load that filled it last: no
  -- `invalidate` and no other load that succeeded has come since, while loads may have failed. Less
  -- than the time to live has passed; with a time to live of zero nothing is served from the cache.
  pub served_fresh :
      (history : List (Event Snapshot)) (now : ℕ) (snapshot : Snapshot)
      → (call ttl now (after ttl history)).1 ≡ cached snapshot
      → (at : ℕ) × IsFilledBy history snapshot at × (0 < ttl) × (now - at < ttl)
  unfolding call
  served_fresh history now snapshot h =
      let (there, positive, young) = answer_cached now _ (after ttl history) snapshot h in
      ((after ttl history).cached_at, after-IsFilledBy history snapshot there, positive, young)

-- Whether a load is under way, or the event is no end of a load.
abbrev pub is_possible : {Snapshot : Type 0} → Event Snapshot → State Snapshot → Bool
is_possible (get_snapshot now) s = true
is_possible (loaded id snapshot now) s = any (λ i. i == id) s.in_flight
is_possible (failed id) s = any (λ i. i == id) s.in_flight
is_possible invalidate s = true

abbrev pub is_invalidate : {Snapshot : Type 0} → Event Snapshot → Bool
is_invalidate invalidate = true
is_invalidate _ = false

abbrev pub promise_list : Option ℕ → List ℕ
promise_list none = []
promise_list (some id) = id ∷ []

-- The end of the only load leaves none.
ended_of_tracked :
    (id : ℕ) (loading : Option ℕ) (flight : List ℕ)
    → flight ≡ promise_list loading
    → any (λ i. i == id) flight ≡ true
    → ended id flight ≡ []
ended_of_tracked id none flight same p = rw same cc
ended_of_tracked id (some l) flight same p = rw same (ground arith)

module _ {Snapshot : Type 0} (ttl : ℕ) where
  abbrev IsTracked : State Snapshot → Type 0
  IsTracked s = s.in_flight ≡ promise_list s.loading

  load_or_join-tracks :
      (loading : Option ℕ) (s : State Snapshot)
      → s.loading ≡ loading
      → IsTracked s
      → IsTracked (load_or_join loading s).0
  load_or_join-tracks none s e t = ap (λ flight. s.started ∷ flight) (t ∙ ap promise_list e)
  load_or_join-tracks (some id) s e t = t

  answer_from-tracks :
      (now : ℕ) (o : Option Snapshot) (s : State Snapshot)
      → IsTracked s
      → IsTracked (answer_from ttl now o s).0
  answer_from-tracks now none s t = load_or_join-tracks s.loading s refl t
  answer_from-tracks now (some x) s t = elim (Bool-cases (is_fresh ttl now s)) [
    | inl e ↦ rw e t
    | inr e ↦ rw e (load_or_join-tracks s.loading s refl t)
  ]

  -- Only loads that are under way end, and nobody invalidates the cache.
  unfoldable pub IsUndisturbed : List (Event Snapshot) → Type 0
  IsUndisturbed [] = Unit
  IsUndisturbed (e ∷ history) =
      (is_possible e (after ttl history) ≡ true) × (is_invalidate e ≡ false) × IsUndisturbed history

  -- As long as nobody invalidates the cache, `loadingPromise` stands for the only load that is
  -- under way, and there is none under way when it is empty: concurrent callers share one load.
  pub one_load :
      (history : List (Event Snapshot))
      → IsUndisturbed history
      → (after ttl history).in_flight ≡ promise_list (after ttl history).loading
  unfolding after step call IsUndisturbed
  one_load [] u = refl
  one_load (get_snapshot now ∷ history) (p, i, u) =
      answer_from-tracks now _ (after ttl history) (one_load history u)
  one_load (loaded id x now ∷ history) (p, i, u) =
      ended_of_tracked id (after ttl history).loading _ (one_load history u) p
  one_load (failed id ∷ history) (p, i, u) =
      ended_of_tracked id (after ttl history).loading _ (one_load history u) p
  one_load (invalidate ∷ history) (p, i, u) = absurd cc
