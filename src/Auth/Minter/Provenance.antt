-- ===== src/Auth/Minter/Provenance.antt =====
-- Where a cached token comes from.
pub mod Delivered
use examples_service.Auth.Minter.Provenance.Delivered.{IsDelivered, entry_of}
use examples_service.Common.{ℕ, ◌+◌, ◌<◌, ◌≡◌, refl, sym, ap, ◌∙◌, subst, String, arith, inl, inr}
use examples_service.Common.{Option, none, some, List, [], ◌∷◌, ◌++◌, ◌==◌, string_eq, Bool-cases}
use examples_service.Common.Dict.{lookup, erase, lookup-insert, lookup-erase}
use examples_service.Common.Text.{truthy}
use examples_service.Js.{Fields}
use examples_service.Errors.{Result, ok, err}
use examples_service.Auth.Scopes.{cache_key}
use examples_service.Auth.Minter.{
  Config, CacheEntry, MintedToken, hit, Reply, Request, State, Answer, cached,
}
use examples_service.Auth.Minter.{
  Event, mint, replied, is_expired, read_entry, join_or_request, mint_from, mint_token,
}
use examples_service.Auth.Minter.{minted, store, end_request, step, after, clock_skew_ms}
use text.Mathlib.TextEquality.{eq_iff}

module _ (config : Config) where
  IsDelivered-later :
      (key : String) (entry : CacheEntry) (e : Event) (history : List Event)
      → IsDelivered config key entry history
      → IsDelivered config key entry (e ∷ history)
  IsDelivered-later key entry e history d = record {
    since = e ∷ d.since;
    before = d.before;
    at = d.at;
    reply = d.reply;
    request = d.request;
    answer = d.answer;
    split = ap (λ h. e ∷ h) d.split;
    open_then = d.open_then;
    answered = d.answered;
    stored = d.stored;
  }

  join_or_request-keeps :
      (k sender : String) (scopes : Option Fields) (o : Option Request) (s : State)
      → (join_or_request config k sender scopes o s).0.cache ≡ s.cache
  join_or_request-keeps k sender scopes (some r) s = refl
  join_or_request-keeps k sender scopes none s = ground arith

  mint_from-lookup :
      (now : ℕ) (j k sender : String) (scopes : Option Fields) (o : Option CacheEntry) (s : State)
      (entry : CacheEntry)
      → lookup j (mint_from config k sender scopes (read_entry now k o s)).0.cache ≡ some entry
      → lookup j s.cache ≡ some entry
  mint_from-lookup now j k sender scopes none s entry =
      λ h. ap (lookup j) (sym (join_or_request-keeps k sender scopes _ s)) ∙ h
  mint_from-lookup now j k sender scopes (some x) s entry = elim (Bool-cases (is_expired now x)) [
    | inl e ↦ rw e (λ h.
        let t : State = record s { cache = erase k s.cache } in
        let found : lookup j (erase k s.cache) ≡ some entry =
          ap (lookup j) (sym (join_or_request-keeps k sender scopes (lookup k s.inflight) t)) ∙ h in
        ground (arith, lookup-erase k j s.cache, eq_iff k j))
    | inr e ↦ rw e (λ h. h)
  ]

  mint_token-lookup :
      (now : ℕ) (j sender : String) (scopes : Option Fields) (s : State) (entry : CacheEntry)
      → lookup j (mint_token config now sender scopes s).0.cache ≡ some entry
      → lookup j s.cache ≡ some entry
  unfolding mint_token
  mint_token-lookup now j sender scopes s entry = elim (Bool-cases (truthy sender)) [
    | inl e ↦
        rw e (
          mint_from-lookup now j (cache_key sender scopes) sender scopes (lookup _ s.cache) s entry)
    | inr e ↦ rw e (λ h. h)
  ]

  -- What the end of a request stores, and what it leaves.
  store-IsDelivered :
      (now : ℕ) (k key : String) (reply : Reply) (entry : CacheEntry) (request : Request)
      (r : Result MintedToken) (history : List Event)
      → minted config now request.sender reply ≡ r
      → lookup k (after config history).inflight ≡ some request
      → lookup key (store k r (after config history)).cache ≡ some entry
      → (lookup key (after config history).cache ≡ some entry
          → IsDelivered config key entry history)
      → IsDelivered config key entry (replied now k reply ∷ history)
  store-IsDelivered now k key reply entry request (err x) history m o h before =
      IsDelivered-later key entry _ history (before h)
  store-IsDelivered now k key reply entry request (ok t) history m o h before =
      elim (Bool-cases (k == key)) [
        | inl e ↦
            subst (λ j. IsDelivered config j entry (replied now k reply ∷ history))
              ((eq_iff k key).0 e)
              (record {
                since = [];
                before = history;
                at = now;
                reply = reply;
                request = request;
                answer = t;
                split = refl;
                open_then = o;
                answered = m;
                stored = ground (
                  arith,
                  h,
                  lookup-insert k key (entry_of t) (after config history).cache,
                  eq_iff k key,
                );
              })
        | inr e ↦ IsDelivered-later key entry _ history (
            before (
              ground (
                arith,
                h,
                lookup-insert k key (entry_of t) (after config history).cache,
                eq_iff k key,
              )))
      ]

  end_request-IsDelivered :
      (now : ℕ) (k key : String) (reply : Reply) (entry : CacheEntry) (o : Option Request)
      (history : List Event)
      → lookup k (after config history).inflight ≡ o
      → lookup key (end_request config now k reply o (after config history)).cache ≡ some entry
      → (lookup key (after config history).cache ≡ some entry
          → IsDelivered config key entry history)
      → IsDelivered config key entry (replied now k reply ∷ history)
  end_request-IsDelivered now k key reply entry none history o h before =
      IsDelivered-later key entry _ history (before h)
  end_request-IsDelivered now k key reply entry (some r) history o h before =
      store-IsDelivered now k key reply entry r (minted config now r.sender reply) history refl o h
        before

  after-IsDelivered :
      (key : String) (entry : CacheEntry) (history : List Event)
      → lookup key (after config history).cache ≡ some entry
      → IsDelivered config key entry history
  unfolding after step lookup
  after-IsDelivered key entry [] h = absurd cc
  after-IsDelivered key entry (mint now sender scopes ∷ history) h =
      IsDelivered-later key entry _ history (
        after-IsDelivered key entry history
          (mint_token-lookup now key sender scopes (after config history) entry h))
  after-IsDelivered key entry (replied now k reply ∷ history) h =
      end_request-IsDelivered now k key reply entry (lookup k (after config history).inflight)
        history refl h (after-IsDelivered key entry history)

  token_in : MintedToken → Answer → MintedToken
  token_in t (cached u) = u
  token_in t _ = t

  join_or_request-promises :
      (k sender : String) (scopes : Option Fields) (o : Option Request) (s : State)
      (t : MintedToken)
      → (join_or_request config k sender scopes o s).1 ≡ cached t
      → ⊥
  join_or_request-promises k sender scopes none s t h = cc
  join_or_request-promises k sender scopes (some r) s t h = cc

  answer_cached :
      (now : ℕ) (k sender : String) (scopes : Option Fields) (o : Option CacheEntry) (s : State)
      (t : MintedToken)
      → (mint_from config k sender scopes (read_entry now k o s)).1 ≡ cached t
      → (entry : CacheEntry) × (o ≡ some entry)
        × (t ≡ record {
          token = entry.token;
          sender = sender;
          expires_at = entry.expires_at;
          expires_in_seconds = entry.expires_in_seconds;
          cache_outcome = hit;
        })
        × (now + clock_skew_ms < entry.expires_at)
  unfolding token_in
  answer_cached now k sender scopes none s t =
      λ h. absurd (join_or_request-promises k sender scopes (lookup k s.inflight) s t h)
  answer_cached now k sender scopes (some x) s t = elim (Bool-cases (is_expired now x)) [
    | inl e ↦
        rw e (λ h. absurd (join_or_request-promises k sender scopes (lookup k s.inflight) _ t h))
    | inr e ↦ rw e (λ h. (x, refl, sym (ap (token_in t) h), ground arith))
  ]

  mint_token_cached :
      (now : ℕ) (sender : String) (scopes : Option Fields) (s : State) (t : MintedToken)
      → (mint_token config now sender scopes s).1 ≡ cached t
      → (let k = cache_key sender scopes in
          (mint_from config k sender scopes (read_entry now k (lookup k s.cache) s)).1 ≡ cached t)
  unfolding mint_token
  mint_token_cached now sender scopes s t = elim (Bool-cases (truthy sender)) [
    | inl e ↦ rw e (λ h. h)
    | inr e ↦ rw e (λ h. absurd cc)
  ]

  -- A token that comes from the cache was minted by a reply to the one open request of its key, is
  -- handed to the sender who asks, and is more than the clock skew away from its end.
  pub cached_unexpired :
      (history : List Event) (now : ℕ) (sender : String) (scopes : Option Fields) (t : MintedToken)
      → (mint_token config now sender scopes (after config history)).1 ≡ cached t
      → (entry : CacheEntry) × IsDelivered config (cache_key sender scopes) entry history
        × (t ≡ record {
          token = entry.token;
          sender = sender;
          expires_at = entry.expires_at;
          expires_in_seconds = entry.expires_in_seconds;
          cache_outcome = hit;
        })
        × (now + clock_skew_ms < entry.expires_at)
  unfolding mint_token
  cached_unexpired history now sender scopes t h =
      let s = after config history in
      let (entry, there, same, young) =
        answer_cached now (cache_key sender scopes) sender scopes (lookup _ s.cache) s t
          (mint_token_cached now sender scopes s t h) in
      (entry, after-IsDelivered (cache_key sender scopes) entry history there, same, young)
