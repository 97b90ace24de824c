-- ===== src/Registry/Loader/Gather.antt =====
-- The loop that the walk is made of, and a `Map` whose keys are values.
use examples_service.Common.{
  String, Bool, true, false, List, [], ◌∷◌, ◌==◌, string_eq, if◌then◌else◌, ◌≡◌, refl, sym, ap,
  subst, arith, Option, none, ◌⊎◌, contains, Bool-cases, inl, inr,
}
use text.Mathlib.TextEquality.{eq_iff}
use examples_service.Common.Dict.{Dict, insert}
use examples_service.Js.{Value, bool, num, str}
use examples_service.Registry.Includes.{Load, loaded, thrown, failed, out_of_fuel, and_then}

abbrev same_bool : Bool → Bool → Bool
same_bool true b = b
same_bool false true = false
same_bool false false = true

-- Whether two keys of a `Map` are one. Objects are never one here, since each file is parsed anew.
abbrev pub same_key : Value → Value → Bool
same_key (str s) (str t) = s == t
same_key (num n) (num m) = n == m
same_key (bool a) (bool b) = same_bool a b
same_key v w = false

abbrev pub EntryMap {ℓ} : Type ℓ → Type ℓ
EntryMap V = List (Value × V)

module _ {ℓ} {V : Type ℓ} where
  -- `map.set(key, value)`
  unfoldable pub set_entry : Value → V → EntryMap V → EntryMap V
  set_entry k v [] = (k, v) ∷ []
  set_entry k v ((j, w) ∷ entries) =
      if same_key j k then (j, v) ∷ entries else (j, w) ∷ set_entry k v entries

-- `for (const name of names)`: what is read for a name is added to what there is.
module _ {ℓ κ} {A : Type ℓ} {D : Type κ} (read : String → Load A) (add : A → D → D) where
  unfoldable pub gather : List String → D → Load D
  gather [] d = loaded d
  gather (name ∷ names) d = and_then (read name) (λ a. gather names (add a d))

pub and_then-loaded {ℓ κ} :
    {A : Type ℓ} {B : Type κ} (o : Load A) (next : A → Load B) (b : B)
    → and_then o next ≡ loaded b
    → (a : A) × (o ≡ loaded a) × (next a ≡ loaded b)
and_then-loaded out_of_fuel next b h = absurd (ground arith)
and_then-loaded (thrown e) next b h = absurd (ground arith)
and_then-loaded (failed reason) next b h = absurd (ground arith)
and_then-loaded (loaded a) next b h = (a, refl, h)

pub same_of_loaded {ℓ} : {A : Type ℓ} {a b : A} → loaded a ≡ loaded b → a ≡ b
same_of_loaded h = cc

-- A step that reads only where a test holds.
pub loaded_where {ℓ κ} :
    {A : Type ℓ} {B : Type κ} (test : Bool) (o : Load A) (f : A → Option B) (b : Option B)
    → (if test then and_then o (λ a. loaded (f a)) else loaded none) ≡ loaded b
    → ((b ≡ none) × (test ≡ false)) ⊎ ((a : A) × (o ≡ loaded a) × (b ≡ f a) × (test ≡ true))
loaded_where true o f b h =
    let (a, e, g) = and_then-loaded o (λ x. loaded (f x)) b h in
    inr (a, e, sym (same_of_loaded g), refl)
loaded_where false o f b h = inl (sym (same_of_loaded h), refl)

module _ {ℓ κ} {A : Type ℓ} {D : Type κ} (read : String → Load A) (add : A → D → D) where
  -- What holds of the start, and stays with each name that is read, holds in the end.
  pub gather_inv {μ} :
      (P : D → Type μ) (names : List String) (d d' : D)
      → ((name : String) (a : A) (e : D)
          → contains names name ≡ true
          → read name ≡ loaded a
          → P e
          → P (add a e))
      → P d
      → gather read add names d ≡ loaded d'
      → P d'
  unfolding gather
  gather_inv P [] d d' step p h = subst P (same_of_loaded h) p
  gather_inv P (name ∷ names) d d' step p h =
      let (a, e, g) = and_then-loaded (read name) (λ x. gather read add names (add x d)) d' h in
      gather_inv P names (add a d) d' (λ other b f m r q. step other b f (ground arith) r q)
        (step name a d (ground (arith, eq_iff name name)) e p) g

same_key_sound : (j k : Value) → same_key j k ≡ true → j ≡ k
same_key_sound (str s) (str t) h = ap str ((eq_iff s t).0 h)
same_key_sound (num n) (num m) h = ap num ((eq_iff n m).0 h)
same_key_sound (bool true) (bool true) h = refl
same_key_sound (bool false) (bool false) h = refl
same_key_sound v w h = ground arith

-- Every entry of a map.
abbrev pub EntryAll {ℓ} : {K V : Type 0} → (K → V → Type ℓ) → List (K × V) → Type ℓ
EntryAll P [] = Unit
EntryAll P ((k, v) ∷ entries) = P k v × EntryAll P entries

module _ {ℓ} {V : Type 0} where
  pub set_entry-EntryAll :
      (P : Value → V → Type ℓ) (k : Value) (v : V) (entries : EntryMap V)
      → P k v
      → EntryAll P entries
      → EntryAll P (set_entry k v entries)
  unfolding set_entry
  set_entry-EntryAll P k v [] p h = (p, tt)
  set_entry-EntryAll P k v ((j, w) ∷ entries) p (q, h) = elim (Bool-cases (same_key j k)) [
    | inl e ↦ rw e (subst (λ x. P x v) (sym (same_key_sound j k e)) p, h)
    | inr e ↦ rw e (q, set_entry-EntryAll P k v entries p h)
  ]

  pub insert-EntryAll :
      (P : String → V → Type ℓ) (k : String) (v : V) (d : Dict V)
      → P k v
      → EntryAll P d
      → EntryAll P (insert k v d)
  unfolding insert
  insert-EntryAll P k v [] p h = (p, tt)
  insert-EntryAll P k v ((j, w) ∷ d) p (q, h) = elim (Bool-cases (j == k)) [
    | inl e ↦ rw e (subst (λ x. P x v) (sym ((eq_iff j k).0 e)) p, h)
    | inr e ↦ rw e (q, insert-EntryAll P k v d p h)
  ]

module _ {ℓ κ} {A : Type ℓ} {D : Type κ} (read : String → Load A) (add : A → D → D) where
  -- What the reading of one name brings about, and each reading keeps, holds in the end.
  pub gather_reaches {μ} :
      (Q : D → Type μ) (names : List String) (d d' : D) (n : String)
      → contains names n ≡ true
      → ((a : A) (e : D) → read n ≡ loaded a → Q (add a e))
      → ((name : String) (a : A) (e : D) → read name ≡ loaded a → Q e → Q (add a e))
      → gather read add names d ≡ loaded d'
      → Q d'
  unfolding gather
  gather_reaches Q [] d d' n m brings keeps h = absurd (ground arith)
  gather_reaches Q (name ∷ names) d d' n m brings keeps h =
      let (a, e, g) = and_then-loaded (read name) (λ x. gather read add names (add x d)) d' h in
      elim (Bool-cases (name == n)) [
        | inl same ↦
            gather_inv read add Q names (add a d) d' (λ other b f c r q. keeps other b f r q)
              (brings a d (subst (λ x. read x ≡ loaded a) ((eq_iff name n).0 same) e)) g
        | inr other ↦ gather_reaches Q names (add a d) d' n (ground arith) brings keeps g
      ]
