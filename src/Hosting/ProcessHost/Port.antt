-- ===== src/Hosting/ProcessHost/Port.antt =====
-- The port of the cancel callback: `nextCancelCallbackPort` and `allocateCancelCallback`. The hash is
-- a signed integer of 32 bits, to which `| 0` cuts an integer.
use Prim.Native.Char.{Char, code}
use examples_service.Common.{
  ℕ, ◌+◌, ◌*◌, ◌%◌, ◌<◌, suc, ◌≡◌, ap, subst, sym, refl, String, ◌<>◌, List, [], ◌∷◌, Option, none,
  some, ltb, if◌then◌else◌, ◌==◌, nat_eq, arith, All, Bool-cases, inl, inr, ltb→lt,
}
use examples_service.Common.Integer.{
  ℤ, pos, negsuc, ◌+ℤ◌, ◌*ℤ◌, abs, size, remainder, residue, to_int32, signed, neg,
}
use examples_service.Common.Text.{unit_list, code_units, codes, truthy}
use examples_service.Config.{AppConfig}
use examples_service.Hosting.Contracts.{CancelCallback}

-- `(hash * 31 + unit) | 0`
abbrev pub hash_step : ℤ → ℕ → ℤ
hash_step hash unit = to_int32 (hash *ℤ pos 31 +ℤ pos unit)

unfoldable pub hash_units : ℤ → List ℕ → ℤ
hash_units hash [] = hash
hash_units hash (u ∷ us) = hash_units (hash_step hash u) us

unfoldable pub next_cancel_callback_port : ℕ → String → String → ℤ
unfolding hash_units code_units
next_cancel_callback_port base run participant =
    let hash = hash_units (pos 0) (code_units (codes (run <> ":" <> participant))) in
    pos base +ℤ remainder (abs hash) 1024

unfoldable pub allocate_cancel_callback : AppConfig → String → String → Option CancelCallback
unfolding next_cancel_callback_port
allocate_cancel_callback config participant run =
    if truthy config.cancel_callback_host
    then some (record {
      host = config.cancel_callback_host;
      port =
          if config.cancel_callback_port_base == 0
          then pos 0
          else next_cancel_callback_port config.cancel_callback_port_base run participant;
      path = config.cancel_callback_path;
    })
    else none

-- A signed integer of 32 bits.
abbrev pub IsInt32 : ℤ → Type 0
IsInt32 (pos n) = n < 0x80000000
IsInt32 (negsuc n) = n < 0x80000000

signed-IsInt32 : (r : ℕ) → IsInt32 (signed r)
signed-IsInt32 r = elim (Bool-cases (ltb r 0x80000000)) [
  | inl e ↦ rw e (ltb→lt r 0x80000000 e)
  | inr e ↦ rw e (ground arith)
]

to_int32-IsInt32 : (x : ℤ) → IsInt32 (to_int32 x)
to_int32-IsInt32 x = signed-IsInt32 (residue x)

-- Each hash is an integer of 32 bits, and a double holds what is cut to 32 bits next: it is below
-- 2^53.
abbrev pub IsExact : ℤ → List ℕ → Type 0
IsExact h [] = IsInt32 h
IsExact h (u ∷ us) =
    IsInt32 h × (size (h *ℤ pos 31 +ℤ pos u) < 0x20000000000000) × IsExact (hash_step h u) us

code_below : (c : Char) → code c < 0x110000
code_below (Char.char n ok) = elim (Bool-cases (ltb n 0x110000)) [
  | inl h ↦ ltb→lt n 0x110000 h
  | inr h ↦ absurd (ground (arith, ok))
]

unit_list-below :
    (c : ℕ) (rest : List ℕ)
    → c < 0x110000
    → All (λ u. u < 0x10000) rest
    → All (λ u. u < 0x10000) (unit_list c rest)
unit_list-below c rest h all = elim (Bool-cases (ltb c 0x10000)) [
  | inl e ↦ rw e (ltb→lt c 0x10000 e, all)
  | inr e ↦ rw e (omega arith, (omega arith, all))
]

units-below : (s : String) → All (λ u. u < 0x10000) (code_units (codes s))
unfolding code_units
units-below String.[] = tt
units-below (String.◌∷◌ c s) = unit_list-below (code c) _ (code_below c) (units-below s)

product-bound :
    (h : ℤ) (u : ℕ) → IsInt32 h → u < 0x10000 → size (h *ℤ pos 31 +ℤ pos u) < 0x20000000000000
product-bound (pos n) u p q = omega arith
product-bound (negsuc n) u p q =
    let same : suc n * 31 ≡ suc (n * 31 + 30) = omega arith in
    subst (λ x. size (neg x +ℤ pos u) < 0x20000000000000) (sym same)
      (elim (Bool-cases (ltb (n * 31 + 30) u)) [
        | inl e ↦ rw e (omega arith)
        | inr e ↦ rw e (omega arith)
      ])

exact : (h : ℤ) (us : List ℕ) → IsInt32 h → All (λ u. u < 0x10000) us → IsExact h us
exact h [] p q = p
exact h (u ∷ us) p (q, r) =
    (p, product-bound h u p q, exact (hash_step h u) us (to_int32-IsInt32 _) r)

remainder-abs : (h : ℤ) → (n : ℕ) × (remainder (abs h) 1024 ≡ pos n) × (n < 1024)
remainder-abs (pos n) = (n % 1024, refl, omega arith)
remainder-abs (negsuc n) = (suc n % 1024, refl, omega arith)

-- With a base of the ports, every agent gets one of the 1024 ports from the base on, whatever the
-- names of its run and of the participant are, though the hash may be negative: it stays a signed
-- integer of 32 bits, and every step of it is exact in doubles.
pub next_port-bounds :
    (base : ℕ) (run participant : String)
    → (offset : ℕ) × (next_cancel_callback_port base run participant ≡ pos (base + offset))
      × (offset < 1024)
      × IsExact (pos 0) (code_units (codes (run <> ":" <> participant)))
unfolding next_cancel_callback_port
next_port-bounds base run participant =
    let units = code_units (codes (run <> ":" <> participant)) in
    let (n, e, below) = remainder-abs (hash_units (pos 0) units) in
    (
      n,
      ap (λ r. pos base +ℤ r) e,
      below,
      exact (pos 0) units (omega arith) (units-below (run <> ":" <> participant)),
    )
