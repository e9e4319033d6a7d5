-- ===== src/Prelude/Results.antt =====
-- `esp_err_t` as the sources use it: a value, or the code of what went wrong.
use Prim.Native.Nat.{ℕ}
use mathlib.Core.Path.{◌≡◌, refl}
use mathlib.Core.Logic.{◌⊎◌, inl, inr}
use mathlib.Core.Bool.{Bool, true, false}
use embed_beetroot_hw_2_7_pr.Prelude.Tests.{if◌then◌else◌}

-- `other` is a code that a library of the SDK chose.
pub data EspErr : Type 0 where
  fail no_mem invalid_arg invalid_state invalid_size invalid_response : EspErr
  not_found not_supported timeout : EspErr
  other : ℕ → EspErr

pub data Result {ℓ} (A : Type ℓ) : Type ℓ where
  ok : A → Result A
  err : EspErr → Result A

-- `if (err != ESP_OK) return err;` between two calls.
abbrev pub and_then {ℓ κ} : {A : Type ℓ} {B : Type κ} → Result A → (A → Result B) → Result B
and_then (ok a) next = next a
and_then (err e) next = err e

pub Result-cases {ℓ} :
    {A : Type ℓ} (r : Result A) → ((a : A) × (r ≡ ok a)) ⊎ ((e : EspErr) × (r ≡ err e))
Result-cases (ok a) = inl (a, refl)
Result-cases (err e) = inr (e, refl)

pub of_ok {ℓ} : {A : Type ℓ} {a b : A} → ok a ≡ ok b → a ≡ b
of_ok h = cc

-- An early return of an error that was not taken.
pub not_returned {ℓ} :
    {A : Type ℓ} (b : Bool) (e : EspErr) (r : Result A) {a : A}
    → (if b then err e else r) ≡ ok a
    → (b ≡ false) × (r ≡ ok a)
not_returned true e r h = cc
not_returned false e r h = (refl, h)
