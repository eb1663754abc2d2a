-- ===== src/Shared/Fallible.antt =====
-- `Result<A, E>`, and the error of the stores: `HubError` of core/error.rs with its code and the
-- fixed part of its message, or a panic (an `unwrap` of nothing, an index out of range).
use Prim.Native.String.{String}
use mathlib.Core.Path.{◌≡◌, refl}
use mathlib.Core.Logic.{◌⊎◌, inl, inr}
use mathlib.Core.Option.{Option, none, some}

pub data Error : Type 0 where
  hub : String → String → Error
  panic : Error

pub data Result {ℓ κ} (E : Type ℓ) (A : Type κ) : Type (ℓ ⊔ κ) where
  ok : A → Result E A
  err : E → Result E A

-- `option.unwrap()`
abbrev pub unwrap {ℓ} : {A : Type ℓ} → Option A → Result Error A
unwrap none = err panic
unwrap (some value) = ok value

module _ {ℓ κ} {E : Type ℓ} where
  infixl 5 ◌>>=◌ ◌>>◌
  abbrev pub ◌>>=◌ : {A : Type κ} {B : Type κ} → Result E A → (A → Result E B) → Result E B
  err why >>= next = err why
  ok value >>= next = next value

  abbrev pub ◌>>◌ : {B : Type κ} → Result E (Unit {0}) → Result E B → Result E B
  err why >> next = err why
  ok done >> next = next

pub Result-cases :
    (r : Result Error (Unit {0}))
    → (r ≡ ok tt)
      ⊎ ((r ≡ err panic) ⊎ ((code : String) × (text : String) × (r ≡ err (hub code text))))
Result-cases (ok tt) = inl refl
Result-cases (err panic) = inr (inl refl)
Result-cases (err (hub code text)) = inr (inr (code, text, refl))

pub either {ℓ κ} :
    {E : Type ℓ} {A : Type κ} (r : Result E A) → ((a : A) × (r ≡ ok a)) ⊎ ((e : E) × (r ≡ err e))
either (ok a) = inl (a, refl)
either (err e) = inr (e, refl)
