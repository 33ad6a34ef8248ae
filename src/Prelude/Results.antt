-- ===== src/Prelude/Results.antt =====
-- How a call ends, and the rules for calls that end well.
use mathlib.Core.Path.{◌≡◌, refl}
use mathlib.Core.Bool.{Bool, true, false}
use mathlib.Core.Option.{Option, none, some}
use dwt_src.Prelude.Tests.{if◌then◌else◌}

-- A returned value, undefined behaviour of C++ (an index past the end), or the model's fuel
-- running out.
pub data Outcome {ℓ} (A : Type ℓ) : Type ℓ where
  ok : A → Outcome A
  fault out_of_fuel : Outcome A

infixl 5 ◌>>=◌
abbrev pub ◌>>=◌ {ℓ κ} : {A : Type ℓ} {B : Type κ} → Outcome A → (A → Outcome B) → Outcome B
out_of_fuel >>= rest = out_of_fuel
fault >>= rest = fault
ok a >>= rest = rest a

abbrev pub or_fault {ℓ} : {A : Type ℓ} → Option A → Outcome A
or_fault none = fault
or_fault (some a) = ok a

-- The call returns, with a value of which `Post` holds.
pub data Returns {ℓ κ} {A : Type ℓ} (Post : A → Type κ) : Outcome A → Type (ℓ ⊔ κ) where
  returns : {value : A} → Post value → Returns Post (ok value)

module _ {ℓ κ} {A : Type ℓ} where
  pub Returns-value : {Post : A → Type κ} {value : A} → Returns Post (ok value) → Post value
  Returns-value (returns holds) = holds

  -- The value, and what holds of it.
  pub Returns-inv :
      {Post : A → Type κ} {call : Outcome A}
      → Returns Post call
      → (value : A) × (call ≡ ok value) × Post value
  Returns-inv (returns holds) = (_, refl, holds)

  pub Returns-if :
      {Post : A → Type κ} {yes_call no_call : Outcome A} (test : Bool)
      → (test ≡ true → Returns Post yes_call)
      → (test ≡ false → Returns Post no_call)
      → Returns Post (if test then yes_call else no_call)
  Returns-if false on_true on_false = on_false refl
  Returns-if true on_true on_false = on_true refl

  pub Returns-map {κ'} :
      {Post : A → Type κ} {Weaker : A → Type κ'} {call : Outcome A}
      → Returns Post call
      → ((value : A) → Post value → Weaker value)
      → Returns Weaker call
  Returns-map (returns holds) weaken = returns (weaken _ holds)

  pub Returns-bind {ℓ' κ'} :
      {B : Type ℓ'} {Post : A → Type κ} {Last : B → Type κ'} {call : Outcome A}
      {rest : A → Outcome B}
      → Returns Post call
      → ((value : A) → Post value → Returns Last (rest value))
      → Returns Last (call >>= rest)
  Returns-bind (returns holds) continue_with = continue_with _ holds
