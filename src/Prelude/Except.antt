-- ===== src/Prelude/Except.antt =====
-- Code that throws: a value, or the exception with the message that it carries.
use Prim.Native.String.{String}
use mathlib.Core.Bool.{Bool, true, false}
use mathlib.Core.Path.{◌≡◌, refl}

pub data Exception : Type 0 where
  invalid_argument out_of_range logic_error runtime_error : String → Exception

pub data Except {κ} (R : Type κ) : Type κ where
  throw : Exception → Except R
  ok : R → Except R

module _ {κ} {R : Type κ} where
  infixl 5 ◌>>◌
  infixl 5 ◌>>=◌
  abbrev pub ◌>>=◌ {μ} : {Q : Type μ} → Except Q → (Q → Except R) → Except R
  throw thrown >>= continue = throw thrown
  ok result >>= continue = continue result

  abbrev pub ◌>>◌ : Except (Unit {0}) → Except R → Except R
  throw thrown >> rest = throw thrown
  ok tt >> rest = rest

-- `if (test) throw e;`
abbrev pub throw_if : Bool → Exception → Except (Unit {0})
throw_if true e = throw e
throw_if false e = ok tt

pub throw-ne-ok {ℓ} : {A : Type ℓ} {e : Exception} {a : A} → throw e ≡ ok a → ⊥
throw-ne-ok h = cc

-- The same in the form that a chain of steps uses: what is to show is shown from each step's success.
module _ {ℓ κ μ} {A : Type ℓ} {B : Type κ} {C : Type μ} where
  pub on_bind :
      (m : Except A) (f : A → Except B) {b : B}
      → (m >>= f) ≡ ok b
      → ((a : A) → m ≡ ok a → f a ≡ ok b → C)
      → C
  on_bind (ok a) f h k = k a refl h
  on_bind (throw e) f h k = absurd (throw-ne-ok h)

module _ {κ μ} {B : Type κ} {C : Type μ} where
  pub on_guard :
      (test : Bool) (e : Exception) (rest : Except B) {b : B}
      → (throw_if test e >> rest) ≡ ok b
      → (test ≡ false → rest ≡ ok b → C)
      → C
  on_guard true e rest h k = absurd (throw-ne-ok h)
  on_guard false e rest h k = k refl h

-- The value that succeeded is the one at hand.
pub ok-injective {ℓ} : {A : Type ℓ} {a b : A} → ok a ≡ ok b → a ≡ b
ok-injective h = cc

-- Whether the result is an exception thrown as std::logic_error itself.
abbrev pub is_logic_error {ℓ} : {A : Type ℓ} → Except A → Bool
is_logic_error (ok a) = false
is_logic_error (throw (invalid_argument m)) = false
is_logic_error (throw (out_of_range m)) = false
is_logic_error (throw (logic_error m)) = true
is_logic_error (throw (runtime_error m)) = false
