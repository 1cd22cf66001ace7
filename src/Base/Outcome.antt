-- ===== src/Base/Outcome.antt =====
-- What a call returns or raises. A method that changes its object returns the object too, since
-- what was written before a raise stays written.
use Prim.Native.Nat.{ℕ}
use mathlib.Core.Path.{◌≡◌, ap}

-- The exceptions that the modelled code raises or lets through.
pub data Error : Type 0 where
  key_error type_error index_error value_error struct_error unicode_error : Error
  no_available_vms libvirt_error attribute_error already_cancelled already_called : Error
  pool_not_ready file_not_found recursion_error permission_denied is_a_directory : Error
  os_error : (errno : ℕ) → Error

pub data Result {ℓ} (A : Type ℓ) : Type ℓ where
  ok : A → Result A
  err : Error → Result A

abbrev result_or {ℓ} : {A : Type ℓ} → A → Result A → A
result_or d (ok a) = a
result_or d (err e) = d

pub ok-injective {ℓ} : {A : Type ℓ} {a b : A} → ok a ≡ ok b → a ≡ b
ok-injective {a = a} h = ap (result_or a) h

-- A raise ends the rest.
infixl 5 ◌>>=◌
abbrev pub ◌>>=◌ : {A B : Type 0} → Result A → (A → Result B) → Result B
err e >>= next = err e
ok a >>= next = next a
