-- ===== src/Prelude/Errors.antt =====
-- own_exceptions.py, the built-in exceptions that the code raises or catches, and a call that
-- returns or raises.
use mathlib.Core.Path.{◌≡◌, refl}
use mathlib.Core.Logic.{◌⊎◌, inl, inr}
use mathlib.Core.Bool.{Bool, true, false}
use mathlib.Core.Option.{Option, none, some}

-- `exception` is a plain `Exception`; the last lines hold the built-in ones.
pub data Error : Type 0 where
  invalid_transaction unsigned_transaction invalid_nonce insufficient_balance : Error
  uncategorized_transaction invalid_category : Error
  invalid_block unsigned_block invalid_block_signer dkg_block_requires_group_key : Error
  dkg_add_contribution_shares_error dkg_add_verification_vectors_error : Error
  dkg_gen_keys_error dkg_generate_secret_key_share_error : Error
  bls_invalid_group_signature bls_sign_error bls_recover_error verification_failed : Error
  exception key_error index_error value_error type_error assertion_error : Error
  unbound_local attribute_error zero_division_error : Error

pub data Result {ℓ} (A : Type ℓ) : Type ℓ where
  ok : A → Result A
  err : Error → Result A

-- Run a call and pass what it returns on; an error ends the run.
infixl 5 ◌>>=◌
abbrev pub ◌>>=◌ {ℓ κ} : {A : Type ℓ} {C : Type κ} → Result A → (A → Result C) → Result C
err x >>= next = err x
ok v >>= next = next v

infixl 5 ◌>>◌
abbrev pub ◌>>◌ {ℓ κ} : {A : Type ℓ} {C : Type κ} → Result A → Result C → Result C
r >> next = r >>= λ _. next

module _ {ℓ} {A : Type ℓ} where
  abbrev pub or_raise : Option A → Error → Result A
  or_raise none e = err e
  or_raise (some a) e = ok a

  -- `try: m  except: raise e`
  abbrev pub catch_as : Result A → Error → Result A
  catch_as (ok a) e = ok a
  catch_as (err _) e = err e

abbrev pub raise_if : Bool → Error → Result (Unit {0})
raise_if true e = err e
raise_if false e = ok tt

pub >>=-eq-ok {ℓ κ} :
    {A : Type ℓ} {C : Type κ} (r : Result A) (next : A → Result C) {c : C}
    → (r >>= next) ≡ ok c
    → (v : A) × (r ≡ ok v) × (next v ≡ ok c)
>>=-eq-ok (err x) next h = cc
>>=-eq-ok (ok v) next h = (v, refl, h)

pub Result-cases {ℓ} :
    {A : Type ℓ} (r : Result A) → ((a : A) × (r ≡ ok a)) ⊎ ((e : Error) × (r ≡ err e))
Result-cases (ok a) = inl (a, refl)
Result-cases (err e) = inr (e, refl)

pub raise_if-eq-ok : (c : Bool) (e : Error) → raise_if c e ≡ ok tt → c ≡ false
raise_if-eq-ok true e h = cc
raise_if-eq-ok false e h = refl
