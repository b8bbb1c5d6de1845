-- ===== src/Vfs/Types.antt =====
-- The types of kernel/src/drivers/vfs/mod.rs: errors, inode kinds, and the outcome of an operation.
-- A path or a name is the list of its bytes.
use safa_os.Prelude.{
  ℕ, ◌==◌, Bool, true, false, ◌&&◌, ◌||◌, ltb, Option, none, some, List, [], ◌∷◌, ◌≡◌, ◌↔◌, ◌≢◌,
  refl, arith,
}

pub data FsError : Type 0 where
  operation_not_supported not_a_file not_a_directory no_such_a_file_or_directory : FsError
  invaild_drive invaild_path invaild_file_descriptor_or_res already_exists : FsError
  not_executeable resource_busy : FsError

pub data InodeType : Type 0 where
  file directory device : InodeType

-- `FSResult<T>`, with a third outcome for a panic of the kernel
pub data Outcome {ℓ} (A : Type ℓ) : Type ℓ where
  ok : A → Outcome A
  err : FsError → Outcome A
  panic : Outcome A

infixl 5 ◌>>=◌ ◌>>◌
abbrev pub ◌>>=◌ {ℓ κ} : {A : Type ℓ} {B : Type κ} → Outcome A → (A → Outcome B) → Outcome B
ok a >>= f = f a
err e >>= f = err e
panic >>= f = panic

abbrev pub ◌>>◌ {ℓ} : {B : Type ℓ} → Outcome (Unit {0}) → Outcome B → Outcome B
m >> k = m >>= λ _. k

abbrev pub guard : Bool → FsError → Outcome (Unit {0})
guard true e = ok tt
guard false e = err e

-- `.unwrap()`
abbrev pub unwrap {ℓ} : {A : Type ℓ} → Option A → Outcome A
unwrap none = panic
unwrap (some a) = ok a

abbrev pub Bytes : Type 0
Bytes = List ℕ

unfoldable pub same_bytes : Bytes → Bytes → Bool
same_bytes [] [] = true
same_bytes [] (b ∷ bs) = false
same_bytes (a ∷ as') [] = false
same_bytes (a ∷ as') (b ∷ bs) = a == b && same_bytes as' bs

pub same_bytes_iff : (a b : Bytes) → (same_bytes a b ≡ true) ↔ (a ≡ b)
unfolding same_bytes
same_bytes_iff [] [] = (λ _. refl, λ _. refl)
same_bytes_iff [] (b ∷ bs) = (λ h. cc, λ h. cc)
same_bytes_iff (a ∷ as') [] = (λ h. cc, λ h. cc)
same_bytes_iff (a ∷ as') (b ∷ bs) =
    (λ h. ground (arith, (same_bytes_iff as' bs).0), λ h. ground (arith, (same_bytes_iff as' bs).1))

-- the order of `str`, by bytes
pub less_bytes : Bytes → Bytes → Bool
less_bytes [] [] = false
less_bytes [] (b ∷ bs) = true
less_bytes (a ∷ as') [] = false
less_bytes (a ∷ as') (b ∷ bs) = ltb a b || (a == b && less_bytes as' bs)

-- Inversion of a bind that ends in `ok`.
pub >>=-eq-ok {ℓ κ} :
    {A : Type ℓ} {B : Type κ} (first : Outcome A) (then_do : A → Outcome B) {result : B}
    → (first >>= then_do) ≡ ok result
    → (a : A) × (first ≡ ok a) × (then_do a ≡ ok result)
>>=-eq-ok (ok a) then_do h = (a, refl, h)
>>=-eq-ok (err e) then_do h = cc
>>=-eq-ok panic then_do h = cc

-- A bind does not panic if neither of its parts does.
pub >>=-ne_panic {ℓ κ} :
    {A : Type ℓ} {B : Type κ} (m : Outcome A) (f : A → Outcome B)
    → m ≢ panic
    → ((a : A) → m ≡ ok a → f a ≢ panic)
    → (m >>= f) ≢ panic
>>=-ne_panic (ok a) f h k = k a refl
>>=-ne_panic (err e) f h k = λ q. cc
>>=-ne_panic panic f h k = λ q. h refl
