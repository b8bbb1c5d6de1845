-- ===== src/Terminal/Runs.antt =====
-- The outcome of a call on a terminal: a result, a panic, or a loop without an end.
use safa_os.Prelude.{Option, none, some}

pub data Run {ℓ} (A : Type ℓ) : Type ℓ where
  ran : A → Run A
  panicked endless : Run A

infixl 5 ◌>>=◌ ◌>>◌
abbrev pub ◌>>=◌ {ℓ κ} : {A : Type ℓ} {B : Type κ} → Run A → (A → Run B) → Run B
ran a >>= f = f a
panicked >>= f = panicked
endless >>= f = endless

abbrev pub ◌>>◌ {ℓ κ} : {A : Type ℓ} {B : Type κ} → Run A → Run B → Run B
m >> k = m >>= λ _. k

-- the bind under a name, beside that of `Option`
abbrev pub and_then {ℓ κ} : {A : Type ℓ} {B : Type κ} → Run A → (A → Run B) → Run B
and_then m f = m >>= f

abbrev pub of_option {ℓ} : {A : Type ℓ} → Option A → Run A
of_option none = panicked
of_option (some a) = ran a
