-- ===== src/Prelude/Res.antt =====
-- How a call of the program ends: with a value, with a Go error, or with the process gone
-- (`log.Fatal`, a panic). A method of the database takes its state and hands back the new one,
-- beside an error too: what was written before the error stays written.
use mathlib.Core.Path.{◌≡◌, refl}
use mathlib.Core.Logic.{◌⊎◌, inl, inr}

-- The error values of the packages `lazydb`, `logfile`, `iocontroller`, and `io.EOF`.
pub data Error : Type 0 where
  key_not_found log_file_not_exist open_log_file wrong_index database_closed : Error
  wrong_value_type integer_overflow invalid_param : Error
  zset_key_not_exist zset_member_not_exist : Error
  tx_closed tx_committing_rollback : Error
  discard_no_space : Error
  log_end_of_file illegal_file_size unsupported_io_type unsupported_file_type : Error
  invalid_crc write_size_not_equal short_write : Error
  eof negative_offset : Error

pub data Res {ℓ} (A : Type ℓ) : Type ℓ where
  ok : A → Res A
  err : Error → Res A
  fatal : Res A

infixl 5 ◌>>=◌
abbrev pub ◌>>=◌ {ℓ κ} : {A : Type ℓ} {B : Type κ} → Res A → (A → Res B) → Res B
ok a >>= f = f a
err e >>= f = err e
fatal >>= f = fatal

-- `m` ends with a value that satisfies `P`.
abbrev pub Returns {ℓ κ} : {A : Type ℓ} → Res A → (A → Type κ) → Type (ℓ ⊔ κ)
Returns {A} m P = (a : A) × (m ≡ ok a) × P a

-- The three ends, to split on what a call returned.
pub Res-cases {ℓ} :
    {A : Type ℓ} (r : Res A) → ((a : A) × (r ≡ ok a)) ⊎ (((e : Error) × (r ≡ err e)) ⊎ (r ≡ fatal))
Res-cases (ok a) = inl (a, refl)
Res-cases (err e) = inr (inl (e, refl))
Res-cases fatal = inr (inr refl)
