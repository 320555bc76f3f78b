-- ===== src/Exec.antt =====
-- Methods that read and write the store and may raise. A raise keeps what was written before it.
pub mod Rules
use fleet_memory.Errors.{Error, Result, ok, err}

abbrev pub Exec : Type 0 → Type 0 → Type 0
Exec S A = S → Result A × S

module _ {S A : Type 0} where
  abbrev pub pure : A → Exec S A
  pure a s = (ok a, s)

  abbrev pub raise : Error → Exec S A
  raise e s = (err e, s)

  -- A computation that does not touch the store.
  abbrev pub lift : Result A → Exec S A
  lift r s = (r, s)

  -- A read, which may raise.
  abbrev pub read : (S → Result A) → Exec S A
  read f s = (f s, s)

-- A write; where it raises, the store is as it was.
abbrev pub written : {S : Type 0} → S → Result S → Result (Unit {0}) × S
written s (ok s') = (ok tt, s')
written s (err e) = (err e, s)

abbrev pub write_to : {S : Type 0} → (S → Result S) → Exec S (Unit {0})
write_to f s = written s (f s)

module _ {S A B : Type 0} where
  abbrev pub continue : Result A → (A → Exec S B) → Exec S B
  continue (ok a) f s = f a s
  continue (err e) f s = (err e, s)

  infixl 10 ◌>>=◌ ◌>>◌
  abbrev pub ◌>>=◌ : Exec S A → (A → Exec S B) → Exec S B
  ◌>>=◌ m f s = continue (m s).0 f (m s).1

  abbrev pub ◌>>◌ : Exec S A → Exec S B → Exec S B
  m >> n = m >>= λ _. n
