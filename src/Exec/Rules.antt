-- ===== src/Exec/Rules.antt =====
-- Taking apart an action that returned.
use fleet_memory.Prelude.{◌≡◌, refl, ap}
use fleet_memory.Errors.{Result, ok, err}
use fleet_memory.Exec.{Exec, continue, written, ◌>>=◌}

module _ {S A B : Type 0} where
  continue-eq-ok :
      (r : Result A) (s : S) (f : A → Exec S B) (b : B) (t : S)
      → continue r f s ≡ (ok b, t)
      → (a : A) × (r ≡ ok a) × (f a s ≡ (ok b, t))
  continue-eq-ok (ok a) s f b t h = (a, refl, h)
  continue-eq-ok (err e) s f b t h = cc

  -- If a sequence returned, its first part did, and the rest returned from where that ended.
  pub >>=-eq-ok :
      (m : Exec S A) (f : A → Exec S B) (s : S) (b : B) (t : S)
      → (m >>= f) s ≡ (ok b, t)
      → (a : A) × (m s ≡ (ok a, (m s).1)) × (f a (m s).1 ≡ (ok b, t))
  >>=-eq-ok m f s b t h =
      let (a, returned, rest) = continue-eq-ok (m s).0 (m s).1 f b t h in
      (a, ap (λ r. (r, (m s).1)) returned, rest)

pub written-eq-ok : {S : Type 0} (r : Result S) (s t : S) → written s r ≡ (ok tt, t) → r ≡ ok t
written-eq-ok (ok s') s t h = cc
written-eq-ok (err e) s t h = cc
