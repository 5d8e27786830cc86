-- ===== src/Agent/Exec/Keeps.antt =====
-- What methods keep, what they return and where they lead: one rule for each way to build a method.
use l4way.Prelude.{Bool, true, false, Result, ok, err, if◌then◌else◌}
use l4way.Agent.Exec.{Failure, Exec, pure, raise, lift, handle, handle_with, stop_if, ◌>>=◌}

-- `m` keeps `P`, whether it returns or fails.
pub record Keeps {W A : Type 0} (P : W → Type 0) (m : Exec W A) : Type 0 where
  pub at : (w : W) → P w → P (m w).1

module _ {W A : Type 0} {P : W → Type 0} where
  pub Keeps-pure : (a : A) → Keeps P (pure a)
  unfolding pure
  Keeps-pure a = record { at = λ w h. h }

  pub Keeps-raise : (e : Failure) → Keeps P (raise {A = A} e)
  unfolding raise
  Keeps-raise e = record { at = λ w h. h }

  pub Keeps-lift : (r : Result Failure A) → Keeps P (lift r)
  unfolding lift
  Keeps-lift r = record { at = λ w h. h }

  pub Keeps-if : (b : Bool) (m n : Exec W A) → Keeps P m → Keeps P n → Keeps P (if b then m else n)
  Keeps-if true m n km kn = km
  Keeps-if false m n km kn = kn

  handle_with-Keeps :
      (r : Result Failure A) (h : Failure → Exec W A)
      → ((e : Failure) → Keeps P (h e))
      → Keeps P (handle_with r h)
  handle_with-Keeps (ok a) h kh = record { at = λ w p. p }
  handle_with-Keeps (err e) h kh = kh e

  pub Keeps-handle :
      (m : Exec W A) (h : Failure → Exec W A)
      → Keeps P m
      → ((e : Failure) → Keeps P (h e))
      → Keeps P (handle m h)
  unfolding handle
  Keeps-handle m h km kh = record {
    at = λ w p. let (r, w') = m w in (handle_with-Keeps r h kh).at w' (km.at w p);
  }

module _ {W : Type 0} {P : W → Type 0} where
  pub Keeps-stop_if : (b : Bool) (e : Failure) → Keeps P (stop_if b e)
  Keeps-stop_if true e = Keeps-raise e
  Keeps-stop_if false e = Keeps-pure tt

module _ {W A B : Type 0} {P : W → Type 0} where
  continue-Keeps :
      (r : Result Failure A) (f : A → Exec W B) → ((a : A) → Keeps P (f a)) → Keeps P (lift r >>= f)
  unfolding ◌>>=◌
  continue-Keeps (ok a) f kf = kf a
  continue-Keeps (err e) f kf = record { at = λ w h. h }

  pub Keeps-bind :
      (m : Exec W A) (f : A → Exec W B) → Keeps P m → ((a : A) → Keeps P (f a)) → Keeps P (m >>= f)
  unfolding ◌>>=◌
  Keeps-bind m f km kf = record {
    at = λ w h. let (r, w') = m w in (continue-Keeps r f kf).at w' (km.at w h);
  }

pub ruleset keeps_rules =
    (Keeps-pure, Keeps-raise, Keeps-lift, Keeps-if, Keeps-handle, Keeps-stop_if, Keeps-bind)
