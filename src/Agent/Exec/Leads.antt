-- ===== src/Agent/Exec/Leads.antt =====
-- What methods return and where they lead, one rule for each way to build a method.
use l4way.Prelude.{◌≡◌, refl, Bool, true, false, Result, ok, err, if◌then◌else◌}
use l4way.Agent.Exec.{Failure, Exec, pure, raise, lift, handle, handle_with, ◌>>=◌}
use l4way.Agent.Exec.Keeps.{Keeps}

-- What holds of a value that is returned.
abbrev pub Returned : {A : Type 0} → (A → Type 0) → Result Failure A → Type 0
Returned R (ok a) = R a
Returned R (err e) = Unit

pub record Yields {W A : Type 0} (m : Exec W A) (R : A → Type 0) : Type 0 where
  pub at : (w : W) → Returned R (m w).0

abbrev pub Ended : {W A : Type 0} → (A → W → Type 0) → (W → Type 0) → Result Failure A → W → Type 0
Ended Q E (ok a) w = Q a w
Ended Q E (err e) w = E w

-- From `P`, `m` returns with `Q` or fails with `E`.
pub record Leads {W A : Type 0} (P : W → Type 0) (m : Exec W A) (Q : A → W → Type 0)
    (E : W → Type 0) : Type 0 where
  pub at : (w : W) → P w → Ended Q E (m w).0 (m w).1

kept :
    {W A : Type 0} (P : W → Type 0) (Q : A → W → Type 0) (E : W → Type 0) (R : A → Type 0)
    (r : Result Failure A) (w : W)
    → ((w : W) → P w → E w)
    → P w
    → Returned R r
    → ((a : A) → R a → P w → Q a w)
    → Ended Q E r w
kept P Q E R (ok a) w e p y q = q a y p
kept P Q E R (err x) w e p y q = e w p

continue-Leads :
    {W A B : Type 0} (R : A → W → Type 0) (Q : B → W → Type 0) (E : W → Type 0)
    (r : Result Failure A) (f : A → Exec W B) (w : W)
    → Ended R E r w
    → ((a : A) → Leads (R a) (f a) Q E)
    → let s = (lift r >>= f) w in Ended Q E s.0 s.1
unfolding ◌>>=◌
continue-Leads R Q E (ok a) f w h lf = (lf a).at w h
continue-Leads R Q E (err e) f w h lf = h

pub facts :
    {W A X : Type 0} {P : W → Type 0} {Q : A → W → Type 0} {E : W → Type 0} {m : Exec W A}
    → (X → Leads P m Q E)
    → Leads (λ w. X × P w) m Q E
facts h = record { at = λ w p. (h p.0).at w p.1 }

module _ {W A : Type 0} {P : W → Type 0} {Q : A → W → Type 0} {E : W → Type 0} where
  pub Leads-pure : (a : A) → ((w : W) → P w → Q a w) → Leads P (pure a) Q E
  unfolding pure
  Leads-pure a h = record { at = h }

  pub Leads-raise : (e : Failure) → ((w : W) → P w → E w) → Leads P (raise e) Q E
  unfolding raise
  Leads-raise e h = record { at = h }

  pub Leads-if :
      (b : Bool) (m n : Exec W A)
      → (b ≡ true → Leads P m Q E)
      → (b ≡ false → Leads P n Q E)
      → Leads P (if b then m else n) Q E
  Leads-if true m n lm ln = lm refl
  Leads-if false m n lm ln = ln refl

  -- A method that keeps `P`, with what it returns.
  pub Leads-of-Keeps :
      {R : A → Type 0} {m : Exec W A}
      → Keeps P m
      → Yields m R
      → ((w : W) → P w → E w)
      → ((a : A) (w : W) → R a → P w → Q a w)
      → Leads P m Q E
  Leads-of-Keeps {R = R} {m = m} k y e q = record {
    at = λ w p. kept P Q E R (m w).0 (m w).1 e (k.at w p) (y.at w) (λ a r h. q a (m w).1 r h);
  }

module _ {W A B : Type 0} {P : W → Type 0} {R : A → W → Type 0} {Q : B → W → Type 0}
    {E : W → Type 0} where
  pub Leads-bind :
      (m : Exec W A) (f : A → Exec W B)
      → Leads P m R E
      → ((a : A) → Leads (R a) (f a) Q E)
      → Leads P (m >>= f) Q E
  unfolding ◌>>=◌
  Leads-bind m f lm lf = record {
    at = λ w p. continue-Leads R Q E (m w).0 f (m w).1 (lm.at w p) lf;
  }

module _ {W A B : Type 0} {P : W → Type 0} {Q : B → W → Type 0} {E : W → Type 0}
    (e : (w : W) → P w → E w) where
  -- A step that keeps `P`, of which the rest of the block may use what it returns.
  pub Leads-step :
      {R : A → Type 0} (m : Exec W A) (f : A → Exec W B)
      → Keeps P m
      → Yields m R
      → ((a : A) → R a → Leads P (f a) Q E)
      → Leads P (m >>= f) Q E
  Leads-step {R = R} m f k y lf =
      Leads-bind m f (Leads-of-Keeps k y e (λ a w r p. (r, p))) (λ a. facts (lf a))

pub anything : {W A : Type 0} {m : Exec W A} → Yields m (λ _. Unit)
anything = record { at = λ w. always _ }
  where
    always : {A : Type 0} (r : Result Failure A) → Returned (λ _. Unit) r
    always (ok a) = tt
    always (err e) = tt

still : {W A : Type 0} (P : W → Type 0) (r : Result Failure A) (w : W) → Ended (λ _. P) P r w → P w
still P (ok a) w h = h
still P (err e) w h = h

pub Keeps-of-Leads :
    {W A : Type 0} {P : W → Type 0} {m : Exec W A} → Leads P m (λ _. P) P → Keeps P m
Keeps-of-Leads {P = P} {m = m} l = record { at = λ w h. still P (m w).0 (m w).1 (l.at w h) }

module _ {W A : Type 0} {R : A → Type 0} where
  pub Yields-lift : (r : Result Failure A) → Returned R r → Yields (lift {W = W} r) R
  unfolding lift
  Yields-lift r h = record { at = λ w. h }

  pub Yields-pure : (a : A) → R a → Yields (pure {W = W} a) R
  unfolding pure
  Yields-pure a h = record { at = λ w. h }

  pub Yields-raise : (e : Failure) → Yields (raise {W = W} {A = A} e) R
  unfolding raise
  Yields-raise e = record { at = λ w. tt }

  pub Yields-if :
      (b : Bool) {m n : Exec W A} → Yields m R → Yields n R → Yields (if b then m else n) R
  Yields-if true m n = m
  Yields-if false m n = n

handle_with-Yields :
    {W A : Type 0} (R : A → Type 0) (r : Result Failure A) (h : Failure → Exec W A) (w : W)
    → Returned R r
    → ((e : Failure) → Yields (h e) R)
    → Returned R (handle_with r h w).0
handle_with-Yields R (ok a) h w y k = y
handle_with-Yields R (err e) h w y k = (k e).at w

pub Yields-handle :
    {W A : Type 0} {R : A → Type 0} {m : Exec W A} {h : Failure → Exec W A}
    → Yields m R
    → ((e : Failure) → Yields (h e) R)
    → Yields (handle m h) R
unfolding handle
Yields-handle {R = R} {m = m} {h = h} y k = record {
  at = λ w. handle_with-Yields R (m w).0 h (m w).1 (y.at w) k;
}

continue-Yields :
    {W A B : Type 0} (S : A → Type 0) (R : B → Type 0) (r : Result Failure A) (f : A → Exec W B)
    (w : W)
    → Returned S r
    → ((a : A) → S a → Yields (f a) R)
    → Returned R ((lift r >>= f) w).0
unfolding ◌>>=◌
continue-Yields S R (ok a) f w s k = (k a s).at w
continue-Yields S R (err e) f w s k = tt

pub Yields-bind :
    {W A B : Type 0} {S : A → Type 0} {R : B → Type 0} (m : Exec W A) (f : A → Exec W B)
    → Yields m S
    → ((a : A) → S a → Yields (f a) R)
    → Yields (m >>= f) R
unfolding ◌>>=◌
Yields-bind {S = S} {R = R} m f y k = record {
  at = λ w. continue-Yields S R (m w).0 f (m w).1 (y.at w) k;
}

weaker_end :
    {W A : Type 0} (Q Q' : A → W → Type 0) (E E' : W → Type 0) (r : Result Failure A) (w : W)
    → ((a : A) (w : W) → Q a w → Q' a w)
    → ((w : W) → E w → E' w)
    → Ended Q E r w
    → Ended Q' E' r w
weaker_end Q Q' E E' (ok a) w q e h = q a w h
weaker_end Q Q' E E' (err x) w q e h = e w h

-- From less, to more.
pub Leads-map :
    {W A : Type 0} {P P' : W → Type 0} {Q Q' : A → W → Type 0} {E E' : W → Type 0} {m : Exec W A}
    → ((w : W) → P' w → P w)
    → ((a : A) (w : W) → Q a w → Q' a w)
    → ((w : W) → E w → E' w)
    → Leads P m Q E
    → Leads P' m Q' E'
Leads-map {Q = Q} {Q' = Q'} {E = E} {E' = E'} {m = m} p q e l = record {
  at = λ w h. weaker_end Q Q' E E' (m w).0 (m w).1 q e (l.at w (p w h));
}
