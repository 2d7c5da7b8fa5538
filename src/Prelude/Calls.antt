-- ===== src/Prelude/Calls.antt =====
-- A call that changes a state and may raise: what it wrote before it raised stays written.
use mathlib.Core.Path.{◌≡◌, refl, ap}
use general_ai_core.Prelude.Results.{Result, ok, err}

abbrev pub Call : Type 0 → Type 0 → Type 0 → Type 0
Call E S A = S → Result E A × S

module _ {E S A : Type 0} where
  abbrev pub pure : A → Call E S A
  pure a s = (ok a, s)

  abbrev pub lift : Result E A → Call E S A
  lift r s = (r, s)

abbrev pub modify : {E S : Type 0} → (S → S) → Call E S (Unit {0})
modify f s = (ok tt, f s)

abbrev pub continue : {E S A B : Type 0} → (A → Call E S B) → Result E A × S → Result E B × S
continue f (ok a, s) = f a s
continue f (err e, s) = (err e, s)

infixl 5 ◌>>=◌ ◌>>◌
abbrev pub ◌>>=◌ : {E S A B : Type 0} → Call E S A → (A → Call E S B) → Call E S B
◌>>=◌ m f s = continue f (m s)

abbrev pub ◌>>◌ : {E S B : Type 0} → Call E S (Unit {0}) → Call E S B → Call E S B
m >> k = m >>= λ _. k

-- A call that keeps an invariant of the state, whether it returns or raises, and whose answer has a
-- property.
abbrev pub Answers : {E A : Type 0} → (A → Type 0) → Result E A → Type 0
Answers Q (ok a) = Q a
Answers Q (err e) = Unit

abbrev pub Keeps : {E S A : Type 0} → (S → Type 0) → (A → Type 0) → Result E A × S → Type 0
Keeps I Q (r, s) = I s × Answers Q r

pub Keeps-bind :
    {E S A B : Type 0} (I : S → Type 0) (Q : A → Type 0) (R : B → Type 0) (m : Call E S A)
    (f : A → Call E S B) (s : S)
    → Keeps I Q (m s)
    → ((a : A) (t : S) → Q a → I t → Keeps I R (f a t))
    → Keeps I R ((m >>= f) s)
Keeps-bind {E} {S} {A} {B} I Q R m f s = go (m s)
  where
    go :
        (p : Result E A × S)
        → Keeps I Q p
        → ((a : A) (t : S) → Q a → I t → Keeps I R (f a t))
        → Keeps I R (continue f p)
    go (ok a, t) k next = next a t k.1 k.0
    go (err e, t) k next = (k.0, tt)

pub Keeps-map :
    {E S A : Type 0} (I : S → Type 0) {P Q : A → Type 0} (p : Result E A × S)
    → ((a : A) → P a → Q a)
    → Keeps I P p
    → Keeps I Q p
Keeps-map I (ok a, s) f k = (k.0, f a k.1)
Keeps-map I (err e, s) f k = k

-- A result that was lifted into a sequence that returned.
pub lift-ok :
    {E S A B : Type 0} (r : Result E A) (f : A → Call E S B) (s t : S) (b : B)
    → (lift r >>= f) s ≡ (ok b, t)
    → (a : A) × (r ≡ ok a) × (f a s ≡ (ok b, t))
lift-ok (ok a) f s t b e = (a, refl, e)
lift-ok (err x) f s t b e = cc

-- A sequence whose first part returned goes on with the second.
pub bind-next :
    {E S A B : Type 0} (m : Call E S A) (f : A → Call E S B) (s u : S) (a : A)
    → m s ≡ (ok a, u)
    → (m >>= f) s ≡ f a u
bind-next m f s u a e = ap (continue f) e
