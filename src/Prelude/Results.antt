-- ===== src/Prelude/Results.antt =====
-- A call that returns or raises, and what a caller sees of the object after it.

pub data Result (E A : Type 0) : Type 0 where
  ok : A → Result E A
  err : E → Result E A

infixl 5 ◌>>=◌
abbrev pub ◌>>=◌ : {E A B : Type 0} → Result E A → (A → Result E B) → Result E B
ok a >>= f = f a
err e >>= f = err e

-- A method that raises has changed nothing: the object as it stands after the call.
abbrev pub after_call : {E A : Type 0} → A → Result E A → A
after_call old (ok new) = new
after_call old (err e) = old
