-- ===== src/Failure.antt =====
-- What the frontend's callers of the API catch: `err instanceof ApiError ? err.message : "..."`,
-- which every page and hook writes with a text of its own, and the effects and errors of an `async`
-- function as a monad: what it has done so far, and its value or what it has thrown.
use optiflow.Prelude.{List, [], ◌∷◌, ◌++◌, String}
use optiflow.Http.{ApiError}

pub data Failure : Type 0 where
  api_error : ApiError → Failure
  other_error : Failure

abbrev pub failure_text : String → Failure → String
failure_text text (api_error e) = e.message
failure_text text other_error = text

pub data Answer (A : Type 0) : Type 0 where
  ok : A → Answer A
  threw : Failure → Answer A

pub record Async (E A : Type 0) : Type 0 where
  pub effects : List E
  pub answer : Answer A

module _ {E A : Type 0} where
  abbrev pub after : List E → Async E A → Async E A
  after es m = record m { effects = es ++ m.effects }

  -- a call of another module: its effect, and how it is answered
  abbrev pub call : E → Answer A → Async E A
  call e a = record { effects = e ∷ []; answer = a }

  abbrev pub pure : A → Async E A
  pure a = record { effects = []; answer = ok a }

abbrev pub act : {E : Type 0} → E → Async E (Unit {0})
act e = record { effects = e ∷ []; answer = ok tt }

abbrev pub then_do : {E A B : Type 0} → List E → Answer A → (A → Async E B) → Async E B
then_do es (ok a) f = after es (f a)
then_do es (threw e) f = record { effects = es; answer = threw e }

infixl 5 ◌>>=◌ ◌>>◌
abbrev pub ◌>>=◌ : {E A B : Type 0} → Async E A → (A → Async E B) → Async E B
m >>= f = then_do m.effects m.answer f

abbrev pub ◌>>◌ : {E B : Type 0} → Async E (Unit {0}) → Async E B → Async E B
m >> k = m >>= λ _. k

-- `try { m } catch (err) { handler(err) }`, for a body with no value
abbrev pub recover : {E : Type 0} → List E → Answer (Unit {0}) → (Failure → List E) → List E
recover es (ok u) handler = es
recover es (threw e) handler = es ++ handler e

abbrev pub try_catch : {E : Type 0} → Async E (Unit {0}) → (Failure → List E) → List E
try_catch m handler = recover m.effects m.answer handler
