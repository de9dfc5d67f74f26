-- ===== src/Auth/Answers.antt =====
-- What a chain of calls that answers says of its parts.
use tea_elephant_memory.Prelude.{◌≡◌, refl, Bool, true, false, arith}
use Prim.Native.String.{String}
use tea_elephant_memory.Store.{Result, ok, err}
use tea_elephant_memory.Auth.{AuthError, Answer, answer, fails, panics, ◌>>=◌, check, guard}

module _ {A B : Type 0} where
  pub bind_answers :
      (m : Answer A) (f : A → Answer B) (b : B)
      → (m >>= f) ≡ answer b
      → (a : A) × (m ≡ answer a) × (f a ≡ answer b)
  bind_answers (answer a) f b h = (a, refl, h)
  bind_answers (fails e) f b h = absurd (ground arith)
  bind_answers panics f b h = absurd (ground arith)

module _ {A : Type 0} where
  pub check_answers :
      (message : String) (r : Result AuthError A) (a : A) → check message r ≡ answer a → r ≡ ok a
  check_answers message (ok a') a h = ground arith
  check_answers message (err e) a h = absurd (ground arith)

  pub guard_answers :
      (b : Bool) (e : AuthError) (rest : Answer A) (a : A)
      → (guard b e >>= λ _. rest) ≡ answer a
      → (b ≡ true) × (rest ≡ answer a)
  guard_answers true e rest a h = (refl, h)
  guard_answers false e rest a h = absurd (ground arith)
