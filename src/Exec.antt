-- ===== src/Exec.antt =====
-- Asynchronous code with errors: an action takes the state of the world outside the SDK's own
-- variables, and returns a result or the error that was thrown, with the state that it left. An
-- effect that precedes a throw stays.
pub mod Laws
use sudo_secure_communicatio.Prelude.{
  String, Bool, some, List, [], ◌∷◌, ◌≡◌, refl, ◌⊎◌, inl, inr, if◌then◌else◌,
}
use sudo_secure_communicatio.Errors.{Error, thrown, plain}

pub data Result {ℓ} (A : Type ℓ) : Type ℓ where
  ok : A → Result A
  err : Error → Result A

pub Result-cases {ℓ} :
    {A : Type ℓ} (r : Result A) → ((a : A) × (r ≡ ok a)) ⊎ ((e : Error) × (r ≡ err e))
Result-cases (ok a) = inl (a, refl)
Result-cases (err e) = inr (e, refl)

abbrev pub Exec : Type 0 → Type 0 → Type 0
Exec S A = S → Result A × S

module _ {S A : Type 0} where
  abbrev pub pure : A → Exec S A
  pure a s = (ok a, s)

  -- `throw`
  abbrev pub raise : Error → Exec S A
  raise e s = (err e, s)

  abbrev pub handle : Result A → (Error → Exec S A) → Exec S A
  handle (ok a) h s = (ok a, s)
  handle (err e) h s = h e s

  -- `try { m } catch (err) { h(err) }`
  abbrev pub catch : Exec S A → (Error → Exec S A) → Exec S A
  catch m h s = handle (m s).0 h (m s).1

  -- `try { m } catch (err) { throw new Error(msg) }`
  abbrev pub or_fail : String → Exec S A → Exec S A
  or_fail msg m = catch m (λ e. raise (thrown plain (some msg)))

module _ {S A B : Type 0} where
  abbrev pub continue : Result A → (A → Exec S B) → Exec S B
  continue (ok a) f s = f a s
  continue (err e) f s = (err e, s)

  infixl 5 ◌>>=◌ ◌>>◌
  abbrev pub ◌>>=◌ : Exec S A → (A → Exec S B) → Exec S B
  ◌>>=◌ m f s = continue (m s).0 f (m s).1

  abbrev pub ◌>>◌ : Exec S A → Exec S B → Exec S B
  m >> n = m >>= λ _. n

abbrev pub gather : {B : Type 0} → Result B → Result (List B) → Result (List B)
gather (ok b) (ok bs) = ok (b ∷ bs)
gather (ok b) (err e) = err e
gather (err e) _ = err e

module _ {S A B : Type 0} where
  -- `Promise.all(xs.map(f))`, the calls in the order of the list: each call is made, and the first
  -- that throws decides the error.
  unfoldable pub promise_all : (A → Exec S B) → List A → Exec S (List B)
  promise_all f [] s = (ok [], s)
  promise_all f (x ∷ xs) s =
      let (r, t) = f x s in let (rs, u) = promise_all f xs t in (gather r rs, u)

module _ {S : Type 0} where
  abbrev pub pass : Exec S (Unit {0})
  pass s = (ok tt, s)

  -- `if (b) { m }`
  abbrev pub when : Bool → Exec S (Unit {0}) → Exec S (Unit {0})
  when b m = if b then m else pass
