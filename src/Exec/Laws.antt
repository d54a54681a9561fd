-- ===== src/Exec/Laws.antt =====
-- Rules for what holds of an action's outcome, whether it returns or throws.
use sudo_secure_communicatio.Prelude.{String, List, [], ◌∷◌, map, ◌≡◌, ap, ◌∙◌, inl, inr, arith}
use sudo_secure_communicatio.Errors.{Error}
use sudo_secure_communicatio.Exec.{
  Exec, Result, ok, err, Result-cases, catch, or_fail, promise_all, ◌>>=◌,
}

module _ {S A B : Type 0} where
  pub bind-eq-ok :
      (m : Exec S A) (f : A → Exec S B) (s u : S) (b : B)
      → (m >>= f) s ≡ (ok b, u)
      → (a : A) × (t : S) × (m s ≡ (ok a, t)) × (f a t ≡ (ok b, u))
  bind-eq-ok m f s u b h = elim (Result-cases (m s).0) [
    | inl (a, e) ↦ (a, (m s).1, ground arith, ground arith)
    | inr (e, failed) ↦ absurd (ground arith)
  ]

  pub post-bind :
      (R : Result B × S → Type 0) (m : Exec S A) (f : A → Exec S B) (s : S)
      → ((e : Error) (t : S) → m s ≡ (err e, t) → R (err e, t))
      → ((a : A) (t : S) → m s ≡ (ok a, t) → R (f a t))
      → R ((m >>= f) s)
  post-bind R m f s thrown rest = elim (Result-cases (m s).0) [
    | inl (a, e) ↦ rw e (rest a (m s).1 (ground arith))
    | inr (e, failed) ↦ rw failed (thrown e (m s).1 (ground arith))
  ]

module _ {S A : Type 0} where
  pub post-catch :
      (R : Result A × S → Type 0) (m : Exec S A) (h : Error → Exec S A) (s : S)
      → ((a : A) (t : S) → m s ≡ (ok a, t) → R (ok a, t))
      → ((e : Error) (t : S) → m s ≡ (err e, t) → R (h e t))
      → R (catch m h s)
  post-catch R m h s returned rest = elim (Result-cases (m s).0) [
    | inl (a, e) ↦ rw e (returned a (m s).1 (ground arith))
    | inr (e, failed) ↦ rw failed (rest e (m s).1 (ground arith))
  ]

module _ {S A : Type 0} where
  pub or_fail-eq-ok :
      (msg : String) (m : Exec S A) (s u : S) (a : A)
      → or_fail msg m s ≡ (ok a, u)
      → m s ≡ (ok a, u)
  or_fail-eq-ok msg m s u a h = elim (Result-cases (m s).0) [
    | inl (b, e) ↦ ground arith
    | inr (e, failed) ↦ absurd (ground arith)
  ]

module _ {S A B K : Type 0} where
  -- What each call of `promise_all` keeps of its argument, all results together keep.
  pub promise_all-keys :
      (f : A → Exec S B) (key : A → K) (result_key : B → K)
      → ((a : A) (s t : S) (b : B) → f a s ≡ (ok b, t) → result_key b ≡ key a)
      → (xs : List A) (s t : S) (ys : List B) → promise_all f xs s ≡ (ok ys, t)
      → map result_key ys ≡ map key xs
  unfolding promise_all
  promise_all-keys f key result_key keeps [] s t ys e =
      let none_left : ys ≡ [] = ground arith in ap (map result_key) none_left
  promise_all-keys f key result_key keeps (x ∷ xs) s t ys e = elim (Result-cases (f x s).0) [
    | inl (y, first) ↦ elim (Result-cases (promise_all f xs (f x s).1).0) [
      | inl (rest, later) ↦
          let one = keeps x s (f x s).1 y (ground arith) in
          let others =
            promise_all-keys f key result_key keeps xs (f x s).1 (promise_all f xs (f x s).1).1 rest
              (ground arith) in
          let split : ys ≡ y ∷ rest = ground arith in
          ap (map result_key) split ∙ (λ i. one i ∷ others i)
      | inr (error, failed) ↦ absurd (ground arith)
    ]
    | inr (error, failed) ↦ absurd (ground arith)
  ]
