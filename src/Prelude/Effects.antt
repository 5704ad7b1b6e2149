-- ===== src/Prelude/Effects.antt =====
-- Code that changes an object and may throw: `raised` is an exception of the standard library that
-- leaves the function, with the object as it then is; `undefined` is undefined behaviour.
use prime_server.Prelude.Tests.{if◌then◌else◌}
use mathlib.Core.Bool.{Bool, true, false}
use mathlib.Core.List.{List, [], ◌∷◌}

pub data Exit (S A : Type 0) : Type 0 where
  value : A → S → Exit S A
  raised : S → Exit S A
  undefined : Exit S A

abbrev pub M : Type 0 → Type 0 → Type 0
M S A = S → Exit S A

module _ {S : Type 0} where
  abbrev pub return : {A : Type 0} → A → M S A
  return a s = value a s

  abbrev pub after_exit : {A B : Type 0} → Exit S A → (A → M S B) → Exit S B
  after_exit (value a s) f = f a s
  after_exit (raised s) f = raised s
  after_exit undefined f = undefined

  infixl 5 ◌>>=◌ ◌>>◌
  abbrev pub ◌>>=◌ : {A B : Type 0} → M S A → (A → M S B) → M S B
  ◌>>=◌ m f s = after_exit (m s) f

  abbrev pub ◌>>◌ : {B : Type 0} → M S (Unit {0}) → M S B → M S B
  m >> k = m >>= λ _. k

  abbrev pub modify : (S → S) → M S (Unit {0})
  modify f s = value tt (f s)

  -- `for (x : xs) body(x);`
  unfoldable pub for_each : {X : Type 0} → List X → (X → M S (Unit {0})) → M S (Unit {0})
  for_each [] body = return tt
  for_each (x ∷ xs) body = body x >> for_each xs body

  abbrev pub caught : Exit S (Unit {0}) → Exit S (Unit {0})
  caught (value a s) = value tt s
  caught (raised s) = value tt s
  caught undefined = undefined

  -- `try { m } catch (const std::exception&) { /* log */ }`
  abbrev pub try_log : M S (Unit {0}) → M S (Unit {0})
  try_log m s = caught (m s)

  -- What holds on each exit that C++ defines: `Q` of a result, `R` of the object behind a throw.
  abbrev pub Ends : {A : Type 0} → (A → S → Type 0) → (S → Type 0) → Exit S A → Type 0
  Ends Q R (value a s) = Q a s
  Ends Q R (raised s) = R s
  Ends Q R undefined = Unit

  -- The code leaves `P` as it finds it.
  abbrev pub Preserves : {A : Type 0} → (S → Type 0) → M S A → Type 0
  Preserves P m = (s : S) → P s → Ends (λ _. P) P (m s)

  pub Ends-bind :
      {A B : Type 0} (Q : A → S → Type 0) (Q' : B → S → Type 0) (R : S → Type 0) (e : Exit S A)
      (f : A → M S B)
      → Ends Q R e
      → ((a : A) (s : S) → Q a s → Ends Q' R (f a s))
      → Ends Q' R (after_exit e f)
  Ends-bind Q Q' R (value a s) f h next = next a s h
  Ends-bind Q Q' R (raised s) f h next = h
  Ends-bind Q Q' R undefined f h next = tt

  pub Ends-weaken :
      {A : Type 0} (Q Q' : A → S → Type 0) (R R' : S → Type 0) (e : Exit S A)
      → Ends Q R e
      → ((a : A) (s : S) → Q a s → Q' a s)
      → ((s : S) → R s → R' s)
      → Ends Q' R' e
  Ends-weaken Q Q' R R' (value a s) h q r = q a s h
  Ends-weaken Q Q' R R' (raised s) h q r = r s h
  Ends-weaken Q Q' R R' undefined h q r = tt

  pub Preserves-bind :
      {A B : Type 0} (P : S → Type 0) (m : M S A) (f : A → M S B)
      → Preserves P m
      → ((a : A) → Preserves P (f a))
      → Preserves P (m >>= f)
  Preserves-bind P m f h next s p = Ends-bind (λ _. P) (λ _. P) P (m s) f (h s p) next

  pub Preserves-if :
      {A : Type 0} (P : S → Type 0) (b : Bool) (m n : M S A)
      → Preserves P m
      → Preserves P n
      → Preserves P (if b then m else n)
  Preserves-if P true m n h k = h
  Preserves-if P false m n h k = k

  pub Preserves-for_each :
      {X : Type 0} (P : S → Type 0) (xs : List X) (body : X → M S (Unit {0}))
      → ((x : X) → Preserves P (body x))
      → Preserves P (for_each xs body)
  unfolding for_each
  Preserves-for_each P [] body step = λ s p. p
  Preserves-for_each P (x ∷ xs) body step =
      Preserves-bind P (body x) (λ _. for_each xs body) (step x)
        (λ _. Preserves-for_each P xs body step)

  caught-Ends :
      (P : S → Type 0) (e : Exit S (Unit {0})) → Ends (λ _. P) P e → Ends (λ _. P) P (caught e)
  caught-Ends P (value a s) h = h
  caught-Ends P (raised s) h = h
  caught-Ends P undefined h = tt

  pub Preserves-try_log :
      (P : S → Type 0) (m : M S (Unit {0})) → Preserves P m → Preserves P (try_log m)
  Preserves-try_log P m h s p = caught-Ends P (m s) (h s p)

  -- The code ran into no undefined behaviour.
  abbrev pub IsDefined : {A : Type 0} → Exit S A → Type 0
  IsDefined (value a s) = Unit
  IsDefined (raised s) = Unit
  IsDefined undefined = ⊥

  pub after_exit-IsDefined :
      {A B : Type 0} (e : Exit S A) (f : A → M S B)
      → IsDefined e
      → ((a : A) (s : S) → IsDefined (f a s))
      → IsDefined (after_exit e f)
  after_exit-IsDefined (value a s) f h k = k a s
  after_exit-IsDefined (raised s) f h k = tt
  after_exit-IsDefined undefined f h k = h

  pub for_each-IsDefined :
      {X : Type 0} (xs : List X) (body : X → M S (Unit {0})) (s : S)
      → ((x : X) (t : S) → IsDefined (body x t))
      → IsDefined (for_each xs body s)
  unfolding for_each
  for_each-IsDefined [] body s h = tt
  for_each-IsDefined (x ∷ xs) body s h =
      after_exit-IsDefined (body x s) (λ _. for_each xs body) (h x s)
        (λ _ t. for_each-IsDefined xs body t h)
