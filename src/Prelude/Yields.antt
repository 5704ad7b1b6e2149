-- ===== src/Prelude/Yields.antt =====
-- Code that runs into no undefined behaviour, by what it finds and leaves.
use prime_server.Prelude.Tests.{if◌then◌else◌}
use prime_server.Prelude.Effects.{
  Exit, value, raised, undefined, M, after_exit, ◌>>=◌, for_each, caught, try_log, IsDefined,
}
use mathlib.Core.Bool.{Bool, true, false}
use mathlib.Core.List.{List, [], ◌∷◌}

module _ {S : Type 0} where
  -- No undefined behaviour, and `Q` if it returns.
  abbrev pub Yields : {A : Type 0} → (S → Type 0) → Exit S A → Type 0
  Yields Q (value a s) = Q s
  Yields Q (raised s) = Unit
  Yields Q undefined = ⊥

  abbrev pub Takes : {A : Type 0} → (S → Type 0) → (S → Type 0) → M S A → Type 0
  Takes P Q m = (s : S) → P s → Yields Q (m s)

  -- Nothing is known of the state.
  abbrev pub Any : S → Type 0
  Any s = Unit

  pub exit-Yields :
      {A B : Type 0} (Q R : S → Type 0) (e : Exit S A) (f : A → M S B)
      → Yields Q e
      → ((a : A) → Takes Q R (f a))
      → Yields R (after_exit e f)
  exit-Yields Q R (value a s) f h next = next a s h
  exit-Yields Q R (raised s) f h next = tt
  exit-Yields Q R undefined f h next = h

  pub Takes-bind :
      {A B : Type 0} (P Q R : S → Type 0) (m : M S A) (f : A → M S B)
      → Takes P Q m
      → ((a : A) → Takes Q R (f a))
      → Takes P R (m >>= f)
  Takes-bind P Q R m f h next s p = exit-Yields Q R (m s) f (h s p) next

  pub Takes-if :
      {A : Type 0} (P Q : S → Type 0) (b : Bool) (m n : M S A)
      → Takes P Q m
      → Takes P Q n
      → Takes P Q (if b then m else n)
  Takes-if P Q true m n h k = h
  Takes-if P Q false m n h k = k

  pub Takes-for_each :
      {X : Type 0} (P : S → Type 0) (xs : List X) (body : X → M S (Unit {0}))
      → ((x : X) → Takes P P (body x))
      → Takes P P (for_each xs body)
  unfolding for_each
  Takes-for_each P [] body step = λ s p. p
  Takes-for_each P (x ∷ xs) body step =
      Takes-bind P P P (body x) (λ _. for_each xs body) (step x)
        (λ _. Takes-for_each P xs body step)

  pub caught-Yields : (e : Exit S (Unit {0})) → Yields Any e → Yields Any (caught e)
  caught-Yields (value a s) h = tt
  caught-Yields (raised s) h = tt
  caught-Yields undefined h = h

  pub Takes-try_log : (m : M S (Unit {0})) → Takes Any Any m → Takes Any Any (try_log m)
  Takes-try_log m h s p = caught-Yields (m s) (h s p)

  pub Yields-Any : {A : Type 0} (Q : S → Type 0) (e : Exit S A) → Yields Q e → Yields Any e
  Yields-Any Q (value a s) h = tt
  Yields-Any Q (raised s) h = tt
  Yields-Any Q undefined h = h

  pub Yields-IsDefined : {A : Type 0} (e : Exit S A) → Yields Any e → IsDefined e
  Yields-IsDefined (value a s) h = tt
  Yields-IsDefined (raised s) h = tt
  Yields-IsDefined undefined h = h
