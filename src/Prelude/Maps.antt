-- ===== src/Prelude/Maps.antt =====
-- `std::unordered_map` as an association list; its iteration order is the list's. An erased key is
-- removed wherever it stands.
use prime_server.Prelude.Tests.{◌==◌, if◌then◌else◌, ==_iff, Bool-cases, Option-cases}
use prime_server.Prelude.Text.{Bytes, equal, equal-same}
use Prim.Native.Nat.{ℕ}
use mathlib.Core.Path.{◌≡◌, refl, sym, subst, ◌∙◌}
use mathlib.Core.Logic.{◌↔◌, ◌≢◌, ◌⊎◌, inl, inr}
use mathlib.Core.Bool.{Bool, true, false}
use mathlib.Core.Option.{Option, none, some}
use mathlib.Core.List.{List, [], ◌∷◌, ◌++◌}
use native.Mathlib.Omega.{arith}

-- `key_equal` of the map.
pub record Key (K : Type 0) : Type 0 where
  pub same : K → K → Bool
  pub same_iff : (a b : K) → (same a b ≡ true) ↔ (a ≡ b)

pub same_self : {K : Type 0} ⦃k : Key K⦄ (a : K) → k.same a a ≡ true
same_self ⦃k⦄ a = (k.same_iff a a).1 refl

pub same_ne : {K : Type 0} ⦃k : Key K⦄ (a b : K) → k.same a b ≡ false → a ≢ b
same_ne ⦃k⦄ a b h e = cc (h, (k.same_iff a b).1 e)

pub ne_same : {K : Type 0} ⦃k : Key K⦄ (a b : K) → a ≢ b → k.same a b ≡ false
ne_same ⦃k⦄ a b h = elim (Bool-cases (k.same a b)) [
  | inl e ↦ absurd (h ((k.same_iff a b).0 e))
  | inr e ↦ e
]

instance abbrev pub nat_key : Key ℕ
nat_key = record { same = ◌==◌; same_iff = ==_iff }

instance abbrev pub bytes_key : Key Bytes
bytes_key = record { same = equal; same_iff = equal-same }

module _ {K V : Type 0} ⦃k : Key K⦄ where
  unfoldable pub find : K → List (K × V) → Option V
  find a [] = none
  find a ((b, v) ∷ m) = if k.same b a then some v else find a m

  -- `emplace` and `insert` leave an entry that is there.
  unfoldable pub emplace : K → V → List (K × V) → List (K × V)
  emplace a v [] = (a, v) ∷ []
  emplace a v ((b, w) ∷ m) = if k.same b a then (b, w) ∷ m else (b, w) ∷ emplace a v m

  -- A write through a reference to the value of a key that is there.
  unfoldable pub assign : K → V → List (K × V) → List (K × V)
  assign a v [] = []
  assign a v ((b, w) ∷ m) = if k.same b a then (b, v) ∷ m else (b, w) ∷ assign a v m

  unfoldable pub erase : K → List (K × V) → List (K × V)
  erase a [] = []
  erase a ((b, w) ∷ m) = if k.same b a then erase a m else (b, w) ∷ erase a m

  pub find-erase :
      (a b : K) (m : List (K × V)) → find a (erase b m) ≡ (if k.same b a then none else find a m)
  unfolding find erase
  find-erase a b [] = ground arith
  find-erase a b ((c, w) ∷ m) =
      ground (arith, find-erase a b m, k.same_iff b a, k.same_iff c a, k.same_iff c b)

  pub find-emplace :
      (a b : K) (v : V) (m : List (K × V))
      → find a (emplace b v m)
        ≡ elim (find a m) [ some w ↦ some w | none ↦ if k.same b a then some v else none ]
  unfolding find emplace
  find-emplace a b v [] = refl
  find-emplace a b v ((c, w) ∷ m) =
      ground (arith, find-emplace a b v m, k.same_iff b a, k.same_iff c a, k.same_iff c b)

  -- What is found after an emplace was there before, or is the new entry.
  pub find-emplace-some :
      (a b : K) (v w : V) (m : List (K × V))
      → find a (emplace b v m) ≡ some w
      → (find a m ≡ some w) ⊎ (b ≡ a)
  find-emplace-some a b v w m h = ground (arith, find-emplace a b v m, k.same_iff b a)

  pub find-emplace_new :
      (a b : K) (v w : V) (m : List (K × V))
      → find b m ≡ none
      → find a (emplace b v m) ≡ some w
      → (find a m ≡ some w) ⊎ ((b ≡ a) × (v ≡ w))
  find-emplace_new a b v w m h e = elim (Bool-cases (k.same b a)) [
    | inl same ↦
        let eq : b ≡ a = (k.same_iff b a).0 same in
        let gone : find a m ≡ none = subst (λ c. find c m ≡ none) eq h in
        inr (eq, ground (arith, find-emplace a b v m))
    | inr other ↦ inl (ground (arith, find-emplace a b v m))
  ]

  pub find-emplace_self :
      (a : K) (v : V) (m : List (K × V)) → find a m ≡ none → find a (emplace a v m) ≡ some v
  find-emplace_self a v m h = ground (arith, find-emplace a a v m, same_self a)

  pub find-emplace_keeps :
      (a b : K) (v w : V) (m : List (K × V)) → find a m ≡ some w → find a (emplace b v m) ≡ some w
  find-emplace_keeps a b v w m h = ground (arith, find-emplace a b v m)

  -- An entry at the end is found where no entry before it is.
  pub find-concat :
      (a b : K) (v : V) (m : List (K × V))
      → find a (m ++ (b, v) ∷ [])
        ≡ elim (find a m) [ some w ↦ some w | none ↦ if k.same b a then some v else none ]
  unfolding find
  find-concat a b v [] = refl
  find-concat a b v ((c, w) ∷ m) = ground (arith, find-concat a b v m)

  pub find-concat_keeps :
      (a b : K) (v w : V) (m : List (K × V))
      → find a m ≡ some w
      → find a (m ++ (b, v) ∷ []) ≡ some w
  find-concat_keeps a b v w m h = ground (arith, find-concat a b v m)

  pub find-concat_self :
      (a : K) (v : V) (m : List (K × V)) → find a m ≡ none → find a (m ++ (a, v) ∷ []) ≡ some v
  find-concat_self a v m h = ground (arith, find-concat a a v m, same_self a)

  pub find-concat_some :
      (a b : K) (v w : V) (m : List (K × V))
      → find a (m ++ (b, v) ∷ []) ≡ some w
      → (find a m ≡ some w) ⊎ (b ≡ a)
  find-concat_some a b v w m h = ground (arith, find-concat a b v m, k.same_iff b a)

  pub find-erase_other :
      (a b : K) (w : V) (m : List (K × V))
      → find a m ≡ some w
      → k.same b a ≡ false
      → find a (erase b m) ≡ some w
  find-erase_other a b w m h other = ground (arith, find-erase a b m)

  pub find-erase_self : (a : K) (m : List (K × V)) → find a (erase a m) ≡ none
  find-erase_self a m = rw (find-erase a a m, same_self a)

  -- What is found after an erase was there before.
  pub find-erase-some :
      (a b : K) (m : List (K × V)) {v : V}
      → find a (erase b m) ≡ some v
      → (find a m ≡ some v) × (k.same b a ≡ false)
  find-erase-some a b m h = ground (arith, find-erase a b m)

  pub find-assign :
      (a b : K) (v : V) (m : List (K × V)) → k.same b a ≡ false → find a (assign b v m) ≡ find a m
  unfolding find assign
  find-assign a b v [] h = refl
  find-assign a b v ((c, w) ∷ m) h =
      ground (arith, find-assign a b v m, k.same_iff b a, k.same_iff c a, k.same_iff c b)

  pub find-assign_self :
      (a : K) (v w : V) (m : List (K × V)) → find a m ≡ some w → find a (assign a v m) ≡ some v
  unfolding find assign
  find-assign_self a v w [] h = cc
  find-assign_self a v w ((c, x) ∷ m) h = ground (arith, find-assign_self a v w m)

  -- A write keeps which keys there are.
  find-assign-none :
      (a b : K) (v : V) (m : List (K × V)) → find a m ≡ none → find a (assign b v m) ≡ none
  unfolding find assign
  find-assign-none a b v [] h = refl
  find-assign-none a b v ((c, x) ∷ m) h = ground (arith, find-assign-none a b v m)

  pub find-assign-some :
      (a b : K) (v w : V) (m : List (K × V))
      → find a (assign b v m) ≡ some w
      → (x : V) × (find a m ≡ some x)
  find-assign-some a b v w m h = elim (Option-cases (find a m)) [
    | inl none_there ↦ cc (h, find-assign-none a b v m none_there)
    | inr there ↦ there
  ]

  pub find-assign_there :
      (a b : K) (v w : V) (m : List (K × V))
      → find a m ≡ some w
      → (x : V) × (find a (assign b v m) ≡ some x)
  find-assign_there a b v w m h = elim (Bool-cases (k.same b a)) [
    | inl same ↦ (
      v,
      subst (λ c. find a (assign c v m) ≡ some v) (sym ((k.same_iff b a).0 same))
          (find-assign_self a v w m h),
    )
    | inr other ↦ (w, find-assign a b v m other ∙ h)
  ]
