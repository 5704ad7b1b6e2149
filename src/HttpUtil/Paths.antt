-- ===== src/HttpUtil/Paths.antt =====
-- No path that is looked up climbs to a parent directory by `..`.
use prime_server.Prelude.{
  ℕ, zero, suc, ◌+◌, ◌-◌, ◌≤◌, ◌<◌, false, Option, none, some, [], ◌∷◌, ◌==◌, ==_iff, ==_ne, length,
  drop, get_or, Bytes, ◌≡◌, ◌≢◌, refl, sym, ap, ◌∙◌, subst, arith, Bool-cases, inl, inr,
  length-drop, ltb, ltb→lt, ltb→le,
}
use prime_server.HttpUtil.{
  shifted, find_dot, plus, find_dot_from, put, blank_pair, blank_loop, blank_dots,
}

-- The byte at a position, 0 behind the end.
abbrev pub at : Bytes → ℕ → ℕ
at s i = get_or s i 0

-- No two dots stand side by side.
abbrev pub LacksPairs : Bytes → Type 0
LacksPairs s = (j : ℕ) → at s j ≡ b'.' → at s (j + 1) ≢ b'.'

length-put : (i c : ℕ) (s : Bytes) → length (put i c s) ≡ length s
unfolding put
length-put i c [] = refl
length-put zero c (x ∷ xs) = refl
length-put (suc i) c (x ∷ xs) = ap suc (length-put i c xs)

at-put_other : (i j c : ℕ) (s : Bytes) → i ≢ j → at (put i c s) j ≡ at s j
unfolding put
at-put_other i j c [] h = refl
at-put_other zero zero c (x ∷ xs) h = absurd (h refl)
at-put_other zero (suc j) c (x ∷ xs) h = refl
at-put_other (suc i) zero c (x ∷ xs) h = refl
at-put_other (suc i) (suc j) c (x ∷ xs) h = at-put_other i j c xs (λ e. h (ap suc e))

at-put_self : (i : ℕ) (s : Bytes) → at (put i b'/' s) i ≢ b'.'
unfolding put
at-put_self i [] h = omega arith
at-put_self zero (x ∷ xs) h = omega arith
at-put_self (suc i) (x ∷ xs) h = at-put_self i xs h

-- What a search from a position finds.
abbrev pub Finds : ℕ → Bytes → Option ℕ → Type 0
Finds i s none = (j : ℕ) → i ≤ j → at s j ≢ b'.'
Finds i s (some k) =
    (i ≤ k) × (k < length s) × (at s k ≡ b'.') × ((j : ℕ) → i ≤ j → j < k → at s j ≢ b'.')

suc_below :
    (c : ℕ) (s : Bytes) (k j : ℕ)
    → c ≢ b'.'
    → ((i : ℕ) → 0 ≤ i → i < k → at s i ≢ b'.')
    → j < suc k
    → at (c ∷ s) j ≢ b'.'
suc_below c s k zero ne f hi = ne
suc_below c s k (suc j) ne f hi = f j (omega arith) (omega (arith, hi))

suc_any :
    (c : ℕ) (s : Bytes) (j : ℕ) → c ≢ b'.' → ((i : ℕ) → 0 ≤ i → at s i ≢ b'.') → at (c ∷ s) j ≢ b'.'
suc_any c s zero ne f = ne
suc_any c s (suc j) ne f = f j (omega arith)

shifted-Finds :
    (c : ℕ) (s : Bytes) (o : Option ℕ) → c ≢ b'.' → Finds 0 s o → Finds 0 (c ∷ s) (shifted o)
shifted-Finds c s none ne f = λ j lo. suc_any c s j ne f
shifted-Finds c s (some k) ne f =
    (omega arith, omega (arith, f.1), f.2, λ j lo hi. suc_below c s k j ne f.3 hi)

find_dot-Finds : (s : Bytes) → Finds 0 s (find_dot s)
unfolding find_dot
find_dot-Finds [] = λ j lo h. omega (arith, h)
find_dot-Finds (c ∷ cs) = elim (Bool-cases (c == b'.')) [
  | inl e ↦
      rw e (omega arith, omega arith, (==_iff c b'.').0 e, λ j lo hi. absurd (omega (arith, hi)))
  | inr e ↦ rw e (shifted-Finds c cs (find_dot cs) (==_ne e) (find_dot-Finds cs))
]

at-drop : (i j : ℕ) (s : Bytes) → at (drop i s) j ≡ at s (i + j)
at-drop zero j s = let e : 0 + j ≡ j = omega arith in rw e
at-drop (suc i) j [] = refl
at-drop (suc i) j (c ∷ s) = let e : suc i + j ≡ suc (i + j) = omega arith in rw e (at-drop i j s)

-- A search from a position is one in what is left.
plus-Finds : (i : ℕ) (s : Bytes) (o : Option ℕ) → Finds 0 (drop i s) o → Finds i s (plus i o)
plus-Finds i s none f = λ j lo e.
    let there : i + (j - i) ≡ j = omega (arith, lo) in
    f (j - i) (omega arith) (at-drop i (j - i) s ∙ ap (at s) there ∙ e)
plus-Finds i s (some k) f = (
  omega arith,
  omega (arith, f.1, length-drop i s),
  sym (at-drop i k s) ∙ f.2,
  λ j lo hi e.
      let there : i + (j - i) ≡ j = omega (arith, lo) in
      f.3 (j - i) (omega arith) (omega (arith, lo, hi)) (at-drop i (j - i) s ∙ ap (at s) there ∙ e),
)

pub find_dot_from-Finds : (i : ℕ) (s : Bytes) → Finds i s (find_dot_from i s)
unfolding find_dot_from
find_dot_from-Finds i s = plus-Finds i s (find_dot (drop i s)) (find_dot-Finds (drop i s))

-- No pair of dots begins before a position.
abbrev LacksBefore : ℕ → Bytes → Type 0
LacksBefore p s = (j : ℕ) → j < p → at s j ≡ b'.' → at s (j + 1) ≢ b'.'

-- What blanking a pair does to the bytes.
blanked_kept : (p i j : ℕ) (s : Bytes) → p ≢ j → i ≢ j → at (put i b'/' (put p b'/' s)) j ≡ at s j
blanked_kept p i j s hp hi = at-put_other i j b'/' (put p b'/' s) hi ∙ at-put_other p j b'/' s hp

blanked_first : (p i : ℕ) (s : Bytes) → p + 1 ≡ i → at (put i b'/' (put p b'/' s)) p ≢ b'.'
blanked_first p i s e h =
    at-put_self p s (sym (at-put_other i p b'/' (put p b'/' s) (omega (arith, e))) ∙ h)

put-LacksBefore :
    (p i : ℕ) (s : Bytes) → p + 1 ≡ i → LacksBefore p s → LacksBefore i (put i b'/' (put p b'/' s))
put-LacksBefore p i s e h j lt dot next = elim (Bool-cases (j == p)) [
  | inl same ↦
      blanked_first p i s e
        (subst (λ k. at (put i b'/' (put p b'/' s)) k ≡ b'.') ((==_iff j p).0 same) dot)
  | inr other ↦
      let apart : j ≢ p = ==_ne other in
      elim (Bool-cases (j + 1 == p)) [
        | inl same ↦
            blanked_first p i s e (
              subst (λ k. at (put i b'/' (put p b'/' s)) k ≡ b'.') ((==_iff (j + 1) p).0 same) next)
        | inr more ↦
            let far : j + 1 ≢ p = ==_ne more in
            h j (omega (arith, lt, apart, e))
              (sym (blanked_kept p i j s (omega (arith, apart)) (omega (arith, lt))) ∙ dot)
              (sym (blanked_kept p i (j + 1) s (omega (arith, far)) (omega (arith, lt, apart, e)))
                ∙ next)
      ]
]

blank_pair-LacksBefore :
    (p i : ℕ) (s : Bytes)
    → LacksBefore p s
    → Finds (p + 1) s (some i)
    → LacksBefore i (blank_pair p i s)
unfolding blank_pair
blank_pair-LacksBefore p i s h f = elim (Bool-cases (p + 1 == i)) [
  | inl e ↦ rw e (put-LacksBefore p i s ((==_iff (p + 1) i).0 e) h)
  | inr e ↦
      let gap : p + 1 ≢ i = ==_ne e in
      rw e (λ j lt dot next. elim (Bool-cases (ltb j p)) [
        | inl before ↦ h j (ltb→lt j p before) dot next
        | inr behind ↦
            let le : p ≤ j = ltb→le j p behind in
            elim (Bool-cases (j == p)) [
              | inl same ↦
                  let eq : j ≡ p = (==_iff j p).0 same in
                  f.3 (j + 1) (omega (arith, le)) (omega (arith, eq, gap, f.0)) next
              | inr other ↦ let ne : j ≢ p = ==_ne other in f.3 j (omega (arith, le, ne)) lt dot
            ]
      ])
]

length-blank_pair : (p i : ℕ) (s : Bytes) → length (blank_pair p i s) ≡ length s
unfolding blank_pair
length-blank_pair p i s = elim (Bool-cases (p + 1 == i)) [
  | inl e ↦ rw e (length-put i b'/' (put p b'/' s) ∙ length-put p b'/' s)
  | inr e ↦ rw e
]

at_beyond : (s : Bytes) (j : ℕ) → length s ≤ j → at s j ≢ b'.'
at_beyond [] j h e = omega (arith, e)
at_beyond (c ∷ s) zero h e = omega (arith, h)
at_beyond (c ∷ s) (suc j) h e = at_beyond s j (omega (arith, h)) e

LacksBefore-LacksPairs :
    (p : ℕ) (s : Bytes) → LacksBefore p s → ((j : ℕ) → p + 1 ≤ j → at s j ≢ b'.') → LacksPairs s
LacksBefore-LacksPairs p s h k j dot next = elim (Bool-cases (ltb j p)) [
  | inl before ↦ h j (ltb→lt j p before) dot next
  | inr behind ↦ let le : p ≤ j = ltb→le j p behind in k (j + 1) (omega (arith, le)) next
]

blank_loop-LacksPairs :
    (fuel p : ℕ) (o : Option ℕ) (s : Bytes)
    → LacksBefore p s
    → Finds (p + 1) s o
    → length s ≤ fuel + p + 1
    → LacksPairs (blank_loop fuel p o s)
unfolding blank_loop
blank_loop-LacksPairs zero p o s h f l =
    LacksBefore-LacksPairs p s h (λ j lo. at_beyond s j (omega (arith, lo, l)))
blank_loop-LacksPairs (suc fuel) p none s h f l = LacksBefore-LacksPairs p s h f
blank_loop-LacksPairs (suc fuel) p (some i) s h f l =
    blank_loop-LacksPairs fuel i (find_dot_from (i + 1) (blank_pair p i s)) (blank_pair p i s)
      (blank_pair-LacksBefore p i s h f) (find_dot_from-Finds (i + 1) (blank_pair p i s))
      (omega (arith, length-blank_pair p i s, l, f.0))

-- The first round has no dot before it, and blanks nothing.
pub blank_pair_first : (i : ℕ) (s : Bytes) → i < length s → blank_pair (length s) i s ≡ s
unfolding blank_pair
blank_pair_first i s h = let apart : (length s + 1 == i) ≡ false = ground (arith, h) in rw apart

first-LacksPairs :
    (fuel : ℕ) (o : Option ℕ) (s : Bytes)
    → Finds 0 s o
    → length s ≤ fuel
    → LacksPairs (blank_loop fuel (length s) o s)
unfolding blank_loop
first-LacksPairs zero none s f l = λ j dot. absurd (f j (omega arith) dot)
first-LacksPairs zero (some i) s f l = absurd (omega (arith, f.1, l))
first-LacksPairs (suc fuel) none s f l = λ j dot. absurd (f j (omega arith) dot)
first-LacksPairs (suc fuel) (some i) s f l = rw (blank_pair_first i s f.1) (
    blank_loop-LacksPairs fuel i (find_dot_from (i + 1) s) s
      (λ j lt dot. absurd (f.3 j (omega arith) lt dot)) (find_dot_from-Finds (i + 1) s)
      (omega (arith, l)))

-- After the loop of `disk_result` no two dots stand side by side in the path.
pub blank_dots-LacksPairs : (path : Bytes) → LacksPairs (blank_dots path)
unfolding blank_dots
blank_dots-LacksPairs path =
    first-LacksPairs (length path) (find_dot_from 0 path) path (find_dot_from-Finds 0 path)
      (omega arith)
