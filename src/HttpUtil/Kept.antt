-- ===== src/HttpUtil/Kept.antt =====
-- A path without two dots side by side stays as it is.
use prime_server.Prelude.{
  ℕ, zero, suc, ◌+◌, Option, none, some, ◌==◌, ==_iff, length, Bytes, ◌≡◌, refl, ap, ◌∙◌,
  Bool-cases, inl, inr,
}
use prime_server.HttpUtil.{find_dot_from, blank_pair, blank_loop, blank_dots}
use prime_server.HttpUtil.Paths.{at, LacksPairs, Finds, find_dot_from-Finds, blank_pair_first}

blank_pair_kept :
    (p i : ℕ) (s : Bytes) → LacksPairs s → at s p ≡ b'.' → at s i ≡ b'.' → blank_pair p i s ≡ s
unfolding blank_pair
blank_pair_kept p i s h dot next = elim (Bool-cases (p + 1 == i)) [
  | inl e ↦ absurd (h p dot (ap (at s) ((==_iff (p + 1) i).0 e) ∙ next))
  | inr e ↦ rw e
]

blank_loop_kept :
    (fuel p : ℕ) (o : Option ℕ) (s : Bytes)
    → LacksPairs s
    → at s p ≡ b'.'
    → Finds (p + 1) s o
    → blank_loop fuel p o s ≡ s
unfolding blank_loop
blank_loop_kept zero p o s h dot f = refl
blank_loop_kept (suc fuel) p none s h dot f = refl
blank_loop_kept (suc fuel) p (some i) s h dot f =
    rw (blank_pair_kept p i s h dot f.2)
      (blank_loop_kept fuel i (find_dot_from (i + 1) s) s h f.2 (find_dot_from-Finds (i + 1) s))

first_kept :
    (fuel : ℕ) (o : Option ℕ) (s : Bytes)
    → LacksPairs s
    → Finds 0 s o
    → blank_loop fuel (length s) o s ≡ s
unfolding blank_loop
first_kept zero o s h f = refl
first_kept (suc fuel) none s h f = refl
first_kept (suc fuel) (some i) s h f =
    rw (blank_pair_first i s f.1)
      (blank_loop_kept fuel i (find_dot_from (i + 1) s) s h f.2 (find_dot_from-Finds (i + 1) s))

-- A path without such a pair is left as it is.
pub blank_dots_kept : (path : Bytes) → LacksPairs path → blank_dots path ≡ path
unfolding blank_dots
blank_dots_kept path h =
    first_kept (length path) (find_dot_from 0 path) path h (find_dot_from-Finds 0 path)
