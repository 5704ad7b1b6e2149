-- ===== src/Netstring/Cuts.antt =====
-- What of the exception of a netstring stream depends on how the stream is cut.
use prime_server.Prelude.{
  ℕ, Bool, true, false, Option, some, List, [], ◌∷◌, ◌++◌, ◌==◌, Bytes, ◌≡◌, ◌⊎◌, refl, subst,
  Bool-cases, inl, inr,
}
use prime_server.Netstring.{NetstringEntity, RequestException, bad_length, bad_body_separator}
use prime_server.Netstring.Machine.{
  bad_prefix, oversized, bad_end, Verdict, accepts, refuses, unknown, prepend, and_then, step, run,
}
use prime_server.Netstring.Faults.{on_step, is_length, fault}

-- The first is the exception on the whole, the second the one on the pieces: a cut can only turn the
-- one about a missing colon into the one about a length.
abbrev pub SameFault : Option RequestException → Option RequestException → Type 0
SameFault whole cut = (whole ≡ cut) ⊎ ((whole ≡ some bad_body_separator) × (cut ≡ some bad_length))

-- The exception on the second piece, if the first is accepted.
abbrev pub cut_at : ℕ → Verdict → Option RequestException → Bytes → Option RequestException
cut_at max_size (accepts e requests) first b = fault max_size e false b
cut_at max_size (refuses r) first b = first
cut_at max_size unknown first b = first

cut_at-prepend :
    (max_size : ℕ) (rs : List NetstringEntity) (v : Verdict) (first : Option RequestException)
    (b : Bytes)
    → cut_at max_size v first b ≡ cut_at max_size (prepend rs v) first b
cut_at-prepend max_size rs (accepts e requests) first b = refl
cut_at-prepend max_size rs (refuses r) first b = refl
cut_at-prepend max_size rs unknown first b = refl

on_step-SameFault :
    (digits : Bool) (c : ℕ) (v : Verdict) (next : NetstringEntity → Option RequestException)
    → SameFault (on_step digits c v next) (on_step false c v next)
on_step-SameFault digits c (accepts e requests) next = inl refl
on_step-SameFault true c (refuses bad_prefix) next = elim (Bool-cases (c == b':')) [
  | inl h ↦ rw h (inl refl)
  | inr h ↦ rw h (inr (refl, refl))
]
on_step-SameFault false c (refuses bad_prefix) next = inl refl
on_step-SameFault digits c (refuses oversized) next = inl refl
on_step-SameFault digits c (refuses bad_end) next = inl refl
on_step-SameFault digits c unknown next = inl refl

fault-SameFault :
    (max_size : ℕ) (e : NetstringEntity) (digits : Bool) (b : Bytes)
    → SameFault (fault max_size e digits b) (fault max_size e false b)
unfolding fault
fault-SameFault max_size e digits [] = inl refl
fault-SameFault max_size e digits (c ∷ cs) = on_step-SameFault digits c (step max_size e c) _

step_append :
    (max_size : ℕ) (digits : Bool) (c : ℕ) (v : Verdict) (later : Bool) (cs b : Bytes)
    → ((e : NetstringEntity)
        → SameFault
            (fault max_size e later (cs ++ b))
            (cut_at max_size (run max_size e cs) (fault max_size e later cs) b))
    → SameFault (on_step digits c v (λ e. fault max_size e later (cs ++ b))) (
        cut_at max_size
          (and_then v (λ e. run max_size e cs))
          (on_step digits c v (λ e. fault max_size e later cs))
          b)
step_append max_size digits c (accepts e requests) later cs b h =
    subst (SameFault (fault max_size e later (cs ++ b)))
      (cut_at-prepend max_size requests (run max_size e cs) (fault max_size e later cs) b) (h e)
step_append max_size digits c (refuses r) later cs b h = inl refl
step_append max_size digits c unknown later cs b h = inl refl

pub fault-append :
    (max_size : ℕ) (a b : Bytes) (e : NetstringEntity) (digits : Bool)
    → SameFault
        (fault max_size e digits (a ++ b))
        (cut_at max_size (run max_size e a) (fault max_size e digits a) b)
unfolding fault run
fault-append max_size [] b e digits = fault-SameFault max_size e digits b
fault-append max_size (c ∷ cs) b e digits =
    step_append max_size digits c (step max_size e c) (is_length e c) cs b
      (λ e'. fault-append max_size cs b e' (is_length e c))
