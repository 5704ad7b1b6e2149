-- ===== src/Http/Client/Steady.antt =====
-- What holds of the client's scanner between two bytes.
use prime_server.Prelude.{
  ℕ, ◌+◌, ◌-◌, ◌%◌, Bool, true, false, not, Option, none, some, ◌==◌, get_or, if◌then◌else◌, ◌≡◌,
  refl, sym, ◌∙◌, arith, Bool-cases, inl, inr, subst,
}
use prime_server.Stdlib.{word_mod, is_digit, stoul}
use prime_server.Http.Client.{
  content_length_header, double_return, Scan, Looked, waits, completes, throws, finish_look,
  return_matched, match_return, header_matched, match_header, look_headers, end_length, look_length,
  look_body, look,
}

-- Between two messages, no response is ready, and a body is not read before the end of the
-- length.
pub record IsSteady (s : Scan) : Type 0 where
  pub waiting : s.done ≡ false
  pub apart : s.parse_body ≡ true → s.parse_length ≡ false

abbrev pub Steady : Looked → Type 0
Steady (waits s) = IsSteady s
Steady (completes s) = Unit
Steady (throws s) = Unit

-- Both branches of a test.
if_holds :
    {A : Type 0} (P : A → Type 0) (b : Bool) (x y : A)
    → (b ≡ true → P x)
    → (b ≡ false → P y)
    → P (if b then x else y)
if_holds P true x y h k = h refl
if_holds P false x y h k = k refl

finish_look-Steady :
    (s : Scan)
    → (s.done ≡ false → s.parse_body ≡ true → s.parse_length ≡ false)
    → Steady (finish_look s)
finish_look-Steady s h = elim (Bool-cases s.done) [
  | inl d ↦ simp d tt
  | inr d ↦ simp d (record { waiting = d; apart = h d })
]

last_space : (p : ℕ) → p + 1 ≡ 18 → get_or content_length_header p 0 ≡ b' '
last_space p h =
    let last : p ≡ 17 = omega arith in
    subst (λ k. get_or content_length_header k 0 ≡ b' ') (sym last) refl

last_newline : (p : ℕ) → p + 1 ≡ 4 → get_or double_return p 0 ≡ b'\n'
last_newline p h =
    let last : p ≡ 3 = omega arith in subst (λ k. get_or double_return k 0 ≡ b'\n') (sym last) refl

match_header-parse_length :
    (c : ℕ) (s : Scan) → s.parse_length ≡ false → (match_header c s).parse_length ≡ true → c ≡ b' '
unfolding match_header header_matched
match_header-parse_length c s h k = ground (arith, h, k, last_space s.content_length_itr)

match_header-parse_body : (c : ℕ) (s : Scan) → (match_header c s).parse_body ≡ s.parse_body
unfolding match_header header_matched
match_header-parse_body c s = ground arith

match_header-done : (c : ℕ) (s : Scan) → (match_header c s).done ≡ s.done
unfolding match_header header_matched
match_header-done c s = ground arith

match_return-parse_body :
    (c : ℕ) (s : Scan) → s.parse_body ≡ false → (match_return c s).parse_body ≡ true → c ≡ b'\n'
unfolding match_return return_matched
match_return-parse_body c s h k = ground (arith, h, k, last_newline s.double_return_itr)

match_return-parse_length : (c : ℕ) (s : Scan) → (match_return c s).parse_length ≡ s.parse_length
unfolding match_return return_matched
match_return-parse_length c s = ground arith

match_return-done : (c : ℕ) (s : Scan) → (match_return c s).done ≡ false → s.done ≡ false
unfolding match_return return_matched
match_return-done c s h = ground (arith, h)

-- The length is not begun in the byte that ends the headers.
returned-apart :
    (c : ℕ) (t : Scan)
    → (t.parse_length ≡ true → c ≡ b' ')
    → (t.done ≡ false → t.parse_body ≡ false)
    → Steady (finish_look (match_return c t))
returned-apart c t space closed = finish_look-Steady (match_return c t) λ waiting body.
    elim (Bool-cases t.parse_length) [
      | inl k ↦
          let newline : c ≡ b'\n' =
            match_return-parse_body c t (closed (match_return-done c t waiting)) body in
          let blank : c ≡ b' ' = space k in absurd (omega arith)
      | inr k ↦ match_return-parse_length c t ∙ k
    ]

look_headers-Steady :
    (c : ℕ) (s : Scan)
    → s.parse_length ≡ false
    → (s.done ≡ false → s.parse_body ≡ false)
    → Steady (look_headers c s)
unfolding look_headers
look_headers-Steady c s h closed =
    if_holds (λ t. Steady (finish_look (match_return c t))) s.parse_headers (match_header c s) s
      (λ k.
        returned-apart c (match_header c s) (match_header-parse_length c s h)
          (λ d. match_header-parse_body c s ∙ closed (sym (match_header-done c s) ∙ d)))
      (λ k. returned-apart c s (λ e. absurd (cc (e, h))) closed)

end_length-Steady :
    (c : ℕ) (s : Scan) (o : Option ℕ)
    → (s.done ≡ false → s.parse_body ≡ false)
    → Steady (end_length c s o)
unfolding end_length
end_length-Steady c s none closed = tt
end_length-Steady c s (some n) closed =
    look_headers-Steady c (record s { length = n; parse_length = false }) refl closed

look_length-Steady :
    (c : ℕ) (s : Scan)
    → (s.parse_length ≡ true → (s.done ≡ false) × (s.parse_body ≡ false))
    → (s.done ≡ false → s.parse_body ≡ false)
    → Steady (look_length c s)
unfolding look_length
look_length-Steady c s reading closed =
    if_holds Steady s.parse_length _ _
      (λ k.
        if_holds Steady (not (is_digit c)) _ _
          (λ d. end_length-Steady c s (stoul 10 s.content_length) closed)
          (λ d. record { waiting = (reading k).0; apart = λ b. absurd (cc (b, (reading k).1)) }))
      (λ k. look_headers-Steady c s k closed)

look_body-Steady :
    (c : ℕ) (s : Scan) → s.done ≡ false → s.parse_length ≡ false → Steady (look_body c s)
unfolding look_body
look_body-Steady c s d k =
    if_holds Steady (s.length == 0) _ _
      (λ z.
        look_length-Steady c (record s { done = true }) (λ e. absurd (cc (e, k)))
          (λ e. absurd (cc e)))
      (λ z. record { waiting = d; apart = λ b. k })

-- A byte that completes no response leaves the scanner steady.
pub look-Steady : (c : ℕ) (s : Scan) → IsSteady s → Steady (look c s)
unfolding look
look-Steady c s h =
    if_holds Steady s.parse_body _ _
      (λ b.
        look_body-Steady c (record s { length = (s.length + word_mod - 1) % word_mod }) h.waiting
          (h.apart b))
      (λ b. look_length-Steady c s (λ k. (h.waiting, b)) (λ d. b))
