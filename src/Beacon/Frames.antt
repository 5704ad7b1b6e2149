-- ===== src/Beacon/Frames.antt =====
-- A frame that a beacon publishes is read back.
use prime_server.Prelude.{
  ℕ, zero, suc, ◌+◌, ◌*◌, ◌/◌, ◌%◌, ◌<◌, some, [], ◌∷◌, ◌++◌, length, length-append, take, get_or,
  Bytes, ◌≡◌, refl, ap, arith, subst,
}
use prime_server.Beacon.{zre_frame, endpoint_of, read_frame}

take_front : (n : ℕ) (xs ys : Bytes) → length xs ≡ n → take n (xs ++ ys) ≡ xs
take_front zero [] ys h = refl
take_front zero (b ∷ xs) ys h = absurd (omega arith)
take_front (suc n) [] ys h = absurd (omega arith)
take_front (suc n) (b ∷ xs) ys h = ap (◌∷◌ b) (take_front n xs ys (omega arith))

get_behind : (n i : ℕ) (xs ys : Bytes) → length xs ≡ n → get_or (xs ++ ys) (n + i) 0 ≡ get_or ys i 0
get_behind zero i [] ys h = let start : 0 + i ≡ i = omega arith in rw start
get_behind zero i (b ∷ xs) ys h = absurd (omega arith)
get_behind (suc n) i [] ys h = absurd (omega arith)
get_behind (suc n) i (b ∷ xs) ys h =
    let later : suc (n + i) ≡ suc n + i = omega arith in
    subst (λ k. get_or (b ∷ xs ++ ys) k 0 ≡ get_or ys i 0) later
      (get_behind n i xs ys (omega arith))

abbrev port_bytes : ℕ → Bytes
port_bytes port = port / 256 % 256 ∷ port % 256 ∷ []

length_zre_frame : (uuid : Bytes) (port : ℕ) → length uuid ≡ 16 → length (zre_frame uuid port) ≡ 22
unfolding zre_frame
length_zre_frame uuid port h =
    let parts = length-append uuid (port_bytes port) in omega (arith, parts)

-- A frame with a uuid of 16 bytes and a port below 2 ^ 16 is read as that uuid and the endpoint of
-- the sender's address and that port.
pub read_frame-zre_frame :
    (ip uuid : Bytes) (port : ℕ)
    → length uuid ≡ 16
    → port < 65536
    → read_frame ip (zre_frame uuid port) ≡ some (endpoint_of ip port, uuid)
unfolding read_frame zre_frame
read_frame-zre_frame ip uuid port long small =
    let high = get_behind 16 0 uuid (port_bytes port) long in
    let low = get_behind 16 1 uuid (port_bytes port) long in
    let same : port / 256 % 256 * 256 + port % 256 ≡ port = omega arith in
    rw (length_zre_frame uuid port long, take_front 16 uuid (port_bytes port) long, high, low, same)
