-- ===== src/Transport/Framing.antt =====
-- The length prefix, and reading an exact number of bytes.
use native.Mathlib.Nat.{pow-suc, mod-eq_of_lt, sub-zero, suc-sub-suc}
use di_spec.Prelude.{
  ℕ, zero, suc, ◌+◌, ◌-◌, ◌*◌, ◌/◌, ◌%◌, ◌^◌, ◌≤◌, ◌<◌, ◌≡◌, refl, ap, ◌∙◌, min, List, [], ◌∷◌,
  ◌++◌, append_assoc, mod_digit, pow_pos, append-nil, arith, length, length-append, length-take,
  length-drop, take, drop, ltb, ltb→lt, ltb→le, Bool-cases, inl, inr, ◌⊎◌, ok, raise,
  connection_error,
}
use di_spec.Transport.{
  Socket, granted, later, sock_recv, big_endian, from_big_endian, recv_loop, recv_n,
}

from_big_endian-big_endian :
    (width n acc : ℕ)
    → from_big_endian acc (big_endian width n) ≡ acc * 256 ^ width + n % 256 ^ width
unfolding from_big_endian big_endian
from_big_endian-big_endian zero n acc = grind arith
from_big_endian-big_endian (suc width) n acc =
    let p : ℕ = 256 ^ width in
    from_big_endian-big_endian width n (acc * 256 + n / p % 256)
    ∙ omega (
      arith,
      mod_digit n p 256 (pow_pos 256 width (omega arith)) (omega arith),
      pow-suc 256 width,
      spread acc (n / p % 256) p,
      ap (λ (m : ℕ). n % m) (pow-suc 256 width),
      ap (λ (m : ℕ). acc * m) (pow-suc 256 width),
    )
  where
    spread : (a d p : ℕ) → (a * 256 + d) * p ≡ a * (p * 256) + d * p
    spread a d p = grind arith

-- The eight bytes of a length give the length back.
pub length_prefix : (n : ℕ) → n < 256 ^ 8 → from_big_endian 0 (big_endian 8 n) ≡ n
length_prefix n h = from_big_endian-big_endian 8 n 0 ∙ omega (arith, mod-eq_of_lt h)

pub length-big_endian : (width n : ℕ) → length (big_endian width n) ≡ width
unfolding big_endian
length-big_endian zero n = refl
length-big_endian (suc width) n = ap suc (length-big_endian width n)

granted_bounds : (gs : List ℕ) (k : ℕ) → (granted gs k ≤ k) × (0 < k → 0 < granted gs k)
unfolding granted
granted_bounds [] k = (omega arith, λ h. h)
granted_bounds (g ∷ gs) k = (omega arith, λ h. omega arith)

pub take-append {ℓ} : {A : Type ℓ} (xs ys : List A) → take (length xs) (xs ++ ys) ≡ xs
take-append [] ys = refl
take-append (x ∷ xs) ys = ap (◌∷◌ x) (take-append xs ys)

pub drop-append {ℓ} : {A : Type ℓ} (xs ys : List A) → drop (length xs) (xs ++ ys) ≡ ys
drop-append [] ys = refl
drop-append (x ∷ xs) ys = drop-append xs ys

take-nil {ℓ} : {A : Type ℓ} (n : ℕ) → take {A = A} n [] ≡ []
take-nil zero = refl
take-nil (suc n) = refl

drop-nil {ℓ} : {A : Type ℓ} (n : ℕ) → drop {A = A} n [] ≡ []
drop-nil zero = refl
drop-nil (suc n) = refl

take-some {ℓ} :
    {A : Type ℓ} (g : ℕ) (xs : List A)
    → 0 < g
    → 0 < length xs
    → (y : A) × (ys : List A) × (take g xs ≡ y ∷ ys)
take-some zero xs h k = absurd (omega arith)
take-some (suc g) [] h k = absurd (omega arith)
take-some (suc g) (x ∷ xs) h k = (x, take g xs, refl)

take-split {ℓ} :
    {A : Type ℓ} (g m : ℕ) (xs : List A) → g ≤ m → take g xs ++ take (m - g) (drop g xs) ≡ take m xs
take-split zero m xs h = rw sub-zero
take-split (suc g) zero xs h = absurd (omega arith)
take-split (suc g) (suc m) [] h = take-nil (suc m - suc g)
take-split (suc g) (suc m) (x ∷ xs) h =
    rw suc-sub-suc (ap (◌∷◌ x) (take-split g m xs (omega arith)))

drop-split {ℓ} : {A : Type ℓ} (g m : ℕ) (xs : List A) → g ≤ m → drop (m - g) (drop g xs) ≡ drop m xs
drop-split zero m xs h = rw sub-zero
drop-split (suc g) zero xs h = absurd (omega arith)
drop-split (suc g) (suc m) [] h = drop-nil (suc m - suc g)
drop-split (suc g) (suc m) (x ∷ xs) h = rw suc-sub-suc (drop-split g m xs (omega arith))

-- One round of the loop: the piece that the kernel hands over.
module _ (n : ℕ) (buf : List ℕ) (s : Socket) (short : length buf < n) where
  abbrev asked : ℕ
  asked = min (n - length buf) (2 ^ 20)

  abbrev got : ℕ
  got = granted s.schedule asked

  abbrev piece : List ℕ
  piece = take got s.pending

  abbrev after : Socket
  after = record { pending = drop got s.pending; schedule = later s.schedule }

  got_bounds : (got ≤ n - length buf) × (0 < got)
  got_bounds = let b = granted_bounds s.schedule asked in (omega (arith, b.0), b.1 (omega arith))

  round_some :
      (fuel : ℕ)
      → 0 < length s.pending
      → recv_loop (suc fuel) n buf s ≡ recv_loop fuel n (buf ++ piece) after
  unfolding recv_loop sock_recv
  round_some fuel h = let (x, xs, e) = take-some got s.pending got_bounds.1 h in ground (arith, e)

  round_none :
      (fuel : ℕ) → s.pending ≡ [] → recv_loop (suc fuel) n buf s ≡ raise connection_error after
  unfolding recv_loop sock_recv
  round_none fuel e =
      let none_left : take got s.pending ≡ [] = rw e (take-nil got) in ground (arith, none_left)

recv_done :
    (fuel n : ℕ) (buf : List ℕ) (s : Socket)
    → n ≤ length buf
    → length buf ≤ n
    → (s' : Socket) × (recv_loop (suc fuel) n buf s
        ≡ ok (buf ++ take (n - length buf) s.pending) s')
      × (s'.pending ≡ drop (n - length buf) s.pending)
unfolding recv_loop
recv_done fuel n buf s ge le =
    let zero_left : n - length buf ≡ 0 = omega arith in
    (s, rw (zero_left, append-nil) (ground arith), rw zero_left)

-- The loop reads exactly the bytes that are missing, however the kernel cuts them up, and leaves
-- the rest on the socket; the fuel that `_recv_n` starts with is enough.
recv_loop_exact :
    (fuel n : ℕ) (buf : List ℕ) (s : Socket)
    → length buf ≤ n
    → n - length buf < fuel
    → n - length buf ≤ length s.pending
    → (s' : Socket) × (recv_loop fuel n buf s ≡ ok (buf ++ take (n - length buf) s.pending) s')
      × (s'.pending ≡ drop (n - length buf) s.pending)
recv_loop_exact zero n buf s le enough here = absurd (omega arith)
recv_loop_exact (suc fuel) n buf s le enough here = elim (Bool-cases (ltb (length buf) n)) [
  | inr full ↦ recv_done fuel n buf s (ltb→le (length buf) n full) le
  | inl more ↦
      let short : length buf < n = ltb→lt (length buf) n more in
      let g : ℕ = got n buf s short in
      let (below, above) = got_bounds n buf s short in
      let taken : length (buf ++ piece n buf s short) ≡ length buf + g =
        length-append buf (piece n buf s short) ∙ omega (arith, length-take g s.pending) in
      let missing : n - length (buf ++ piece n buf s short) ≡ n - length buf - g =
        omega (arith, taken) in
      let (s', e, left) =
        recv_loop_exact fuel n (buf ++ piece n buf s short) (after n buf s short)
          (omega (arith, taken)) (omega (arith, taken))
          (omega (arith, taken, length-drop g s.pending)) in
      (
        s',
        round_some n buf s short fuel (omega arith)
            ∙ e
            ∙ ap (λ (bs : List ℕ). ok bs s')
                (rw (missing, append_assoc)
                  (ap (◌++◌ buf) (take-split g (n - length buf) s.pending below))),
        left ∙ rw missing (drop-split g (n - length buf) s.pending below),
      )
]

nothing_left : (ps : List ℕ) → (ps ≡ []) ⊎ (0 < length ps)
nothing_left [] = inl refl
nothing_left (p ∷ ps) = inr (omega arith)

-- A peer that closes before all the bytes are there makes the loop raise, whatever has been read.
recv_loop_closed :
    (fuel n : ℕ) (buf : List ℕ) (s : Socket)
    → n - length buf < fuel
    → length buf + length s.pending < n
    → (s' : Socket) × (recv_loop fuel n buf s ≡ raise connection_error s')
recv_loop_closed zero n buf s enough closed = absurd (omega arith)
recv_loop_closed (suc fuel) n buf s enough closed =
    let short : length buf < n = omega arith in
    elim (nothing_left s.pending) [
      | inl e ↦ (after n buf s short, round_none n buf s short fuel e)
      | inr pos ↦
          let g : ℕ = got n buf s short in
          let taken : length (buf ++ piece n buf s short) ≡ length buf + min g (length s.pending) =
            length-append buf (piece n buf s short) ∙ omega (arith, length-take g s.pending) in
          let (_, above) = got_bounds n buf s short in
          let (s', f) =
            recv_loop_closed fuel n (buf ++ piece n buf s short) (after n buf s short)
              (omega (arith, taken)) (omega (arith, taken, length-drop g s.pending)) in
          (s', round_some n buf s short fuel pos ∙ f)
    ]

-- With enough bytes sent, `recv_n` returns the first `n` of them and leaves the others, however the
-- kernel cuts the stream up.
pub recv_n_exact :
    (n : ℕ) (s : Socket)
    → n ≤ length s.pending
    → (s' : Socket) × (recv_n n s ≡ ok (take n s.pending) s') × (s'.pending ≡ drop n s.pending)
unfolding recv_n
recv_n_exact n s h =
    rw sub-zero at (recv_loop_exact (suc n) n [] s (omega arith) (omega arith) (omega arith))

-- With fewer it raises.
pub recv_n_closed :
    (n : ℕ) (s : Socket)
    → length s.pending < n
    → (s' : Socket) × (recv_n n s ≡ raise connection_error s')
unfolding recv_n
recv_n_closed n s h = recv_loop_closed (suc n) n [] s (omega arith) (omega arith)
