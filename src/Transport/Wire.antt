-- ===== src/Transport/Wire.antt =====
-- Messages over TCP: what is sent is received, in order, and a cut message raises.
use di_spec.Prelude.{
  ℕ, zero, suc, ◌^◌, ◌≤◌, ◌<◌, ◌≡◌, refl, sym, ap, ◌∙◌, List, [], ◌∷◌, ◌++◌, append_assoc,
  append-nil, arith, length, length-append, length-take, take, drop, lt→ltb, ltb, ltb→lt, ltb→le,
  Bool-cases, inl, inr, ◌-◌, ◌+◌, ok, raise, connection_error, M, ◌>>=◌, ◌>>◌, ret,
}
use di_spec.Transport.{Socket, sendall, big_endian, send_msg, recv_n, recv_msg}
use di_spec.Transport.Framing.{
  length_prefix, length-big_endian, recv_n_exact, recv_n_closed, take-append, drop-append,
}

-- What a message looks like on the wire.
abbrev pub framed : List ℕ → List ℕ
framed bytes = big_endian 8 (length bytes) ++ bytes

abbrev pub Fits : List ℕ → Type 0
Fits bytes = length bytes < 256 ^ 8

pub send_msg_lem :
    (bytes : List ℕ) (s : Socket)
    → Fits bytes
    → send_msg bytes s ≡ ok tt (record s { pending = s.pending ++ framed bytes })
unfolding send_msg sendall
send_msg_lem bytes s h = rw (lt→ltb (length bytes) (256 ^ 8) h, append_assoc) refl

head_split :
    (bytes rest : List ℕ)
    → (take 8 (framed bytes ++ rest) ≡ big_endian 8 (length bytes))
      × (drop 8 (framed bytes ++ rest) ≡ bytes ++ rest)
head_split bytes rest =
    let head : List ℕ = big_endian 8 (length bytes) in
    let size : length head ≡ 8 = length-big_endian 8 (length bytes) in
    (
      rw append_assoc (
          ap (λ (n : ℕ). take n (head ++ (bytes ++ rest))) (sym size)
          ∙ take-append head (bytes ++ rest)),
      rw append_assoc (
          ap (λ (n : ℕ). drop n (head ++ (bytes ++ rest))) (sym size)
          ∙ drop-append head (bytes ++ rest)),
    )

-- The first read of `_recv_msg`: the eight bytes of the length.
recv_head :
    (bytes rest : List ℕ) (s : Socket)
    → s.pending ≡ framed bytes ++ rest
    → (s₁ : Socket) × (recv_n 8 s ≡ ok (big_endian 8 (length bytes)) s₁)
      × (s₁.pending ≡ bytes ++ rest)
recv_head bytes rest s e =
    let (h, t) = head_split bytes rest in
    let long : 8 ≤ length s.pending = omega (
      arith,
      ap length e,
      length-append (framed bytes) rest,
      length-append (big_endian 8 (length bytes)) bytes,
      length-big_endian 8 (length bytes),
    ) in
    let (s₁, e₁, l₁) = recv_n_exact 8 s long in
    (s₁, e₁ ∙ ap (λ (bs : List ℕ). ok bs s₁) (ap (take 8) e ∙ h), l₁ ∙ ap (drop 8) e ∙ t)

-- Receiving a framed message gives the message and leaves what was sent after it.
pub recv_msg-framed :
    (bytes rest : List ℕ) (s : Socket)
    → Fits bytes
    → s.pending ≡ framed bytes ++ rest
    → (s' : Socket) × (recv_msg s ≡ ok bytes s') × (s'.pending ≡ rest)
unfolding recv_msg
recv_msg-framed bytes rest s fits e =
    let (s₁, e₁, l₁) = recv_head bytes rest s e in
    let (s₂, e₂, l₂) =
      recv_n_exact (length bytes) s₁ (omega (arith, ap length l₁, length-append bytes rest)) in
    (
      s₂,
      ground (
        arith,
        e₁,
        length_prefix (length bytes) fits,
        e₂,
        ap (take (length bytes)) l₁ ∙ take-append bytes rest,
      ),
      l₂ ∙ ap (drop (length bytes)) l₁ ∙ drop-append bytes rest,
    )

cut_in_body :
    (bytes sent : List ℕ) (s : Socket)
    → Fits bytes
    → length sent < length bytes
    → s.pending ≡ big_endian 8 (length bytes) ++ sent
    → (s' : Socket) × (recv_msg s ≡ raise connection_error s')
unfolding recv_msg
cut_in_body bytes sent s fits cut e =
    let head : List ℕ = big_endian 8 (length bytes) in
    let size : length head ≡ 8 = length-big_endian 8 (length bytes) in
    let (s₁, e₁, l₁) =
      recv_n_exact 8 s (omega (arith, ap length e, length-append head sent, size)) in
    let first : take 8 s.pending ≡ head =
      ap (take 8) e ∙ ap (λ (n : ℕ). take n (head ++ sent)) (sym size) ∙ take-append head sent in
    let left : s₁.pending ≡ sent =
      l₁
      ∙ ap (drop 8) e
      ∙ ap (λ (n : ℕ). drop n (head ++ sent)) (sym size)
      ∙ drop-append head sent in
    let (s₂, e₂) = recv_n_closed (length bytes) s₁ (omega (arith, ap length left)) in
    (s₂, ground (arith, e₁, first, length_prefix (length bytes) fits, e₂))

take_past :
    (xs ys : List ℕ) (n : ℕ) → length xs ≤ n → take n (xs ++ ys) ≡ xs ++ take (n - length xs) ys
take_past [] ys n h = ap (λ (k : ℕ). take k ys) (omega arith)
take_past (x ∷ xs) ys zero h = absurd (omega (arith, h))
take_past (x ∷ xs) ys (suc n) h =
    ap (◌∷◌ x)
      (take_past xs ys n (omega (arith, h)) ∙ ap (λ (k : ℕ). xs ++ take k ys) (omega arith))

cut_in_head :
    (s : Socket) → length s.pending < 8 → (s' : Socket) × (recv_msg s ≡ raise connection_error s')
unfolding recv_msg
cut_in_head s short = let (s', e) = recv_n_closed 8 s short in (s', ground (arith, e))

-- A message, of a length that eight bytes hold, that the peer cuts short and sends nothing after
-- raises a connection error, wherever it is cut: in its length or in its bytes.
pub recv_msg_cut :
    (bytes : List ℕ) (n : ℕ) (s : Socket)
    → Fits bytes
    → n < length (framed bytes)
    → s.pending ≡ take n (framed bytes)
    → (s' : Socket) × (recv_msg s ≡ raise connection_error s')
recv_msg_cut bytes n s fits cut e =
    let head : List ℕ = big_endian 8 (length bytes) in
    let size : length head ≡ 8 = length-big_endian 8 (length bytes) in
    let long : length (framed bytes) ≡ 8 + length bytes =
      omega (arith, length-append head bytes, size) in
    elim (Bool-cases (ltb n 8)) [
      | inl early ↦
          cut_in_head s (omega (arith, ltb→lt n 8 early, ap length e, length-take n (framed bytes)))
      | inr late ↦
          cut_in_body bytes (take (n - 8) bytes) s fits
            (omega (arith, length-take (n - 8) bytes, cut, long, ltb→le n 8 late))
            (e
              ∙ take_past head bytes n (omega (arith, size, ltb→le n 8 late))
              ∙ ap (λ (k : ℕ). head ++ take (n - k) bytes) size)
    ]

-- Sending and receiving several messages, one after the other.
unfoldable pub send_all : List (List ℕ) → M Socket (Unit {0})
send_all [] = ret tt
send_all (m ∷ ms) = do send_msg m; send_all ms

unfoldable pub recv_all : ℕ → M Socket (List (List ℕ))
recv_all zero = ret []
recv_all (suc n) = do m ← recv_msg; ms ← recv_all n; ret (m ∷ ms)

abbrev pub AllFit : List (List ℕ) → Type 0
AllFit [] = Unit {0}
AllFit (m ∷ ms) = Fits m × AllFit ms

abbrev wire : List (List ℕ) → List ℕ
wire [] = []
wire (m ∷ ms) = framed m ++ wire ms

send_all_lem :
    (ms : List (List ℕ)) (s : Socket)
    → AllFit ms
    → send_all ms s ≡ ok tt (record s { pending = s.pending ++ wire ms })
unfolding send_all
send_all_lem [] s h = rw append-nil refl
send_all_lem (m ∷ ms) s h =
    let sent : Socket = record s { pending = s.pending ++ framed m } in
    ground (
      arith,
      send_msg_lem m s h.0,
      send_all_lem ms sent h.1,
      append_assoc s.pending (framed m) (wire ms),
    )

recv_all_lem :
    (ms : List (List ℕ)) (s : Socket)
    → AllFit ms
    → s.pending ≡ wire ms
    → (s' : Socket) × (recv_all (length ms) s ≡ ok ms s') × (s'.pending ≡ [])
unfolding recv_all
recv_all_lem [] s h e = (s, refl, e)
recv_all_lem (m ∷ ms) s h e =
    let (s₁, e₁, l₁) = recv_msg-framed m (wire ms) s h.0 e in
    let (s₂, e₂, l₂) = recv_all_lem ms s₁ h.1 l₁ in (s₂, ground (arith, e₁, e₂), l₂)

-- Whatever messages are sent over an idle connection, and however the kernel cuts the stream up,
-- the same messages are received, in the same order, and nothing is left over.
pub recv_all-send_all :
    (ms : List (List ℕ)) (s : Socket)
    → AllFit ms
    → s.pending ≡ []
    → (s₁ : Socket) × (s₂ : Socket) × (send_all ms s ≡ ok tt s₁)
      × (recv_all (length ms) s₁ ≡ ok ms s₂)
      × (s₂.pending ≡ [])
recv_all-send_all ms s h idle =
    let s₁ : Socket = record s { pending = s.pending ++ wire ms } in
    let (s₂, e₂, l₂) = recv_all_lem ms s₁ h (ap (λ (ps : List ℕ). ps ++ wire ms) idle) in
    (s₁, s₂, send_all_lem ms s h, e₂, l₂)
