-- ===== src/Transport.antt =====
-- dispec/transport: base.py, tcp.py and cuda_ipc.py. Bytes are numbers. A socket is the bytes that
-- the peer has sent and not yet been read, with a schedule of how many of them the kernel hands over
-- at each `recv`; when the schedule is used up it hands over all it is asked for.
pub mod Framing
pub mod Wire
pub mod Ipc
mod Tests
use di_spec.Prelude.{
  ℕ, zero, suc, ◌+◌, ◌-◌, ◌*◌, ◌/◌, ◌%◌, ◌^◌, min, List, [], ◌∷◌, ◌++◌, Option, none, some, length,
  take, drop, ltb, if◌then◌else◌, M, Outcome, ok, raise, ◌>>=◌, ◌>>◌, ret, fail, or_raise,
  key_error, Exc, connection_error, value_error,
}

pub record Socket : Type 0 where
  pub pending : List ℕ
  pub schedule : List ℕ

-- How many bytes a `recv(k)` gets: one at least, unless the peer has closed.
unfoldable pub granted : List ℕ → ℕ → ℕ
granted [] k = k
granted (g ∷ gs) k = min k (g + 1)

unfoldable pub later : List ℕ → List ℕ
later [] = []
later (g ∷ gs) = gs

unfoldable pub sock_recv : ℕ → Socket → List ℕ × Socket
sock_recv k s = (
  take (granted s.schedule k) s.pending,
  record { pending = drop (granted s.schedule k) s.pending; schedule = later s.schedule },
)

-- `sock.sendall`
unfoldable pub sendall : List ℕ → Socket → Socket
sendall bytes s = record s { pending = s.pending ++ bytes }

-- `struct.pack("!Q", n)`: eight bytes, the most significant one first; `width` is 8.
unfoldable pub big_endian : ℕ → ℕ → List ℕ
big_endian zero n = []
big_endian (suc width) n = (n / 256 ^ width % 256) ∷ big_endian width n

unfoldable pub from_big_endian : ℕ → List ℕ → ℕ
from_big_endian acc [] = acc
from_big_endian acc (b ∷ bs) = from_big_endian (acc * 256 + b) bs

-- `struct.error` for a length that does not fit is a `value_error`.
unfoldable pub send_msg : List ℕ → M Socket (Unit {0})
send_msg bytes s =
    if ltb (length bytes) (256 ^ 8)
    then ok tt (sendall bytes (sendall (big_endian 8 (length bytes)) s))
    else raise value_error s

-- The loop of `_recv_n`; `fuel` bounds its rounds.
unfoldable pub recv_loop : ℕ → ℕ → List ℕ → M Socket (List ℕ)
recv_loop zero n buf s = ok buf s
recv_loop (suc fuel) n buf s =
    let (piece, s') = sock_recv (min (n - length buf) (2 ^ 20)) s in
    let rest = recv_loop fuel n (buf ++ piece) s' in
    if ltb (length buf) n
    then elim piece [ [] ↦ raise connection_error s' | _ ∷ _ ↦ rest ]
    else ok buf s

-- Each round reads a byte at least, so `n` rounds and the last test are enough.
unfoldable pub recv_n : ℕ → M Socket (List ℕ)
recv_n n = recv_loop (suc n) n []

unfoldable pub recv_msg : M Socket (List ℕ)
recv_msg = do head ← recv_n 8; recv_n (from_big_endian 0 head)

-- `KVPayload`; tensors are opaque, and so is the dictionary of the metadata.
pub record KvPayload {ℓ} (Tensor Meta : Type ℓ) : Type ℓ where
  pub tokens : List ℕ
  pub k : Tensor
  pub v : Tensor
  pub info : Meta

-- The dictionary that is put on the queue: what it has under "tokens", "k", "v" and "meta".
pub record Packed {ℓ} (Tensor Meta : Type ℓ) : Type ℓ where
  pub tokens : Option (List ℕ)
  pub k : Option Tensor
  pub v : Option Tensor
  pub info : Option Meta

-- `CudaIpcTransport`: what the queue holds, `none` for the sentinel, and the payloads kept alive.
pub record IpcQueue {ℓ} (Tensor Meta : Type ℓ) : Type ℓ where
  pub queue : List (Option (Packed Tensor Meta))
  pub inflight : List (KvPayload Tensor Meta)

-- A `recv` waits, sees the sentinel, or gets a payload.
pub data Received {ℓ} (P : Type ℓ) : Type ℓ where
  waits shutdown : Received P
  payload : P → Received P

-- `obj.get("meta", {})`; `no_meta` is the empty dictionary.
unfoldable pub get_or {ℓ} : {Meta : Type ℓ} → Meta → Option Meta → Meta
get_or no_meta none = no_meta
get_or no_meta (some info) = info

module _ {ℓ} {Tensor Meta : Type ℓ} where
  -- `{"tokens": payload.tokens, "k": payload.k, "v": payload.v, "meta": payload.meta}`
  unfoldable pub pack : KvPayload Tensor Meta → Packed Tensor Meta
  pack p = record { tokens = some p.tokens; k = some p.k; v = some p.v; info = some p.info }

  -- `KVPayload(obj["tokens"], obj["k"], obj["v"], obj.get("meta", {}))`; `none` is a KeyError.
  unfoldable pub from_items :
      Meta
      → Option (List ℕ)
      → Option Tensor
      → Option Tensor
      → Option Meta
      → Option (KvPayload Tensor Meta)
  from_items no_meta none k v info = none
  from_items no_meta (some tokens) none v info = none
  from_items no_meta (some tokens) (some k) none info = none
  from_items no_meta (some tokens) (some k) (some v) info =
      some (record { tokens = tokens; k = k; v = v; info = get_or no_meta info })

  unfoldable pub unpack : Meta → Packed Tensor Meta → Option (KvPayload Tensor Meta)
  unpack no_meta obj = from_items no_meta obj.tokens obj.k obj.v obj.info

  unfoldable pub ipc_send : KvPayload Tensor Meta → IpcQueue Tensor Meta → IpcQueue Tensor Meta
  ipc_send p q = record { queue = q.queue ++ some (pack p) ∷ []; inflight = q.inflight ++ p ∷ [] }

  unfoldable pub send_sentinel : IpcQueue Tensor Meta → IpcQueue Tensor Meta
  send_sentinel q = record q { queue = q.queue ++ none ∷ [] }

  -- What a `recv` makes of what it finds in the queue.
  unfoldable pub take_next :
      Meta
      → List (Option (Packed Tensor Meta))
      → M (IpcQueue Tensor Meta) (Received (KvPayload Tensor Meta))
  take_next no_meta [] q = ok waits q
  take_next no_meta (none ∷ rest) q = ok shutdown (record q { queue = rest })
  take_next no_meta (some obj ∷ rest) q =
      (do p ← or_raise (unpack no_meta obj) key_error; ret (payload p)) (record q { queue = rest })

  unfoldable pub ipc_recv : Meta → M (IpcQueue Tensor Meta) (Received (KvPayload Tensor Meta))
  ipc_recv no_meta q = take_next no_meta q.queue q

  unfoldable pub release_sent : IpcQueue Tensor Meta → IpcQueue Tensor Meta
  release_sent q = record q { inflight = [] }
