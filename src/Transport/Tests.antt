-- ===== src/Transport/Tests.antt =====
-- Short messages over a connection that hands over few bytes at a time.
use di_spec.Prelude.{
  ℕ, suc, ◌≡◌, refl, List, [], ◌∷◌, ◌++◌, arith, take, map, length, ok, raise, connection_error,
}
use di_spec.Transport.{
  Socket, big_endian, from_big_endian, recv_n, recv_msg, IpcQueue, KvPayload, ipc_send, ipc_recv,
  take_next, pack, unpack, from_items, get_or, payload, shutdown, send_sentinel,
}
use di_spec.Transport.Framing.{length_prefix, recv_n_closed}
use di_spec.Transport.Wire.{recv_msg_cut, send_all, recv_all, recv_all-send_all}
use di_spec.Transport.Ipc.{Act, sent_of, run_acts, recv_each, run_acts-order}

abbrev first : List ℕ
first = 10 ∷ 20 ∷ 30 ∷ []

abbrev messages : List (List ℕ)
messages = first ∷ [] ∷ (255 ∷ []) ∷ []

-- Two bytes, then one, then five, then all that is asked for.
abbrev idle : Socket
idle = record { pending = []; schedule = 1 ∷ 0 ∷ 4 ∷ [] }

-- The first five bytes of a message, which are inside its length.
abbrev cut : Socket
cut = record idle { pending = take 5 (big_endian 8 3) }

abbrev two_bytes : List ℕ
two_bytes = 10 ∷ 20 ∷ []

abbrev four : Socket
four = record idle { pending = 1 ∷ 2 ∷ 3 ∷ 4 ∷ [] }

abbrev fresh : IpcQueue ℕ ℕ
fresh = record { queue = []; inflight = [] }

abbrev one : KvPayload ℕ ℕ
one = record { tokens = first; k = 7; v = 8; info = 9 }

abbrev other : KvPayload ℕ ℕ
other = record { tokens = two_bytes; k = 4; v = 5; info = 6 }

abbrev acts : List (Act (KvPayload ℕ ℕ))
acts = Act.recv ∷ Act.send one ∷ Act.send other ∷ Act.recv ∷ []

length_prefix_example : from_big_endian 0 (big_endian 8 70000) ≡ 70000
length_prefix_example = length_prefix 70000 (omega arith)

recv_n_closed_example : (s' : Socket) × (recv_n 5 four ≡ raise connection_error s')
recv_n_closed_example = recv_n_closed 5 four (omega arith)

recv_msg_cut_example : (s' : Socket) × (recv_msg cut ≡ raise connection_error s')
unfolding big_endian
recv_msg_cut_example = recv_msg_cut first 5 cut (omega arith) (omega arith) refl

recv_all-send_all_example :
    (s₁ : Socket) × (s₂ : Socket) × (send_all messages idle ≡ ok tt s₁)
    × (recv_all (length messages) s₁ ≡ ok messages s₂)
    × (s₂.pending ≡ [])
recv_all-send_all_example =
    recv_all-send_all messages idle (omega arith, (omega arith, (omega arith, tt))) refl

run_acts-order_example :
    (got left : List (KvPayload ℕ ℕ)) × (q₁ q₂ : IpcQueue ℕ ℕ) × (run_acts 0 acts fresh ≡ ok got q₁)
    × (got ++ left ≡ sent_of acts)
    × (recv_each 0 (suc (length left)) (send_sentinel q₁)
        ≡ ok (map payload left ++ shutdown ∷ []) q₂)
    × (q₁.inflight ≡ fresh.inflight ++ sent_of acts)
run_acts-order_example = run_acts-order 0 acts fresh refl

-- The first payload is received between the sends and the end.
first_received : (q : IpcQueue ℕ ℕ) × (run_acts 0 acts fresh ≡ ok (one ∷ []) q)
unfolding run_acts ipc_send ipc_recv take_next pack unpack from_items get_or
first_received = (_, refl)
