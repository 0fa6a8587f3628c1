-- ===== src/Transport/Ipc.antt =====
-- The queue of `CudaIpcTransport`.
use di_spec.Prelude.{
  ℕ, zero, suc, ◌≡◌, refl, sym, ap, arith, length, ◌∙◌, List, [], ◌∷◌, ◌++◌, append_assoc,
  append-nil, none, some, map, Option, ok, bind_of_ok, M, ◌>>=◌, ret,
}
use di_spec.Transport.{
  KvPayload, Packed, IpcQueue, Received, waits, shutdown, payload, pack, unpack, from_items, get_or,
  ipc_send, ipc_recv, take_next, send_sentinel,
}

-- What the two ends of a queue do: the sender sends, and the receiver receives.
pub data Act {ℓ} (P : Type ℓ) : Type ℓ where
  send : P → Act P
  recv : Act P

-- The payloads that were sent.
abbrev pub sent_of {ℓ} : {P : Type ℓ} → List (Act P) → List P
sent_of [] = []
sent_of (Act.send p ∷ acts) = p ∷ sent_of acts
sent_of (Act.recv ∷ acts) = sent_of acts

abbrev heard {ℓ} : {P : Type ℓ} → Received P → List P
heard waits = []
heard shutdown = []
heard (payload p) = p ∷ []

module _ {ℓ} {Tensor Meta : Type ℓ} where
  -- The payloads that the receiver gets while both ends act in a given order.
  unfoldable pub run_acts :
      Meta
      → List (Act (KvPayload Tensor Meta))
      → M (IpcQueue Tensor Meta) (List (KvPayload Tensor Meta))
  run_acts no_meta [] q = ok [] q
  run_acts no_meta (Act.send p ∷ acts) q = run_acts no_meta acts (ipc_send p q)
  run_acts no_meta (Act.recv ∷ acts) q =
      (do got ← ipc_recv no_meta; rest ← run_acts no_meta acts; ret (heard got ++ rest)) q

  abbrev packed : List (KvPayload Tensor Meta) → List (Option (Packed Tensor Meta))
  packed ps = map some (map pack ps)

  packed-snoc :
      (ps : List (KvPayload Tensor Meta)) (p : KvPayload Tensor Meta)
      → packed (ps ++ p ∷ []) ≡ packed ps ++ some (pack p) ∷ []
  packed-snoc [] p = refl
  packed-snoc (x ∷ ps) p = ap (◌∷◌ (some (pack x))) (packed-snoc ps p)

  run_acts_lem :
      (no_meta : Meta) (acts : List (Act (KvPayload Tensor Meta)))
      (ps : List (KvPayload Tensor Meta)) (q : IpcQueue Tensor Meta)
      → q.queue ≡ packed ps
      → (got left : List (KvPayload Tensor Meta)) × (q' : IpcQueue Tensor Meta) × (run_acts no_meta
            acts q
          ≡ ok got q')
        × (got ++ left ≡ ps ++ sent_of acts)
        × (q'.queue ≡ packed left)
        × (q'.inflight ≡ q.inflight ++ sent_of acts)
  unfolding run_acts ipc_send ipc_recv take_next pack unpack from_items get_or
  run_acts_lem no_meta [] ps q e =
      ([], ps, q, refl, sym (append-nil ps), e, sym (append-nil q.inflight))
  run_acts_lem no_meta (Act.send p ∷ acts) ps q e =
      let (got, left, q', r, s, l, i) =
        run_acts_lem no_meta acts (ps ++ p ∷ []) (ipc_send p q)
          (ap (λ objs. objs ++ some (pack p) ∷ []) e ∙ sym (packed-snoc ps p)) in
      (
        got,
        left,
        q',
        r,
        s ∙ append_assoc ps (p ∷ []) (sent_of acts),
        l,
        i ∙ append_assoc q.inflight (p ∷ []) (sent_of acts),
      )
  run_acts_lem no_meta (Act.recv ∷ acts) [] q e =
      let (got, left, q', r, s, l, i) = run_acts_lem no_meta acts [] q e in
      (
        got,
        left,
        q',
        bind_of_ok (ipc_recv no_meta) _ q waits q (ap (λ objs. take_next no_meta objs q) e)
            (bind_of_ok (run_acts no_meta acts) _ q got q' r refl),
        s,
        l,
        i,
      )
  run_acts_lem no_meta (Act.recv ∷ acts) (p ∷ ps) q e =
      let (got, left, q', r, s, l, i) =
        run_acts_lem no_meta acts ps (record q { queue = packed ps }) refl in
      (
        p ∷ got,
        left,
        q',
        bind_of_ok (ipc_recv no_meta) _ q (payload p) (record q { queue = packed ps })
            (ap (λ objs. take_next no_meta objs q) e)
            (bind_of_ok (run_acts no_meta acts) _ (record q { queue = packed ps }) got q' r refl),
        ap (◌∷◌ p) s,
        l,
        i,
      )

  -- `n` calls of `recv`.
  unfoldable pub recv_each :
      Meta → ℕ → M (IpcQueue Tensor Meta) (List (Received (KvPayload Tensor Meta)))
  recv_each no_meta zero = ret []
  recv_each no_meta (suc n) = do r ← ipc_recv no_meta; rs ← recv_each no_meta n; ret (r ∷ rs)

  drained :
      (no_meta : Meta) (ps : List (KvPayload Tensor Meta)) (held : List (KvPayload Tensor Meta))
      → recv_each no_meta
          (suc (length ps))
          (record { queue = packed ps ++ none ∷ []; inflight = held })
        ≡ ok (map payload ps ++ shutdown ∷ []) (record { queue = []; inflight = held })
  unfolding recv_each ipc_recv take_next pack unpack from_items get_or
  drained no_meta [] held = refl
  drained no_meta (p ∷ ps) held = ground (arith, drained no_meta ps held)

  -- In whatever order the two ends of an empty queue act, no call raises, and the receiver gets the
  -- payloads that were sent, each once, in their order and with their tokens, tensors and metadata.
  -- Those that it has not asked for yet it gets next, and after a sentinel the end. The sender
  -- holds every payload that it sent.
  pub run_acts-order :
      (no_meta : Meta) (acts : List (Act (KvPayload Tensor Meta))) (q : IpcQueue Tensor Meta)
      → q.queue ≡ []
      → (got left : List (KvPayload Tensor Meta)) × (q₁ q₂ : IpcQueue Tensor Meta) × (run_acts
            no_meta acts q
          ≡ ok got q₁)
        × (got ++ left ≡ sent_of acts)
        × (recv_each no_meta (suc (length left)) (send_sentinel q₁)
            ≡ ok (map payload left ++ shutdown ∷ []) q₂)
        × (q₁.inflight ≡ q.inflight ++ sent_of acts)
  unfolding send_sentinel
  run_acts-order no_meta acts q e =
      let (got, left, q₁, r, s, l, i) = run_acts_lem no_meta acts [] q e in
      (
        got,
        left,
        q₁,
        record { queue = []; inflight = q₁.inflight },
        r,
        s,
        rw l (drained no_meta left q₁.inflight),
        i,
      )
