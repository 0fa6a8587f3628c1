-- ===== src/PagedCache/Store.antt =====
-- What is imported can be exported, and a sequence's KV is not touched by writes elsewhere.
use di_spec.Prelude.{
  ℕ, zero, suc, ◌+◌, ◌*◌, ◌≤◌, ◌<◌, ◌≡◌, refl, ◌∙◌, sym, List, [], ◌∷◌, some, map, arith, length,
  length-map, length-range_from, count, range_from, Option-cases, Bool-cases, ==→eq, ==→ne, ◌==◌,
  inl, inr, subst, ap, ok, final, bind-final, Option, none, or_raise, index_error, ◌>>=◌, ◌>>◌,
}
use di_spec.PagedCache.{
  Tensors, KvStore, context_slots, slots_for_positions, broadcast, broadcast_each, assign, set_key,
  set_value, read_layers, write_layers, export_contiguous, import_contiguous,
}
use di_spec.PagedCache.Slots.{slots_total, slots_once, slots_apart, count-range_from}

module _ (T : Tensors) where
  open T use {
    Row, Tensor, to_dtype, index_copy, index, index-index_copy, index_other_slots,
    index_other_layer,
  }

  -- Each layer has as many rows as there are slots.
  abbrev pub IsShaped : ℕ → List (List Row) → Type 0
  IsShaped n [] = Unit {0}
  IsShaped n (rows ∷ more) = (length rows ≡ n) × IsShaped n more

  broadcast_exact : {A : Type 0} (n : ℕ) (xs : List A) → length xs ≡ n → broadcast n xs ≡ some xs
  unfolding broadcast
  broadcast_exact n xs h = ground (arith, h)

  broadcast_each_exact : (n : ℕ) (k : List (List Row)) → IsShaped n k → broadcast_each n k ≡ some k
  unfolding broadcast_each
  broadcast_each_exact n [] h = refl
  broadcast_each_exact n (rows ∷ more) h =
      rw (broadcast_each, broadcast_exact n rows h.0, broadcast_each_exact n more h.1) refl

  write_layers_below :
      (layer below : ℕ) (slots others : List ℕ) (k : List (List Row)) (t : Tensor)
      → below < layer
      → index below others (write_layers T layer slots k t) ≡ index below others t
  unfolding write_layers
  write_layers_below layer below slots others [] t h = refl
  write_layers_below layer below slots others (rows ∷ more) t h =
      write_layers_below (layer + 1) below slots others more
        (index_copy layer slots (map to_dtype rows) t) (omega arith)
      ∙ index_other_layer layer below slots others (map to_dtype rows) t (omega arith)

  read-write_layers :
      (layer : ℕ) (slots : List ℕ) (k : List (List Row)) (t : Tensor)
      → ((s : ℕ) → count s slots ≤ 1)
      → IsShaped (length slots) k
      → read_layers T layer (length k) slots (write_layers T layer slots k t) ≡ map (map to_dtype) k
  unfolding write_layers read_layers
  read-write_layers layer slots [] t once shape = refl
  read-write_layers layer slots (rows ∷ more) t once shape =
      let t' : Tensor = index_copy layer slots (map to_dtype rows) t in
      let first : index layer slots (write_layers T (layer + 1) slots more t') ≡ map to_dtype rows =
        write_layers_below (layer + 1) layer slots slots more t' (omega arith)
        ∙ index-index_copy layer slots (map to_dtype rows) t once
            (sym (length-map to_dtype rows ∙ shape.0)) in
      let rest = read-write_layers (layer + 1) slots more t' once shape.1 in rw (first, rest)

  -- Other slots keep their rows in every layer.
  write_layers_kept :
      (layer from : ℕ) (slots others : List ℕ) (k : List (List Row)) (t : Tensor)
      → ((s : ℕ) → count s slots * count s others ≡ 0)
      → index layer others (write_layers T from slots k t) ≡ index layer others t
  unfolding write_layers
  write_layers_kept layer from slots others [] t apart = refl
  write_layers_kept layer from slots others (rows ∷ more) t apart =
      let t' : Tensor = index_copy from slots (map to_dtype rows) t in
      write_layers_kept layer (from + 1) slots others more t' apart
      ∙ elim (Bool-cases (from == layer)) [
        | inl same ↦
            subst
              (λ (l : ℕ).
                index l others (index_copy from slots (map to_dtype rows) t) ≡ index l others t)
              (==→eq from layer same)
              (index_other_slots from slots others (map to_dtype rows) t apart)
        | inr other ↦
            index_other_layer from layer slots others (map to_dtype rows) t (==→ne from layer other)
      ]

  read_layers_apart :
      (layer n from : ℕ) (slots others : List ℕ) (k : List (List Row)) (t : Tensor)
      → ((s : ℕ) → count s slots * count s others ≡ 0)
      → read_layers T layer n others (write_layers T from slots k t)
        ≡ read_layers T layer n others t
  unfolding read_layers
  read_layers_apart layer zero from slots others k t apart = refl
  read_layers_apart layer (suc n) from slots others k t apart = rw (
    write_layers_kept layer from slots others k t apart,
    read_layers_apart (layer + 1) n from slots others k t apart,
  )

  assign_shaped :
      (slots : List ℕ) (k : List (List Row)) (t : Tensor)
      → length k ≡ T.num_layers t
      → IsShaped (length slots) k
      → assign T slots k t ≡ some (write_layers T 0 slots k t)
  unfolding assign
  assign_shaped slots k t layers shape =
      rw
        (
          assign,
          broadcast_exact (T.num_layers t) k layers,
          broadcast_each_exact (length slots) k shape,
        )
        refl

  assign_writes :
      (slots : List ℕ) (k : List (List Row)) (t t' : Tensor)
      → assign T slots k t ≡ some t'
      → (rows : List (List Row)) × (t' ≡ write_layers T 0 slots rows t)
  unfolding assign
  assign_writes slots k t t' e = elim (Option-cases (broadcast (T.num_layers t) k)) [
    | inl f ↦ absurd (ground (arith, f))
    | inr (layers, f) ↦ elim (Option-cases (broadcast_each (length slots) layers)) [
      | inl g ↦ absurd (ground (arith, f, g))
      | inr (rows, g) ↦ (rows, ground (arith, f, g))
    ]
  ]

  -- The rows of some slots are those from before.
  abbrev Keeps : ℕ → List ℕ → KvStore T → KvStore T → Type 0
  Keeps num_layers os s s' =
      (read_layers T 0 num_layers os s'.key ≡ read_layers T 0 num_layers os s.key)
      × (read_layers T 0 num_layers os s'.value ≡ read_layers T 0 num_layers os s.value)

  module _ (num_layers : ℕ) (os ss : List ℕ) (k : List (List Row)) (s s' : KvStore T)
      (apart : (c : ℕ) → count c ss * count c os ≡ 0) (h : Keeps num_layers os s s') where
    assign_keeps :
        (t t' : Tensor)
        → assign T ss k t ≡ some t'
        → read_layers T 0 num_layers os t' ≡ read_layers T 0 num_layers os t
    assign_keeps t t' e =
        let (rows, w) = assign_writes ss k t t' e in
        ap (read_layers T 0 num_layers os) w ∙ read_layers_apart 0 num_layers 0 ss os rows t apart

    set_key_keeps : Keeps num_layers os s (final (set_key T ss k s'))
    unfolding set_key
    set_key_keeps = elim (Option-cases (assign T ss k s'.key)) [
      | inl e ↦ rw (set_key, e) h
      | inr (t, e) ↦ rw (set_key, e) (assign_keeps s'.key t e ∙ h.0, h.1)
    ]

    set_value_keeps : Keeps num_layers os s (final (set_value T ss k s'))
    unfolding set_value
    set_value_keeps = elim (Option-cases (assign T ss k s'.value)) [
      | inl e ↦ rw (set_value, e) h
      | inr (t, e) ↦ rw (set_value, e) (h.0, assign_keeps s'.value t e ∙ h.1)
    ]

  module _ (bs : ℕ) (ids : List ℕ) (seq_len : ℕ) (positive : 0 < bs) where
    context_inside :
        seq_len ≤ length ids * bs
        → (p : ℕ) → 0 < count p (range_from 0 seq_len)
        → p < length ids * bs
    context_inside room p m = ground (arith, count-range_from p 0 seq_len)

    context_once : (c : ℕ) → count c (range_from 0 seq_len) ≤ 1
    context_once c = ground (arith, count-range_from c 0 seq_len)

    import_keeps :
        (k v : List (List Row)) (s : KvStore T) (num_layers : ℕ) (os : List ℕ)
        → ((ss : List ℕ)
            → slots_for_positions bs ids (range_from 0 seq_len) ≡ some ss
            → (c : ℕ) → count c ss * count c os ≡ 0)
        → Keeps num_layers os s (final (import_contiguous T bs ids seq_len k v s))
    unfolding import_contiguous context_slots
    import_keeps k v s num_layers os apart =
        go (slots_for_positions bs ids (range_from 0 seq_len)) refl
      where
        go :
            (o : Option (List ℕ))
            → slots_for_positions bs ids (range_from 0 seq_len) ≡ o
            → Keeps num_layers os s (
                final (
                  (or_raise o index_error >>= (λ slots. set_key T slots k >> set_value T slots v))
                    s))
        go none f = (refl, refl)
        go (some ss) f =
            bind-final (Keeps num_layers os s) (set_key T ss k s) (λ _. set_value T ss v)
              (set_key_keeps num_layers os ss k s s (apart ss f) (refl, refl))
              (λ _ s₁ h. set_value_keeps num_layers os ss v s s₁ (apart ss f) h)

    -- What `import_contiguous` writes for a sequence with distinct blocks and room for the tokens,
    -- from tensors with the layers of the cache, `export_contiguous` reads back: the same rows in the
    -- same order, converted to the element type of the cache. Neither call fails.
    pub export-import :
        (k v : List (List Row)) (s : KvStore T)
        → ((c : ℕ) → count c ids ≤ 1)
        → seq_len ≤ length ids * bs
        → IsShaped seq_len k
        → IsShaped seq_len v
        → length k ≡ T.num_layers s.key
        → length v ≡ T.num_layers s.value
        → length k ≡ length v
        → (s' : KvStore T) × (import_contiguous T bs ids seq_len k v s ≡ ok tt s')
          × (export_contiguous T (length k) bs ids seq_len s'
              ≡ some (map (map to_dtype) k, map (map to_dtype) v))
    unfolding import_contiguous set_key set_value export_contiguous context_slots
    export-import k v s once room hk hv lk lv same =
        let (ss, e, l) = slots_total bs ids (range_from 0 seq_len) positive (context_inside room) in
        let distinct = slots_once bs ids (range_from 0 seq_len) ss positive once context_once e in
        let size : length ss ≡ seq_len = l ∙ length-range_from 0 seq_len in
        let shape_k : IsShaped (length ss) k = subst (λ (n : ℕ). IsShaped n k) (sym size) hk in
        let shape_v : IsShaped (length ss) v = subst (λ (n : ℕ). IsShaped n v) (sym size) hv in
        let read_k = read-write_layers 0 ss k s.key distinct shape_k in
        let read_v = read-write_layers 0 ss v s.value distinct shape_v in
        (
          record { key = write_layers T 0 ss k s.key; value = write_layers T 0 ss v s.value },
          ground (
            arith,
            e,
            assign_shaped ss k s.key lk shape_k,
            assign_shaped ss v s.value lv shape_v,
          ),
          ground (arith, e, read_k, read_v, same),
        )

    -- An import leaves the KV of every sequence without a common block as it was, also when it raises.
    pub export-import_apart :
        (k v : List (List Row)) (s : KvStore T) (others : List ℕ) (num_layers n : ℕ)
        → ((c : ℕ) → 0 < count c ids → count c others ≡ 0)
        → export_contiguous T num_layers bs others n
            (final (import_contiguous T bs ids seq_len k v s))
          ≡ export_contiguous T num_layers bs others n s
    unfolding export_contiguous context_slots
    export-import_apart k v s others num_layers n apart =
        elim (Option-cases (slots_for_positions bs others (range_from 0 n))) [
          | inl g ↦ rw (export_contiguous, context_slots, g) refl
          | inr (os, g) ↦
              let (kept_k, kept_v) = import_keeps k v s num_layers os (λ ss f.
                slots_apart bs ids others (range_from 0 seq_len) (range_from 0 n) ss os positive
                  apart f g) in
              rw (export_contiguous, context_slots, g, kept_k, kept_v) refl
        ]
