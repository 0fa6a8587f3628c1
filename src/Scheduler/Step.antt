-- ===== src/Scheduler/Step.antt =====
-- `add_request` and `step` of the scheduler.
use di_spec.Prelude.{
  ℕ, ◌+◌, ◌-◌, ◌*◌, min, Bool, true, false, ◌&&◌, List, [], ◌∷◌, ◌++◌, Option, none, some, length,
  take, drop, range_from, ltb, leb, ◌==◌, if◌then◌else◌, Dict, lookup, insert, M, ok, raise, ◌>>=◌,
  ◌>>◌, ret, or_raise, catch, zoom, key_error, index_error, value_error, ℤ, map,
}
use di_spec.BlockManager.{BlockManager, BlockTable}
use di_spec.BlockManager
use di_spec.PagedCache.{Tensors, KvStore, slots_for_positions, import_contiguous}
use di_spec.Scheduler.{
  State, waiting, prefilling, running, finished, SamplingParams, Shape, SeqMeta, PrefixKv, Request,
  Engine, get_last, remove_id, sort_requests,
}

-- The local variables of `step`. `last_idx` holds the cursor behind each last token: the source
-- appends `cursor - 1`, which is -1, the last row, at cursor 0.
pub record Batch : Type 0 where
  pub batch : List ℕ
  pub token_ids : List ℕ
  pub positions : List ℕ
  pub write_slots : List ℕ
  pub seq_meta : List SeqMeta
  pub last_idx : List ℕ
  pub sampled : List Bool
  pub budget : ℕ
  pub cursor : ℕ

abbrev pub empty_batch : ℕ → Batch
empty_batch budget = record {
  batch = [];
  token_ids = [];
  positions = [];
  write_slots = [];
  seq_meta = [];
  last_idx = [];
  sampled = [];
  budget = budget;
  cursor = 0;
}

unfoldable pub find_all {ℓ} : {V : Type ℓ} → Dict V → List ℕ → List V
find_all d [] = []
find_all d (k ∷ ks) = elim (lookup k d) [ none ↦ find_all d ks | some v ↦ v ∷ find_all d ks ]

module _ (T : Tensors) where
  pub record StepState : Type 0 where
    pub eng : Engine T
    pub b : Batch

  abbrev pub on_store {ℓ} : {A : Type ℓ} → M (KvStore T) A → M StepState A
  on_store = zoom (λ s. s.eng.store) (λ s store. record s { eng = record s.eng { store = store } })

  abbrev pub on_mgr {ℓ} : {A : Type ℓ} → M BlockManager A → M StepState A
  on_mgr = zoom (λ s. s.eng.mgr) (λ s m. record s { eng = record s.eng { mgr = m } })

  -- The request object behind a name; `update` writes its fields.
  unfoldable pub request : ℕ → M StepState (Request T)
  request rid s = or_raise (lookup rid s.eng.reqs) key_error s

  unfoldable pub update : ℕ → Request T → M StepState (Unit {0})
  update rid r s = ok tt (record s { eng = record s.eng { reqs = insert rid r s.eng.reqs } })

  -- `_check_prefix_kv`
  unfoldable pub same_shape : Shape → Shape → Bool
  same_shape a b =
      a.layers == b.layers && a.tokens == b.tokens && a.heads == b.heads && a.dim == b.dim

  unfoldable pub check_prefix_kv : Engine T → PrefixKv T → ℕ → Bool
  check_prefix_kv e kv prompt_len =
      let expected : Shape = record {
        layers = e.num_layers;
        tokens = kv.k_shape.tokens;
        heads = e.num_kv_heads;
        dim = e.head_dim;
      } in
      (same_shape kv.k_shape expected && same_shape kv.v_shape expected)
      && (ltb 0 kv.k_shape.tokens && ltb kv.k_shape.tokens prompt_len)

  unfoldable pub prefix_ok : Engine T → Option (PrefixKv T) → ℕ → Bool
  prefix_ok e none prompt_len = true
  prefix_ok e (some kv) prompt_len = check_prefix_kv e kv prompt_len

  -- `add_request`
  unfoldable pub add_request :
      List ℕ → ℕ → SamplingParams → Option ℕ → ℤ → Option (PrefixKv T) → M (Engine T) ℕ
  add_request prompt_ids max_new_tokens params eos_id priority prefix_kv e =
      let req : Request T = record {
        id = e.next_id;
        prompt_ids = prompt_ids;
        params = params;
        max_new_tokens = max_new_tokens;
        eos_id = eos_id;
        output_ids = [];
        state = waiting;
        cur_len = 0;
        prefilled = false;
        priority = priority;
        prefill_pos = 0;
        prefix_kv = prefix_kv;
      } in
      if prefix_ok e prefix_kv (length prompt_ids)
      then ok e.next_id (record e {
        reqs = insert e.next_id req e.reqs;
        waiting_ids = e.waiting_ids ++ e.next_id ∷ [];
        next_id = e.next_id + 1;
      })
      else raise value_error e

  -- Adding the `n` tokens of a sequence to the batch.
  abbrev pub push : ℕ → ℕ → List ℕ → List ℕ → List ℕ → SeqMeta → Batch → Batch
  push rid n tokens pos slots meta b = record b {
    batch = b.batch ++ rid ∷ [];
    token_ids = b.token_ids ++ tokens;
    positions = b.positions ++ pos;
    write_slots = b.write_slots ++ slots;
    seq_meta = b.seq_meta ++ meta ∷ [];
    budget = b.budget - n;
    cursor = b.cursor + n;
  }

  abbrev pub mark_sampled : Batch → Batch
  mark_sampled b = record b {
    last_idx = b.last_idx ++ b.cursor ∷ [];
    sampled = b.sampled ++ true ∷ [];
  }

  -- One round of the decode loop.
  unfoldable pub decode_one : ℕ → M StepState (Unit {0})
  decode_one rid = do
    req ← request rid
    before ← on_mgr (BlockManager.block_table rid)
    place ← on_mgr (BlockManager.append_token rid)
    table ← on_mgr (BlockManager.block_table rid)
    token ← or_raise (get_last req.output_ids) index_error
    λ s. ok tt (record s {
      eng = record s.eng { num_decode_tokens = s.eng.num_decode_tokens + 1 };
      b = mark_sampled (
          push rid 1 (token ∷ []) (before.num_tokens ∷ [])
            ((place.0 * s.eng.block_size + place.1) ∷ [])
            (record { block_ids = table.block_ids; q_len = 1; ctx_len = table.num_tokens }) s.b);
    })

  unfoldable pub decode_loop : List ℕ → M StepState (Unit {0})
  decode_loop [] s = ok tt s
  decode_loop (rid ∷ rids) s = elim (ltb s.b.budget 1) [
    | true ↦ ok tt s
    | false ↦ (do decode_one rid; decode_loop rids) s
  ]

  -- The import of `prefix_kv` at admission, and what it does to the request.
  unfoldable pub import_prefix : ℕ → BlockTable → Request T → M StepState (Request T)
  import_prefix rid table req = elim req.prefix_kv [
    | none ↦ ret req
    | some kv ↦ (do
      (λ s.
          on_store
            (import_contiguous T s.eng.block_size table.block_ids kv.k_shape.tokens kv.k kv.v) s)
      on_mgr (BlockManager.set_num_tokens rid kv.k_shape.tokens)
      ret (record req { prefill_pos = kv.k_shape.tokens; prefix_kv = none }))
  ]

  -- `except OutOfBlocksError: break`: `none` is the break.
  unfoldable pub try_allocate : ℕ → ℕ → M StepState (Option BlockTable)
  try_allocate rid pl = on_mgr (λ m. catch (BlockManager.allocate rid pl [] m))

  -- From waiting to prefilling, once the blocks are there.
  unfoldable pub enter : ℕ → BlockTable → Request T → M StepState (Unit {0})
  enter rid t req = do
    on_mgr (BlockManager.set_num_tokens rid 0)
    req' ← import_prefix rid t req
    update rid (record req' { state = prefilling })
    λ s. ok tt (record s {
      eng = record s.eng {
        waiting_ids = remove_id rid s.eng.waiting_ids;
        prefilling_ids = s.eng.prefilling_ids ++ rid ∷ [];
      };
    })

  abbrev pub is_waiting : State → Bool
  is_waiting waiting = true
  is_waiting prefilling = false
  is_waiting running = false
  is_waiting finished = false

  -- The first half of a round of the prefill loop; `false` is the break.
  unfoldable pub admit : ℕ → M StepState Bool
  admit rid = do
    req ← request rid
    if is_waiting req.state
        then (do
          got ← try_allocate rid (length req.prompt_ids)
          elim got [ none ↦ ret false | some t ↦ (do enter rid t req; ret true) ])
        else ret true

  -- What the end of a prompt does to its request.
  unfoldable pub finish_prefill : ℕ → Request T → M StepState (Unit {0})
  finish_prefill rid req = do
    update rid (record req { prefilled = true; state = running })
    λ s. ok tt (record s {
      eng = record s.eng {
        prefilling_ids = remove_id rid s.eng.prefilling_ids;
        running_ids = s.eng.running_ids ++ rid ∷ [];
      };
      b = mark_sampled s.b;
    })

  -- `slots_for_positions` of a tensor made from a list: that of an empty list holds floats, and
  -- indexing by it raises.
  unfoldable pub chunk_slots : ℕ → List ℕ → List ℕ → Option (List ℕ)
  chunk_slots block_size block_ids [] = none
  chunk_slots block_size block_ids (p ∷ ps) = slots_for_positions block_size block_ids (p ∷ ps)

  -- The second half of a round: a chunk of the prompt.
  unfoldable pub advance : ℕ → M StepState (Unit {0})
  advance rid s₀ =
      (do
        req ← request rid
        table ← on_mgr (BlockManager.block_table rid)
        let pl : ℕ = length req.prompt_ids
        let chunk : ℕ = min (min (pl - req.prefill_pos) s₀.eng.chunk_size) s₀.b.budget
        let pos : List ℕ = range_from req.prefill_pos chunk
        slots ← or_raise (chunk_slots s₀.eng.block_size table.block_ids pos) index_error
        let meta : SeqMeta = record {
          block_ids = table.block_ids;
          q_len = chunk;
          ctx_len = req.prefill_pos + chunk;
        }
        let req' : Request T = record req { prefill_pos = req.prefill_pos + chunk }
        (λ s. ok tt (record s {
          eng = record s.eng { num_prefill_tokens = s.eng.num_prefill_tokens + chunk };
          b = push rid chunk (take chunk (drop req.prefill_pos req.prompt_ids)) pos slots meta s.b;
        }))
        update rid req'
        on_mgr (BlockManager.set_num_tokens rid req'.prefill_pos)
        if leb pl req'.prefill_pos
            then finish_prefill rid req'
            else (λ s. ok tt (record s { b = record s.b { sampled = s.b.sampled ++ false ∷ [] } })))
        s₀

  unfoldable pub prefill_loop : List ℕ → M StepState (Unit {0})
  prefill_loop [] s = ok tt s
  prefill_loop (rid ∷ rids) s = elim (ltb s.b.budget 1) [
    | true ↦ ok tt s
    | false ↦
        (do
          going ← admit rid
          elim going [ true ↦ (do advance rid; prefill_loop rids) | false ↦ ret tt ])
          s
  ]

  abbrev pub sorted_waiting : Engine T → List ℕ
  sorted_waiting e = map (λ (r : Request T). r.id) (sort_requests T (find_all e.reqs e.waiting_ids))

  -- Phases 1 and 2 of `step`: the batch.
  unfoldable pub build : M StepState (Unit {0})
  build s =
      (do
        decode_loop s.eng.running_ids
        (λ s₁. ok tt (record s₁ { eng = record s₁.eng { waiting_ids = sorted_waiting s₁.eng } }))
        λ s₂. prefill_loop (s₂.eng.prefilling_ids ++ s₂.eng.waiting_ids) s₂)
        s
