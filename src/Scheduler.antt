-- ===== src/Scheduler.antt =====
-- dispec/sched/scheduler.py. Requests are objects that several lists name: the store `reqs` holds
-- them, and the lists hold their ids. The forward pass, the projection to logits and the sampling
-- kernel are the parameter `Runner`; a step is a computation on the engine and the batch under
-- construction, and an exception leaves both as they are at that point.
pub mod Step
pub mod Finish
pub mod Quiet
pub mod Counting
pub mod Budget
pub mod Faults
mod Tests
use di_spec.Prelude.{
  ℕ, zero, suc, ◌+◌, ◌-◌, ◌*◌, min, Bool, true, false, not, ◌&&◌, ◌||◌, List, [], ◌∷◌, ◌++◌, Option,
  none, some, length, take, drop, get_elem?, range_from, ltb, leb, ◌==◌, if◌then◌else◌, Dict,
  lookup, insert, M, Outcome, ok, raise, ◌>>=◌, ◌>>◌, ret, fail, or_raise, zoom, Exc, key_error,
  index_error, value_error, out_of_blocks, ℤ, leb_ℤ,
}
use di_spec.BlockManager.{BlockManager, BlockTable}
use di_spec.BlockManager
use di_spec.PagedCache.{Tensors, KvStore, slots_for_positions, import_contiguous}

pub data State : Type 0 where
  waiting prefilling running finished : State

-- The sampling parameters; the two floats are opaque numbers.
pub record SamplingParams : Type 0 where
  pub temperature : ℕ
  pub top_p : ℕ
  pub top_k : ℕ

-- The shape of a contiguous KV tensor.
pub record Shape : Type 0 where
  pub layers : ℕ
  pub tokens : ℕ
  pub heads : ℕ
  pub dim : ℕ

pub record SeqMeta : Type 0 where
  pub block_ids : List ℕ
  pub q_len : ℕ
  pub ctx_len : ℕ

module _ (T : Tensors) where
  open T use {Row}

  -- `prefix_kv`: a pair of tensors with their shapes.
  pub record PrefixKv : Type 0 where
    pub k_shape : Shape
    pub v_shape : Shape
    pub k : List (List Row)
    pub v : List (List Row)

  pub record Request : Type 0 where
    pub id : ℕ
    pub prompt_ids : List ℕ
    pub params : SamplingParams
    pub max_new_tokens : ℕ
    pub eos_id : Option ℕ
    pub output_ids : List ℕ
    pub state : State
    pub cur_len : ℕ
    pub prefilled : Bool
    pub priority : ℤ
    pub prefill_pos : ℕ
    pub prefix_kv : Option PrefixKv

  -- What the scheduler calls of `ModelRunner` and of `sample`: a forward pass over the flat batch,
  -- which writes the cache and returns one hidden row for each token; the logits of hidden rows;
  -- and one token for each row of logits.
  pub record Runner : Type 1 where
    pub Hidden : Type 0
    pub Logits : Type 0
    pub forward : List ℕ → List ℕ → List ℕ → List SeqMeta → KvStore T → List Hidden × KvStore T
    pub logits : List Hidden → List Logits
    pub sample : List Logits → SamplingParams → List ℕ

  pub record Engine : Type 0 where
    pub mgr : BlockManager
    pub store : KvStore T
    pub num_layers : ℕ
    pub num_kv_heads : ℕ
    pub head_dim : ℕ
    pub block_size : ℕ
    pub max_batch_tokens : ℕ
    pub chunk_size : ℕ
    pub reqs : Dict Request
    pub waiting_ids : List ℕ
    pub prefilling_ids : List ℕ
    pub running_ids : List ℕ
    pub finished_ids : List ℕ
    pub next_id : ℕ
    pub num_steps : ℕ
    pub num_prefill_tokens : ℕ
    pub num_decode_tokens : ℕ

-- `self.output_ids[-1]`
unfoldable pub get_last {ℓ} : {A : Type ℓ} → List A → Option A
get_last [] = none
get_last (x ∷ []) = some x
get_last (x ∷ y ∷ ys) = get_last (y ∷ ys)

-- `a == b` for a token and an `int | None`.
unfoldable pub same_token : Option ℕ → Option ℕ → Bool
same_token none b = false
same_token (some a) none = false
same_token (some a) (some b) = a == b

-- `list.remove` of a request: the first of that id. (Python raises when there is none; the scheduler
-- removes a request only from the list that its state says it is in.)
unfoldable pub remove_id : ℕ → List ℕ → List ℕ
remove_id a [] = []
remove_id a (x ∷ xs) = if a == x then xs else x ∷ remove_id a xs

-- `Request.done`
unfoldable pub done : (T : Tensors) → Request T → Bool
done T r = leb r.max_new_tokens (length r.output_ids) || same_token (get_last r.output_ids) r.eos_id

-- `self.waiting.sort(key=lambda r: (-r.priority, r.id))`, a stable sort, on ids with their requests.
unfoldable pub goes_first : (T : Tensors) → Request T → Request T → Bool
goes_first T a b =
    if leb_ℤ b.priority a.priority
    then (if leb_ℤ a.priority b.priority then leb a.id b.id else true)
    else false

unfoldable pub insert_request : (T : Tensors) → Request T → List (Request T) → List (Request T)
insert_request T r [] = r ∷ []
insert_request T r (x ∷ xs) = if goes_first T r x then r ∷ x ∷ xs else x ∷ insert_request T r xs

unfoldable pub sort_requests : (T : Tensors) → List (Request T) → List (Request T)
sort_requests T [] = []
sort_requests T (r ∷ rs) = insert_request T r (sort_requests T rs)
