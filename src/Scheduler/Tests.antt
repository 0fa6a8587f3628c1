-- ===== src/Scheduler/Tests.antt =====
-- Engines over small pools, and the scheduler's theorems at them.
use di_spec.Prelude.{
  ℕ, ◌+◌, ◌≡◌, refl, true, false, List, [], ◌∷◌, none, arith, map, lookup, has, ok, raise,
  out_of_blocks, Post, pos,
}
use di_spec.BlockManager.{blocks_needed}
use di_spec.BlockManager.Tests.{two}
use di_spec.PagedCache.Tests.{table, blank}
use di_spec.Scheduler.{
  State, waiting, running, Request, Runner, Engine, sort_requests, insert_request,
}
use di_spec.Scheduler.Step.{empty_batch, build, find_all}
use di_spec.Scheduler.Counting.{IsFilled, IsCounted}
use di_spec.Scheduler.Budget.{build-IsCounted}
use di_spec.Scheduler.Faults.{step_exhausted, step_blocked}
use di_spec.Scheduler.Finish.{step, has_work}

-- The model's next token is a token more by one; the sampler takes the logits as they are.
abbrev runner : Runner table
runner = record {
  Hidden = ℕ;
  Logits = ℕ;
  forward = λ tokens positions slots metas store. (tokens, store);
  logits = map (λ h. h + 1);
  sample = λ rows params. rows;
}

abbrev request_of : ℕ → List ℕ → State → List ℕ → Request table
request_of rid prompt_ids state output_ids = record {
  id = rid;
  prompt_ids = prompt_ids;
  params = record { temperature = 0; top_p = 1; top_k = 0 };
  max_new_tokens = 4;
  eos_id = none;
  output_ids = output_ids;
  state = state;
  cur_len = 0;
  prefilled = false;
  priority = pos 0;
  prefill_pos = 0;
  prefix_kv = none;
}

-- Sequences 7 and 8 are running on the manager of the block manager's tests, and 9 waits with a
-- prompt of three blocks.
abbrev prompt : List ℕ
prompt = 1 ∷ 2 ∷ 3 ∷ 4 ∷ 5 ∷ []

abbrev request_9 : Request table
request_9 = request_of 9 prompt waiting []

abbrev request_8 : Request table
request_8 = request_of 8 (1 ∷ 2 ∷ []) running (4 ∷ [])

abbrev engine : Engine table
engine = record {
  mgr = two;
  store = blank;
  num_layers = 2;
  num_kv_heads = 1;
  head_dim = 1;
  block_size = 2;
  max_batch_tokens = 3;
  chunk_size = 2;
  reqs = (8, request_8) ∷ (9, request_9) ∷ [];
  waiting_ids = 9 ∷ [];
  prefilling_ids = [];
  running_ids = 8 ∷ [];
  finished_ids = [];
  next_id = 10;
  num_steps = 0;
  num_prefill_tokens = 0;
  num_decode_tokens = 0;
}

-- No block is free.
abbrev exhausted : Engine table
exhausted = record engine { mgr = record two { pool = record two.pool { free = [] } } }

-- Nothing is under way.
abbrev blocked : Engine table
blocked = record engine { running_ids = [] }

abbrev none_behind : List ℕ
none_behind = []

build-IsCounted_example :
    Post
      (λ _ s. IsCounted engine.max_batch_tokens s.b)
      (λ s. IsFilled engine.max_batch_tokens s.b)
      (build table (record { eng = engine; b = empty_batch engine.max_batch_tokens }))
build-IsCounted_example = build-IsCounted table engine

step_exhausted_example : step table runner exhausted ≡ raise out_of_blocks exhausted
unfolding lookup
step_exhausted_example =
    step_exhausted table runner exhausted (omega arith) 8 none_behind request_8
      (record { block_ids = 1 ∷ []; num_tokens = 2 }) refl refl refl refl refl

step_blocked_example :
    (step table runner blocked ≡ ok tt (record blocked { waiting_ids = 9 ∷ none_behind }))
    × (has_work table runner (record blocked { waiting_ids = 9 ∷ none_behind }) ≡ true)
unfolding lookup has find_all sort_requests insert_request blocks_needed
step_blocked_example =
    step_blocked table runner blocked (omega arith) 9 none_behind request_9 refl refl refl refl refl
      refl (omega arith)
