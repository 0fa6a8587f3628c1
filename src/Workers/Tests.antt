-- ===== src/Workers/Tests.antt =====
-- Two requests through the two workers, and an escalation, over the block manager and the store of
-- the tests of these parts.
use di_spec.Prelude.{
  replicate, insert, remove, range_from, ℕ, ◌+◌, ◌≡◌, refl, true, List, [], ◌∷◌, map, some, none,
  lookup, has, inr,
}
use di_spec.Prelude.Rings.Two.{f2}
use di_spec.BlockManager.{
  allocate, all_blocks, adopt, incref_all, alloc_blocks, alloc_block, append_token, block_table,
  decref, decref_all, free, grow, incref, set_num_tokens, set_table, slot, blocks_needed, init,
}
use di_spec.PagedCache.Tests.{table, blank}
use di_spec.Scheduler.{get_last, same_token, Runner}
use di_spec.KvTransfer.Maps.{KvMap}
use di_spec.KvTransfer.Tests.{ones}
use di_spec.Workers.Disaggregated.{
  take_payload, send_kv, prefill_job, to_send, decode_payload, decode_with, put_answer, to_answer,
  DisaggConfig, Job, Worker, Disaggregated, prefill_main, decode_main,
}
use di_spec.Workers.Pipeline.{Turn, run, colocated, run-colocated}
use di_spec.Transport.{ipc_recv, ipc_send, take_next, unpack, from_items, pack, get_or}
use di_spec.Workers.{
  prefill_export, prefill, decode_from_kv, decode_rounds, decode_step, export_rows, import_rows,
  last_row, next_token, run_forward, tokens_of,
}
use di_spec.PagedCache.{
  set_key, set_value, assign, broadcast, broadcast_each, stretch, context_slots, export_contiguous,
  import_contiguous, read_layers, slot_at, slots_for_positions, write_layers,
}

-- A model whose hidden rows are its tokens, and whose next token is one more.
abbrev pub counting : Runner table
counting = record {
  Hidden = ℕ;
  Logits = ℕ;
  forward = λ tokens positions slots metas store. (tokens, store);
  logits = map (λ h. h + 1);
  sample = λ rows params. rows;
}

abbrev config : DisaggConfig
config = record {
  num_layers = 1;
  num_blocks = 4;
  max_new_tokens = 2;
  eos_id = none;
  params = record { temperature = 0; top_p = 1; top_k = 0 };
}

abbrev idle : Worker table
idle = record { cache = record { mgr = init 4 2; store = blank }; sid = 0; alive = true }

abbrev jobs : List Job
jobs =
    record { rid = 1; prompt_ids = 5 ∷ 6 ∷ 7 ∷ [] } ∷ record { rid = 2; prompt_ids = 3 ∷ [] } ∷ []

abbrev submitted : Disaggregated table
submitted = record {
  req_q = map some jobs;
  kv_q = record { queue = []; inflight = [] };
  res_q = [];
  pf = idle;
  dc = idle;
}

-- The first request is decoded before the second is prefilled.
abbrev turns : List Turn
turns = Turn.prefill ∷ Turn.decode ∷ Turn.prefill ∷ Turn.decode ∷ Turn.decode ∷ []

run-colocated_example :
    (run table counting config turns submitted).res_q
    ≡ colocated table counting config jobs idle idle
unfolding run decode_main prefill_main take_payload ipc_recv send_kv prefill_job to_send
    prefill_export prefill allocate has init all_blocks blocks_needed adopt incref_all alloc_blocks
    alloc_block append_token block_table decref decref_all free grow incref set_num_tokens set_table
    slot context_slots export_contiguous import_contiguous read_layers slot_at slots_for_positions
    write_layers insert lookup remove range_from get_last same_token ipc_send decode_payload
    put_answer to_answer decode_from_kv decode_rounds decode_step export_rows import_rows last_row
    next_token run_forward tokens_of take_next unpack from_items pack get_or decode_with set_key
    set_value assign broadcast broadcast_each stretch replicate
run-colocated_example =
    run-colocated table counting config turns jobs submitted refl refl refl refl refl
      (inr refl, inr refl)

abbrev no_maps : KvMap f2 ones
no_maps = record { keys = []; values = []; num_kv_heads = 1; head_dim = 2 }
