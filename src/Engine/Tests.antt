-- ===== src/Engine/Tests.antt =====
-- A generation after a prompt that shares its first block with the prefix cache.
use di_spec.Prelude.{ℕ, ◌≡◌, refl, true, [], ◌∷◌, map, ◌+◌, ret, none, lookup, final}
use di_spec.PagedCache.Tests.{table, blank}
use di_spec.PrefixCache.Pins.{IsSound}
use di_spec.PrefixCache.Tests.{hash, full, full-IsSound}
use di_spec.Scheduler.{SamplingParams}
use di_spec.Engine.{Model, LlmEngine, generate}
use di_spec.Engine.Owning.{generate-IsSound}

-- A model whose next token is one more, and whose graphs give the token back.
abbrev model : Model table
model = record {
  Hidden = ℕ;
  Logits = ℕ;
  forward = λ tokens positions slots metas. ret tokens;
  logits = λ hidden. ret (map (λ h. h + 1) hidden);
  sample = λ rows params. ret rows;
  replay = λ mc token position wslot slots mask. ret (token ∷ []);
}

abbrev engine : LlmEngine table model hash
engine = record {
  prefix = full;
  use_prefix = true;
  store = blank;
  graph = none;
  seq_counter = 9;
  last_prefill_tokens = 0;
}

abbrev greedy : SamplingParams
greedy = record { temperature = 0; top_p = 1; top_k = 0 }

generate-IsSound_example :
    let e' = final (generate table model hash (5 ∷ 6 ∷ 8 ∷ []) 1 greedy none engine) in
    IsSound e'.prefix × ((k : ℕ) → lookup k e'.prefix.mgr.tables ≡ lookup k full.mgr.tables)
unfolding lookup
generate-IsSound_example =
    generate-IsSound table model hash (5 ∷ 6 ∷ 8 ∷ []) 1 greedy none engine full-IsSound refl
