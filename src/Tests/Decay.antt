-- ===== src/Tests/Decay.antt =====
-- The decay (src/spillover/decay/scheduler.py) on the vectors of two episodes.
use spillover.Prelude.{ℕ, String, ◌≡◌, true, false, [], ◌∷◌, ltb, arith}
use spillover.Facet.Links.{empty_graph}
use spillover.Facet.{VecRow, Memory}
use spillover.Decay.{apply_decay_for_project}
use spillover.Decay.Fading.{IsFaded, apply_decay-IsFaded}
use spillover.Tests.Fixtures.{floats}
use spillover.Tests.Retriever.{stored}

abbrev vector : String → VecRow ℕ String
vector i = record {
  episode_id = i;
  embedding = "";
  memory_type = "task";
  importance = 9500;
  ts = 1;
}

abbrev memory : Memory ℕ String
memory = record { db = stored; vectors = vector "a" ∷ vector "b" ∷ []; graph = empty_graph }

ltb-asym : (x y : ℕ) → ltb x y ≡ true → ltb y x ≡ false
ltb-asym x y e = ground arith

apply_decay-IsFaded_example :
    let out = apply_decay_for_project floats (λ x. x) 9 memory in
    (out.0.db ≡ stored) × IsFaded floats (λ x. x) ltb-asym stored memory.vectors out.0.vectors out.1
apply_decay-IsFaded_example = apply_decay-IsFaded floats (λ x. x) ltb-asym 9 memory
