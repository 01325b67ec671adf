-- ===== src/Decay.antt =====
-- src/spillover/decay/scheduler.py: the importance of memories that fades with their age. The waits
-- of the scheduler and its log are left out.
pub mod Fading
use spillover.Prelude.{
  ℕ, suc, ◌+◌, ◌*◌, String, Bool, true, false, Option, none, some, List, [], ◌∷◌, map, sum_by,
  str_eq, if◌then◌else◌, ℤ, pos, ◌-ℤ◌,
}
use spillover.Runtime.{Floats, min_f, max_f}
use spillover.Storage.{Episode, Db}
use spillover.CounterCompact.Detection.{prune_old_seen_turns}
use spillover.Retriever.Budget.{row_of_id}
use spillover.Facet.{VecRow, Memory, type_base}

-- `HALF_LIFE_HOURS.get(memory_type, 24)`
abbrev pub half_life_hours : String → ℕ
half_life_hours t =
    if str_eq t "priority"
    then 60 * 24
    else if str_eq t "procedural"
    then 30 * 24
    else if str_eq t "semantic"
    then 14 * 24
    else if str_eq t "episodic"
    then 7 * 24
    else if str_eq t "task"
    then 90 * 24
    else 24

-- `COALESCE(e.pinned, 0)` and `COALESCE(e.hit_count, 0)` behind the LEFT JOIN
abbrev pub is_pinned : Db → String → Bool
is_pinned db i = elim (row_of_id i db.episodes) [ none ↦ false | some e ↦ e.pinned ]

abbrev pub hits_of : Db → String → ℕ
hits_of db i = elim (row_of_id i db.episodes) [ none ↦ 0 | some e ↦ e.hit_count ]

abbrev pub age_hours : (f : Floats) → ℕ → ℕ → f.Float
age_hours f now ts =
    max_f f (f.literal "0")
      (f.div_f (f.div_f (f.of_int (pos now -ℤ pos ts)) (f.literal "1000")) (f.literal "3600"))

-- `exp` is `math.exp`. Every row of `vec_episodes` has a type, and its id is the table's key.
module _ (f : Floats) (exp : f.Float → f.Float) {E : Type 0} where
  -- `new_imp`
  unfoldable pub faded_importance : ℕ → ℕ → VecRow f.Float E → f.Float
  faded_importance now hit_count v =
      let decay = exp (
        f.div_f (f.sub_f (f.literal "0") (age_hours f now v.ts))
          (f.of_int (pos (half_life_hours v.memory_type)))) in
      let bonus =
        min_f f (f.mul_f (f.of_int (pos hit_count)) (f.literal "0.05")) (f.literal "0.5") in
      min_f f (f.literal "1.0")
        (f.add_f (f.mul_f (f.literal (type_base v.memory_type)) decay) bonus)

  abbrev pub faded_row : ℕ → Db → VecRow f.Float E → VecRow f.Float E
  faded_row now db v =
      if is_pinned db v.episode_id
      then v
      else record v { importance = faded_importance now (hits_of db v.episode_id) v }

  unfoldable pub apply_decay_for_project : ℕ → Memory f.Float E → Memory f.Float E × ℕ
  apply_decay_for_project now m = (
    record m { vectors = map (faded_row now m.db) m.vectors },
    sum_by (λ v. if is_pinned m.db v.episode_id then 0 else 1) m.vectors,
  )

  -- The round of `_tick` for one project: `ttl_hours` is 72, and the clock is read twice.
  unfoldable pub tick_project : String → ℕ → ℕ → Memory f.Float E → Memory f.Float E × (ℕ × ℕ)
  tick_project p now later m =
      let faded = apply_decay_for_project now m in
      let pruned = prune_old_seen_turns p later 72 faded.0.db in
      (record faded.0 { db = pruned.0 }, (faded.1, pruned.1))
