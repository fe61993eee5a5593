-- ===== src/Compaction/Trigger.antt =====
-- crates/walrust-core/src/compaction/trigger.rs: count-based triggers, and the prefix of a level
-- that is old enough to merge.
pub mod Counts
pub mod Eligible
use Prim.Native.Nat.{min}
use walrust.Base.{
  ℕ, suc, ◌+◌, ◌-◌, ◌*◌, Bool, true, false, List, [], ◌∷◌, leb, if◌then◌else◌, u64_max, ℤ, pos, lez,
  ◌-ℤ◌, sub_i64, as_i64,
}

-- A `Duration` is its whole number of milliseconds.
pub record TriggerConfig : Type 0 where
  pub l1_batch : ℕ
  pub l2_batch : ℕ
  pub keep_fine_window : ℕ

unfoldable pub trigger_config_default : TriggerConfig
trigger_config_default = record { l1_batch = 60; l2_batch = 24; keep_fine_window = 3600 * 1000 }

pub record CompactionSettings : Type 0 where
  pub enabled : Bool
  pub keep_fine_window : ℕ
  pub l1_batch : ℕ
  pub l2_batch : ℕ

unfoldable pub compaction_settings_default : CompactionSettings
unfolding trigger_config_default
compaction_settings_default = record {
  enabled = false;
  keep_fine_window = trigger_config_default.keep_fine_window;
  l1_batch = trigger_config_default.l1_batch;
  l2_batch = trigger_config_default.l2_batch;
}

unfoldable pub trigger_config : CompactionSettings → TriggerConfig
trigger_config s = record {
  l1_batch = s.l1_batch;
  l2_batch = s.l2_batch;
  keep_fine_window = s.keep_fine_window;
}

pub record CompactionTriggers : Type 0 where
  pub config : TriggerConfig
  pub l0_pending : ℕ
  pub l1_pending : ℕ

unfoldable pub seeded : TriggerConfig → ℕ → ℕ → CompactionTriggers
seeded config l0_files l1_files = record {
  config = config;
  l0_pending = l0_files;
  l1_pending = l1_files;
}

-- `saturating_add` of a 64-bit `usize`; `saturating_sub` is `-`.
abbrev pub saturating_add : ℕ → ℕ → ℕ
saturating_add a b = min (a + b) u64_max

unfoldable pub on_l0_written : CompactionTriggers → CompactionTriggers
on_l0_written t = record t { l0_pending = saturating_add t.l0_pending 1 }

unfoldable pub should_compact_l0_to_l1 : CompactionTriggers → Bool
should_compact_l0_to_l1 t = leb t.config.l1_batch t.l0_pending

unfoldable pub should_compact_l1_to_l2 : CompactionTriggers → Bool
should_compact_l1_to_l2 t = leb t.config.l2_batch t.l1_pending

unfoldable pub on_l0_to_l1_merged : ℕ → CompactionTriggers → CompactionTriggers
on_l0_to_l1_merged merged t = record t {
  l0_pending = t.l0_pending - merged;
  l1_pending = saturating_add t.l1_pending 1;
}

unfoldable pub on_l1_to_l2_merged : ℕ → CompactionTriggers → CompactionTriggers
on_l1_to_l2_merged merged t = record t { l1_pending = t.l1_pending - merged }

-- The loop counts the leading times at or before the cutoff.
unfoldable pub eligible_loop : ℤ → List ℤ → ℕ
eligible_loop cutoff [] = 0
eligible_loop cutoff (ts ∷ rest) = if lez ts cutoff then suc (eligible_loop cutoff rest) else 0

-- The window is cast to an `i64`, and the subtraction wraps, as release builds do.
unfoldable pub eligible_prefix_len : List ℤ → ℤ → ℕ → ℕ
unfolding eligible_loop
eligible_prefix_len last_modified_ms now_ms keep_fine_window =
    eligible_loop (sub_i64 now_ms (as_i64 keep_fine_window)) last_modified_ms
