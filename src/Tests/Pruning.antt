-- ===== src/Tests/Pruning.antt =====
-- crates/walrust-core/src/compaction/prune.rs and trigger.rs at concrete data.
use walrust.Base.{
  ℕ, ◌≤◌, ◌<◌, ◌≡◌, ◌↔◌, refl, true, List, [], ◌∷◌, ◌++◌, map, arith, In, here, there, String, ℤ,
  pos, ◌-ℤ◌,
}
use walrust.Compaction.Layout.{Level, LayoutFile}
use walrust.Compaction.Planner.{plan_restore}
use walrust.Compaction.Planner.Gather.{to_candidate}
use walrust.Compaction.Prune.{plan_level_prune, surviving}
use walrust.Compaction.Prune.Newest.{plan_level_prune_sound, plan_level_prune_complete}
use walrust.Compaction.Prune.Retained.{KeysFixRanges, plan_restore-surviving, surviving-newest}
use walrust.Compaction.Trigger.{
  TriggerConfig, compaction_settings_default, trigger_config, trigger_config_default, seeded,
  should_compact_l0_to_l1, should_compact_l1_to_l2, eligible_prefix_len,
}
use walrust.Compaction.Trigger.Counts.{
  Event, l0_written, l0_to_l1_merged, notify_all, should_compact_iff,
}
use walrust.Compaction.Trigger.Eligible.{IsPrefix, eligible_prefix_len-IsPrefix}

abbrev file : String → Level → ℕ → ℕ → LayoutFile
file k l a b = record {
  key = k;
  level = l;
  range = record { min = a; max = b };
  last_modified_ms = pos 0;
}

abbrev old : LayoutFile
old = file "L1/1-10" 1 1 10

abbrev new : LayoutFile
new = file "L1/11-20" 1 11 20

abbrev merged : List LayoutFile
merged = old ∷ new ∷ []

deletes_old : plan_level_prune merged 15 ≡ old ∷ []
unfolding plan_level_prune
deletes_old = refl

keeps_newest : plan_level_prune merged 1000 ≡ old ∷ []
unfolding plan_level_prune
keeps_newest = refl

old_planned : In old (plan_level_prune merged 15)
old_planned = rw deletes_old here

plan_level_prune_sound_example :
    In old merged
    × (10 < 15)
    × ((g : LayoutFile) × In g merged × (g.level ≡ 1) × (10 < g.range.max))
plan_level_prune_sound_example = plan_level_prune_sound merged 15 old old_planned

plan_level_prune_complete_example : In old (plan_level_prune merged 15)
plan_level_prune_complete_example =
    plan_level_prune_complete merged 15 old new here (there here) refl (omega arith) (omega arith)

abbrev only : List LayoutFile
only = new ∷ []

only_fixed : KeysFixRanges only
only_fixed f g here here e = refl
only_fixed f g here (there m) e = elim m [ ]
only_fixed f g (there m) j e = elim m [ ]

plan_restore-surviving_example :
    plan_restore ([] ++ map to_candidate (surviving (plan_level_prune only 15) only)) 15 20
    ≡ plan_restore ([] ++ map to_candidate only) 15 20
plan_restore-surviving_example =
    plan_restore-surviving only 15 only_fixed [] 15 20 (omega arith) tt (omega arith)

only_newest : (g : LayoutFile) → In g only → g.level ≡ new.level → g.range.max ≤ 20
only_newest g here e = omega arith
only_newest g (there m) e = elim m [ ]

only_keyed : (g : LayoutFile) → In g only → g.key ≡ new.key → g.level ≡ new.level
only_keyed g here e = refl
only_keyed g (there m) e = elim m [ ]

surviving-newest_example : In new (surviving (plan_level_prune only 15) only)
surviving-newest_example = surviving-newest only 15 only_fixed new here only_newest only_keyed

default_off : trigger_config compaction_settings_default ≡ trigger_config_default
unfolding trigger_config compaction_settings_default
default_off = refl

abbrev config : TriggerConfig
config = record { l1_batch = 2; l2_batch = 2; keep_fine_window = 0 }

abbrev events : List Event
events = l0_written ∷ l0_written ∷ l0_to_l1_merged 2 ∷ l0_written ∷ []

should_compact_iff_example :
    let t = notify_all events (seeded config 0 0) in
    ((should_compact_l0_to_l1 t ≡ true) ↔ (2 ≤ 1)) × ((should_compact_l1_to_l2 t ≡ true) ↔ (2 ≤ 1))
should_compact_iff_example =
    should_compact_iff config events (record { l0 = 0; l1 = 0 }) (record { l0 = 1; l1 = 1 })
      (omega arith)

abbrev times : List ℤ
times = pos 100 ∷ pos 200 ∷ pos 950 ∷ []

two_old : eligible_prefix_len times (pos 1000) 100 ≡ 2
unfolding eligible_prefix_len
two_old = refl

eligible_prefix_len-IsPrefix_example :
    IsPrefix (pos 1000 -ℤ pos 100) times (eligible_prefix_len times (pos 1000) 100)
eligible_prefix_len-IsPrefix_example =
    eligible_prefix_len-IsPrefix times (pos 1000) 100 (omega arith) (omega arith)
