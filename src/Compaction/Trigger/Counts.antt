-- ===== src/Compaction/Trigger/Counts.antt =====
-- The pending counts are what the writes and merges leave, and fire at the batch size.
use walrust.Base.{ℕ, ◌+◌, ◌-◌, ◌≤◌, ◌<◌, ◌≡◌, ◌↔◌, refl, true, List, [], ◌∷◌, arith, u64_max}
use walrust.Compaction.Trigger.{
  TriggerConfig, CompactionTriggers, seeded, on_l0_written, should_compact_l0_to_l1,
  should_compact_l1_to_l2, on_l0_to_l1_merged, on_l1_to_l2_merged,
}

-- What the replicator reports to the triggers.
pub data Event : Type 0 where
  l0_written : Event
  l0_to_l1_merged : ℕ → Event
  l1_to_l2_merged : ℕ → Event

unfoldable pub notify : Event → CompactionTriggers → CompactionTriggers
unfolding on_l0_written on_l0_to_l1_merged on_l1_to_l2_merged
notify l0_written t = on_l0_written t
notify (l0_to_l1_merged n) t = on_l0_to_l1_merged n t
notify (l1_to_l2_merged n) t = on_l1_to_l2_merged n t

unfoldable pub notify_all : List Event → CompactionTriggers → CompactionTriggers
unfolding notify
notify_all [] t = t
notify_all (e ∷ es) t = notify_all es (notify e t)

-- The files in a bucket whose levels change as the events say: what a fresh LIST would count.
pub record Files : Type 0 where
  pub l0 : ℕ
  pub l1 : ℕ

-- A merge folds files that are there.
abbrev pub Happens : List Event → Files → Files → Type 0
Happens [] a b = (a.l0 ≡ b.l0) × (a.l1 ≡ b.l1)
Happens (l0_written ∷ es) a b = (a.l0 < u64_max) × Happens es (record a { l0 = a.l0 + 1 }) b
Happens (l0_to_l1_merged n ∷ es) a b =
    (n ≤ a.l0) × (a.l1 < u64_max) × Happens es (record { l0 = a.l0 - n; l1 = a.l1 + 1 }) b
Happens (l1_to_l2_merged n ∷ es) a b = (n ≤ a.l1) × Happens es (record a { l1 = a.l1 - n }) b

notify_all-counts :
    (es : List Event) (t : CompactionTriggers) (a b : Files)
    → t.l0_pending ≡ a.l0
    → t.l1_pending ≡ a.l1
    → Happens es a b
    → ((notify_all es t).l0_pending ≡ b.l0)
      × ((notify_all es t).l1_pending ≡ b.l1)
      × ((notify_all es t).config ≡ t.config)
unfolding notify_all
notify_all-counts [] t a b p q h = (omega arith, omega arith, refl)
notify_all-counts (l0_written ∷ es) t a b p q h =
    notify_all-counts es (on_l0_written t) _ b (omega arith) q h.1
notify_all-counts (l0_to_l1_merged n ∷ es) t a b p q h =
    notify_all-counts es (on_l0_to_l1_merged n t) _ b (omega arith) (omega arith) h.2
notify_all-counts (l1_to_l2_merged n ∷ es) t a b p q h =
    notify_all-counts es (on_l1_to_l2_merged n t) _ b p (omega arith) h.1

-- Triggers that were seeded from a listing fire exactly when the bucket holds a batch of L0 files
-- or of L1 files, after any writes and merges, each merge of files that are there, as long as the
-- counts fit a `usize`.
pub should_compact_iff :
    (config : TriggerConfig) (es : List Event) (a b : Files)
    → Happens es a b
    → let t = notify_all es (seeded config a.l0 a.l1) in
      ((should_compact_l0_to_l1 t ≡ true) ↔ (config.l1_batch ≤ b.l0))
      × ((should_compact_l1_to_l2 t ≡ true) ↔ (config.l2_batch ≤ b.l1))
unfolding should_compact_l0_to_l1 should_compact_l1_to_l2 seeded
should_compact_iff config es a b h =
    let (p, q, c) = notify_all-counts es (seeded config a.l0 a.l1) a b refl refl h in ground arith
