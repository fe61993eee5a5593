-- ===== src/Cache/History/Durable.antt =====
-- The durable cursor over any run of operations.
use walrust.Base.{ℕ, ◌≤◌, ◌⊎◌, inl, inr, List, [], ◌∷◌, ◌++◌, ℤ, arith}
use walrust.Cache.{manifest_default}
use walrust.Cache.Queue.{LocalCache}
use walrust.Cache.History.{
  Event, wrote, confirmed, gave_up, restarted, cleaned, perform, perform_all, confirms, log,
  fresh_cache, IsConfirmed, IsLogged,
}
use walrust.Cache.History.Keeps.{
  AreLogged, write-AreLogged, uploaded-AreLogged, failed-AreLogged, restart-AreLogged,
}
use walrust.Cache.History.Evicts.{cleanup-AreLogged}

perform-AreLogged :
    (e : Event) (past : List (ℕ × ℕ)) (c : LocalCache)
    → AreLogged past c
    → AreLogged (confirms e c ++ past) (perform e c)
perform-AreLogged (wrote decode fault saved now txid bytes is_snapshot) past c i =
    write-AreLogged decode fault saved now txid bytes is_snapshot past c i
perform-AreLogged (confirmed saved now txid) past c i = uploaded-AreLogged saved now txid past c i
perform-AreLogged (gave_up saved txid) past c i = failed-AreLogged saved txid past c i
perform-AreLogged (restarted saved) past c i = restart-AreLogged saved past c i
perform-AreLogged (cleaned removable saved now retention size) past c i =
    cleanup-AreLogged removable saved now retention size past c i

perform_all-AreLogged :
    (events : List Event) (past : List (ℕ × ℕ)) (c : LocalCache)
    → AreLogged past c
    → AreLogged (log events c past) (perform_all events c)
perform_all-AreLogged [] past c i = i
perform_all-AreLogged (e ∷ events) past c i =
    perform_all-AreLogged events (confirms e c ++ past) (perform e c) (perform-AreLogged e past c i)

fresh-AreLogged : (now : ℤ) → AreLogged [] (fresh_cache now)
fresh-AreLogged now = (none_yet, none_yet)
  where
    none_yet : IsLogged [] (manifest_default now)
    none_yet = record {
      entries_logged = λ p m u. elim m [ ];
      cursor_logged = λ n l h. absurd (omega (arith, l, h));
    }

-- After any operations on a new cache, failed writes, removals and restarts among them, each number
-- up to the durable cursor, in memory or on disk, is in the range of a file whose upload was
-- confirmed.
pub durable_cursor-IsConfirmed :
    (events : List Event) (now : ℤ) (n : ℕ)
    → 1 ≤ n
    → (n ≤ (perform_all events (fresh_cache now)).manifest.last_contiguous_uploaded_txid)
      ⊎ (n ≤ (perform_all events (fresh_cache now)).disk.last_contiguous_uploaded_txid)
    → IsConfirmed (log events (fresh_cache now) []) n
durable_cursor-IsConfirmed events now n one (inl h) =
    (perform_all-AreLogged events [] (fresh_cache now) (fresh-AreLogged now)).0.cursor_logged n one
      h
durable_cursor-IsConfirmed events now n one (inr h) =
    (perform_all-AreLogged events [] (fresh_cache now) (fresh-AreLogged now)).1.cursor_logged n one
      h
