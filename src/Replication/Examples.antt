-- ===== src/Replication/Examples.antt =====
-- A replica's progress at concrete sequence numbers.
use graphite_tsdb.Prelude.{◌≡◌, none, [], ◌∷◌}
use graphite_tsdb.Replication.{open_tracker, last_applied}
use graphite_tsdb.Replication.Progress.{advance_all, greatest, advance_all_lem}

advance_all_lem_example :
    last_applied (advance_all (open_tracker none) (0 ∷ 7 ∷ 5 ∷ []))
    ≡ greatest (last_applied (open_tracker none)) (0 ∷ 7 ∷ 5 ∷ [])
advance_all_lem_example = advance_all_lem (open_tracker none) (0 ∷ 7 ∷ 5 ∷ [])
