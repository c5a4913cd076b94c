-- ===== src/Replication.antt =====
-- graphite-core/src/replication.rs: what a replica remembers of its primary. The state file is what
-- it holds, if it is there; writes succeed, and `serde_json` reads back what it wrote.
pub mod Progress
mod Examples
use graphite_tsdb.Prelude.{ℕ, ◌-◌, Option, none, some, leb, if◌then◌else◌}
use graphite_tsdb.Types.{WalRecord}
use graphite_tsdb.Compression.Dictionary.{Symbol}

pub data NodeRole : Type 0 where
  primary replica : NodeRole

pub record ReplicationEntry : Type 0 where
  pub sequence : ℕ
  pub entry : WalRecord
  pub symbol : Option Symbol

pub record ReplicationState : Type 0 where
  pub last_primary_sequence : Option ℕ

pub record ReplicationTracker : Type 0 where
  pub state_file : Option ReplicationState
  pub state : ReplicationState

-- `ReplicationTracker::open` on the state file.
unfoldable pub open_tracker : Option ReplicationState → ReplicationTracker
open_tracker none = record { state_file = none; state = record { last_primary_sequence = none } }
open_tracker (some saved) = record { state_file = some saved; state = saved }

or_zero : Option ℕ → ℕ
or_zero none = 0
or_zero (some n) = n

pub last_primary_sequence : ReplicationTracker → ℕ
unfolding or_zero
last_primary_sequence t = or_zero t.state.last_primary_sequence

pub last_applied : ReplicationTracker → Option ℕ
last_applied t = t.state.last_primary_sequence

pub advance : ReplicationTracker → ℕ → ReplicationTracker
unfolding or_zero
advance t sequence =
    if leb (or_zero t.state.last_primary_sequence) sequence
    then record {
      state_file = some (record { last_primary_sequence = some sequence });
      state = record { last_primary_sequence = some sequence };
    }
    else t

pub lag : ReplicationTracker → ℕ → ℕ
unfolding last_primary_sequence
lag t primary_wal_sequence = primary_wal_sequence - last_primary_sequence t
