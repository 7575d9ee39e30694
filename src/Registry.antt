-- ===== src/Registry.antt =====
-- master/src/registry.c: the workers that joined, their capabilities and chunks, and the sweep of workers
-- that were not heard of. `Sweep` is about the sweep, `Bounds` and `History` about the tables, and `Snapshots`
-- has the ring of snapshots.
pub mod Sweep
pub mod Bounds
pub mod History
pub mod Snapshots
mod Tests
use void_os_merger.Base.{
  ℕ, zero, suc, ◌-◌, Bool, true, false, not, ◌&&◌, ◌||◌, Option, none, some, List, [], ◌∷◌, ◌++◌,
  ltb, leb, ◌==◌, if◌then◌else◌, is_some, length, find_first, update_first, remove_first, add64,
  sub64, Bytes, str_eq, strncpy,
}

abbrev pub reg_max_workers : ℕ
reg_max_workers = 64

abbrev pub reg_max_chunks : ℕ
reg_max_chunks = 32

abbrev pub reg_name_max : ℕ
reg_name_max = 64

-- Enumerations and integers that are only stored stand as numbers.
pub record Capabilities : Type 0 where
  pub arch : ℕ
  pub cores_online : ℕ
  pub cores_total : ℕ
  pub feature_bitmap : ℕ
  pub ram_total_mb : ℕ
  pub ram_free_mb : ℕ
  pub battery_percent : ℕ
  pub is_charging : Bool
  pub is_ac_online : Bool
  pub display_attached : Bool
  pub display_width : ℕ
  pub display_height : ℕ
  pub touch_supported : Bool
  pub network_link_type : ℕ
  pub network_bandwidth_kbps : ℕ

pub data RegStatus : Type 0 where
  approved healthy draining disconnected : RegStatus

pub record WorkerRecord : Type 0 where
  pub worker_id : Bytes
  pub transport_endpoint : Bytes
  pub status : RegStatus
  pub last_seen_ms : ℕ
  pub capabilities : Capabilities
  pub active_chunk_ids : List ℕ

pub record State : Type 0 where
  pub records : List WorkerRecord
  pub snapshot_version : ℕ

unfoldable pub create : State
create = record { records = []; snapshot_version = 1 }

abbrev pub has_id : Bytes → WorkerRecord → Bool
has_id id r = str_eq r.worker_id id

abbrev pub is_disconnected : RegStatus → Bool
is_disconnected disconnected = true
is_disconnected _ = false

-- A change of the first record that passes a test, with the next version; false where there is none.
unfoldable pub change : (WorkerRecord → Bool) → (WorkerRecord → WorkerRecord) → State → State × Bool
change test f s =
    if is_some (find_first test s.records)
    then (
      record {
        records = update_first test f s.records;
        snapshot_version = add64 s.snapshot_version 1;
      },
      true,
    )
    else (s, false)

unfoldable pub joined : Bytes → Bytes → Capabilities → ℕ → WorkerRecord
joined id transport caps now = record {
  worker_id = strncpy reg_name_max id;
  transport_endpoint = strncpy reg_name_max transport;
  status = approved;
  last_seen_ms = now;
  capabilities = caps;
  active_chunk_ids = [];
}

-- A worker that is known keeps its endpoint and its chunks.
unfoldable pub rejoin : Capabilities → ℕ → WorkerRecord → WorkerRecord
rejoin caps now r = record r { status = approved; last_seen_ms = now; capabilities = caps }

unfoldable pub on_worker_join : Bytes → Bytes → Capabilities → ℕ → State → State × Bool
on_worker_join id transport caps now s =
    if is_some (find_first (has_id id) s.records)
    then change (has_id id) (rejoin caps now) s
    else if leb reg_max_workers (length s.records)
    then (s, false)
    else (
      record {
        records = s.records ++ joined id transport caps now ∷ [];
        snapshot_version = add64 s.snapshot_version 1;
      },
      true,
    )

unfoldable pub heard : Capabilities → ℕ → WorkerRecord → WorkerRecord
heard caps now r = record r {
  last_seen_ms = now;
  capabilities = record (r.capabilities) {
    ram_free_mb = caps.ram_free_mb;
    cores_online = caps.cores_online;
    battery_percent = caps.battery_percent;
    is_charging = caps.is_charging;
    is_ac_online = caps.is_ac_online;
  };
  status = if is_disconnected r.status then healthy else r.status;
}

unfoldable pub on_worker_heartbeat : Bytes → Capabilities → ℕ → State → State × Bool
on_worker_heartbeat id caps now s = change (has_id id) (heard caps now) s

abbrev pub disconnect : WorkerRecord → WorkerRecord
disconnect r = record r { status = disconnected }

unfoldable pub on_worker_leave : Bytes → State → State × Bool
on_worker_leave id s = change (has_id id) disconnect s

abbrev pub add_chunk : ℕ → WorkerRecord → WorkerRecord
add_chunk chunk r = record r { active_chunk_ids = r.active_chunk_ids ++ chunk ∷ [] }

unfoldable pub track_chunk : Bytes → ℕ → State → State × Bool
track_chunk id chunk s = elim (find_first (has_id id) s.records) [
  | none ↦ (s, false)
  | some r ↦
      if leb reg_max_chunks (length r.active_chunk_ids)
      then (s, false)
      else change (has_id id) (add_chunk chunk) s
]

abbrev pub remove_chunk : ℕ → WorkerRecord → WorkerRecord
remove_chunk chunk r = record r {
  active_chunk_ids = remove_first (λ c. c == chunk) r.active_chunk_ids;
}

-- A record under the name that does not have the chunk is passed over.
abbrev pub works_on : Bytes → ℕ → WorkerRecord → Bool
works_on id chunk r = has_id id r && is_some (find_first (λ c. c == chunk) r.active_chunk_ids)

unfoldable pub untrack_chunk : Bytes → ℕ → State → State × Bool
untrack_chunk id chunk s = change (works_on id chunk) (remove_chunk chunk) s

unfoldable pub is_stale : ℕ → ℕ → WorkerRecord → Bool
is_stale now timeout r = not (is_disconnected r.status) && ltb timeout (sub64 now r.last_seen_ms)

pub record Swept : Type 0 where
  pub records : List WorkerRecord
  pub dead_workers : List Bytes
  pub version : ℕ

-- The loop; `room` is `max_out - dead_count`.
abbrev pub pred : ℕ → ℕ
pred zero = zero
pred (suc n) = n

unfoldable pub sweep_records : ℕ → ℕ → ℕ → List WorkerRecord → ℕ → Swept
sweep_records now timeout room [] version = record {
  records = [];
  dead_workers = [];
  version = version;
}
sweep_records now timeout room (r ∷ rs) version =
    let stale = is_stale now timeout r in
    let rest =
      sweep_records now timeout (if stale then pred room else room) rs
        (if stale then add64 version 1 else version) in
    record {
      records = (if stale then disconnect r else r) ∷ rest.records;
      dead_workers =
          if stale && ltb 0 room
          then strncpy reg_name_max r.worker_id ∷ rest.dead_workers
          else rest.dead_workers;
      version = rest.version;
    }

-- The names written out; the call returns how many. A `max_out` below 0 acts as 0.
unfoldable pub sweep_stale : ℕ → ℕ → ℕ → State → State × List Bytes
sweep_stale now timeout max_out s =
    let swept = sweep_records now timeout max_out s.records s.snapshot_version in
    if leb max_out 0
    then (s, [])
    else (record { records = swept.records; snapshot_version = swept.version }, swept.dead_workers)
