-- ===== src/Store/Operations.antt =====
-- store.rs, lines 145 to 227: FETCH and STATS as operations on the store.
use velo_bus.Prelude.{ℕ, Bool, length, none, some}
use velo_bus.Protocol.Types.{Result, ok, err, Fetch}
use velo_bus.Store.{Store, saturating_add, durable}
use velo_bus.Store.Fetch.{FetchResult, scan_events, fetch_result}

-- `Store::fetch`: the result or the error, and the store that is left.
unfoldable pub fetch : Store → Fetch → Result FetchResult × Store
fetch s f = elim (scan_events f s.events) [
  | err e ↦ (err e, s)
  | ok st ↦
      let result = fetch_result s.events st in
      (
        ok result,
        record s {
          fetched_records = saturating_add s.fetched_records (length result.events);
          coalesced_records = saturating_add s.coalesced_records st.coalesced;
        },
      )
]

-- The values that `Store::stats` puts into its JSON object, less version and uptime.
pub record StoreStats : Type 0 where
  pub disk_mode : Bool
  pub records : ℕ
  pub retained_bytes : ℕ
  pub max_retained_bytes : ℕ
  pub wal_bytes : ℕ
  pub max_wal_bytes : ℕ
  pub last_sequence : ℕ
  pub published_records : ℕ
  pub fetched_records : ℕ
  pub coalesced_records : ℕ
  pub connections : ℕ
  pub write_poisoned : Bool

unfoldable pub stats : Store → ℕ → StoreStats
stats s connections = record {
  disk_mode = durable s;
  records = length s.events;
  retained_bytes = s.retained;
  max_retained_bytes = s.max_retained;
  wal_bytes = elim s.wal [ none ↦ 0 | some w ↦ w.bytes ];
  max_wal_bytes = s.max_wal_bytes;
  last_sequence = length s.events;
  published_records = s.published_records;
  fetched_records = s.fetched_records;
  coalesced_records = s.coalesced_records;
  connections = connections;
  write_poisoned = s.poisoned;
}
