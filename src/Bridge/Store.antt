-- ===== src/Bridge/Store.antt =====
-- gold_event_bridge/store.py: the SQLite tables, and the ingestion of one spool file. The clock
-- columns (`inserted_at`, `updated_at`, `rejected_at`) are left out; no code of the bridge but its
-- health report reads them.
use bot_ea.Base.{
  ℕ, ◌+◌, Bool, true, false, Option, none, some, String, List, [], ◌∷◌, ◌++◌, ◌&&◌, ◌||◌, str_eq,
  ltb, ◌==◌, if◌then◌else◌, length, drop,
}
use bot_ea.Base.Int.{ℤ}
use bot_ea.Bridge.Json.{Python, Raised}
use bot_ea.Bridge.Envelope.{
  SchemaError, parsed, refused, raised, EngineEventEnvelope, bytes, from_json_line, canonical_json,
}

pub data DeliveryState : Type 0 where
  pending suppressed delivered retry : DeliveryState

abbrev pub is_pending : DeliveryState → Bool
is_pending pending = true
is_pending suppressed = false
is_pending delivered = false
is_pending retry = false

abbrev pub is_delivered : DeliveryState → Bool
is_delivered pending = false
is_delivered suppressed = false
is_delivered delivered = true
is_delivered retry = false

-- A row of `engine_events`; the rows stand in the order of their rowids.
pub record EventRow : Type 0 where
  pub event_id : String
  pub profile_id : String
  pub event_type : String
  pub server_time : ℤ
  pub audience : String
  pub raw_event : String
  pub delivery_state : DeliveryState

-- A row of `rejected_events`, with the key (spool_path, byte_offset).
pub record RejectedRow : Type 0 where
  pub spool_path : String
  pub byte_offset : ℕ
  pub raw_line : List ℕ
  pub reason : SchemaError

-- A row of `deliveries`, with the key (event_id, chat_id).
pub record DeliveryRow : Type 0 where
  pub event_id : String
  pub chat_id : String
  pub state : DeliveryState
  pub attempts : ℕ
  pub last_error : Option String

pub record Database : Type 0 where
  pub events : List EventRow
  pub spool_offsets : List (String × ℕ)
  pub rejected : List RejectedRow
  pub deliveries : List DeliveryRow

pub record IngestResult : Type 0 where
  pub inserted : ℕ
  pub duplicates : ℕ
  pub rejected : ℕ
  pub acknowledged_offset : ℕ

-- `SELECT byte_offset FROM spool_offsets WHERE spool_path = ?`
unfoldable pub offset_row : String → List (String × ℕ) → Option ℕ
offset_row k [] = none
offset_row k ((j, n) ∷ rows) = if str_eq j k then some n else offset_row k rows

-- `INSERT ... ON CONFLICT(spool_path) DO UPDATE`
unfoldable pub upsert_offset : String → ℕ → List (String × ℕ) → List (String × ℕ)
upsert_offset k n [] = (k, n) ∷ []
upsert_offset k n ((j, o) ∷ rows) =
    if str_eq j k then (j, n) ∷ rows else (j, o) ∷ upsert_offset k n rows

unfoldable pub has_event : String → List EventRow → Bool
has_event k [] = false
has_event k (r ∷ rows) = str_eq r.event_id k || has_event k rows

unfoldable pub has_rejected : String → ℕ → List RejectedRow → Bool
has_rejected k o [] = false
has_rejected k o (r ∷ rows) = (str_eq r.spool_path k && r.byte_offset == o) || has_rejected k o rows

-- Successive calls of `readline`: each line keeps its newline, and only the last may lack one.
unfoldable pub cons_line : ℕ → List (List ℕ) → List (List ℕ)
cons_line c [] = (c ∷ []) ∷ []
cons_line c (l ∷ ls) = (c ∷ l) ∷ ls

unfoldable pub lines : List ℕ → List (List ℕ)
unfolding cons_line
lines [] = []
lines (c ∷ cs) = if c == 10 then (10 ∷ []) ∷ lines cs else cons_line c (lines cs)

-- `line.endswith(b"\n")`
unfoldable pub ends_line : List ℕ → Bool
ends_line [] = false
ends_line (c ∷ []) = c == 10
ends_line (c ∷ d ∷ cs) = ends_line (d ∷ cs)

module _ ⦃py : Python⦄ where
  unfoldable pub event_row : EngineEventEnvelope → EventRow
  event_row e = record {
    event_id = e.event_id;
    profile_id = e.profile_id;
    event_type = e.event_type;
    server_time = e.server_time;
    audience = e.audience;
    raw_event = canonical_json e;
    delivery_state = pending;
  }

-- The loop's variables.
pub record Ingest : Type 0 where
  pub db : Database
  pub inserted : ℕ
  pub duplicates : ℕ
  pub rejected : ℕ
  pub offset : ℕ

-- A run returns its value, or raises an exception that nothing here catches.
pub data Run {ℓ} (A : Type ℓ) : Type ℓ where
  returned : A → Run A
  aborted : Raised → Run A

-- `INSERT OR IGNORE INTO rejected_events`
unfoldable pub insert_rejected : String → List ℕ → SchemaError → Ingest → Ingest
unfolding has_rejected
insert_rejected key line why s = record s {
  db = if has_rejected key s.offset s.db.rejected then s.db else record (s.db) {
    rejected =
        s.db.rejected
        ++ (record { spool_path = key; byte_offset = s.offset; raw_line = line; reason = why }
            ∷ []);
  };
  rejected = s.rejected + 1;
}

-- `offset = acknowledged`
abbrev pub acknowledge : List ℕ → Ingest → Ingest
acknowledge line s = record s { offset = s.offset + length line }

-- The offset to read from: the acknowledged one, or 0 where the file is shorter than that.
unfoldable pub start_offset : Option ℕ → List ℕ → ℕ
start_offset none content = 0
start_offset (some n) content = if ltb (length content) n then 0 else n

-- The write of the new offset, unless the row holds it already.
unfoldable pub save_offset : String → Option ℕ → ℕ → Database → Database
unfolding upsert_offset
save_offset key none n db = record db { spool_offsets = upsert_offset key n db.spool_offsets }
save_offset key (some o) n db =
    if n == o then db else record db { spool_offsets = upsert_offset key n db.spool_offsets }

abbrev pub opened : Database → ℕ → Ingest
opened db n = record { db = db; inserted = 0; duplicates = 0; rejected = 0; offset = n }

abbrev pub result_of : Ingest → IngestResult
result_of s = record {
  inserted = s.inserted;
  duplicates = s.duplicates;
  rejected = s.rejected;
  acknowledged_offset = s.offset;
}

abbrev pub or_zero : Option ℕ → ℕ
or_zero none = 0
or_zero (some n) = n

-- The transaction is committed at the end, and rolled back by an exception.
unfoldable pub close_ingest :
    String → Option ℕ → Database → Run Ingest → Run IngestResult × Database
unfolding save_offset
close_ingest key row db (returned s) = (returned (result_of s), save_offset key row s.offset s.db)
close_ingest key row db (aborted x) = (aborted x, db)

module _ ⦃py : Python⦄ where
  -- `INSERT OR IGNORE INTO engine_events`
  unfoldable pub insert_event : EngineEventEnvelope → Ingest → Ingest
  unfolding has_event event_row
  insert_event e s =
      if has_event e.event_id s.db.events
      then record s { duplicates = s.duplicates + 1 }
      else record s {
        db = record (s.db) { events = s.db.events ++ (event_row e ∷ []) };
        inserted = s.inserted + 1;
      }

  -- One complete line: it is decoded, and kept or rejected.
  unfoldable pub ingest_line : String → List ℕ → Ingest → Run Ingest
  unfolding insert_event insert_rejected
  ingest_line key line s = elim (from_json_line (bytes line)) [
    | parsed e ↦ returned (acknowledge line (insert_event e s))
    | refused why ↦ returned (acknowledge line (insert_rejected key line why s))
    | raised x ↦ aborted x
  ]

  -- The `while True` loop, over the lines that `readline` returns in turn.
  unfoldable pub ingest_lines : String → List (List ℕ) → Ingest → Run Ingest
  unfolding ends_line ingest_line
  ingest_lines key [] s = returned s
  ingest_lines key (line ∷ rest) s =
      if ends_line line
      then elim (ingest_line key line s) [
        | returned s' ↦ ingest_lines key rest s'
        | aborted x ↦ aborted x
      ]
      else returned s

  -- `EventStore.ingest_spool`; a path that does not exist has no content.
  unfoldable pub ingest_spool : String → Option (List ℕ) → Database → Run IngestResult × Database
  unfolding offset_row lines ingest_lines start_offset close_ingest
  ingest_spool key none db = (
    returned (record {
      inserted = 0;
      duplicates = 0;
      rejected = 0;
      acknowledged_offset = or_zero (offset_row key db.spool_offsets);
    }),
    db,
  )
  ingest_spool key (some content) db =
      let row = offset_row key db.spool_offsets in
      let start = start_offset row content in
      close_ingest key row db (ingest_lines key (lines (drop start content)) (opened db start))
