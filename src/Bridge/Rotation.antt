-- ===== src/Bridge/Rotation.antt =====
-- gold_event_bridge/store.py: the compaction of an ingested spool file, and the recovery of files
-- that a crash left rotated. The producer may append bytes before the rename (`late`) and while the
-- rotated file is read (`later`); whether the rename succeeds is an argument too.
use bot_ea.Base.{
  ℕ, ◌+◌, Bool, true, false, Option, none, some, String, List, [], ◌∷◌, ◌++◌, ◌||◌, not, str_eq,
  ltb, ◌==◌, if◌then◌else◌, length,
}
use bot_ea.Bridge.Json.{Python, value_error}
use bot_ea.Bridge.Store.{
  Database, IngestResult, Run, returned, aborted, offset_row, or_zero, ingest_spool,
}

pub record SpoolCompactionResult : Type 0 where
  pub rotated : Bool
  pub original_size : ℕ
  pub acknowledged_offset : ℕ
  pub recovered_tail_events : ℕ

pub record SpoolRecoveryResult : Type 0 where
  pub files_seen : ℕ
  pub files_removed : ℕ
  pub inserted : ℕ
  pub duplicates : ℕ
  pub rejected : ℕ

-- The spool file and the file that it was renamed to.
pub record SpoolFiles : Type 0 where
  pub spool : Option (List ℕ)
  pub rotated : Option (List ℕ)

-- `UPDATE spool_offsets SET byte_offset=? WHERE spool_path=?`
unfoldable pub update_offset : String → ℕ → List (String × ℕ) → List (String × ℕ)
update_offset k n [] = []
update_offset k n ((j, o) ∷ rows) = (if str_eq j k then (j, n) else (j, o)) ∷ update_offset k n rows

-- `DELETE FROM spool_offsets WHERE spool_path=?`
unfoldable pub delete_offset : String → List (String × ℕ) → List (String × ℕ)
delete_offset k [] = []
delete_offset k ((j, o) ∷ rows) =
    let rest = delete_offset k rows in if str_eq j k then rest else (j, o) ∷ rest

unfoldable pub set_offset : String → ℕ → Database → Database
unfolding update_offset
set_offset k n db = record db { spool_offsets = update_offset k n db.spool_offsets }

unfoldable pub forget_offset : String → Database → Database
unfolding delete_offset
forget_offset k db = record db { spool_offsets = delete_offset k db.spool_offsets }

abbrev pub kept : ℕ → ℕ → ℕ → SpoolCompactionResult
kept size offset tail = record {
  rotated = false;
  original_size = size;
  acknowledged_offset = offset;
  recovered_tail_events = tail;
}

abbrev pub Compaction : Type 0
Compaction = Run SpoolCompactionResult × SpoolFiles × Database

-- After the rotated file was ingested: it is removed when all of it is acknowledged.
unfoldable pub remove_rotated : String → ℕ → ℕ → List ℕ → Run IngestResult × Database → Compaction
remove_rotated rotated_key size offset content (aborted x, db) =
    (aborted x, record { spool = none; rotated = some content }, db)
remove_rotated rotated_key size offset content (returned r, db) =
    if r.acknowledged_offset == length content
    then (
      returned (record {
        rotated = true;
        original_size = size;
        acknowledged_offset = 0;
        recovered_tail_events = r.inserted;
      }),
      record { spool = none; rotated = none },
      forget_offset rotated_key db,
    )
    else (
      returned (kept size offset r.inserted),
      record { spool = none; rotated = some content },
      db,
    )

-- `seen = removed = inserted = duplicates = rejected = 0`
abbrev pub nothing_recovered : SpoolRecoveryResult
nothing_recovered = record {
  files_seen = 0;
  files_removed = 0;
  inserted = 0;
  duplicates = 0;
  rejected = 0;
}

abbrev pub count_recovered : Bool → IngestResult → SpoolRecoveryResult → SpoolRecoveryResult
count_recovered removed r total = record {
  files_seen = total.files_seen + 1;
  files_removed = total.files_removed + (if removed then 1 else 0);
  inserted = total.inserted + r.inserted;
  duplicates = total.duplicates + r.duplicates;
  rejected = total.rejected + r.rejected;
}

module _ ⦃py : Python⦄ where
  -- The rename, once the offset was reset.
  unfoldable pub rotate :
      String → String → Bool → List ℕ → List ℕ → List ℕ → ℕ → Database → Compaction
  unfolding ingest_spool remove_rotated
  rotate key rotated_key renamed late later content offset db =
      let reset = set_offset key 0 db in
      if renamed
      then remove_rotated rotated_key (length content) offset (content ++ late ++ later)
          (ingest_spool rotated_key (some (content ++ late)) reset)
      else (
        returned (kept (length content) offset 0),
        record { spool = some (content ++ late); rotated = none },
        set_offset key offset reset,
      )

  -- `EventStore.compact_ingested_spool`
  unfoldable pub compact_ingested_spool :
      String → String → ℕ → Bool → List ℕ → List ℕ → Option (List ℕ) → Database → Compaction
  unfolding offset_row rotate
  compact_ingested_spool key rotated_key minimum_bytes renamed late later spool db =
      let offset = or_zero (offset_row key db.spool_offsets) in
      if minimum_bytes == 0
      then (aborted value_error, record { spool = spool; rotated = none }, db)
      else elim spool [
        | none ↦ (returned (kept 0 offset 0), record { spool = none; rotated = none }, db)
        | some content ↦
            if ltb (length content) minimum_bytes || not (offset == length content)
            then (
              returned (kept (length content) offset 0),
              record { spool = some (content ++ late); rotated = none },
              db,
            )
            else rotate key rotated_key renamed late later content offset db
      ]

  -- `EventStore.recover_rotated_spools` over the rotated files in the order of their names: what is
  -- left of them, with the counts so far.
  unfoldable pub recover_rotated_spools :
      List (String × List ℕ)
      → SpoolRecoveryResult
      → Database
      → Run SpoolRecoveryResult × List (String × List ℕ) × Database
  recover_rotated_spools [] total db = (returned total, [], db)
  recover_rotated_spools ((k, content) ∷ files) total db =
      let (run, db') = ingest_spool k (some content) db in
      elim run [
        | aborted x ↦ (aborted x, (k, content) ∷ files, db')
        | returned r ↦
            if r.acknowledged_offset == length content
            then recover_rotated_spools files (count_recovered true r total) (forget_offset k db')
            else (let (run', left, db'') =
                  recover_rotated_spools files (count_recovered false r total) db' in
                (run', (k, content) ∷ left, db''))
      ]
