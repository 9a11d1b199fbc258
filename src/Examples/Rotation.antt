-- ===== src/Examples/Rotation.antt =====
-- The compaction of a concrete spool file of gold_event_bridge.
use bot_ea.Base.{ℕ, ◌+◌, ◌≡◌, refl, true, none, String, List, [], ◌∷◌, length}
use bot_ea.Bridge.Envelope.{
  from_json_line, from_members, has_all, canonical_members, caught, timestamp_of, field_of,
  payload_of, uncaught, checked,
}
use bot_ea.Bridge.Json.{to_int, to_str}
use bot_ea.Base.Text.{codes}
use bot_ea.Bridge.Recovery.{IsSwept, recovery_loses_nothing}
use bot_ea.Bridge.Store.{has_event, Database}
use bot_ea.Bridge.Rotation.{
  SpoolCompactionResult, SpoolFiles, SpoolRecoveryResult, recover_rotated_spools,
  compact_ingested_spool, set_offset, kept,
}
use bot_ea.Bridge.Compact.{IsRemoval, compaction_loses_nothing}
use bot_ea.Examples.Bridge.{reader, good_line, ingested}

abbrev removed : SpoolCompactionResult
removed = record (kept 5 0 0) { rotated = true }

abbrev no_files : SpoolFiles
no_files = record { spool = none; rotated = none }

abbrev compacted : Database
compacted = record ingested { spool_offsets = ("a", 0) ∷ [] }

compaction_loses_nothing_example :
    IsRemoval "a.rotating" good_line good_line [] (set_offset "a" 0 ingested) compacted removed
unfolding compact_ingested_spool set_offset bot_ea.Bridge.Rotation.forget_offset
    bot_ea.Bridge.Rotation.delete_offset from_json_line reader from_members has_all
    canonical_members caught timestamp_of to_int field_of payload_of uncaught checked
    bot_ea.Base.Errors.first_error to_str
compaction_loses_nothing_example =
    compaction_loses_nothing "a" "a.rotating" 1 true good_line [] good_line ingested removed
      no_files compacted refl refl

abbrev rotated_files : List (String × List ℕ)
rotated_files = ("a.rotating", good_line) ∷ ("b.rotating", codes "go") ∷ []

abbrev unfinished_files : List (String × List ℕ)
unfinished_files = ("b.rotating", codes "go") ∷ []

abbrev recovered : Database
recovered = record ingested { spool_offsets = ("a", 5) ∷ ("b.rotating", 0) ∷ [] }

abbrev recovery : SpoolRecoveryResult
recovery = record { files_seen = 2; files_removed = 1; inserted = 0; duplicates = 1; rejected = 0 }

recovery_loses_nothing_example :
    (has_event "e-1" recovered.events ≡ true)
    × (2 ≡ length rotated_files)
    × (1 + length unfinished_files ≡ length rotated_files)
    × IsSwept rotated_files unfinished_files ingested recovered
unfolding recover_rotated_spools bot_ea.Bridge.Rotation.forget_offset
    bot_ea.Bridge.Rotation.delete_offset from_json_line reader from_members has_all
    canonical_members caught timestamp_of to_int field_of payload_of uncaught checked
    bot_ea.Base.Errors.first_error to_str has_event bot_ea.Bridge.Store.ingest_spool
recovery_loses_nothing_example =
    recovery_loses_nothing "e-1" rotated_files unfinished_files ingested recovered recovery refl
      refl
