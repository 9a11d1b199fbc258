-- ===== src/Bridge/Adjust.antt =====
-- An ingestion with other counts and offsets before it is the same ingestion.
use bot_ea.Base.{
  ℕ, ◌+◌, ◌≤◌, ◌≡◌, refl, Option, none, some, String, List, [], ◌∷◌, ◌++◌, length, length-append,
  arith, Bool-cases, inl, inr, eq_iff,
}
use bot_ea.Bridge.Json.{Python}
use bot_ea.Bridge.Store.{
  Database, IngestResult, Ingest, Run, returned, aborted, offset_row, upsert_offset, ends_line,
  insert_event, insert_rejected, ingest_line, ingest_lines, start_offset, save_offset, opened,
  or_zero,
}
use bot_ea.Bridge.Lines.{finished}
use bot_ea.Bridge.Ingest.{Run-cases, start_of}

-- The same run with other counts before it and another table of offsets.
abbrev pub adjust : Ingest → Ingest → Ingest
adjust k s = record s {
  db = record (s.db) { spool_offsets = k.db.spool_offsets };
  inserted = k.inserted + s.inserted;
  duplicates = k.duplicates + s.duplicates;
  rejected = k.rejected + s.rejected;
}

abbrev pub adjusted : Ingest → Run Ingest → Run Ingest
adjusted k (returned s) = returned (adjust k s)
adjusted k (aborted x) = aborted x

module _ ⦃py : Python⦄ where
  ingest_line-adjust :
      (key : String) (line : List ℕ) (k s : Ingest)
      → ingest_line key line (adjust k s) ≡ adjusted k (ingest_line key line s)
  unfolding ingest_line insert_event insert_rejected
  ingest_line-adjust key line k s = ground arith

  pub ingest_lines-adjust :
      (key : String) (ls : List (List ℕ)) (k s : Ingest)
      → ingest_lines key ls (adjust k s) ≡ adjusted k (ingest_lines key ls s)
  unfolding ingest_lines
  ingest_lines-adjust key [] k s = refl
  ingest_lines-adjust key (l ∷ ls) k s = elim (Bool-cases (ends_line l)) [
    | inr n ↦ rw n
    | inl e ↦ elim (Run-cases (ingest_line key l s)) [
      | inr (x, bad) ↦ rw (e, ingest_line-adjust key l k s, bad)
      | inl (t, ok) ↦ rw (e, ingest_line-adjust key l k s, ok) (ingest_lines-adjust key ls k t)
    ]
  ]

  -- Complete lines are read before what follows them.
  pub ingest_lines-append :
      (key : String) (ls ms : List (List ℕ)) (s t : Ingest)
      → ingest_lines key ls s ≡ returned t
      → ingest_lines key (finished ls ++ ms) s ≡ ingest_lines key ms t
  unfolding ingest_lines
  ingest_lines-append key [] ms s t h = ground arith
  ingest_lines-append key (l ∷ ls) ms s t h = elim (Bool-cases (ends_line l)) [
    | inr n ↦ let same : s ≡ t = cc (h, n) in rw (n, same)
    | inl e ↦ elim (Run-cases (ingest_line key l s)) [
      | inr (x, bad) ↦ cc (h, e, bad)
      | inl (u, ok) ↦ rw (e, ok, e) (ingest_lines-append key ls ms u t (rw (e, ok) at h))
    ]
  ]

upsert_offset_twice :
    (k : String) (n m : ℕ) (rows : List (String × ℕ))
    → upsert_offset k m (upsert_offset k n rows) ≡ upsert_offset k m rows
unfolding upsert_offset
upsert_offset_twice k n m [] = ground (arith, eq_iff k k)
upsert_offset_twice k n m ((j, o) ∷ rows) = ground (arith, upsert_offset_twice k n m rows)

upsert_offset_same :
    (k : String) (n : ℕ) (rows : List (String × ℕ))
    → offset_row k rows ≡ some n
    → upsert_offset k n rows ≡ rows
unfolding upsert_offset offset_row
upsert_offset_same k n [] h = cc
upsert_offset_same k n ((j, o) ∷ rows) h = ground (arith, upsert_offset_same k n rows)

abbrev pub with_offsets : List (String × ℕ) → Database → Database
with_offsets o db = record db { spool_offsets = o }

-- Two writes leave what the second alone would.
pub save_offset_twice :
    (k : String) (row : Option ℕ) (n m : ℕ) (d e : Database)
    → offset_row k d.spool_offsets ≡ row
    → e.spool_offsets ≡ (save_offset k row n d).spool_offsets
    → save_offset k (some n) m e ≡ save_offset k row m (with_offsets d.spool_offsets e)
unfolding save_offset
save_offset_twice k none n m d e h p = ground (arith, upsert_offset_twice k n m d.spool_offsets)
save_offset_twice k (some o) n m d e h p =
    ground
      (arith, upsert_offset_twice k n m d.spool_offsets, upsert_offset_same k o d.spool_offsets)

pub events-save_offset :
    (k : String) (row : Option ℕ) (n : ℕ) (db : Database)
    → save_offset k row n db ≡ with_offsets (save_offset k row n db).spool_offsets db
unfolding save_offset
events-save_offset k none n db = refl
events-save_offset k (some o) n db = ground arith

abbrev pub sum_results : IngestResult → IngestResult → IngestResult
sum_results a b = record {
  inserted = a.inserted + b.inserted;
  duplicates = a.duplicates + b.duplicates;
  rejected = a.rejected + b.rejected;
  acknowledged_offset = b.acknowledged_offset;
}

pub start_of_longer :
    (key : String) (content more : List ℕ) (db : Database)
    → or_zero (offset_row key db.spool_offsets) ≤ length content
    → start_of key (content ++ more) db ≡ start_of key content db
unfolding start_offset
start_of_longer key content more db h = ground (arith, length-append content more)

pub adjust-opened :
    (s : Ingest) (e : Database)
    → e ≡ with_offsets e.spool_offsets s.db
    → adjust s (opened e s.offset) ≡ s
adjust-opened s e left = ground arith
