-- ===== src/Bridge/Ingest.antt =====
-- What one ingestion of a spool acknowledges and counts, and that it loses and repeats nothing.
use bot_ea.Base.{
  ℕ, ◌+◌, ◌≤◌, ◌≡◌, refl, ap, ◌∙◌, false, Option, none, some, String, List, [], ◌∷◌, length, drop,
  length-append, length-drop, drop-add, arith, Bool-cases, inl, inr, ◌⊎◌, eq_iff,
}
use bot_ea.Bridge.Json.{Python, Raised}
use bot_ea.Bridge.Store.{
  Database, IngestResult, Ingest, Run, returned, aborted, offset_row, upsert_offset, lines,
  ends_line, insert_event, insert_rejected, ingest_line, ingest_lines, start_offset, save_offset,
  opened, result_of, close_ingest, ingest_spool,
}
use bot_ea.Bridge.Lines.{
  has_newline, newlines, joined, unfinished, finished, joined-lines, has_newline-unfinished,
  length-finished, closed_part, open_part, drop-closed_part, length-closed_part,
}

abbrev pub handled : Ingest → ℕ
handled s = s.inserted + s.duplicates + s.rejected

-- What one line does to the offset, the counters and the offsets table.
pub record IsStep (line : List ℕ) (s s' : Ingest) : Type 0 where
  pub offset : s'.offset ≡ s.offset + length line
  pub counted : handled s' ≡ handled s + 1
  pub offsets : s'.db.spool_offsets ≡ s.db.spool_offsets
  pub deliveries : s'.db.deliveries ≡ s.db.deliveries

module _ ⦃py : Python⦄ where
  ingest_line-IsStep :
      (key : String) (line : List ℕ) (s s' : Ingest)
      → ingest_line key line s ≡ returned s'
      → IsStep line s s'
  unfolding ingest_line insert_event insert_rejected
  ingest_line-IsStep key line s s' h = record {
    offset = ground arith;
    counted = ground arith;
    offsets = ground arith;
    deliveries = ground arith;
  }

-- What a pass over lines does.
pub record IsPass (ls : List (List ℕ)) (s s' : Ingest) : Type 0 where
  pub offset : s'.offset + length (joined (unfinished ls)) ≡ s.offset + length (joined ls)
  pub counted : handled s' ≡ handled s + length (finished ls)
  pub offsets : s'.db.spool_offsets ≡ s.db.spool_offsets
  pub deliveries : s'.db.deliveries ≡ s.db.deliveries

pub Run-cases {ℓ} :
    {A : Type ℓ} (r : Run A) → ((a : A) × (r ≡ returned a)) ⊎ ((x : Raised) × (r ≡ aborted x))
Run-cases (returned a) = inl (a, refl)
Run-cases (aborted x) = inr (x, refl)

module _ ⦃py : Python⦄ where
  pub ingest_lines-IsPass :
      (key : String) (ls : List (List ℕ)) (s s' : Ingest)
      → ingest_lines key ls s ≡ returned s'
      → IsPass ls s s'
  unfolding ingest_lines
  ingest_lines-IsPass key [] s s' h = record {
    offset = ground arith;
    counted = ground arith;
    offsets = ground arith;
    deliveries = ground arith;
  }
  ingest_lines-IsPass key (l ∷ ls) s s' h = elim (Bool-cases (ends_line l)) [
    | inr n ↦ record {
      offset = ground arith;
      counted = ground arith;
      offsets = ground arith;
      deliveries = ground arith;
    }
    | inl e ↦ elim (Run-cases (ingest_line key l s)) [
      | inr (x, bad) ↦ cc (h, e, bad)
      | inl (t, ok) ↦
          let a = ingest_line-IsStep key l s t ok in
          let b = ingest_lines-IsPass key ls t s' (rw (e, ok) at h) in
          record {
            offset = rw e (omega (arith, a.offset, b.offset, length-append l (joined ls)));
            counted = rw e (omega (arith, a.counted, b.counted));
            offsets = b.offsets ∙ a.offsets;
            deliveries = b.deliveries ∙ a.deliveries;
          }
    ]
  ]

pub offset_row-upsert_offset :
    (k : String) (n : ℕ) (rows : List (String × ℕ)) → offset_row k (upsert_offset k n rows) ≡ some n
unfolding offset_row upsert_offset
offset_row-upsert_offset k n [] = ground (arith, eq_iff k k)
offset_row-upsert_offset k n ((j, o) ∷ rows) = ground (arith, offset_row-upsert_offset k n rows)

pub start_offset-le :
    (row : Option ℕ) (content : List ℕ) → start_offset row content ≤ length content
unfolding start_offset
start_offset-le none content = omega arith
start_offset-le (some n) content = ground arith

pub start_offset_within :
    (n : ℕ) (content : List ℕ) → n ≤ length content → start_offset (some n) content ≡ n
unfolding start_offset
start_offset_within n content h = ground arith

-- After the last write the row holds the offset, provided that the pass left the table alone.
pub offset_row-save_offset :
    (k : String) (row : Option ℕ) (n : ℕ) (db : Database)
    → offset_row k db.spool_offsets ≡ row
    → offset_row k (save_offset k row n db).spool_offsets ≡ some n
unfolding save_offset
offset_row-save_offset k none n db h = offset_row-upsert_offset k n db.spool_offsets
offset_row-save_offset k (some o) n db h =
    ground (arith, offset_row-upsert_offset k n db.spool_offsets)

abbrev pub start_of : String → List ℕ → Database → ℕ
start_of key content db = start_offset (offset_row key db.spool_offsets) content

module _ ⦃py : Python⦄ where
  pub close_ingest-returned :
      (key : String) (row : Option ℕ) (db : Database) (run : Run Ingest) (r : IngestResult)
      (db' : Database)
      → close_ingest key row db run ≡ (returned r, db')
      → (s : Ingest) × (run ≡ returned s)
        × (r ≡ result_of s)
        × (db' ≡ save_offset key row s.offset s.db)
  unfolding close_ingest
  close_ingest-returned key row db (returned s) r db' h = (s, refl, ground arith, ground arith)
  close_ingest-returned key row db (aborted x) r db' h = cc

  -- A run that commits, taken apart: where it began, what its loop left, and what was written.
  pub ingest_spool-returned :
      (key : String) (content : List ℕ) (db db' : Database) (r : IngestResult)
      → ingest_spool key (some content) db ≡ (returned r, db')
      → (s : Ingest) × (ingest_lines key
            (lines (drop (start_of key content db) content))
            (opened db (start_of key content db))
          ≡ returned s)
        × (r ≡ result_of s)
        × (db' ≡ save_offset key (offset_row key db.spool_offsets) s.offset s.db)
  unfolding ingest_spool
  ingest_spool-returned key content db db' r h = close_ingest-returned key _ db _ r db' h

  pub ingest_lines-offset :
      (key : String) (rest : List ℕ) (s s' : Ingest)
      → ingest_lines key (lines rest) s ≡ returned s'
      → s'.offset ≡ s.offset + length (closed_part rest)
  ingest_lines-offset key rest s s' h = omega (
    arith,
    (ingest_lines-IsPass key (lines rest) s s' h).offset,
    ap length (joined-lines rest),
    length-closed_part rest,
  )

  -- What lies behind the offset that a pass reaches.
  pub drop-offset :
      (key : String) (content : List ℕ) (n : ℕ) (s s' : Ingest)
      → ingest_lines key (lines (drop n content)) s ≡ returned s'
      → s.offset ≡ n
      → drop s'.offset content ≡ open_part (drop n content)
  drop-offset key content n s s' ran at_n =
      let rest = drop n content in
      ap (λ k. drop k content)
        (ingest_lines-offset key rest s s' ran ∙ ap (λ k. k + length (closed_part rest)) at_n)
      ∙ drop-add n (length (closed_part rest)) content
      ∙ drop-closed_part rest

  pub ingest_acknowledges :
      (key : String) (content : List ℕ) (db db' : Database) (r : IngestResult)
      → ingest_spool key (some content) db ≡ (returned r, db')
      → (r.acknowledged_offset ≤ length content)
        × (has_newline (drop r.acknowledged_offset content) ≡ false)
        × (r.inserted + r.duplicates + r.rejected
            ≡ newlines (drop (start_of key content db) content))
        × (offset_row key db'.spool_offsets ≡ some r.acknowledged_offset)
  ingest_acknowledges key content db db' r h =
      let n = start_of key content db in
      let rest = drop n content in
      let (s, ran, same, saved) = ingest_spool-returned key content db db' r h in
      let pass = ingest_lines-IsPass key (lines rest) (opened db n) s ran in
      let off = ingest_lines-offset key rest (opened db n) s ran in
      rw (same, saved)
        (
          omega (
            arith,
            off,
            length-closed_part rest,
            length-drop n content,
            start_offset-le (offset_row key db.spool_offsets) content,
          ),
          rw (drop-offset key content n (opened db n) s ran refl) (has_newline-unfinished rest),
          omega (arith, pass.counted, length-finished rest),
          offset_row-save_offset key (offset_row key db.spool_offsets) s.offset s.db
              (ap (offset_row key) pass.offsets),
        )
