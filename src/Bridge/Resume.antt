-- ===== src/Bridge/Resume.antt =====
-- A spool that is ingested while it grows is ingested as if it had been read at once.
use bot_ea.Base.{
  ℕ, ◌≤◌, ◌≡◌, refl, ap, sym, ◌∙◌, true, false, some, String, List, [], ◌∷◌, ◌++◌, length, drop,
  length-append, drop-append, arith,
}
use bot_ea.Bridge.Json.{Python, Raised}
use bot_ea.Bridge.Envelope.{raised, bytes, from_json_line}
use bot_ea.Bridge.Store.{
  Database, IngestResult, Ingest, returned, aborted, offset_row, lines, ends_line, ingest_line,
  ingest_lines, start_offset, save_offset, opened, close_ingest, ingest_spool, or_zero,
}
use bot_ea.Bridge.Lines.{
  length-finished, newlines_none, has_newline, finished, unfinished, joined, lines-append,
  open_part,
}
use bot_ea.Bridge.Ingest.{
  ingest_lines-IsPass, ingest_spool-returned, ingest_acknowledges, start_of, start_offset-le,
  start_offset_within, offset_row-save_offset, drop-offset,
}
use bot_ea.Bridge.Adjust.{
  adjust, adjusted, ingest_lines-adjust, ingest_lines-append, with_offsets, save_offset_twice,
  events-save_offset, sum_results, start_of_longer, adjust-opened,
}

module _ ⦃py : Python⦄ where
  -- The loop over the longer file, from where the loop over the shorter one ended.
  ingest_lines_resumed :
      (key : String) (rest more : List ℕ) (d e : Database) (n : ℕ) (s t : Ingest)
      → ingest_lines key (lines rest) (opened d n) ≡ returned s
      → e ≡ with_offsets e.spool_offsets s.db
      → ingest_lines key (lines (open_part rest ++ more)) (opened e s.offset) ≡ returned t
      → ingest_lines key (lines (rest ++ more)) (opened d n) ≡ returned (adjust s t)
  ingest_lines_resumed key rest more d e n s t ran left rerun =
      rw
        (
          lines-append rest more,
          ingest_lines-append key (lines rest) (lines (open_part rest ++ more)) (opened d n) s ran,
        )
        (ap (ingest_lines key (lines (open_part rest ++ more))) (sym (adjust-opened s e left))
          ∙ ingest_lines-adjust key (lines (open_part rest ++ more)) s (opened e s.offset)
          ∙ ap (adjusted s) rerun)

  -- The two writes of the offset are the one write of the longer run.
  saved_twice :
      (key : String) (db d1 : Database) (s t : Ingest)
      → s.db.spool_offsets ≡ db.spool_offsets
      → d1 ≡ save_offset key (offset_row key db.spool_offsets) s.offset s.db
      → t.db.spool_offsets ≡ d1.spool_offsets
      → save_offset key (offset_row key d1.spool_offsets) t.offset t.db
        ≡ save_offset key (offset_row key db.spool_offsets) t.offset (adjust s t).db
  saved_twice key db d1 s t same saved same' =
      let row = offset_row key db.spool_offsets in
      let held = ap (offset_row key) same in
      let kept = ap (λ (d : Database). d.spool_offsets) saved in
      ap (λ r. save_offset key r t.offset t.db)
        (ap (offset_row key) kept ∙ offset_row-save_offset key row s.offset s.db held)
      ∙ save_offset_twice key row s.offset t.offset s.db t.db held (same' ∙ kept)

  none_complete :
      (key : String) (ls : List (List ℕ)) (s : Ingest)
      → length (finished ls) ≡ 0
      → ingest_lines key ls s ≡ returned s
  unfolding ingest_lines
  none_complete key [] s h = refl
  none_complete key (l ∷ ls) s h = ground arith

  -- Bytes without a newline are left for a later run.
  no_newline :
      (key : String) (cs : List ℕ) (s : Ingest)
      → has_newline cs ≡ false
      → ingest_lines key (lines cs) s ≡ returned s
  no_newline key cs s h = none_complete key (lines cs) s (length-finished cs ∙ newlines_none cs h)

  -- Where the file is not shorter than what was acknowledged: an ingestion, more bytes, and a
  -- second ingestion leave the same tables, the same acknowledged offset and, added up, the same
  -- counts as one ingestion of the longer file.
  pub ingest_resumes :
      (key : String) (content more : List ℕ) (db d1 d2 : Database) (r1 r2 : IngestResult)
      → or_zero (offset_row key db.spool_offsets) ≤ length content
      → ingest_spool key (some content) db ≡ (returned r1, d1)
      → ingest_spool key (some (content ++ more)) d1 ≡ (returned r2, d2)
      → ingest_spool key (some (content ++ more)) db ≡ (returned (sum_results r1 r2), d2)
  unfolding ingest_spool
  ingest_resumes key content more db d1 d2 r1 r2 fits first second =
      let n = start_of key content db in
      let rest = drop n content in
      let (s, ran, same, saved) = ingest_spool-returned key content db d1 r1 first in
      let (t, rerun, same', saved') = ingest_spool-returned key (content ++ more) d1 d2 r2 second in
      let ack = ingest_acknowledges key content db d1 r1 first in
      let at : r1.acknowledged_offset ≡ s.offset = rw same in
      let fit : s.offset ≤ length content = rw (← at) (ack.0) in
      let start : start_of key (content ++ more) d1 ≡ s.offset =
        ap (λ r. start_offset r (content ++ more)) (ack.3 ∙ ap some at)
        ∙ start_offset_within s.offset (content ++ more)
            (omega (arith, fit, length-append content more)) in
      let unread =
        drop-append s.offset content more fit
        ∙ ap (λ r. r ++ more) (drop-offset key content n (opened db n) s ran refl) in
      let rerun' : ingest_lines key (lines (open_part rest ++ more)) (opened d1 s.offset)
          ≡ returned t =
        rw (start, unread) at rerun in
      let pass = ingest_lines-IsPass key (lines rest) (opened db n) s ran in
      let pass' =
        ingest_lines-IsPass key (lines (open_part rest ++ more)) (opened d1 s.offset) t rerun' in
      let left =
        saved
        ∙ events-save_offset key (offset_row key db.spool_offsets) s.offset s.db
        ∙ ap (λ (d : Database). with_offsets d.spool_offsets s.db) (sym saved) in
      let loop = ingest_lines_resumed key rest more db d1 n s t ran left rerun' in
      rw (
        start_of_longer key content more db fits,
        drop-append n content more (start_offset-le (offset_row key db.spool_offsets) content),
        loop,
        same,
        same',
        saved',
        saved_twice key db d1 s t pass.offsets saved pass'.offsets,
      )

  -- Reading a file again that has not changed finds nothing, and writes nothing.
  ingest_again :
      (key : String) (content : List ℕ) (db d1 : Database) (r : IngestResult)
      → ingest_spool key (some content) db ≡ (returned r, d1)
      → ingest_spool key (some content) d1 ≡ (
        returned (record {
          inserted = 0;
          duplicates = 0;
          rejected = 0;
          acknowledged_offset = r.acknowledged_offset;
        }),
        d1,
      )
  unfolding ingest_spool start_offset
  ingest_again key content db d1 r h =
      let ack = ingest_acknowledges key content db d1 r h in
      let tail = drop r.acknowledged_offset content in
      rw
        (
          ack.3,
          start_offset_within r.acknowledged_offset content ack.0,
          no_newline key tail (opened d1 r.acknowledged_offset) (ack.1),
        )
        (ground arith)

  -- Where the first unread line is complete and makes Python raise an exception other than
  -- EventSchemaError, the ingestion raises it and commits nothing, and so does each later one of
  -- the file, however it has grown.
  pub ingest_blocked :
      (key : String) (content more line : List ℕ) (ls : List (List ℕ)) (db : Database) (x : Raised)
      → or_zero (offset_row key db.spool_offsets) ≤ length content
      → lines (drop (start_of key content db) content) ≡ line ∷ ls
      → ends_line line ≡ true
      → from_json_line (bytes line) ≡ raised x
      → ingest_spool key (some (content ++ more)) db ≡ (aborted x, db)
  unfolding ingest_spool ingest_lines ingest_line close_ingest
  ingest_blocked key content more line ls db x fits first whole bad =
      let n = start_of key content db in
      let rest = drop n content in
      let unread =
        drop-append n content more (start_offset-le (offset_row key db.spool_offsets) content) in
      let split =
        ap lines unread
        ∙ lines-append rest more
        ∙ ap (λ m. finished m ++ lines (joined (unfinished m) ++ more)) first in
      rw (start_of_longer key content more db fits, split, whole, whole, bad)
