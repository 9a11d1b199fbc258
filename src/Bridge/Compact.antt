-- ===== src/Bridge/Compact.antt =====
-- A spool file is removed only after all of it is in the tables.
use bot_ea.Base.{
  ℕ, ◌≡◌, ◌≢◌, refl, sym, ap, ◌∙◌, inl, inr, Bool, true, false, some, String, List, ◌++◌, ◌||◌, not,
  ltb, ◌==◌, ==_iff, length, Bool-cases,
}
use bot_ea.Bridge.Json.{Python, Raised}
use bot_ea.Bridge.Store.{
  Database, IngestResult, Run, returned, aborted, offset_row, or_zero, ingest_spool,
}
use bot_ea.Bridge.Rotation.{
  SpoolCompactionResult, SpoolFiles, set_offset, forget_offset, remove_rotated, rotate,
  compact_ingested_spool,
}

-- What a compaction that removed the file has done: the rotated file was ingested to its last byte,
-- nothing was appended to it meanwhile, and its events and rejections are in the tables.
pub record IsRemoval ⦃py : Python⦄ (rotated_key : String) (content late later : List ℕ)
    (before db' : Database) (r : SpoolCompactionResult) : Type 0 where
  pub result : IngestResult
  pub after : Database
  pub ingested : ingest_spool rotated_key (some (content ++ late)) before ≡ (returned result, after)
  pub whole : result.acknowledged_offset ≡ length (content ++ late ++ later)
  pub events : db'.events ≡ after.events
  pub rejections : db'.rejected ≡ after.rejected
  pub tail : r.recovered_tail_events ≡ result.inserted
  pub reset : r.acknowledged_offset ≡ 0

pub returned_injective {ℓ} : {A : Type ℓ} (a b : A) → returned a ≡ returned b → a ≡ b
returned_injective a b h = cc

pub returned≢aborted {ℓ} : {A : Type ℓ} (a : A) (x : Raised) → returned a ≢ aborted x
returned≢aborted a x h = cc

module _ ⦃py : Python⦄ where
  remove_rotated-rotated :
      (key : String) (size offset : ℕ) (content : List ℕ) (run : Run IngestResult) (db : Database)
      (r : SpoolCompactionResult) (files : SpoolFiles) (db' : Database)
      → remove_rotated key size offset content (run, db) ≡ (returned r, files, db')
      → r.rotated ≡ true
      → (i : IngestResult) × (run ≡ returned i)
        × (i.acknowledged_offset ≡ length content)
        × (db' ≡ forget_offset key db)
        × (r.recovered_tail_events ≡ i.inserted)
        × (r.acknowledged_offset ≡ 0)
  unfolding remove_rotated
  remove_rotated-rotated key size offset content (aborted x) db r files db' h t = absurd cc
  remove_rotated-rotated key size offset content (returned i) db r files db' h t =
      elim (Bool-cases (i.acknowledged_offset == length content)) [
        | inl e ↦
            let done = rw e at h in
            let same = returned_injective _ _ (ap (λ x. x.0) done) in
            (
              i,
              refl,
              (==_iff i.acknowledged_offset (length content)).0 e,
              sym (ap (λ x. x.2) done),
              sym (ap (λ q. q.recovered_tail_events) same),
              sym (ap (λ q. q.acknowledged_offset) same),
            )
        | inr e ↦
            let done = rw e at h in
            let same = returned_injective _ _ (ap (λ x. x.0) done) in
            let clash : false ≡ true = ap (λ q. q.rotated) same ∙ t in absurd cc
      ]

  rotate-rotated :
      (key rotated_key : String) (renamed : Bool) (late later content : List ℕ) (offset : ℕ)
      (db : Database) (r : SpoolCompactionResult) (files : SpoolFiles) (db' : Database)
      → rotate key rotated_key renamed late later content offset db ≡ (returned r, files, db')
      → r.rotated ≡ true
      → IsRemoval rotated_key content late later (set_offset key 0 db) db' r
  unfolding rotate forget_offset
  rotate-rotated key rotated_key false late later content offset db r files db' h t =
      let same = returned_injective _ _ (ap (λ x. x.0) h) in
      let clash : false ≡ true = ap (λ q. q.rotated) same ∙ t in absurd cc
  rotate-rotated key rotated_key true late later content offset db r files db' h t =
      let before = set_offset key 0 db in
      let (run, after) = ingest_spool rotated_key (some (content ++ late)) before in
      let (i, ran, all, saved, tail, reset) =
        remove_rotated-rotated rotated_key (length content) offset (content ++ late ++ later) run
          after r files db' h t in
      record {
        result = i;
        after = after;
        ingested = ap (λ x. (x, after)) ran;
        whole = all;
        events = ap (λ d. d.events) saved;
        rejections = ap (λ d. d.rejected) saved;
        tail = tail;
        reset = reset;
      }

  -- A compaction that reports a rotated file has ingested that file to its very last byte, those
  -- included that the producer appended before the rename or while it was read, and the events and
  -- rejections of that ingestion are in the tables.
  pub compaction_loses_nothing :
      (key rotated_key : String) (minimum_bytes : ℕ) (renamed : Bool) (late later content : List ℕ)
      (db : Database) (r : SpoolCompactionResult) (files : SpoolFiles) (db' : Database)
      → compact_ingested_spool key rotated_key minimum_bytes renamed late later (some content) db
        ≡ (returned r, files, db')
      → r.rotated ≡ true
      → IsRemoval rotated_key content late later (set_offset key 0 db) db' r
  unfolding compact_ingested_spool
  compaction_loses_nothing key rotated_key minimum_bytes renamed late later content db r files db' h
        t =
      let offset = or_zero (offset_row key db.spool_offsets) in
      elim (Bool-cases (minimum_bytes == 0)) [
        | inl e ↦ let done = rw e at h in absurd (returned≢aborted _ _ (sym (ap (λ x. x.0) done)))
        | inr e ↦
            elim (Bool-cases
              (ltb (length content) minimum_bytes || not (offset == length content))) [
                | inl k ↦
                    let done = rw (e, k) at h in
                    let same = returned_injective _ _ (ap (λ x. x.0) done) in
                    let clash : false ≡ true = ap (λ q. q.rotated) same ∙ t in absurd cc
                | inr k ↦
                    rotate-rotated key rotated_key renamed late later content offset db r files db'
                      (rw (e, k) at h) t
              ]
      ]
