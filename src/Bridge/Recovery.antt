-- ===== src/Bridge/Recovery.antt =====
-- The recovery of rotated spool files: what it keeps of the events, and which files leave.
use mathlib.Core.Path.{subst}
use bot_ea.Base.{
  ℕ, ◌+◌, ◌≡◌, refl, sym, ap, ◌∙◌, inl, inr, true, false, Option, none, some, String, List, [], ◌∷◌,
  ◌++◌, ◌==◌, ==_iff, ◌≢◌, length, length-drop, drop, arith, Bool-cases,
}
use bot_ea.Bridge.Json.{Python}
use bot_ea.Bridge.Envelope.{Parse-cases, EngineEventEnvelope, SchemaError, bytes, from_json_line}
use bot_ea.Bridge.Store.{
  EventRow, Database, IngestResult, Run, returned, aborted, has_event, ends_line, Ingest,
  insert_event, insert_rejected, ingest_line, ingest_lines, ingest_spool, save_offset, close_ingest,
  opened, start_offset, offset_row, lines,
}
use bot_ea.Bridge.Lines.{open_part}
use bot_ea.Bridge.Ingest.{
  Run-cases, start_of, drop-offset, ingest_spool-returned, ingest_acknowledges,
}
use bot_ea.Bridge.Compact.{returned_injective, returned≢aborted}
use bot_ea.Bridge.Rotation.{
  SpoolRecoveryResult, forget_offset, count_recovered, nothing_recovered, recover_rotated_spools,
}

has_event-append :
    (k : String) (rows : List EventRow) (r : EventRow)
    → has_event k rows ≡ true
    → has_event k (rows ++ (r ∷ [])) ≡ true
unfolding has_event
has_event-append k [] r h = cc
has_event-append k (q ∷ rows) r h = ground (arith, has_event-append k rows r)

nil_of_length : (xs : List ℕ) → length xs ≡ 0 → xs ≡ []
nil_of_length [] h = refl
nil_of_length (_ ∷ xs) h = absurd (omega (arith, h))

module _ ⦃py : Python⦄ where
  -- The bytes of a file that are in no complete line after what was acknowledged of it.
  abbrev pub unread_tail : String → List ℕ → Database → List ℕ
  unread_tail key content db = open_part (drop (start_of key content db) content)

  -- The files that a recovery leaves of those that it saw, with the tables before and after.
  pub data IsSwept
      : List (String × List ℕ) → List (String × List ℕ) → Database → Database → Type 0 where
    at_end :
        (left : List (String × List ℕ)) (db db' : Database)
        → left ≡ []
        → db ≡ db'
        → IsSwept [] left db db'
    removed :
        (key : String) (content : List ℕ) (files left : List (String × List ℕ)) (i : IngestResult)
        (db db1 db' : Database)
        → ingest_spool key (some content) db ≡ (returned i, db1)
        → unread_tail key content db ≡ []
        → IsSwept files left (forget_offset key db1) db'
        → IsSwept ((key, content) ∷ files) left db db'
    unfinished :
        (key : String) (content : List ℕ) (files left : List (String × List ℕ)) (i : IngestResult)
        (db db1 db' : Database)
        → ingest_spool key (some content) db ≡ (returned i, db1)
        → unread_tail key content db ≢ []
        → IsSwept files left db1 db'
        → IsSwept ((key, content) ∷ files) ((key, content) ∷ left) db db'

  -- Behind the acknowledged offset is the unread tail.
  drop-acknowledged :
      (key : String) (content : List ℕ) (db db' : Database) (i : IngestResult)
      → ingest_spool key (some content) db ≡ (returned i, db')
      → drop i.acknowledged_offset content ≡ unread_tail key content db
  drop-acknowledged key content db db' i h =
      let n = start_of key content db in
      let (s, ran, same, saved) = ingest_spool-returned key content db db' i h in
      rw same (drop-offset key content n (opened db n) s ran refl)

  acknowledged-all :
      (key : String) (content : List ℕ) (db db' : Database) (i : IngestResult)
      → ingest_spool key (some content) db ≡ (returned i, db')
      → i.acknowledged_offset ≡ length content
      → unread_tail key content db ≡ []
  acknowledged-all key content db db' i h all = nil_of_length (unread_tail key content db) (
      omega (
        arith,
        all,
        ap length (drop-acknowledged key content db db' i h),
        length-drop i.acknowledged_offset content,
      ))

  acknowledged-some :
      (key : String) (content : List ℕ) (db db' : Database) (i : IngestResult)
      → ingest_spool key (some content) db ≡ (returned i, db')
      → i.acknowledged_offset ≢ length content
      → unread_tail key content db ≢ []
  acknowledged-some key content db db' i h some_left empty = some_left (
      omega (
        arith,
        (ingest_acknowledges key content db db' i h).0,
        ap length (drop-acknowledged key content db db' i h),
        ap length empty,
        length-drop i.acknowledged_offset content,
      ))

  abbrev Sweeps :
      List (String × List ℕ)
      → Database
      → Run SpoolRecoveryResult × List (String × List ℕ) × Database
      → Type 0
  Sweeps files db (run, left, db') =
      (r : SpoolRecoveryResult) → run ≡ returned r → IsSwept files left db db'

  recover-Sweeps :
      (files : List (String × List ℕ)) (total : SpoolRecoveryResult) (db : Database)
      → Sweeps files db (recover_rotated_spools files total db)
  unfolding recover_rotated_spools
  recover-Sweeps [] total db = λ r h. at_end [] db db refl refl
  recover-Sweeps ((key, content) ∷ files) total db =
      let (run, db1) = ingest_spool key (some content) db in
      elim (Run-cases run) [
        | inr (y, bad) ↦
            rw (bad, recover_rotated_spools) (λ r h. absurd (returned≢aborted r y (sym h)))
        | inl (i, ok) ↦
            let ran : ingest_spool key (some content) db ≡ (returned i, db1) =
              ap (λ q. (q, db1)) ok in
            elim (Bool-cases (i.acknowledged_offset == length content)) [
              | inl e ↦
                  let rest =
                    recover-Sweeps files (count_recovered true i total) (forget_offset key db1) in
                  let none_left = acknowledged-all key content db db1 i ran ((==_iff _ _).0 e) in
                  rw (ok, e, recover_rotated_spools)
                    (λ r h. removed key content files _ i db db1 _ ran none_left (rest r h))
              | inr e ↦
                  let rest = recover-Sweeps files (count_recovered false i total) db1 in
                  let tail_left = acknowledged-some key content db db1 i ran (λ same.
                    let both = (==_iff i.acknowledged_offset (length content)).1 same in cc) in
                  rw (ok, e, recover_rotated_spools)
                    (λ r h. unfinished key content files _ i db db1 _ ran tail_left (rest r h))
            ]
      ]

module _ ⦃py : Python⦄ (x : String) where
  insert_event-keeps :
      (e : EngineEventEnvelope) (s : Ingest)
      → has_event x s.db.events ≡ true
      → has_event x (insert_event e s).db.events ≡ true
  unfolding insert_event
  insert_event-keeps e s h = elim (Bool-cases (has_event e.event_id s.db.events)) [
    | inl old ↦ rw old h
    | inr new ↦ rw new (has_event-append x s.db.events _ h)
  ]

  insert_rejected-keeps :
      (key : String) (line : List ℕ) (why : SchemaError) (s : Ingest)
      → (insert_rejected key line why s).db.events ≡ s.db.events
  unfolding insert_rejected
  insert_rejected-keeps key line why s = ground arith

  ingest_line-keeps :
      (key : String) (line : List ℕ) (s s' : Ingest)
      → ingest_line key line s ≡ returned s'
      → has_event x s.db.events ≡ true
      → has_event x s'.db.events ≡ true
  unfolding ingest_line
  ingest_line-keeps key line s s' h k = elim (Parse-cases (from_json_line (bytes line))) [
    | inl (e, ok) ↦
        subst (λ t. has_event x t.db.events ≡ true)
          (returned_injective _ _ (rw (ok, ingest_line) at h)) (insert_event-keeps e s k)
    | inr (inl (why, not_ok)) ↦
        subst (λ t. has_event x t.db.events ≡ true)
          (returned_injective _ _ (rw (not_ok, ingest_line) at h))
          (ap (has_event x) (insert_rejected-keeps key line why s) ∙ k)
    | inr (inr (y, bad)) ↦ absurd (returned≢aborted _ _ (sym (rw (bad, ingest_line) at h)))
  ]

  ingest_lines-keeps :
      (key : String) (ls : List (List ℕ)) (s s' : Ingest)
      → ingest_lines key ls s ≡ returned s'
      → has_event x s.db.events ≡ true
      → has_event x s'.db.events ≡ true
  unfolding ingest_lines
  ingest_lines-keeps key [] s s' h k =
      subst (λ t. has_event x t.db.events ≡ true) (returned_injective s s' h) k
  ingest_lines-keeps key (l ∷ ls) s s' h k = elim (Bool-cases (ends_line l)) [
    | inr n ↦ subst (λ t. has_event x t.db.events ≡ true) (returned_injective s s' (rw n at h)) k
    | inl e ↦ elim (Run-cases (ingest_line key l s)) [
      | inr (y, bad) ↦ cc (h, e, bad)
      | inl (t, ok) ↦
          ingest_lines-keeps key ls t s' (rw (e, ok) at h) (ingest_line-keeps key l s t ok k)
    ]
  ]

  save_offset-keeps :
      (key : String) (row : Option ℕ) (n : ℕ) (db : Database)
      → (save_offset key row n db).events ≡ db.events
  unfolding save_offset
  save_offset-keeps key none n db = refl
  save_offset-keeps key (some o) n db = ground arith

  close_ingest-keeps :
      (key : String) (row : Option ℕ) (db : Database) (run : Run Ingest)
      → has_event x db.events ≡ true
      → ((s : Ingest) → run ≡ returned s → has_event x s.db.events ≡ true)
      → has_event x (close_ingest key row db run).1.events ≡ true
  unfolding close_ingest
  close_ingest-keeps key row db (returned s) k f =
      ap (has_event x) (save_offset-keeps key row s.offset s.db) ∙ f s refl
  close_ingest-keeps key row db (aborted y) k f = k

  -- An ingestion, whether it commits or rolls back, keeps every stored event.
  ingest_spool-keeps :
      (key : String) (file : Option (List ℕ)) (db : Database)
      → has_event x db.events ≡ true
      → has_event x (ingest_spool key file db).1.events ≡ true
  unfolding ingest_spool
  ingest_spool-keeps key none db k = k
  ingest_spool-keeps key (some content) db k =
      let row = offset_row key db.spool_offsets in
      let start = start_offset row content in
      let ls = lines (drop start content) in
      close_ingest-keeps key row db (ingest_lines key ls (opened db start)) k
        (λ s ran. ingest_lines-keeps key ls (opened db start) s ran k)

  forget_offset-keeps : (key : String) (db : Database) → (forget_offset key db).events ≡ db.events
  unfolding forget_offset
  forget_offset-keeps key db = refl

  -- What a recovery keeps: each stored event, and each file that is not counted as removed.
  abbrev IsKept :
      List (String × List ℕ)
      → SpoolRecoveryResult
      → Run SpoolRecoveryResult × List (String × List ℕ) × Database
      → Type 0
  IsKept files total (run, left, db') =
      (has_event x db'.events ≡ true)
      × ((r : SpoolRecoveryResult)
          → run ≡ returned r
          → (r.files_seen ≡ total.files_seen + length files)
            × (r.files_removed + length left ≡ total.files_removed + length files))

  recover-IsKept :
      (files : List (String × List ℕ)) (total : SpoolRecoveryResult) (db : Database)
      → has_event x db.events ≡ true
      → IsKept files total (recover_rotated_spools files total db)
  unfolding recover_rotated_spools forget_offset
  recover-IsKept [] total db k = (
    k,
    λ r h.
        let e = returned_injective total r h in
        let seen = ap (λ q. q.files_seen) e in
        let removed = ap (λ q. q.files_removed) e in (omega (arith, seen), omega (arith, removed)),
  )
  recover-IsKept ((key, content) ∷ files) total db k =
      let (run, db') = ingest_spool key (some content) db in
      let k' = ingest_spool-keeps key (some content) db k in
      elim (Run-cases run) [
        | inr (y, bad) ↦
            rw (bad, recover_rotated_spools) (k', λ r h. absurd (returned≢aborted r y (sym h)))
        | inl (i, ok) ↦ elim (Bool-cases (i.acknowledged_offset == length content)) [
          | inl e ↦
              let rest =
                recover-IsKept files (count_recovered true i total) (forget_offset key db') k' in
              rw (ok, e, recover_rotated_spools)
                (
                  rest.0,
                  λ r h.
                      let (seen, left) = rest.1 r h in (omega (arith, seen), omega (arith, left)),
                )
          | inr e ↦
              let rest = recover-IsKept files (count_recovered false i total) db' k' in
              rw (ok, e, recover_rotated_spools)
                (
                  rest.0,
                  λ r h.
                      let (seen, left) = rest.1 r h in (omega (arith, seen), omega (arith, left)),
                )
        ]
      ]

  -- A recovery that returns has kept every stored event and seen every rotated file. It removes the
  -- files of which no byte is left behind the last newline after what was acknowledged before, and
  -- leaves all others, each after its ingestion was committed; each file is counted as removed or is
  -- still there.
  pub recovery_loses_nothing :
      (files left : List (String × List ℕ)) (db db' : Database) (r : SpoolRecoveryResult)
      → has_event x db.events ≡ true
      → recover_rotated_spools files nothing_recovered db ≡ (returned r, left, db')
      → (has_event x db'.events ≡ true)
        × (r.files_seen ≡ length files)
        × (r.files_removed + length left ≡ length files)
        × IsSwept files left db db'
  recovery_loses_nothing files left db db' r k h =
      let kept = recover-IsKept files nothing_recovered db k in
      let counts = kept.1 r (ap (λ o. o.0) h) in
      let same_left = ap (λ o. o.1) h in
      (
        sym (ap (λ o. has_event x o.2.events) h) ∙ kept.0,
        omega (arith, counts.0),
        omega (arith, counts.1, ap length same_left),
        rw h at (recover-Sweeps files nothing_recovered db) r refl,
      )
