-- ===== src/Bridge/Settled.antt =====
-- A delivery that has succeeded is settled: `deliver_pending` neither repeats it nor touches its row.
use bot_ea.Base.{
  ℕ, ◌≡◌, refl, inl, inr, Bool, true, false, String, List, [], ◌∷◌, ◌||◌, ◌&&◌, str_eq, one_of,
  arith, eq_iff, Bool-cases, Option-cases, Option, some, take,
}
use bot_ea.Bridge.Json.{Python}
use bot_ea.Bridge.Envelope.{EngineEventEnvelope, Parse-cases, stored, from_json_line}
use bot_ea.Bridge.Store.{is_delivered, EventRow, DeliveryRow, Database}
use bot_ea.Bridge.Recipients.{and_parts}
use bot_ea.Bridge.Delivery.{
  RecipientPolicy, recipients, is_row, has_delivery, insert_deliveries, undelivered, sorted, Sender,
  Progress, record_attempt, is_nil, attempt, attempt_all, finish_event, deliver_event, deliver_rows,
  pending_events, deliver_pending,
}
use bot_ea.Bridge.Once.{
  row_of, HasUniqueKeys, one_of-sorted, HasUniqueKeys-insert_deliveries, row_of-insert_deliveries,
  HasUniqueKeys-record_attempt, row_of-record_attempt,
}

has_delivery_of_undelivered :
    (k c : String) (ds : List DeliveryRow)
    → one_of c (undelivered k ds) ≡ true
    → has_delivery k c ds ≡ true
unfolding has_delivery undelivered
has_delivery_of_undelivered k c [] h = h
has_delivery_of_undelivered k c (d ∷ ds) h =
    ground (arith, has_delivery_of_undelivered k c ds, eq_iff c d.chat_id, eq_iff d.chat_id c)

-- With unique keys, a delivered row's chat is not among the outstanding ones.
undelivered_lem :
    (k c : String) (d : DeliveryRow) (ds : List DeliveryRow)
    → HasUniqueKeys ds
    → row_of k c ds ≡ some d
    → is_delivered d.state ≡ true
    → one_of c (undelivered k ds) ≡ false
unfolding undelivered
undelivered_lem k c d [] u h s = refl
undelivered_lem k c d (y ∷ ds) u h s = elim (Bool-cases (is_row k c y)) [
  | inr other ↦ ground (
    arith,
    undelivered_lem k c d ds u.1 (rw other at h) s,
    eq_iff c y.chat_id,
    eq_iff y.chat_id c,
  )
  | inl own ↦
      let both = and_parts (str_eq y.event_id k) (str_eq y.chat_id c) own in
      let same : some y ≡ some d = rw own at h in
      let gone : has_delivery k c ds ≡ false =
        rw ((eq_iff y.event_id k).0 both.0, (eq_iff y.chat_id c).0 both.1) at (u.0) in
      ground (arith, has_delivery_of_undelivered k c ds)
]

-- The sender, with a flag that is raised by a send of the watched event to the watched chat.
abbrev pub watch : {E : Type 0} → String → String → Sender E → Sender (Bool × E)
watch k c send chat e (seen, w) =
    let (outcome, w') = send chat e w in
    (outcome, ((seen || (str_eq e.event_id k && str_eq chat c)), w'))

module _ (k c : String) (d : DeliveryRow) (settled : is_delivered d.state ≡ true) {E : Type 0}
    (send : Sender E) where
  -- The row stands as it is, and nothing has been sent.
  record IsSettled (p : Progress (Bool × E)) : Type 0 where
    unique : HasUniqueKeys p.db.deliveries
    row : row_of k c p.db.deliveries ≡ some d
    unsent : p.world.0 ≡ false

  kept :
      (e : EngineEventEnvelope) (chat : String) (o : Option String) (p q : Progress (Bool × E))
      → (str_eq e.event_id k && str_eq chat c) ≡ false
      → q.db.deliveries ≡ record_attempt e.event_id chat o p.db.deliveries
      → q.world.0 ≡ (p.world.0 || (str_eq e.event_id k && str_eq chat c))
      → IsSettled p
      → IsSettled q
  kept e chat o p q n same world h = record {
    unique = rw same (HasUniqueKeys-record_attempt e.event_id chat o p.db.deliveries h.unique);
    row = rw same (row_of-record_attempt k c e.event_id chat o d p.db.deliveries n h.row);
    unsent = rw (world, h.unsent, n);
  }

  attempt-IsSettled :
      (e : EngineEventEnvelope) (chat : String) (p : Progress (Bool × E))
      → (str_eq e.event_id k && str_eq chat c) ≡ false
      → IsSettled p
      → IsSettled (attempt (watch k c send) e chat p)
  unfolding attempt
  attempt-IsSettled e chat p n h = elim (Option-cases (send chat e p.world.1).0) [
    | inl sent ↦ rw (sent, attempt) (kept e chat (send chat e p.world.1).0 p _ n refl refl h)
    | inr (why, bad) ↦ rw (bad, attempt) (kept e chat (send chat e p.world.1).0 p _ n refl refl h)
  ]

  attempt_all-IsSettled :
      (e : EngineEventEnvelope) (chats : List String) (p : Progress (Bool × E))
      → (str_eq e.event_id k && one_of c chats) ≡ false
      → IsSettled p
      → IsSettled (attempt_all (watch k c send) e chats p)
  unfolding attempt_all
  attempt_all-IsSettled e [] p n h = h
  attempt_all-IsSettled e (chat ∷ chats) p n h =
      attempt_all-IsSettled e chats (attempt (watch k c send) e chat p) (ground arith)
        (attempt-IsSettled e chat p (ground (arith, eq_iff chat c, eq_iff c chat)) h)

  finish_event-IsSettled :
      (e : EngineEventEnvelope) (p : Progress (Bool × E))
      → IsSettled p
      → IsSettled (finish_event (watch k c send) e p)
  unfolding finish_event
  finish_event-IsSettled e p h =
      elim (Bool-cases (is_nil (undelivered e.event_id p.db.deliveries))) [
        | inl done ↦ rw done (record { unique = h.unique; row = h.row; unsent = h.unsent })
        | inr more ↦ rw more h
      ]

  skips :
      (e : EngineEventEnvelope) (ds : List DeliveryRow)
      → HasUniqueKeys ds
      → row_of k c ds ≡ some d
      → (str_eq e.event_id k && one_of c (sorted (undelivered e.event_id ds))) ≡ false
  skips e ds u r = elim (Bool-cases (str_eq e.event_id k)) [
    | inr other ↦ rw other
    | inl own ↦
        rw (own, one_of-sorted, (eq_iff e.event_id k).0 own) (undelivered_lem k c d ds u r settled)
  ]

  deliver_event-IsSettled :
      (policy : RecipientPolicy) (e : EngineEventEnvelope) (p : Progress (Bool × E))
      → IsSettled p
      → IsSettled (deliver_event (watch k c send) policy e p)
  unfolding deliver_event
  deliver_event-IsSettled policy e p h = elim (Bool-cases (is_nil (recipients policy e))) [
    | inl nobody ↦ rw nobody (record { unique = h.unique; row = h.row; unsent = h.unsent })
    | inr some_chat ↦
        let ds = insert_deliveries e.event_id (recipients policy e) p.db.deliveries in
        let u =
          HasUniqueKeys-insert_deliveries e.event_id (recipients policy e) p.db.deliveries
            h.unique in
        let r =
          row_of-insert_deliveries k c e.event_id d (recipients policy e) p.db.deliveries h.row in
        rw some_chat (
          finish_event-IsSettled e _ (
            attempt_all-IsSettled e (sorted (undelivered e.event_id ds)) _ (skips e ds u r)
              (record { unique = u; row = r; unsent = h.unsent })))
  ]

  deliver_rows-IsSettled :
      ⦃py : Python⦄ (policy : RecipientPolicy) (rows : List EventRow) (p : Progress (Bool × E))
      → IsSettled p
      → IsSettled (deliver_rows (watch k c send) policy rows p).1
  unfolding deliver_rows
  deliver_rows-IsSettled policy [] p h = h
  deliver_rows-IsSettled policy (r ∷ rows) p h =
      elim (Parse-cases (from_json_line (stored r.raw_event))) [
        | inl (e, ok) ↦
            rw (ok, deliver_rows)
              (deliver_rows-IsSettled policy rows (deliver_event (watch k c send) policy e p)
                (deliver_event-IsSettled policy e p h))
        | inr (inl (why, bad)) ↦ rw (bad, deliver_rows) h
        | inr (inr (x, bad)) ↦ rw (bad, deliver_rows) h
      ]

-- A delivery whose row is DELIVERED is settled, where the keys of the table are unique: whatever the
-- senders do, a run of `deliver_pending` leaves the row as it is, sends that event to that chat not
-- once more, and leaves the keys unique, also where it ends early.
pub deliver_pending_settled :
    ⦃py : Python⦄ {E : Type 0} (send : Sender E) (policy : RecipientPolicy) (limit : ℕ)
    (db : Database) (world : E) (k c : String) (d : DeliveryRow)
    → HasUniqueKeys db.deliveries
    → row_of k c db.deliveries ≡ some d
    → is_delivered d.state ≡ true
    → let after = (deliver_pending (watch k c send) policy limit db (false, world)).1 in
      (row_of k c after.db.deliveries ≡ some d)
      × (after.world.0 ≡ false)
      × HasUniqueKeys after.db.deliveries
unfolding deliver_pending
deliver_pending_settled send policy limit db world k c d unique row settled =
    let h =
      deliver_rows-IsSettled k c d settled send policy (take limit (pending_events db.events)) _
        (record { unique = unique; row = row; unsent = refl }) in
    (h.row, h.unsent, h.unique)
