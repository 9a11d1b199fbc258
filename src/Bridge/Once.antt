-- ===== src/Bridge/Once.antt =====
-- The rows of the deliveries table under its statements: keys stay unique, and a row is changed by
-- an attempt with its key alone.
use bot_ea.Base.{
  ◌≡◌, refl, ap, inl, inr, true, false, String, List, [], ◌∷◌, ◌++◌, ◌||◌, ◌&&◌, str_eq, one_of,
  arith, eq_iff, if◌then◌else◌, Bool-cases, Option, none, some, ◌∙◌,
}
use bot_ea.Bridge.Store.{DeliveryRow}
use bot_ea.Bridge.Recipients.{and_parts}
use bot_ea.Bridge.Delivery.{
  is_row, has_delivery, insert_delivery, insert_deliveries, insert_sorted, sorted, attempted,
  record_attempt,
}

-- The row with a given key.
abbrev pub row_of : String → String → List DeliveryRow → Option DeliveryRow
row_of k c [] = none
row_of k c (d ∷ ds) = if is_row k c d then some d else row_of k c ds

-- The primary key of the table.
abbrev pub HasUniqueKeys : List DeliveryRow → Type 0
HasUniqueKeys [] = Unit
HasUniqueKeys (d ∷ ds) = (has_delivery d.event_id d.chat_id ds ≡ false) × HasUniqueKeys ds

one_of-insert_sorted :
    (c k : String) (ks : List String) → one_of c (insert_sorted k ks) ≡ (str_eq c k || one_of c ks)
unfolding insert_sorted
one_of-insert_sorted c k [] = refl
one_of-insert_sorted c k (j ∷ js) = ground (arith, one_of-insert_sorted c k js)

pub one_of-sorted : (c : String) (ks : List String) → one_of c (sorted ks) ≡ one_of c ks
unfolding sorted
one_of-sorted c [] = refl
one_of-sorted c (k ∷ ks) = ground (arith, one_of-insert_sorted c k (sorted ks), one_of-sorted c ks)

has_delivery-append :
    (k c : String) (ds es : List DeliveryRow)
    → has_delivery k c (ds ++ es) ≡ (has_delivery k c ds || has_delivery k c es)
unfolding has_delivery
has_delivery-append k c [] es = refl
has_delivery-append k c (d ∷ ds) es = ground (arith, has_delivery-append k c ds es)

HasUniqueKeys-append :
    (ds : List DeliveryRow) (d : DeliveryRow)
    → HasUniqueKeys ds
    → has_delivery d.event_id d.chat_id ds ≡ false
    → HasUniqueKeys (ds ++ (d ∷ []))
unfolding has_delivery
HasUniqueKeys-append [] d h n = (refl, tt)
HasUniqueKeys-append (x ∷ ds) d h n = (
  ground (
    arith,
    has_delivery-append x.event_id x.chat_id ds (d ∷ []),
    eq_iff x.event_id d.event_id,
    eq_iff x.chat_id d.chat_id,
    eq_iff d.event_id x.event_id,
    eq_iff d.chat_id x.chat_id,
  ),
  HasUniqueKeys-append ds d h.1 (ground arith),
)

row_of-append :
    (k c : String) (d : DeliveryRow) (ds es : List DeliveryRow)
    → row_of k c ds ≡ some d
    → row_of k c (ds ++ es) ≡ some d
row_of-append k c d [] es h = cc
row_of-append k c d (x ∷ ds) es h = ground (arith, row_of-append k c d ds es)

HasUniqueKeys-insert_delivery :
    (k c : String) (ds : List DeliveryRow)
    → HasUniqueKeys ds
    → HasUniqueKeys (insert_delivery k c ds)
unfolding insert_delivery
HasUniqueKeys-insert_delivery k c ds h = elim (Bool-cases (has_delivery k c ds)) [
  | inl old ↦ rw old h
  | inr new ↦ rw new (HasUniqueKeys-append ds _ h new)
]

pub HasUniqueKeys-insert_deliveries :
    (k : String) (cs : List String) (ds : List DeliveryRow)
    → HasUniqueKeys ds
    → HasUniqueKeys (insert_deliveries k cs ds)
unfolding insert_deliveries
HasUniqueKeys-insert_deliveries k [] ds h = h
HasUniqueKeys-insert_deliveries k (c ∷ cs) ds h =
    HasUniqueKeys-insert_deliveries k cs (insert_delivery k c ds)
      (HasUniqueKeys-insert_delivery k c ds h)

pub row_of-insert_deliveries :
    (k c j : String) (d : DeliveryRow) (cs : List String) (ds : List DeliveryRow)
    → row_of k c ds ≡ some d
    → row_of k c (insert_deliveries j cs ds) ≡ some d
unfolding insert_deliveries insert_delivery
row_of-insert_deliveries k c j d [] ds h = h
row_of-insert_deliveries k c j d (x ∷ cs) ds h =
    row_of-insert_deliveries k c j d cs _ (row_of-insert_delivery ds h)
  where
    row_of-insert_delivery :
        (ds : List DeliveryRow)
        → row_of k c ds ≡ some d
        → row_of k c (insert_delivery j x ds) ≡ some d
    row_of-insert_delivery ds h = elim (Bool-cases (has_delivery j x ds)) [
      | inl old ↦ rw old h
      | inr new ↦ rw new (row_of-append k c d ds _ h)
    ]

has_delivery-record_attempt :
    (k c j x : String) (o : Option String) (ds : List DeliveryRow)
    → has_delivery k c (record_attempt j x o ds) ≡ has_delivery k c ds
unfolding has_delivery record_attempt
has_delivery-record_attempt k c j x o [] = refl
has_delivery-record_attempt k c j x o (d ∷ ds) =
    ground (arith, has_delivery-record_attempt k c j x o ds)

pub HasUniqueKeys-record_attempt :
    (j x : String) (o : Option String) (ds : List DeliveryRow)
    → HasUniqueKeys ds
    → HasUniqueKeys (record_attempt j x o ds)
unfolding record_attempt
HasUniqueKeys-record_attempt j x o [] h = tt
HasUniqueKeys-record_attempt j x o (d ∷ ds) h = (
  ground (arith, has_delivery-record_attempt d.event_id d.chat_id j x o ds),
  HasUniqueKeys-record_attempt j x o ds h.1,
)

is_row-attempted :
    (k c : String) (o : Option String) (d : DeliveryRow) → is_row k c (attempted o d) ≡ is_row k c d
is_row-attempted k c none d = refl
is_row-attempted k c (some why) d = refl

-- A row with one key has no other.
is_row_other :
    (k c j x : String) (d : DeliveryRow)
    → (str_eq j k && str_eq x c) ≡ false
    → is_row j x d ≡ true
    → is_row k c d ≡ false
is_row_other k c j x d n h =
    let both = and_parts (str_eq d.event_id j) (str_eq d.chat_id x) h in
    let a = (eq_iff d.event_id j).0 both.0 in
    let b = (eq_iff d.chat_id x).0 both.1 in
    ap (λ e. str_eq e k && str_eq d.chat_id c) a ∙ ap (λ e. str_eq j k && str_eq e c) b ∙ n

pub row_of-record_attempt :
    (k c j x : String) (o : Option String) (d : DeliveryRow) (ds : List DeliveryRow)
    → (str_eq j k && str_eq x c) ≡ false
    → row_of k c ds ≡ some d
    → row_of k c (record_attempt j x o ds) ≡ some d
unfolding record_attempt
row_of-record_attempt k c j x o d [] n h = h
row_of-record_attempt k c j x o d (y ∷ ds) n h = elim (Bool-cases (is_row j x y)) [
  | inl hit ↦
      let other = is_row_other k c j x y n hit in
      rw (hit, is_row-attempted k c o y, other)
        (row_of-record_attempt k c j x o d ds n (rw other at h))
  | inr miss ↦ elim (Bool-cases (is_row k c y)) [
    | inl own ↦ rw (miss, own) (rw own at h)
    | inr other ↦ rw (miss, other) (row_of-record_attempt k c j x o d ds n (rw other at h))
  ]
]
