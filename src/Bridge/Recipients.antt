-- ===== src/Bridge/Recipients.antt =====
-- Who may receive an event.
use bot_ea.Base.{
  ◌≡◌, refl, ◌⊎◌, inl, inr, Bool, true, false, String, List, [], ◌∷◌, ◌++◌, ◌||◌, ◌&&◌, not, sym,
  ◌∙◌, str_eq, one_of, arith, eq_iff, if◌then◌else◌,
}
use bot_ea.Bridge.Envelope.{EngineEventEnvelope}
use bot_ea.Bridge.Delivery.{
  without, from_keys, RecipientPolicy, position_types, notified_types, recipients,
}

one_of-append :
    (c : String) (xs ys : List String) → one_of c (xs ++ ys) ≡ (one_of c xs || one_of c ys)
one_of-append c [] ys = refl
one_of-append c (x ∷ xs) ys = ground (arith, one_of-append c xs ys)

one_of-without :
    (c k : String) (ks : List String)
    → one_of c (without k ks) ≡ (if str_eq c k then false else one_of c ks)
unfolding without
one_of-without c k [] = ground arith
one_of-without c k (j ∷ js) =
    ground (arith, one_of-without c k js, eq_iff c k, eq_iff j k, eq_iff c j)

pub one_of-from_keys : (c : String) (ks : List String) → one_of c (from_keys ks) ≡ one_of c ks
unfolding from_keys
one_of-from_keys c [] = refl
one_of-from_keys c (k ∷ ks) =
    ground (arith, one_of-without c k (from_keys ks), one_of-from_keys c ks)

abbrev pub Distinct : List String → Type 0
Distinct [] = Unit
Distinct (k ∷ ks) = (one_of k ks ≡ false) × Distinct ks

Distinct-without : (k : String) (ks : List String) → Distinct ks → Distinct (without k ks)
unfolding without
Distinct-without k [] h = tt
Distinct-without k (j ∷ js) h = ground (arith, Distinct-without k js h.1, one_of-without j k js)

Distinct-from_keys : (ks : List String) → Distinct (from_keys ks)
unfolding from_keys
Distinct-from_keys [] = tt
Distinct-from_keys (k ∷ ks) = (
  ground (arith, one_of-without k k (from_keys ks), eq_iff k k),
  Distinct-without k (from_keys ks) (Distinct-from_keys ks),
)

-- The four ways of `recipients`, over any tests.
abbrev chosen : Bool → Bool → Bool → List String → List String → List String
chosen quiet private shared xs ys =
    if quiet
    then []
    else if private
    then from_keys xs
    else if shared
    then from_keys (xs ++ ys)
    else from_keys xs

Distinct-chosen : (a b d : Bool) (xs ys : List String) → Distinct (chosen a b d xs ys)
Distinct-chosen true b d xs ys = tt
Distinct-chosen false true d xs ys = Distinct-from_keys xs
Distinct-chosen false false true xs ys = Distinct-from_keys (xs ++ ys)
Distinct-chosen false false false xs ys = Distinct-from_keys xs

chosen_from :
    (a b d : Bool) (c : String) (xs ys : List String)
    → one_of c (chosen a b d xs ys) ≡ true
    → (a ≡ false) × ((one_of c xs ≡ true) ⊎ ((one_of c ys ≡ true) × (d ≡ true) × (b ≡ false)))
chosen_from true b d c xs ys h = cc
chosen_from false true d c xs ys h = (refl, inl (sym (one_of-from_keys c xs) ∙ h))
chosen_from false false true c xs ys h =
    ground (arith, one_of-from_keys c (xs ++ ys), one_of-append c xs ys)
chosen_from false false false c xs ys h = (refl, inl (sym (one_of-from_keys c xs) ∙ h))

pub and_parts : (a b : Bool) → (a && b) ≡ true → (a ≡ true) × (b ≡ true)
and_parts a b h = ground arith

or_parts : (a b : Bool) → (a || b) ≡ false → (a ≡ false) × (b ≡ false)
or_parts a b h = ground arith

-- Whoever receives an event is an administrator, or an approved GOLDI chat that is told of an
-- opened or closed position whose audience is `goldi_approved` and whose profile is not GOLDM.
-- Nobody receives an internal event, and nobody receives one twice.
pub recipients_private :
    (p : RecipientPolicy) (e : EngineEventEnvelope) (c : String)
    → one_of c (recipients p e) ≡ true
    → (str_eq e.audience "internal" ≡ false)
      × Distinct (recipients p e)
      × ((one_of c p.admin_chat_ids ≡ true)
          ⊎ ((one_of c p.goldi_approved_chat_ids ≡ true)
              × (e.audience ≡ "goldi_approved")
              × (one_of e.event_type position_types ≡ true)
              × (str_eq e.profile_id "GOLDM" ≡ false)))
unfolding recipients
recipients_private p e c h =
    let quiet = not (one_of e.event_type notified_types) || str_eq e.audience "internal" in
    let private = str_eq e.profile_id "GOLDM" in
    let shared = str_eq e.audience "goldi_approved" && one_of e.event_type position_types in
    let from = chosen_from quiet private shared c p.admin_chat_ids p.goldi_approved_chat_ids h in
    (
      (or_parts _ _ from.0).1,
      Distinct-chosen quiet private shared p.admin_chat_ids p.goldi_approved_chat_ids,
      elim from.1 [
        | inl admin ↦ inl admin
        | inr (approved, is_shared, other) ↦
            let both =
              and_parts (str_eq e.audience "goldi_approved") (one_of e.event_type position_types)
                is_shared in
            inr (approved, (eq_iff e.audience "goldi_approved").0 both.0, both.1, other)
      ],
    )
