-- ===== src/Bridge/Contract.antt =====
-- What `from_json_line` lets through, and that `canonical_json` prints what it reads back.
use package.text.Mathlib.Text.{starts_with}
use mathlib.Core.Path.{subst}
use bot_ea.Base.{
  ◌≡◌, ◌≤◌, ◌⊎◌, ◌↔◌, refl, ap, none, true, false, Option, some, String, count, is_empty, one_of,
  not-false, arith, eq_iff,
}
use bot_ea.Base.Errors.{AllPass, first_error, first_error-AllPass, AllPass-first_error}
use bot_ea.Base.Int.{ℤ, pos}
use bot_ea.Bridge.Json.{
  text, object, Members, Raised, converted, failed, Python, get, to_int, from_timestamp, or_empty,
}
use bot_ea.Bridge.Envelope.{
  SchemaError, Parse, parsed, refused, raised, ◌>>=◌, contract_tests, refuse, EngineEventEnvelope,
  event_types, validate, checked, field_of, has_all, required, Raw, stored, timestamp_of,
  payload_of, as_object, or_refuse, not_json, from_members, from_json_line, text_of,
  canonical_members, canonical_json, payload_or_empty,
}

-- The immutable event contract.
pub record IsAccepted (e : EngineEventEnvelope) : Type 0 where
  pub version : e.schema_version ≡ pos 1
  pub id_given : is_empty e.event_id ≡ false
  pub id_short : count e.event_id ≤ 240
  pub profile : (e.profile_id ≡ "GOLDI") ⊎ (e.profile_id ≡ "GOLDM")
  pub fingerprint : count e.profile_fingerprint ≡ 64
  pub event_type : one_of e.event_type event_types ≡ true
  pub audience :
      (e.audience ≡ "admin_only") ⊎ (e.audience ≡ "goldi_approved") ⊎ (e.audience ≡ "internal")
  pub goldm_private : e.profile_id ≡ "GOLDM" → e.audience ≡ "admin_only"
  pub goldi_symbol : e.profile_id ≡ "GOLDI" → starts_with e.symbol "GOLD.i" ≡ true
  pub goldm_symbol : e.profile_id ≡ "GOLDM" → starts_with e.symbol "GOLDm" ≡ true

refuse-none : (o : Option SchemaError) → refuse o ≡ parsed tt → o ≡ none
refuse-none none h = refl
refuse-none (some e) h = cc

AllPass-IsAccepted : (e : EngineEventEnvelope) → AllPass (contract_tests e) → IsAccepted e
AllPass-IsAccepted e (a, (b, (c, (d, (f, (g, (i, (j, (k, _))))))))) = record {
  version = ground arith;
  id_given = ground arith;
  id_short = ground arith;
  profile = ground (arith, eq_iff e.profile_id "GOLDI", eq_iff e.profile_id "GOLDM");
  fingerprint = ground arith;
  event_type = not-false _ f;
  audience = ground (
    arith,
    eq_iff e.audience "admin_only",
    eq_iff e.audience "goldi_approved",
    eq_iff e.audience "internal",
  );
  goldm_private = λ m. ground (arith, eq_iff e.profile_id "GOLDM", eq_iff e.audience "admin_only");
  goldi_symbol = λ m. ground (arith, eq_iff e.profile_id "GOLDI");
  goldm_symbol = λ m. ground (arith, eq_iff e.profile_id "GOLDM");
}

IsAccepted-AllPass : (e : EngineEventEnvelope) → IsAccepted e → AllPass (contract_tests e)
IsAccepted-AllPass e v = (
  ground arith,
  (
    ground arith,
    (
      ground (arith, eq_iff e.profile_id "GOLDI", eq_iff e.profile_id "GOLDM"),
      (
        ground arith,
        (
          ground arith,
          (
            ground (
              arith,
              eq_iff e.audience "admin_only",
              eq_iff e.audience "goldi_approved",
              eq_iff e.audience "internal",
            ),
            (
              ground (arith, eq_iff e.profile_id "GOLDM", eq_iff e.audience "admin_only"),
              (
                ground (arith, eq_iff e.profile_id "GOLDI"),
                (ground (arith, eq_iff e.profile_id "GOLDM"), tt),
              ),
            ),
          ),
        ),
      ),
    ),
  ),
)

-- `validate` accepts an event exactly when it meets the contract.
pub validate_exact : (e : EngineEventEnvelope) → (validate e ≡ parsed tt) ↔ IsAccepted e
unfolding validate
validate_exact e = (
  λ h.
      AllPass-IsAccepted e
        (first_error-AllPass (contract_tests e) (refuse-none (first_error (contract_tests e)) h)),
  λ v. ap refuse (AllPass-first_error (contract_tests e) (IsAccepted-AllPass e v)),
)

>>=-parsed {ℓ κ} :
    {A : Type ℓ} {B : Type κ} (m : Parse A) (f : A → Parse B) {b : B}
    → (m >>= f) ≡ parsed b
    → (a : A) × (m ≡ parsed a) × (f a ≡ parsed b)
unfolding ◌>>=◌
>>=-parsed (parsed a) f h = (a, refl, h)
>>=-parsed (refused e) f h = cc
>>=-parsed (raised x) f h = cc

checked-IsAccepted : (e e' : EngineEventEnvelope) → checked e ≡ parsed e' → (e ≡ e') × IsAccepted e'
unfolding checked
checked-IsAccepted e e' h =
    let a = >>=-parsed (validate e) (λ _. parsed e) h in
    let same : e ≡ e' = cc (a.2) in (same, subst IsAccepted same ((validate_exact e).0 a.1))

checked_lem : (e : EngineEventEnvelope) → IsAccepted e → checked e ≡ parsed e
unfolding checked
checked_lem e v = rw ((validate_exact e).1 v)

-- The event as it is read back: a missing payload has become an empty object.
abbrev pub reread : EngineEventEnvelope → EngineEventEnvelope
reread e = record e { payload = some (payload_or_empty e.payload) }

reread-IsAccepted : (e : EngineEventEnvelope) → IsAccepted e → IsAccepted (reread e)
reread-IsAccepted e v = record {
  version = v.version;
  id_given = v.id_given;
  id_short = v.id_short;
  profile = v.profile;
  fingerprint = v.fingerprint;
  event_type = v.event_type;
  audience = v.audience;
  goldm_private = v.goldm_private;
  goldi_symbol = v.goldi_symbol;
  goldm_symbol = v.goldm_symbol;
}

module _ ⦃py : Python⦄ where
  from_members-IsAccepted :
      (m : Members) (e : EngineEventEnvelope) → from_members m ≡ parsed e → IsAccepted e
  unfolding from_members
  from_members-IsAccepted m e h =
      let a = >>=-parsed _ _ h in
      let b = >>=-parsed _ _ a.2 in
      let c = >>=-parsed _ _ b.2 in let d = >>=-parsed _ _ c.2 in (checked-IsAccepted _ e d.2).1

  abbrev from_text : String → Parse EngineEventEnvelope
  from_text decoded =
      or_refuse (py.loads decoded) not_json >>= λ value. as_object value >>= from_members

  -- Whatever the line holds, an event that is read from it meets the contract: its profile is GOLDI
  -- or GOLDM with a symbol of that profile, and a GOLDM event is for administrators only.
  pub from_json_line-IsAccepted :
      (raw : Raw) (e : EngineEventEnvelope) → from_json_line raw ≡ parsed e → IsAccepted e
  unfolding from_json_line
  from_json_line-IsAccepted raw e h =
      let a = >>=-parsed (or_refuse (text_of raw) not_json) from_text h in
      let b =
        >>=-parsed (or_refuse (py.loads a.0) not_json) (λ value. as_object value >>= from_members)
          a.2 in
      let c = >>=-parsed (as_object b.0) from_members b.2 in from_members-IsAccepted c.0 e c.2

  or_empty_text : (s : String) → or_empty (some (text s)) ≡ s
  unfolding or_empty
  or_empty_text s = ground (arith, eq_iff s "")

  from_members-canonical_members :
      (e : EngineEventEnvelope)
      → IsAccepted e
      → from_timestamp e.server_time ≡ converted e.server_time
      → from_members (canonical_members e) ≡ parsed (reread e)
  unfolding from_members canonical_members ◌>>=◌ checked has_all bot_ea.Bridge.Envelope.caught
      timestamp_of to_int field_of payload_of bot_ea.Bridge.Envelope.uncaught first_error
      bot_ea.Bridge.Json.to_str bot_ea.Bridge.Json.optional_text
  from_members-canonical_members e v t =
      rw
        (
          t,
          or_empty_text e.setup_id,
          or_empty_text e.signal_id,
          or_empty_text e.order_id,
          or_empty_text e.position_id,
        )
        (checked_lem (reread e) (reread-IsAccepted e v))

  -- An accepted event whose time is a valid epoch second is read back from its canonical text,
  -- where the JSON reader gives the object that was printed: every field is the same, and a missing
  -- payload has become an empty one.
  pub from_json_line-canonical_json :
      (e : EngineEventEnvelope)
      → IsAccepted e
      → from_timestamp e.server_time ≡ converted e.server_time
      → py.loads (canonical_json e) ≡ some (object (canonical_members e))
      → from_json_line (stored (canonical_json e)) ≡ parsed (reread e)
  unfolding from_json_line
  from_json_line-canonical_json e v t l = rw l (from_members-canonical_members e v t)

  -- A line whose `schema_version` Python's `int` does not convert raises an exception that is no
  -- EventSchemaError, once all required keys, the time and the payload are accepted.
  pub from_members_uncaught :
      (m : Members) (n : ℤ) (p : Option Members) (x : Raised)
      → has_all required m ≡ true
      → timestamp_of (to_int (field_of "server_time" m)) ≡ converted n
      → payload_of (get "payload" m) ≡ parsed p
      → to_int (field_of "schema_version" m) ≡ failed x
      → from_members m ≡ raised x
  unfolding from_members ◌>>=◌ bot_ea.Bridge.Envelope.caught bot_ea.Bridge.Envelope.uncaught
  from_members_uncaught m n p x h t q s = rw (h, t, q, s)
