-- ===== src/Bridge/Envelope.antt =====
-- gold_event_bridge/events.py: the event envelope, its checks and its canonical form.
use package.text.Mathlib.Text.{starts_with}
use bot_ea.Base.{
  ◌≡◌, refl, ◌⊎◌, inl, inr, ℕ, Bool, true, false, Option, none, some, String, count, List, [], ◌∷◌,
  ◌&&◌, ◌||◌, not, str_eq, is_empty, one_of, is_none, ltb, ◌==◌,
}
use bot_ea.Base.Errors.{first_error}
use bot_ea.Base.Int.{ℤ, pos, negsuc}
use bot_ea.Bridge.Json.{
  Json, null, integer, text, object, Members, end, member, Raised, value_error, type_error,
  overflow_error, os_error, Conversion, converted, failed, Python, get, to_int, to_str,
  optional_text, from_timestamp,
}

-- The messages of `EventSchemaError`.
pub data SchemaError : Type 0 where
  not_json not_object missing_fields bad_server_time bad_payload : SchemaError
  schema_version event_id profile_id fingerprint event_type audience : SchemaError
  goldm_audience goldi_symbol goldm_symbol : SchemaError

-- A parsed event, an EventSchemaError, or another exception, which no caller catches.
pub data Parse {ℓ} (A : Type ℓ) : Type ℓ where
  parsed : A → Parse A
  refused : SchemaError → Parse A
  raised : Raised → Parse A

pub Parse-cases {ℓ} :
    {A : Type ℓ} (m : Parse A)
    → ((a : A) × (m ≡ parsed a))
      ⊎ ((e : SchemaError) × (m ≡ refused e))
      ⊎ ((x : Raised) × (m ≡ raised x))
Parse-cases (parsed a) = inl (a, refl)
Parse-cases (refused e) = inr (inl (e, refl))
Parse-cases (raised x) = inr (inr (x, refl))

infixl 5 ◌>>=◌ ◌>>◌
unfoldable pub ◌>>=◌ {ℓ κ} : {A : Type ℓ} {B : Type κ} → Parse A → (A → Parse B) → Parse B
parsed a >>= f = f a
refused e >>= f = refused e
raised x >>= f = raised x

abbrev pub ◌>>◌ {ℓ} : {B : Type ℓ} → Parse (Unit {0}) → Parse B → Parse B
m >> k = m >>= λ _. k

-- `if test: raise EventSchemaError(...)`
abbrev pub refuse_if : Bool → SchemaError → Parse (Unit {0})
refuse_if true e = refused e
refuse_if false e = parsed tt

-- The server time is an epoch second.
pub record EngineEventEnvelope : Type 0 where
  pub schema_version : ℤ
  pub event_id : String
  pub profile_id : String
  pub profile_version : String
  pub profile_fingerprint : String
  pub event_type : String
  pub symbol : String
  pub server_time : ℤ
  pub reason : String
  pub audience : String
  pub setup_id : String
  pub signal_id : String
  pub order_id : String
  pub position_id : String
  pub payload : Option Members

abbrev pub event_types : List String
event_types =
    "ENGINE_STARTED" ∷ "ENGINE_HEARTBEAT" ∷ "PROFILE_VALIDATED" ∷ "SETUP_CREATED" ∷ "WATCH_UPDATED"
    ∷ "WATCH_CANCELLED" ∷ "ENTRY_READY" ∷ "ENTRY_REJECTED" ∷ "ORDER_SUBMITTED" ∷ "POSITION_OPENED"
    ∷ "POSITION_MODIFIED" ∷ "POSITION_PARTIALLY_CLOSED" ∷ "POSITION_CLOSED" ∷ "ENGINE_ERROR"
    ∷ "RECOVERY_COMPLETED" ∷ []

abbrev pub is_one : ℤ → Bool
is_one (pos n) = n == 1
is_one (negsuc _) = false

-- The tests of `EngineEventEnvelope.validate`, each with the error that it raises.
abbrev pub contract_tests : EngineEventEnvelope → List (Bool × SchemaError)
contract_tests e =
    (not (is_one e.schema_version), SchemaError.schema_version)
    ∷ (is_empty e.event_id || ltb 240 (count e.event_id), SchemaError.event_id)
    ∷ (not (one_of e.profile_id ("GOLDI" ∷ "GOLDM" ∷ [])), SchemaError.profile_id)
    ∷ (not (count e.profile_fingerprint == 64), fingerprint)
    ∷ (not (one_of e.event_type event_types), SchemaError.event_type)
    ∷ (
      not (one_of e.audience ("admin_only" ∷ "goldi_approved" ∷ "internal" ∷ [])),
      SchemaError.audience,
    )
    ∷ (str_eq e.profile_id "GOLDM" && not (str_eq e.audience "admin_only"), goldm_audience)
    ∷ (str_eq e.profile_id "GOLDI" && not (starts_with e.symbol "GOLD.i"), goldi_symbol)
    ∷ (str_eq e.profile_id "GOLDM" && not (starts_with e.symbol "GOLDm"), goldm_symbol)
    ∷ []

-- The EventSchemaError of a check that fails, if there is one.
abbrev pub refuse : Option SchemaError → Parse (Unit {0})
refuse none = parsed tt
refuse (some e) = refused e

-- `EngineEventEnvelope.validate`
unfoldable pub validate : EngineEventEnvelope → Parse (Unit {0})
unfolding first_error
validate e = refuse (first_error (contract_tests e))

-- `value[key]`, after the check that no required key is missing.
unfoldable pub field_of : String → Members → Json
unfolding get
field_of k m = elim (get k m) [ none ↦ null | some v ↦ v ]

unfoldable pub has_all : List String → Members → Bool
unfolding get
has_all [] m = true
has_all (k ∷ ks) m = not (is_none (get k m)) && has_all ks m

abbrev pub required : List String
required =
    "schema_version" ∷ "event_id" ∷ "profile_id" ∷ "profile_version" ∷ "profile_fingerprint"
    ∷ "event_type" ∷ "symbol" ∷ "server_time" ∷ "reason" ∷ "audience" ∷ []

-- The input is a line of a spool file or a stored text.
pub data Raw : Type 0 where
  bytes : List ℕ → Raw
  stored : String → Raw

-- TypeError, ValueError and OSError are caught; OverflowError is not.
unfoldable pub caught : Conversion → Parse ℤ
caught (converted n) = parsed n
caught (failed value_error) = refused bad_server_time
caught (failed type_error) = refused bad_server_time
caught (failed os_error) = refused bad_server_time
caught (failed overflow_error) = raised overflow_error

-- `datetime.fromtimestamp(int(v), tz=UTC)`, both inside the `try`
unfoldable pub timestamp_of : Conversion → Conversion
unfolding from_timestamp
timestamp_of (converted n) = from_timestamp n
timestamp_of (failed x) = failed x

unfoldable pub uncaught : Conversion → Parse ℤ
uncaught (converted n) = parsed n
uncaught (failed x) = raised x

unfoldable pub payload_of : Option Json → Parse (Option Members)
payload_of none = parsed none
payload_of (some null) = parsed none
payload_of (some (object m)) = parsed (some m)
payload_of (some _) = refused bad_payload

unfoldable pub as_object : Json → Parse Members
as_object (object m) = parsed m
as_object _ = refused not_object

abbrev pub or_refuse {ℓ} : {A : Type ℓ} → Option A → SchemaError → Parse A
or_refuse none e = refused e
or_refuse (some a) e = parsed a

-- `event.validate(); return event`
unfoldable pub checked : EngineEventEnvelope → Parse EngineEventEnvelope
unfolding validate ◌>>=◌
checked e = validate e >> parsed e

module _ ⦃py : Python⦄ where
  unfoldable pub text_of : Raw → Option String
  text_of (bytes b) = py.decode b
  text_of (stored s) = some s

  -- The part of `from_json_line` after the decoding.
  unfoldable pub from_members : Members → Parse EngineEventEnvelope
  from_members m = do
    refuse_if (not (has_all required m)) missing_fields
    server_time ← caught (timestamp_of (to_int (field_of "server_time" m)))
    payload ← payload_of (get "payload" m)
    version ← uncaught (to_int (field_of "schema_version" m))
    let event : EngineEventEnvelope = record {
      schema_version = version;
      event_id = to_str (field_of "event_id" m);
      profile_id = to_str (field_of "profile_id" m);
      profile_version = to_str (field_of "profile_version" m);
      profile_fingerprint = to_str (field_of "profile_fingerprint" m);
      event_type = to_str (field_of "event_type" m);
      symbol = to_str (field_of "symbol" m);
      server_time = server_time;
      reason = to_str (field_of "reason" m);
      audience = to_str (field_of "audience" m);
      setup_id = optional_text "setup_id" m;
      signal_id = optional_text "signal_id" m;
      order_id = optional_text "order_id" m;
      position_id = optional_text "position_id" m;
      payload = payload;
    }
    checked event

  -- `EngineEventEnvelope.from_json_line`
  unfoldable pub from_json_line : Raw → Parse EngineEventEnvelope
  unfolding ◌>>=◌ text_of as_object
  from_json_line raw = do
    decoded ← or_refuse (text_of raw) not_json
    value ← or_refuse (py.loads decoded) not_json
    m ← as_object value
    from_members m

-- `self.payload or {}`
abbrev pub payload_or_empty : Option Members → Members
payload_or_empty none = end
payload_or_empty (some m) = m

-- The object that `canonical_json` prints, its keys sorted.
unfoldable pub canonical_members : EngineEventEnvelope → Members
canonical_members e = member "audience" (text e.audience) (
    member "event_id" (text e.event_id) (
      member "event_type" (text e.event_type) (
        member "order_id" (text e.order_id) (
          member "payload" (object (payload_or_empty e.payload)) (
            member "position_id" (text e.position_id) (
              member "profile_fingerprint" (text e.profile_fingerprint) (
                member "profile_id" (text e.profile_id) (
                  member "profile_version" (text e.profile_version) (
                    member "reason" (text e.reason) (
                      member "schema_version" (integer e.schema_version) (
                        member "server_time" (integer e.server_time) (
                          member "setup_id" (text e.setup_id) (
                            member "signal_id" (text e.signal_id)
                              (member "symbol" (text e.symbol) end))))))))))))))

module _ ⦃py : Python⦄ where
  -- `canonical_json`
  unfoldable pub canonical_json : EngineEventEnvelope → String
  unfolding canonical_members
  canonical_json e = py.dumps (canonical_members e)
