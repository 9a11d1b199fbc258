-- ===== src/Gate/Files.antt =====
-- `status` and `set_enabled` of gold_orchestrator/entry_gate.py. The clock's text is an argument.
use bot_ea.Base.{
  Bool, true, false, not, ◌&&◌, Option, none, some, [], ◌∷◌, ◌++◌, ltb, if◌then◌else◌,
}
use bot_ea.Base.Text.{Text, codes, strip, is_nil}
use bot_ea.Base.Split.{join}
use bot_ea.Base.Decimal.{all_digits, decimal, value_from}
pub use bot_ea.Gate.Reading.{
  Checked, EntrySession, File, GateError, Profile, ProfileFiles, Root, absent, authority_disabled,
  bad_actor, broken, content, error, fine, goldi, goldm, unsupported_profile,
}
unfoldable pub use bot_ea.Gate.Reading.{
  bar_code, files_of, matches, matching_command_enabled, name_of, profile_of, read_session,
  session_of, with_command, with_login,
}
use bot_ea.Gate.Reading.{session_missing}

pub data GateReason : Type 0 where
  because : GateError → GateReason
  missing order_authority_disabled enabled disabled : GateReason

pub record EntryGateStatus : Type 0 where
  pub profile_id : Profile
  pub available : Bool
  pub is_enabled : Bool
  pub authority_enabled : Bool
  pub session_id : Option Text
  pub reason : GateReason

abbrev pub unavailable : Profile → GateReason → EntryGateStatus
unavailable p why = record {
  profile_id = p;
  available = false;
  is_enabled = false;
  authority_enabled = false;
  session_id = none;
  reason = why;
}

abbrev pub available_status : EntrySession → Bool → GateReason → EntryGateStatus
available_status s on why = record {
  profile_id = s.profile_id;
  available = true;
  is_enabled = on;
  authority_enabled = s.authority_enabled;
  session_id = some s.session_id;
  reason = why;
}

-- `status` from the session that was read on
unfoldable pub status_with : Profile → File → Checked (Option EntrySession) → EntryGateStatus
unfolding matching_command_enabled
status_with p command (error e) = unavailable p (because e)
status_with p command (fine none) = unavailable p missing
status_with p command (fine (some s)) =
    if s.authority_enabled
    then (let on = matching_command_enabled s command in
        available_status s on (if on then enabled else disabled))
    else available_status s false order_authority_disabled

-- `status`, after `_profile`
unfoldable pub status_of : Profile → ProfileFiles → EntryGateStatus
unfolding read_session status_with
status_of p fs = status_with p fs.command_file (read_session p fs.session_file)

-- `EntryGateController.status`
unfoldable pub status : Text → Root → Checked EntryGateStatus
unfolding profile_of status_of
status profile_id root = elim (profile_of profile_id) [
  | none ↦ error unsupported_profile
  | some p ↦ fine (status_of p (files_of p root))
]

-- `actor.isascii() and actor.isdecimal() and int(actor) > 0`
abbrev pub is_actor : Text → Bool
is_actor a = not (is_nil a) && all_digits a && ltb 0 (value_from 0 a)

-- The payload of the command file.
unfoldable pub command_text : EntrySession → Bool → Text → Text → Text
unfolding join decimal
command_text s on actor now = join bar_code (
    codes "1"
    ∷ name_of s.profile_id
    ∷ s.profile_fingerprint
    ∷ decimal s.account_login
    ∷ s.session_id
    ∷ (if on then codes "ENABLED" else codes "DISABLED")
    ∷ actor
    ∷ now
    ∷ [])

-- `set_enabled` from the session that was read on; a call that raises has written nothing.
unfoldable pub switch_with :
    Profile
    → Bool
    → Text
    → Text
    → Root
    → Checked (Option EntrySession)
    → Checked EntryGateStatus × Root
unfolding command_text status_of strip value_from
switch_with p on actor_id now root (error e) = (error e, root)
switch_with p on actor_id now root (fine none) = (error session_missing, root)
switch_with p on actor_id now root (fine (some s)) =
    if not s.authority_enabled
    then (error authority_disabled, root)
    else if not (is_actor (strip actor_id))
    then (error bad_actor, root)
    else (let root' =
          with_command p (content (command_text s on (strip actor_id) now ++ (10 ∷ []))) root in
        (fine (status_of p (files_of p root')), root'))

-- `set_enabled` after `_profile`
unfoldable pub switch : Profile → Bool → Text → Text → Root → Checked EntryGateStatus × Root
unfolding read_session switch_with
switch p on actor_id now root =
    switch_with p on actor_id now root (read_session p (files_of p root).session_file)

-- `EntryGateController.set_enabled`
unfoldable pub set_enabled : Text → Bool → Text → Text → Root → Checked EntryGateStatus × Root
unfolding profile_of switch
set_enabled profile_id on actor_id now root = elim (profile_of profile_id) [
  | none ↦ (error unsupported_profile, root)
  | some p ↦ switch p on actor_id now root
]
