-- ===== src/Examples/Gate.antt =====
-- The entry gate of gold_orchestrator on concrete files.
use bot_ea.Base.{◌≡◌, refl, Bool, true, false, none, some, ◌∷◌, [], ◌++◌, List}
use bot_ea.Base.Text.{Text, codes}
use bot_ea.Gate.Files.{
  absent, content, goldm, Root, EntrySession, fine, read_session, EntryGateStatus, command_text,
  switch, with_command, available_status, enabled, matching_command_enabled,
}
use bot_ea.Gate.Authority.{IsSession, IsStamp}
use bot_ea.Gate.Switch.{Switched, switch_reports}
use bot_ea.Gate.Binding.{command_binds_session}

abbrev fingerprint : Text
fingerprint = codes "0123456789abcdef0123456789abcdef0123456789abcdef0123456789abcdef"

abbrev session : EntrySession
session = record {
  profile_id = goldm;
  profile_fingerprint = fingerprint;
  account_login = 1234;
  session_id = codes "s1";
  authority_enabled = true;
}

abbrev root : Root
root = record {
  goldi_files = record { session_file = absent; command_file = absent };
  goldm_files = record {
    session_file = content (
        codes
          "1|GOLDM|0123456789abcdef0123456789abcdef0123456789abcdef0123456789abcdef|1234|s1|ENABLED\n");
    command_file = absent;
  };
}

abbrev now : Text
now = codes "2026-01-02T03:04:05+00:00"

now-IsStamp : IsStamp now
unfolding bot_ea.Base.Text.is_space
now-IsStamp = record {
  plain = refl;
  before = codes "2026-01-02T03:04:05+00:0";
  last = 48;
  parts = refl;
  solid = refl;
}

session-IsSession : IsSession goldm session
session-IsSession = record { own = refl; plain_id = refl; plain_fingerprint = refl }

session_reads : read_session goldm root.goldm_files.session_file ≡ fine (some session)
unfolding read_session
session_reads = refl

abbrev switched_root : Root
switched_root =
    with_command goldm (content (command_text session true (codes "77") now ++ (10 ∷ []))) root

abbrev switched_status : EntryGateStatus
switched_status = available_status session true enabled

switch_reports_example : Switched goldm true root switched_status switched_root
unfolding switch
switch_reports_example =
    switch_reports goldm true (codes " 77") now root switched_root switched_status now-IsStamp refl

command_binds_session_example :
    (session.profile_fingerprint ≡ session.profile_fingerprint)
    × (session.account_login ≡ session.account_login)
    × (session.session_id ≡ session.session_id)
    × (true ≡ true)
unfolding matching_command_enabled command_text
command_binds_session_example =
    command_binds_session goldm session session true (codes "77") now session-IsSession refl
      now-IsStamp refl
