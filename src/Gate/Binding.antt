-- ===== src/Gate/Binding.antt =====
-- The session that a command file opens an entry gate for.
use bot_ea.Base.{
  ℕ, ◌≡◌, refl, sym, ap, ◌∙◌, Bool, true, false, ◌&&◌, [], ◌∷◌, ◌++◌, if◌then◌else◌, arith,
}
use bot_ea.Base.Text.{Text, codes}
use bot_ea.Base.Split.{same_text, same_text→eq}
use bot_ea.Base.Decimal.{all_digits, decimal, value_from, value_from-decimal}
use bot_ea.Gate.Files.{
  content, Profile, name_of, EntrySession, matches, matching_command_enabled, command_text,
}
use bot_ea.Gate.Authority.{IsSession, IsStamp, command_parts, split-command_text}

and_last_four :
    (a b c d e : Bool)
    → a && b && c && d && e ≡ true
    → (b ≡ true) × (c ≡ true) × (d ≡ true) × (e ≡ true)
and_last_four a b c d e h = ground arith

matches-command_fields :
    (s' s : EntrySession) (on : Bool) (actor now : Text)
    → matches s' (command_parts s on actor now) ≡ true
    → (same_text s.profile_fingerprint s'.profile_fingerprint ≡ true)
      × (same_text (decimal s.account_login) (decimal s'.account_login) ≡ true)
      × (same_text s.session_id s'.session_id ≡ true)
      × (same_text (if on then codes "ENABLED" else codes "DISABLED") (codes "ENABLED") ≡ true)
unfolding matches
matches-command_fields s' s on actor now h =
    and_last_four (same_text (name_of s.profile_id) (name_of s'.profile_id))
      (same_text s.profile_fingerprint s'.profile_fingerprint)
      (same_text (decimal s.account_login) (decimal s'.account_login))
      (same_text s.session_id s'.session_id)
      (same_text (if on then codes "ENABLED" else codes "DISABLED") (codes "ENABLED")) h

decimal_injective : (m n : ℕ) → decimal m ≡ decimal n → m ≡ n
decimal_injective m n h = sym (value_from-decimal m) ∙ ap (value_from 0) h ∙ value_from-decimal n

is_on :
    (on : Bool)
    → same_text (if on then codes "ENABLED" else codes "DISABLED") (codes "ENABLED") ≡ true
    → on ≡ true
is_on true h = refl
is_on false h = cc

-- A command that a session has written enables only a session of the same account login,
-- fingerprint and session id, and only if it was a command to enable: a restarted EA, whose session
-- id is new, finds its gate closed. The actor is a text of digits, the clock's text is free of `|`
-- and does not end in white space, and the first session is one that its file can hold, so that
-- neither its id nor its fingerprint has a `|`.
pub command_binds_session :
    (p : Profile) (s s' : EntrySession) (on : Bool) (actor now : Text)
    → IsSession p s
    → all_digits actor ≡ true
    → IsStamp now
    → matching_command_enabled s' (content (command_text s on actor now ++ (10 ∷ []))) ≡ true
    → (s'.profile_fingerprint ≡ s.profile_fingerprint)
      × (s'.account_login ≡ s.account_login)
      × (s'.session_id ≡ s.session_id)
      × (on ≡ true)
unfolding matching_command_enabled
command_binds_session p s s' on actor now i d t h =
    let accepted : matches s' (command_parts s on actor now) ≡ true =
      sym (ap (matches s') (split-command_text p s on actor now i d t)) ∙ h in
    let same = matches-command_fields s' s on actor now accepted in
    (
      sym (same_text→eq s.profile_fingerprint s'.profile_fingerprint same.0),
      decimal_injective s'.account_login s.account_login
          (sym (same_text→eq (decimal s.account_login) (decimal s'.account_login) same.1)),
      sym (same_text→eq s.session_id s'.session_id same.2),
      is_on on same.3,
    )
