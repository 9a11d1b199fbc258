-- ===== src/Gate/Authority.antt =====
-- What an enabled gate is bound to, and that a switch does what it reports.
use bot_ea.Base.{
  ℕ, ◌≡◌, refl, ap, ◌∙◌, Bool, true, false, Option, none, some, List, [], ◌∷◌, ◌++◌, if◌then◌else◌,
  arith,
}
use bot_ea.Base.Int.{ℤ}
use bot_ea.Base.Text.{Text, codes, strip, is_space}
use bot_ea.Base.Split.{same_text_refl, split, join, has_char, Free, split-join, Free-split}
use bot_ea.Base.Decimal.{all_digits, decimal, all_digits-decimal, has_char_digits, parse_int}
use bot_ea.Base.Strip.{strip_newline, join-append_last}
use bot_ea.Gate.Files.{
  File, absent, broken, content, Profile, goldi, goldm, name_of, EntrySession, fine, with_login,
  session_of, bar_code, read_session, matches, matching_command_enabled, command_text,
}

-- What the reading of a session file guarantees of the session.
pub record IsSession (p : Profile) (s : EntrySession) : Type 0 where
  pub own : s.profile_id ≡ p
  pub plain_id : has_char bar_code s.session_id ≡ false
  pub plain_fingerprint : has_char bar_code s.profile_fingerprint ≡ false

with_login-IsSession :
    (p : Profile) (f : Text) (n : Option ℤ) (i a : Text) (s : EntrySession)
    → has_char bar_code i ≡ false
    → has_char bar_code f ≡ false
    → with_login p f n i a ≡ fine s
    → IsSession p s
with_login-IsSession p f none i a s hi hf h = cc
with_login-IsSession p f (some n) i a s hi hf h = ground arith

session_of-IsSession :
    (p : Profile) (parts : List Text) (s : EntrySession)
    → Free bar_code parts
    → session_of p parts ≡ fine s
    → IsSession p s
unfolding session_of
session_of-IsSession p (v ∷ n ∷ f ∷ l ∷ i ∷ a ∷ []) s free h =
    let login = parse_int l in
    ground (arith, with_login-IsSession p f login i a s free.1.1.1.1.0 free.1.1.0)
session_of-IsSession p _ s free h = cc

pub read_session-IsSession :
    (p : Profile) (f : File) (s : EntrySession) → read_session p f ≡ fine (some s) → IsSession p s
unfolding read_session
read_session-IsSession p absent s h = cc
read_session-IsSession p broken s h = cc
read_session-IsSession p (content t) s h =
    let parts = split bar_code (strip t) in
    ground (arith, session_of-IsSession p parts s (Free-split bar_code (strip t)))

abbrev pub command_rest : EntrySession → Bool → Text → Text → List Text
command_rest s on actor now =
    name_of s.profile_id
    ∷ s.profile_fingerprint
    ∷ decimal s.account_login
    ∷ s.session_id
    ∷ (if on then codes "ENABLED" else codes "DISABLED")
    ∷ actor
    ∷ now
    ∷ []

abbrev pub command_parts : EntrySession → Bool → Text → Text → List Text
command_parts s on actor now = codes "1" ∷ command_rest s on actor now

has_char-decimal : (n : ℕ) → has_char bar_code (decimal n) ≡ false
has_char-decimal n = has_char_digits bar_code (decimal n) refl (all_digits-decimal n)

Free-name : (p : Profile) → has_char bar_code (name_of p) ≡ false
Free-name goldi = refl
Free-name goldm = refl

Free-state :
    (on : Bool) → has_char bar_code (if on then codes "ENABLED" else codes "DISABLED") ≡ false
Free-state true = refl
Free-state false = refl

Free-command_parts :
    (p : Profile) (s : EntrySession) (on : Bool) (actor now : Text)
    → IsSession p s
    → all_digits actor ≡ true
    → has_char bar_code now ≡ false
    → Free bar_code (command_parts s on actor now)
Free-command_parts p s on actor now i ha hn = (
  refl,
  (
    Free-name s.profile_id,
    (
      i.plain_fingerprint,
      (
        has_char-decimal s.account_login,
        (i.plain_id, (Free-state on, (has_char_digits bar_code actor refl ha, (hn, tt)))),
      ),
    ),
  ),
)

strip-command_text :
    (s : EntrySession) (on : Bool) (actor v : Text) (z : ℕ)
    → is_space z ≡ false
    → strip (command_text s on actor (v ++ (z ∷ [])) ++ (10 ∷ []))
      ≡ command_text s on actor (v ++ (z ∷ []))
unfolding is_space command_text
strip-command_text s on actor v z h =
    let first =
      name_of s.profile_id
      ∷ s.profile_fingerprint
      ∷ decimal s.account_login
      ∷ s.session_id
      ∷ (if on then codes "ENABLED" else codes "DISABLED")
      ∷ actor
      ∷ [] in
    strip_newline 49 z (124 ∷ join bar_code (first ++ ((v ++ (z ∷ [])) ∷ [])))
      (49 ∷ 124 ∷ join bar_code (first ++ (v ∷ []))) refl h
      (ap (λ t. 49 ∷ 124 ∷ t) (join-append_last bar_code first v (z ∷ [])))

-- A session accepts the parts of its own command just when they enable.
matches-command_parts :
    (s : EntrySession) (on : Bool) (actor now : Text)
    → matches s (command_parts s on actor now) ≡ on
unfolding matches
matches-command_parts s true actor now =
    rw
      (
        same_text_refl (name_of s.profile_id),
        same_text_refl s.profile_fingerprint,
        same_text_refl (decimal s.account_login),
        same_text_refl s.session_id,
      )
      refl
matches-command_parts s false actor now =
    rw
      (
        same_text_refl (name_of s.profile_id),
        same_text_refl s.profile_fingerprint,
        same_text_refl (decimal s.account_login),
        same_text_refl s.session_id,
      )
      refl

-- A clock's text that can stand last in the command file: it holds no `|` and ends in a character
-- that is no white space.
pub record IsStamp (now : Text) : Type 0 where
  pub plain : has_char bar_code now ≡ false
  pub before : Text
  pub last : ℕ
  pub parts : now ≡ before ++ (last ∷ [])
  pub solid : is_space last ≡ false

strip-now :
    (s : EntrySession) (on : Bool) (actor now : Text)
    → IsStamp now
    → strip (command_text s on actor now ++ (10 ∷ [])) ≡ command_text s on actor now
strip-now s on actor now t = rw t.parts (strip-command_text s on actor t.before t.last t.solid)

-- The file that a session's command writes is read back as the parts of that command.
pub split-command_text :
    (p : Profile) (s : EntrySession) (on : Bool) (actor now : Text)
    → IsSession p s
    → all_digits actor ≡ true
    → IsStamp now
    → split bar_code (strip (command_text s on actor now ++ (10 ∷ [])))
      ≡ command_parts s on actor now
unfolding command_text
split-command_text p s on actor now i ha t =
    let stripped = strip-now s on actor now t in
    let free = Free-command_parts p s on actor now i ha t.plain in
    ap (split bar_code) stripped
    ∙ split-join bar_code (codes "1") (command_rest s on actor now) free

pub matching-command_text :
    (p : Profile) (s : EntrySession) (on : Bool) (actor now : Text)
    → IsSession p s
    → all_digits actor ≡ true
    → IsStamp now
    → matching_command_enabled s (content (command_text s on actor now ++ (10 ∷ []))) ≡ on
unfolding matching_command_enabled
matching-command_text p s on actor now i ha t =
    rw (split-command_text p s on actor now i ha t) (matches-command_parts s on actor now)
