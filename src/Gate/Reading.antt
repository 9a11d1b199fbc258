-- ===== src/Gate/Reading.antt =====
-- The four files of the root directory of gold_orchestrator/entry_gate.py, and how a session and a
-- command are read. Texts are lists of code points.
use bot_ea.Base.{
  ℕ, zero, suc, ◌-◌, Bool, true, false, not, ◌&&◌, ◌||◌, Option, none, some, List, [], ◌∷◌, map,
  leb, ◌==◌, if◌then◌else◌, length,
}
use bot_ea.Base.Int.{ℤ, pos, negsuc}
use bot_ea.Base.Text.{Text, codes, strip, is_nil}
use bot_ea.Base.Split.{same_text, split}
use bot_ea.Base.Decimal.{is_digit, decimal, parse_int}

-- A file that does not exist, one that cannot be read as ASCII text, or a text.
pub data File : Type 0 where
  absent broken : File
  content : Text → File

pub record ProfileFiles : Type 0 where
  pub session_file : File
  pub command_file : File

-- `PROFILES`
pub data Profile : Type 0 where
  goldi goldm : Profile

pub record Root : Type 0 where
  pub goldi_files : ProfileFiles
  pub goldm_files : ProfileFiles

abbrev pub name_of : Profile → Text
name_of goldi = codes "GOLDI"
name_of goldm = codes "GOLDM"

abbrev pub files_of : Profile → Root → ProfileFiles
files_of goldi r = r.goldi_files
files_of goldm r = r.goldm_files

-- `os.replace(temporary, path)` on the command file
abbrev pub with_command : Profile → File → Root → Root
with_command goldi f r = record r { goldi_files = record (r.goldi_files) { command_file = f } }
with_command goldm f r = record r { goldm_files = record (r.goldm_files) { command_file = f } }

-- `str.upper`, as far as it can make one of the two names: `ı` is the only character beyond ASCII
-- with one of their letters as its upper case.
abbrev pub to_upper : ℕ → ℕ
to_upper c = if leb b'a' c && leb c b'z' then c - 32 else if c == 305 then b'I' else c

-- `_profile`; `none` is its ValueError
unfoldable pub profile_of : Text → Option Profile
unfolding strip
profile_of profile_id =
    let name = map to_upper (strip profile_id) in
    if same_text name (codes "GOLDI")
    then some goldi
    else if same_text name (codes "GOLDM")
    then some goldm
    else none

pub record EntrySession : Type 0 where
  pub profile_id : Profile
  pub profile_fingerprint : Text
  pub account_login : ℕ
  pub session_id : Text
  pub authority_enabled : Bool

-- What `_read_session` raises: OSError or UnicodeError, its own ValueErrors, and that of `int`.
pub data GateError : Type 0 where
  unreadable session_invalid fingerprint_invalid login_invalid identity_invalid : GateError
  authority_invalid unsupported_profile session_missing authority_disabled bad_actor : GateError

pub data Checked {ℓ} (A : Type ℓ) : Type ℓ where
  fine : A → Checked A
  error : GateError → Checked A

abbrev pub is_hex : ℕ → Bool
is_hex c = is_digit c || (leb b'a' c && leb c b'f')

abbrev pub all_hex : Text → Bool
all_hex [] = true
all_hex (c ∷ cs) = is_hex c && all_hex cs

-- `login <= 0 or not parts[4]`
abbrev pub login_of : ℤ → Option ℕ
login_of (pos zero) = none
login_of (pos (suc n)) = some (suc n)
login_of (negsuc n) = none

abbrev pub with_authority : Profile → Text → ℕ → Text → Text → Checked EntrySession
with_authority p fingerprint login session_id authority =
    let session : Bool → EntrySession = λ enabled. record {
      profile_id = p;
      profile_fingerprint = fingerprint;
      account_login = login;
      session_id = session_id;
      authority_enabled = enabled;
    } in
    if same_text authority (codes "ENABLED")
    then fine (session true)
    else if same_text authority (codes "DISABLED")
    then fine (session false)
    else error authority_invalid

abbrev pub with_login : Profile → Text → Option ℤ → Text → Text → Checked EntrySession
with_login p fingerprint none session_id authority = error login_invalid
with_login p fingerprint (some n) session_id authority = elim (login_of n) [
  | none ↦ error identity_invalid
  | some login ↦
      if is_nil session_id
      then error identity_invalid
      else with_authority p fingerprint login session_id authority
]

-- The checks of `_read_session` on the parts of the file.
unfoldable pub session_of : Profile → List Text → Checked EntrySession
unfolding parse_int
session_of p (version ∷ profile ∷ fingerprint ∷ login ∷ session_id ∷ authority ∷ []) =
    if not (same_text version (codes "1") && same_text profile (name_of p))
    then error session_invalid
    else if not (length fingerprint == 64 && all_hex fingerprint)
    then error fingerprint_invalid
    else with_login p fingerprint (parse_int login) session_id authority
session_of p _ = error session_invalid

abbrev pub bar_code : ℕ
bar_code = b'|'

-- `_read_session`: no session where there is no file
unfoldable pub read_session : Profile → File → Checked (Option EntrySession)
unfolding session_of split strip
read_session p absent = fine none
read_session p broken = error unreadable
read_session p (content t) = elim (session_of p (split bar_code (strip t))) [
  | fine s ↦ fine (some s)
  | error e ↦ error e
]

-- The test of `_matching_command_enabled` on the parts of the file.
unfoldable pub matches : EntrySession → List Text → Bool
unfolding decimal
matches s (version ∷ profile ∷ fingerprint ∷ login ∷ session_id ∷ state ∷ actor ∷ at ∷ []) =
    same_text version (codes "1")
    && same_text profile (name_of s.profile_id)
    && same_text fingerprint s.profile_fingerprint
    && same_text login (decimal s.account_login)
    && same_text session_id s.session_id
    && same_text state (codes "ENABLED")
matches s _ = false

-- `_matching_command_enabled`
unfoldable pub matching_command_enabled : EntrySession → File → Bool
unfolding matches split strip
matching_command_enabled s absent = false
matching_command_enabled s broken = false
matching_command_enabled s (content t) = matches s (split bar_code (strip t))
