-- ===== src/Gate/Switch.antt =====
-- What a switch of an entry gate does, and which session it opens the gate for.
use bot_ea.Base.{
  ◌≡◌, refl, sym, ap, ◌∙◌, Bool, true, false, Option, none, some, [], ◌∷◌, ◌++◌, arith, Bool-cases,
  Option-cases, inl, inr, ◌⊎◌,
}
use bot_ea.Base.Text.{Text, strip}
use bot_ea.Base.Decimal.{all_digits}
use bot_ea.Gate.Files.{
  File, content, ProfileFiles, Profile, goldi, goldm, Root, files_of, with_command, EntrySession,
  GateError, authority_disabled, bad_actor, Checked, fine, error, read_session,
  matching_command_enabled, EntryGateStatus, status_of, is_actor, command_text, switch, set_enabled,
  profile_of, unsupported_profile, switch_with, status_with,
}
use bot_ea.Gate.Authority.{IsStamp, read_session-IsSession, matching-command_text}

abbrev pub other : Profile → Profile
other goldi = goldm
other goldm = goldi

session_file-with_command :
    (p : Profile) (f : File) (r : Root)
    → (files_of p (with_command p f r)).session_file ≡ (files_of p r).session_file
session_file-with_command goldi f r = refl
session_file-with_command goldm f r = refl

command_file-with_command :
    (p : Profile) (f : File) (r : Root) → (files_of p (with_command p f r)).command_file ≡ f
command_file-with_command goldi f r = refl
command_file-with_command goldm f r = refl

other-with_command :
    (p : Profile) (f : File) (r : Root)
    → files_of (other p) (with_command p f r) ≡ files_of (other p) r
other-with_command goldi f r = refl
other-with_command goldm f r = refl

-- The status of a profile whose session has order authority follows its command.
status_with-session :
    (p : Profile) (command : File) (s : EntrySession)
    → s.authority_enabled ≡ true
    → (status_with p command (fine (some s))).is_enabled ≡ matching_command_enabled s command
unfolding status_with
status_with-session p command s a = rw a refl

status_of-session :
    (p : Profile) (fs : ProfileFiles) (s : EntrySession)
    → read_session p fs.session_file ≡ fine (some s)
    → s.authority_enabled ≡ true
    → (status_of p fs).is_enabled ≡ matching_command_enabled s fs.command_file
unfolding status_of
status_of-session p fs s h a =
    ap (λ r. (status_with p fs.command_file r).is_enabled) h
    ∙ status_with-session p fs.command_file s a

is_actor-digits : (a : Text) → is_actor a ≡ true → all_digits a ≡ true
is_actor-digits a h = ground arith

switched :
    (p : Profile) (on : Bool) (actor now : Text) (root : Root) (s : EntrySession)
    → IsStamp now
    → read_session p (files_of p root).session_file ≡ fine (some s)
    → s.authority_enabled ≡ true
    → is_actor (strip actor) ≡ true
    → let f = content (command_text s on (strip actor) now ++ (10 ∷ [])) in
      (status_of p (files_of p (with_command p f root))).is_enabled ≡ on
switched p on actor now root s t h a d =
    let f = content (command_text s on (strip actor) now ++ (10 ∷ [])) in
    let root' = with_command p f root in
    status_of-session p (files_of p root') s
      ((ap (read_session p) (session_file-with_command p f root)) ∙ h) a
    ∙ ap (matching_command_enabled s) (command_file-with_command p f root)
    ∙ matching-command_text p s on (strip actor) now
        (read_session-IsSession p (files_of p root).session_file s h)
        (is_actor-digits (strip actor) d) t

-- What a switch that returns `st` and leaves `root'` has done.
abbrev pub Switched : Profile → Bool → Root → EntryGateStatus → Root → Type 0
Switched p on root st root' =
    (st.is_enabled ≡ on)
    × (status_of p (files_of p root') ≡ st)
    × ((files_of p root').session_file ≡ (files_of p root).session_file)
    × (files_of (other p) root' ≡ files_of (other p) root)

Switched-command :
    (p : Profile) (on : Bool) (actor now : Text) (root : Root) (s : EntrySession)
    → IsStamp now
    → read_session p (files_of p root).session_file ≡ fine (some s)
    → s.authority_enabled ≡ true
    → is_actor (strip actor) ≡ true
    → let f = content (command_text s on (strip actor) now ++ (10 ∷ [])) in
      let root' = with_command p f root in Switched p on root (status_of p (files_of p root')) root'
Switched-command p on actor now root s t r a d =
    let f = content (command_text s on (strip actor) now ++ (10 ∷ [])) in
    (
      switched p on actor now root s t r a d,
      refl,
      session_file-with_command p f root,
      other-with_command p f root,
    )

abbrev returned : EntryGateStatus → Root → Checked EntryGateStatus × Root
returned st root = (fine st, root)

Switched-result :
    (p : Profile) (on : Bool) (root : Root) (st st' : EntryGateStatus) (root' root'' : Root)
    → returned st root' ≡ (fine st', root'')
    → Switched p on root st root'
    → Switched p on root st' root''
Switched-result p on root st st' root' root'' h k =
    let same_status : st ≡ st' = cc in
    let same_root : root' ≡ root'' = ap (λ x. x.1) h in rw (sym same_status, sym same_root) k

switch_with-result :
    (p : Profile) (on : Bool) (actor now : Text) (root : Root) (s : EntrySession)
    → let after =
        with_command p (content (command_text s on (strip actor) now ++ (10 ∷ []))) root in
      ((why : GateError) × (switch_with p on actor now root (fine (some s)) ≡ (error why, root)))
      ⊎ ((s.authority_enabled ≡ true)
          × (is_actor (strip actor) ≡ true)
          × (switch_with p on actor now root (fine (some s))
              ≡ returned (status_of p (files_of p after)) after))
unfolding switch_with
switch_with-result p on actor now root s = elim (Bool-cases s.authority_enabled) [
  | inr a ↦ inl (authority_disabled, rw a refl)
  | inl a ↦ elim (Bool-cases (is_actor (strip actor))) [
    | inr d ↦ inl (bad_actor, rw (a, d) refl)
    | inl d ↦ inr (a, d, rw (a, d) refl)
  ]
]

switch_with-Switched :
    (p : Profile) (on : Bool) (actor now : Text) (root : Root) (r : Checked (Option EntrySession))
    → IsStamp now
    → read_session p (files_of p root).session_file ≡ r
    → (st : EntryGateStatus) (root' : Root) → switch_with p on actor now root r ≡ (fine st, root')
    → Switched p on root st root'
unfolding switch_with
switch_with-Switched p on actor now root (error e) t r st root' h = cc
switch_with-Switched p on actor now root (fine none) t r st root' h = cc
switch_with-Switched p on actor now root (fine (some s)) t r st root' h =
    let after = with_command p (content (command_text s on (strip actor) now ++ (10 ∷ []))) root in
    elim (switch_with-result p on actor now root s) [
      | inl (why, refused) ↦ absurd cc
      | inr (a, d, done) ↦
          Switched-result p on root (status_of p (files_of p after)) st after root' (sym done ∙ h)
            (Switched-command p on actor now root s t r a d)
    ]

-- A switch that returns a status reports the requested state, which a later reading of the files
-- reports again, and it has left the session file and both files of the other profile as they were.
-- The clock's text is free of `|` and does not end in white space.
pub switch_reports :
    (p : Profile) (on : Bool) (actor now : Text) (root root' : Root) (st : EntryGateStatus)
    → IsStamp now
    → switch p on actor now root ≡ (fine st, root')
    → Switched p on root st root'
unfolding switch
switch_reports p on actor now root root' st t h =
    switch_with-Switched p on actor now root (read_session p (files_of p root).session_file) t refl
      st root' h

switch_with-error :
    (p : Profile) (on : Bool) (actor now : Text) (root : Root) (r : Checked (Option EntrySession))
    (why : GateError) (root' : Root)
    → switch_with p on actor now root r ≡ (error why, root')
    → root' ≡ root
unfolding switch_with
switch_with-error p on actor now root (error e) why root' h = sym (ap (λ x. x.1) h)
switch_with-error p on actor now root (fine none) why root' h = sym (ap (λ x. x.1) h)
switch_with-error p on actor now root (fine (some s)) why root' h =
    elim (switch_with-result p on actor now root s) [
      | inl (_, refused) ↦ sym (ap (λ x. x.1) (sym refused ∙ h))
      | inr (a, d, done) ↦ absurd cc
    ]

set_enabled-cases :
    (profile_id : Text) (on : Bool) (actor now : Text) (root : Root)
    → (set_enabled profile_id on actor now root ≡ (error unsupported_profile, root))
      ⊎ ((p : Profile) × (set_enabled profile_id on actor now root ≡ switch p on actor now root))
unfolding set_enabled
set_enabled-cases profile_id on actor now root = elim (Option-cases (profile_of profile_id)) [
  | inl n ↦ inl (rw (n, set_enabled) refl)
  | inr (p, e) ↦ inr (p, rw (e, set_enabled) refl)
]

-- A call of `set_enabled` that raises, for whatever reason, has changed no file.
set_enabled-error :
    (profile_id : Text) (on : Bool) (actor now : Text) (root root' : Root) (why : GateError)
    → set_enabled profile_id on actor now root ≡ (error why, root')
    → root' ≡ root
unfolding switch
set_enabled-error profile_id on actor now root root' why h =
    elim (set_enabled-cases profile_id on actor now root) [
      | inl e ↦ sym (ap (λ x. x.1) (sym e ∙ h))
      | inr (p, e) ↦
          switch_with-error p on actor now root (read_session p (files_of p root).session_file) why
            root' (sym e ∙ h)
    ]

status_with-enabled :
    (p : Profile) (command : File) (r : Checked (Option EntrySession))
    → (status_with p command r).is_enabled ≡ true
    → (s : EntrySession) × (r ≡ fine (some s))
      × (s.authority_enabled ≡ true)
      × (matching_command_enabled s command ≡ true)
unfolding status_with
status_with-enabled p command (error e) h = absurd cc
status_with-enabled p command (fine none) h = absurd cc
status_with-enabled p command (fine (some s)) h = elim (Bool-cases s.authority_enabled) [
  | inl a ↦ (s, refl, a, sym (status_with-session p command s a) ∙ h)
  | inr n ↦
      let shut : (status_with p command (fine (some s))).is_enabled ≡ false = rw n refl in
      let clash : true ≡ false = sym h ∙ shut in absurd cc
]

-- A gate is reported enabled only when its session file reads as a session of that profile that has
-- order authority and whose own command is the one in the command file.
enabled_has_authority :
    (p : Profile) (fs : ProfileFiles)
    → (status_of p fs).is_enabled ≡ true
    → (s : EntrySession) × (read_session p fs.session_file ≡ fine (some s))
      × (s.profile_id ≡ p)
      × (s.authority_enabled ≡ true)
      × (matching_command_enabled s fs.command_file ≡ true)
unfolding status_of
enabled_has_authority p fs h =
    let (s, r, a, m) = status_with-enabled p fs.command_file (read_session p fs.session_file) h in
    (s, r, (read_session-IsSession p fs.session_file s r).own, a, m)
