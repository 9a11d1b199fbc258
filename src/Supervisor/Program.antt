-- ===== src/Supervisor/Program.antt =====
-- Python's statements on the orchestrator's state: a program returns or raises, and leaves a state.
use bot_ea.Base.{String, Option, str_eq, if◌then◌else◌}

-- What raised: the check of a worker's name, or a call of a kind.
pub data Cause : Type 0 where
  unknown_worker log_file spawning stopping sending auditing saving overflow : Cause

pub data Result (S A : Type 0) : Type 0 where
  done : A → S → Result S A
  threw : Cause → S → Result S A

abbrev pub Program : Type 0 → Type 0 → Type 0
Program S A = S → Result S A

infixl 5 ◌>>=◌ ◌>>◌
abbrev pub ◌>>=◌ : {S A B : Type 0} → Program S A → (A → Program S B) → Program S B
◌>>=◌ m f s = elim (m s) [ done a s' ↦ f a s' | threw c s' ↦ threw c s' ]

abbrev pub ◌>>◌ : {S A B : Type 0} → Program S A → Program S B → Program S B
m >> n = m >>= λ _. n

-- The state in which a program ends, returned or not.
abbrev pub final : {S A : Type 0} → Result S A → S
final (done _ s) = s
final (threw _ s) = s

-- A dict whose keys are texts.
abbrev pub Dict : Type 0 → Type 0
Dict A = String → Option A

-- `d[key] = value` and `d.pop(key, None)`
unfoldable pub put : {A : Type 0} → String → Option A → Dict A → Dict A
put key value d = λ k. if str_eq k key then value else d k

-- What is asked of a result: `Q` where it returned, `X` where it raised.
abbrev pub Ends : {S A : Type 0} → (A → S → Type 0) → (Cause → S → Type 0) → Result S A → Type 0
Ends Q X (done a s) = Q a s
Ends Q X (threw c s) = X c s

-- A program that leads from `P` to `Q`, and to `X` where it raises.
pub record Leads {S A : Type 0} (P : S → Type 0) (m : Program S A) (Q : A → S → Type 0)
    (X : Cause → S → Type 0) : Type 0 where
  pub run : (s : S) → P s → Ends Q X (m s)

Ends->>= :
    {S A B : Type 0} (Q : A → S → Type 0) (T : B → S → Type 0) (X : Cause → S → Type 0)
    (r : Result S A) (f : A → Program S B)
    → Ends Q X r
    → ((a : A) (s : S) → Q a s → Ends T X (f a s))
    → Ends T X (elim r [ done a s' ↦ f a s' | threw c s' ↦ threw c s' ])
Ends->>= Q T X (done a s) f q rest = rest a s q
Ends->>= Q T X (threw c s) f x rest = x

-- What follows a program begins with what the program leads to.
pub Leads->>= :
    {S A B : Type 0} {P : S → Type 0} {Q : A → S → Type 0} {T : B → S → Type 0}
    {X : Cause → S → Type 0} {m : Program S A} {f : A → Program S B}
    → Leads P m Q X
    → ((a : A) → Leads (Q a) (f a) T X)
    → Leads P (m >>= f) T X
Leads->>= {Q = Q} {T = T} {X = X} {m = m} first rest = record {
  run = λ s p. Ends->>= Q T X (m s) _ (first.run s p) (λ a s' q. (rest a).run s' q);
}
