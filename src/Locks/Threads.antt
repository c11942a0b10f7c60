-- ===== src/Locks/Threads.antt =====
-- Threads that take locks, interleaved in any order: a mutex lets a thread in if no thread holds it.
use dtchat.Prelude.{ℕ, suc, ◌+◌, ◌<◌, ◌≡◌, ◌⊎◌, List, [], ◌∷◌, ◌++◌, All, length}
use dtchat.Locks.{Lock, controller, model, nodes, router, queue, Act, acquire, release}

pub record Thread : Type 0 where
  pub held : List Lock
  pub rest : List Act

abbrev pub Holds : Lock → List Lock → Type 0
Holds l [] = ⊥
Holds l (h ∷ hs) = (h ≡ l) ⊎ Holds l hs

-- No thread holds the lock.
abbrev pub IsFree : Lock → List Thread → Type 0
IsFree l ts = All (λ t. ¬ Holds l t.held) ts

-- One thread of `ts` takes a lock that is free, or releases the one that it took last.
pub data Move (ts : List Thread) : Thread → Thread → Type 0 where
  takes :
      (l : Lock) (held : List Lock) (rest : List Act)
      → IsFree l ts
      → Move ts
          (record { held = held; rest = acquire l ∷ rest })
          (record { held = l ∷ held; rest = rest })
  gives :
      (l : Lock) (held : List Lock) (rest : List Act)
      → Move ts
          (record { held = l ∷ held; rest = release l ∷ rest })
          (record { held = held; rest = rest })

pub data Step : List Thread → List Thread → Type 0 where
  moves :
      (before behind : List Thread) (t t' : Thread)
      → Move (before ++ t ∷ behind) t t'
      → Step (before ++ t ∷ behind) (before ++ t' ∷ behind)

pub data Reaches (ts : List Thread) : List Thread → Type 0 where
  start : Reaches ts ts
  next : (us vs : List Thread) → Reaches ts us → Step us vs → Reaches ts vs

abbrev pub steps : {ts us : List Thread} → Reaches ts us → ℕ
steps start = 0
steps (next us vs r step) = suc (steps r)

-- What the threads have left to do.
abbrev pub work : List Thread → ℕ
work [] = 0
work (t ∷ ts) = length t.rest + work ts

-- The order in which locks are taken.
abbrev pub level : Lock → ℕ
level controller = 0
level (model o) = 1
level nodes = 2
level router = 2
level (queue h) = 3

-- The thread takes each lock above those that it holds, releases them in turn, and ends with none.
abbrev pub Nested : List Lock → List Act → Type 0
Nested held [] = held ≡ []
Nested held (acquire l ∷ acts) = All (λ h. level h < level l) held × Nested (l ∷ held) acts
Nested [] (release l ∷ acts) = ⊥
Nested (h ∷ held) (release l ∷ acts) = (h ≡ l) × Nested held acts
