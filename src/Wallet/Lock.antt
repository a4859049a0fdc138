-- ===== src/Wallet/Lock.antt =====
-- The lock file of one wallet, and the processes that want it, as interleaved steps. Each step is one
-- call of the file system, which is atomic; the stat and the reading of the owner are one step. The lock
-- file holds the owner that created it; what makes a lock stale (its age, or a dead owner) is the
-- environment's, so `stale` is a parameter.
use proof_cli_baran.Prelude.{ℕ, ◌≡◌, ◌≢◌, Option, none, some, arith, ◌==◌, if◌then◌else◌}

-- Where a process is in `acquireWalletLock` and in the release that it returns.
pub data Phase : Type 0 where
  opening : Phase
  judging : Phase
  stealing : Phase
  holding : Phase
  released : Phase
  timed_out : Phase

pub record LockState : Type 0 where
  pub file : Option ℕ
  pub phase : ℕ → Phase

unfoldable pub set_phase : ℕ → Phase → (ℕ → Phase) → ℕ → Phase
set_phase p x phase q = if q == p then x else phase q

-- `open(lockPath, "wx")` creates the file, or fails because it exists. Then a stale lock is removed
-- and the open is tried again; a lock that is not stale, or has gone, is waited for, until the time
-- is up. The release removes the file by its path, whoever wrote it, and only once.
pub data Step (stale : ℕ → Type 0) (s : LockState) : LockState → Type 0 where
  create :
      {t : LockState} (p : ℕ)
      → s.phase p ≡ opening
      → s.file ≡ none
      → t ≡ record s { file = some p; phase = set_phase p holding s.phase }
      → Step stale s t
  exists :
      {t : LockState} (p q : ℕ)
      → s.phase p ≡ opening
      → s.file ≡ some q
      → t ≡ record s { phase = set_phase p judging s.phase }
      → Step stale s t
  judge_stale :
      {t : LockState} (p q : ℕ)
      → s.phase p ≡ judging
      → s.file ≡ some q
      → stale q
      → t ≡ record s { phase = set_phase p stealing s.phase }
      → Step stale s t
  wait :
      {t : LockState} (p : ℕ)
      → s.phase p ≡ judging
      → t ≡ record s { phase = set_phase p opening s.phase }
      → Step stale s t
  give_up :
      {t : LockState} (p : ℕ)
      → s.phase p ≡ judging
      → t ≡ record s { phase = set_phase p timed_out s.phase }
      → Step stale s t
  steal :
      {t : LockState} (p : ℕ)
      → s.phase p ≡ stealing
      → t ≡ record s { file = none; phase = set_phase p opening s.phase }
      → Step stale s t
  release :
      {t : LockState} (p : ℕ)
      → s.phase p ≡ holding
      → t ≡ record s { file = none; phase = set_phase p released s.phase }
      → Step stale s t

pub data Reach (stale : ℕ → Type 0) (s : LockState) : LockState → Type 0 where
  here : Reach stale s s
  next : {t u : LockState} → Reach stale s t → Step stale t u → Reach stale s u

-- The lock file names its holder, and nobody is about to steal.
pub record IsExclusive (s : LockState) : Type 0 where
  pub named : (p : ℕ) → s.phase p ≡ holding → s.file ≡ some p
  pub peaceful : (p : ℕ) → s.phase p ≢ stealing

abbrev pub NeverStale : ℕ → Type 0
NeverStale q = ⊥

Step-IsExclusive : {s t : LockState} → Step NeverStale s t → IsExclusive s → IsExclusive t
unfolding set_phase
Step-IsExclusive {s} (create p at free e) x = rw e (record {
  named = λ q h. ground (arith, x.named q);
  peaceful = λ q h. ground (arith, x.peaceful q);
})
Step-IsExclusive {s} (exists p q at held e) x = rw e (record {
  named = λ r h. ground (arith, x.named r);
  peaceful = λ r h. ground (arith, x.peaceful r);
})
Step-IsExclusive (judge_stale p q at held bad e) x = absurd bad
Step-IsExclusive {s} (wait p at e) x = rw e (record {
  named = λ r h. ground (arith, x.named r);
  peaceful = λ r h. ground (arith, x.peaceful r);
})
Step-IsExclusive {s} (give_up p at e) x = rw e (record {
  named = λ r h. ground (arith, x.named r);
  peaceful = λ r h. ground (arith, x.peaceful r);
})
Step-IsExclusive (steal p at e) x = absurd (x.peaceful p at)
Step-IsExclusive {s} (release p at e) x = rw e (record {
  named = λ r h. ground (arith, x.named r, x.named p);
  peaceful = λ r h. ground (arith, x.peaceful r);
})

pub Reach-IsExclusive : {s t : LockState} → IsExclusive s → Reach NeverStale s t → IsExclusive t
Reach-IsExclusive x here = x
Reach-IsExclusive x (next r st) = Step-IsExclusive st (Reach-IsExclusive x r)

-- As long as no lock is judged stale, in every interleaving of any number of processes that starts
-- with the file naming the holder, two processes that hold the wallet are one and the same.
pub holders_agree :
    (s t : LockState) (p q : ℕ)
    → IsExclusive s
    → Reach NeverStale s t
    → t.phase p ≡ holding
    → t.phase q ≡ holding
    → p ≡ q
holders_agree s t p q x r hp hq = let y = Reach-IsExclusive x r in cc (y.named p hp, y.named q hq)
