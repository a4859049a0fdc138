-- ===== src/Wallet/Steal.antt =====
-- Stealing a stale lock is not exclusive: whoever judged the old lock stale removes whatever file is
-- there when its turn comes, also a lock that another waiter has just created.
use proof_cli_baran.Prelude.{ℕ, ◌≡◌, refl, ◌≢◌, false, none, some, arith, ◌==◌}
use proof_cli_baran.Wallet.Lock.{
  opening, judging, stealing, holding, LockState, set_phase, create, exists, judge_stale, steal,
  Reach, here, next,
}

both_hold :
    (stale : ℕ → Type 0) (s : LockState) (p q : ℕ)
    → s.phase p ≡ stealing
    → s.phase q ≡ stealing
    → (q == p) ≡ false
    → (t : LockState) × Reach stale s t × (t.phase p ≡ holding) × (t.phase q ≡ holding)
both_hold stale s p q hp hq ne =
    let s1 : LockState = record s { file = none; phase = set_phase p opening s.phase } in
    let s2 : LockState = record s1 { file = some p; phase = set_phase p holding s1.phase } in
    let s3 : LockState = record s2 { file = none; phase = set_phase q opening s2.phase } in
    let s4 : LockState = record s3 { file = some q; phase = set_phase q holding s3.phase } in
    (
      s4,
      next
          (next
            (next (next here (steal p hp refl))
              (create p (unfold set_phase in ground arith) refl refl))
            (steal q (unfold set_phase in ground arith) refl))
          (create q (unfold set_phase in ground arith) refl refl),
      unfold set_phase in ground arith,
      unfold set_phase in ground arith,
    )

Reach-trans :
    {stale : ℕ → Type 0} {s t u : LockState} → Reach stale s t → Reach stale t u → Reach stale s u
Reach-trans r here = r
Reach-trans r (next r' st) = next (Reach-trans r r') st

-- Two different processes find the file of a stale owner. Then there is an interleaving after which
-- both of them hold the wallet, whatever else is going on.
pub steal_not_exclusive :
    (stale : ℕ → Type 0) (s : LockState) (p q owner : ℕ)
    → s.phase p ≡ opening
    → s.phase q ≡ opening
    → p ≢ q
    → s.file ≡ some owner
    → stale owner
    → (t : LockState) × Reach stale s t × (t.phase p ≡ holding) × (t.phase q ≡ holding)
steal_not_exclusive stale s p q owner hp hq ne found old =
    let s1 : LockState = record s { phase = set_phase p judging s.phase } in
    let s2 : LockState = record s1 { phase = set_phase q judging s1.phase } in
    let s3 : LockState = record s2 { phase = set_phase p stealing s2.phase } in
    let s4 : LockState = record s3 { phase = set_phase q stealing s3.phase } in
    let seen : Reach stale s s4 =
      next
        (next
          (next (next here (exists p owner hp found refl))
            (exists q owner (unfold set_phase in ground arith) found refl))
          (judge_stale p owner (unfold set_phase in ground arith) found old refl))
        (judge_stale q owner (unfold set_phase in ground arith) found old refl) in
    let (t, r, pp, qq) =
      both_hold stale s4 p q (unfold set_phase in ground arith) (unfold set_phase in ground arith)
        (ground arith) in
    (t, Reach-trans seen r, pp, qq)
