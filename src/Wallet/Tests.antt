-- ===== src/Wallet/Tests.antt =====
-- The properties of the wallet lock at concrete inputs.
use proof_cli_baran.Prelude.{ℕ, ◌≡◌, refl, none, some, arith}
use proof_cli_baran.Wallet.Lock.{
  LockState, Reach, here, next, create, opening, holding, IsExclusive, NeverStale, set_phase,
  holders_agree,
}
use proof_cli_baran.Wallet.Steal.{steal_not_exclusive}

-- Every process tries to open the lock file: where there is none, and where there is one of 9.
abbrev at_start : LockState
at_start = record { file = none; phase = λ p. opening }

abbrev left_behind : LockState
left_behind = record { file = some 9; phase = λ p. opening }

abbrev taken : LockState
taken = record { file = some 3; phase = set_phase 3 holding (λ p. opening) }

at_start-IsExclusive : IsExclusive at_start
at_start-IsExclusive = record { named = λ p h. ground arith; peaceful = λ p h. ground arith }

taken-Reach : Reach NeverStale at_start taken
taken-Reach = next here (create 3 refl refl refl)

taken_holding : taken.phase 3 ≡ holding
unfolding set_phase
taken_holding = refl

abbrev three : ℕ
three = 3

holders_agree_example : three ≡ three
holders_agree_example =
    holders_agree at_start taken three three at_start-IsExclusive taken-Reach taken_holding
      taken_holding

steal_not_exclusive_example :
    (t : LockState) × Reach (λ q. Unit) left_behind t
    × (t.phase 1 ≡ holding)
    × (t.phase 2 ≡ holding)
steal_not_exclusive_example =
    steal_not_exclusive (λ q. Unit) left_behind 1 2 9 refl refl (ground arith) refl tt
