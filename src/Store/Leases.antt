-- ===== src/Store/Leases.antt =====
-- `acquireLease` and `releaseLease`. `token` is what `randomBytes(16)` gives, in hexadecimal.
use Prim.Native.String.{String}
use text.Mathlib.Text.{◌==◌ as str_eq}
use proof_cli_baran.Prelude.{
  ℕ, ◌+◌, Bool, true, false, not, ◌&&◌, Option, none, some, ltb, if◌then◌else◌,
}
use proof_cli_baran.Prelude.Number.{Number, positive_integer}
use proof_cli_baran.Store.Dict.{lookup, insert, remove}
use proof_cli_baran.Store.Types.{
  Lease, StoreSnapshot, invalid_lease_ttl, range_error, Result, ok, err,
}

-- The last instant that a `Date` can hold, in milliseconds: `toISOString` throws beyond it.
abbrev pub date_max : ℕ
date_max = 8_640_000_000_000_000

unfoldable pub held_by_other : Option Lease → String → ℕ → Bool
held_by_other none owner now = false
held_by_other (some l) owner now = ltb now l.expires_at && not (str_eq l.owner_id owner)

module _ {ℓ} {T : Type ℓ} where
  unfoldable pub grant :
      String → String → ℕ → ℕ → String → StoreSnapshot T → Result (Option Lease) × StoreSnapshot T
  grant name owner ttl now token s =
      if ltb date_max (now + ttl)
      then (err range_error, s)
      else (let lease : Lease = record {
        name = name;
        owner_id = owner;
        token = token;
        acquired_at = now;
        expires_at = now + ttl;
      } in
          (ok (some lease), record s { leases = insert name lease s.leases }))

  unfoldable pub acquire_lease :
      String
      → String
      → Number
      → ℕ
      → String
      → StoreSnapshot T
      → Result (Option Lease) × StoreSnapshot T
  unfolding held_by_other grant
  acquire_lease name owner ttl now token s = elim (positive_integer ttl) [
    | none ↦ (err (invalid_lease_ttl ttl), s)
    | some ms ↦
        if held_by_other (lookup name s.leases) owner now
        then (ok none, s)
        else grant name owner ms now token s
  ]

  unfoldable pub release_lease : String → String → StoreSnapshot T → Bool × StoreSnapshot T
  release_lease name token s = elim (lookup name s.leases) [
    | none ↦ (false, s)
    | some existing ↦
        if str_eq existing.token token
        then (true, record s { leases = remove name s.leases })
        else (false, s)
  ]
