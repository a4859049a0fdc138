-- ===== src/Store/Types.antt =====
-- The records of the store. An ISO time is kept as its milliseconds since the epoch, which
-- `Date.parse` gives back; `cloneJson` copies JSON data, and a copy of a value is that value.
use Prim.Native.String.{String}
use proof_cli_baran.Prelude.{ℕ, Bool, Option, List}
use proof_cli_baran.Prelude.Text.{Text}
use proof_cli_baran.Prelude.Number.{Number}
use proof_cli_baran.Store.Dict.{Dict}

-- `deleted` is true on a tombstone, and false where the source leaves it undefined.
pub record Document {ℓ} (T : Type ℓ) : Type ℓ where
  pub id : String
  pub rev : Text
  pub sequence : ℕ
  pub updated_at : ℕ
  pub value : T
  pub deleted : Bool

pub record Change {ℓ} (T : Type ℓ) : Type ℓ where
  pub sequence : ℕ
  pub id : String
  pub rev : Text
  pub updated_at : ℕ
  pub deleted : Bool
  pub value : Option T

pub record Lease : Type 0 where
  pub name : String
  pub owner_id : String
  pub token : String
  pub acquired_at : ℕ
  pub expires_at : ℕ

pub record StoreSnapshot {ℓ} (T : Type ℓ) : Type ℓ where
  pub sequence : ℕ
  pub documents : Dict (Document T)
  pub changes : List (Change T)
  pub leases : Dict Lease

-- What the operations throw. `range_error` is that of `toISOString` on a date out of range.
pub data Error : Type 0 where
  revision_conflict : String → Option Text → Option Text → Error
  invalid_lease_ttl : Number → Error
  range_error : Error

pub data Result {ℓ} (A : Type ℓ) : Type ℓ where
  ok : A → Result A
  err : Error → Result A
