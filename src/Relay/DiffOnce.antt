-- ===== src/Relay/DiffOnce.antt =====
-- That a comparison of catalogs has one entry for each relay (src/switchboard-core/cli/src/relay/diff.ts).
use proof_cli_baran.Prelude.{ℕ, ◌≡◌, Bool, List, if◌then◌else◌, length, any, keep}
use Prim.Native.String.{String}
use text.Mathlib.Text.{◌==◌ as str_eq}
use proof_cli_baran.Store.Dict.{Dict}
use proof_cli_baran.Relay.Diff.{CatalogMember, keys, has}

-- How often an id is listed.
abbrev pub times : String → List String → ℕ
times id ids = length (keep (λ k. str_eq k id) ids)

-- A relay of a catalog.
abbrev pub is_in : String → List CatalogMember → Bool
is_in id members = any (λ m. str_eq m.relay_id id) members

module _ (id : String) where
  -- A table has a key once.
  Once : Dict CatalogMember → Type 0
  Once d = times id (keys d) ≡ (if has d id then 1 else 0)
