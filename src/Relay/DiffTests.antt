-- ===== src/Relay/DiffTests.antt =====
-- Tests of the comparison of catalogs, and its property at concrete inputs.
use proof_cli_baran.Prelude.{
  ◌≡◌, refl, Bool, true, false, ◌||◌, none, some, List, [], ◌∷◌, map, if◌then◌else◌, sort,
}
use proof_cli_baran.Prelude.{
  ◌≡◌, refl, Bool, true, false, ◌||◌, none, some, List, [], ◌∷◌, map, if◌then◌else◌, sort,
}
use Prim.Native.String.{String}
use proof_cli_baran.Store.Dict.{lookup, insert}
use proof_cli_baran.Relay.Diff.{
  CatalogMember, relay_diff, diff_entry, state_of, add, remove, url_change,
}

abbrev live_catalog : List CatalogMember
live_catalog =
    record { relay_id = "b"; api_base_url = "https://b"; state = none; active = true }
    ∷ record { relay_id = "a"; api_base_url = "https://a"; state = some "draining"; active = true }
    ∷ []

abbrev local_catalog : List CatalogMember
local_catalog =
    record { relay_id = "c"; api_base_url = "https://c"; state = none; active = false }
    ∷ record { relay_id = "b"; api_base_url = "https://b2"; state = none; active = true }
    ∷ []

-- An order in which nothing has to move.
abbrev as_listed : String → String → Bool
as_listed a b = true

-- The first relay has another URL, the second is to be removed and the third added.
relay_diff_changes :
    map (λ e. e.change) (relay_diff as_listed live_catalog local_catalog)
    ≡ url_change ∷ remove ∷ add ∷ []
unfolding relay_diff sort insert lookup diff_entry state_of
relay_diff_changes = refl
