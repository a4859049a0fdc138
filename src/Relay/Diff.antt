-- ===== src/Relay/Diff.antt =====
-- The comparison of the live and the local catalog (src/switchboard-core/cli/src/relay/diff.ts).
-- `before` is the order of `Array.prototype.sort` on texts.
use proof_cli_baran.Prelude.{
  ◌≡◌, refl, ap, inl, inr, Bool, true, false, not, ◌||◌, Option, none, some, List, [], ◌∷◌, ◌++◌,
  map, arith, if◌then◌else◌, Bool-cases, keep, All, All-append, sort, All-mono, All-keep,
}
use proof_cli_baran.Prelude.Sorting.{All-sort}
use Prim.Native.String.{String}
use text.Mathlib.Text.{◌==◌ as str_eq}
use text.Mathlib.TextEquality.{eq_iff}
use proof_cli_baran.Store.Dict.{Dict, lookup, insert}

pub data RelayChange : Type 0 where
  add remove state_change url_change unchanged : RelayChange

pub record RelayDiffEntry : Type 0 where
  pub relay_id : String
  pub change : RelayChange
  pub live_state : Option String
  pub local_state : Option String
  pub live_api_base_url : Option String
  pub local_api_base_url : Option String

-- A relay of either catalog. An absent `active` is not false.
pub record CatalogMember : Type 0 where
  pub relay_id : String
  pub api_base_url : String
  pub state : Option String
  pub active : Bool

unfoldable pub state_of : CatalogMember → String
state_of e = elim e.state [ none ↦ (if e.active then "active" else "disabled") | some s ↦ s ]

-- `new Map(members.map(m => [m.relayId, m]))`: of two members with one id the later stands.
unfoldable pub by_id : List CatalogMember → Dict CatalogMember → Dict CatalogMember
by_id [] d = d
by_id (e ∷ es) d = by_id es (insert e.relay_id e d)

abbrev pub keys : Dict CatalogMember → List String
keys [] = []
keys ((k, v) ∷ d) = k ∷ keys d

abbrev pub is_found : Option CatalogMember → Bool
is_found none = false
is_found (some e) = true

abbrev pub has : Dict CatalogMember → String → Bool
has d k = is_found (lookup k d)

unfoldable pub both_entry : String → CatalogMember → CatalogMember → RelayDiffEntry
both_entry id live here =
    let state_changed = not (str_eq (state_of live) (state_of here)) in
    let url_changed = not (str_eq live.api_base_url here.api_base_url) in
    record {
      relay_id = id;
      change =
          if state_changed then state_change else if url_changed then url_change else unchanged;
      live_state = some (state_of live);
      local_state = some (state_of here);
      live_api_base_url = some live.api_base_url;
      local_api_base_url = some here.api_base_url;
    }

-- The entry of one id, if it is in a catalog.
unfoldable pub diff_entry :
    String → Option CatalogMember → Option CatalogMember → Option RelayDiffEntry
unfolding both_entry
diff_entry id none none = none
diff_entry id (some live) none = some (record {
  relay_id = id;
  change = remove;
  live_state = some (state_of live);
  local_state = none;
  live_api_base_url = some live.api_base_url;
  local_api_base_url = none;
})
diff_entry id none (some here) = some (record {
  relay_id = id;
  change = add;
  live_state = none;
  local_state = some (state_of here);
  live_api_base_url = none;
  local_api_base_url = some here.api_base_url;
})
diff_entry id (some live) (some here) = some (both_entry id live here)

abbrev pub push_entry : Option RelayDiffEntry → List RelayDiffEntry → List RelayDiffEntry
push_entry none es = es
push_entry (some e) es = e ∷ es

unfoldable pub diff_entries :
    Dict CatalogMember → Dict CatalogMember → List String → List RelayDiffEntry
diff_entries live here [] = []
diff_entries live here (id ∷ ids) =
    push_entry (diff_entry id (lookup id live) (lookup id here)) (diff_entries live here ids)

module _ (before : String → String → Bool) where
  unfoldable pub diff_ids : Dict CatalogMember → Dict CatalogMember → List String
  diff_ids live here = sort before (keys live ++ keep (λ k. not (has live k)) (keys here))

  unfoldable pub relay_diff : List CatalogMember → List CatalogMember → List RelayDiffEntry
  unfolding diff_ids diff_entries by_id
  relay_diff live here =
      let l = by_id live [] in let h = by_id here [] in diff_entries l h (diff_ids l h)

-- Only an id that neither catalog has is left out.
abbrev IsListed : Dict CatalogMember → Dict CatalogMember → String → Type 0
IsListed live here id = (has live id || has here id) ≡ true

diff_entry-IsListed :
    (id : String) (live here : Option CatalogMember)
    → (is_found live || is_found here) ≡ true
    → (e : RelayDiffEntry) × (diff_entry id live here ≡ some e) × (e.relay_id ≡ id)
unfolding diff_entry both_entry
diff_entry-IsListed id none none h = absurd (cc h)
diff_entry-IsListed id (some l) none h = (_, refl, refl)
diff_entry-IsListed id none (some e) h = (_, refl, refl)
diff_entry-IsListed id (some l) (some e) h = (_, refl, refl)

diff_entries_ids :
    (live here : Dict CatalogMember) (ids : List String)
    → All (IsListed live here) ids
    → map (λ e. e.relay_id) (diff_entries live here ids) ≡ ids
unfolding diff_entries diff_entry
diff_entries_ids live here [] h = refl
diff_entries_ids live here (id ∷ ids) (l, h) =
    let (e, found, same) = diff_entry-IsListed id (lookup id live) (lookup id here) l in
    rw (found, same) (ap (λ (rest : List String). id ∷ rest) (diff_entries_ids live here ids h))

keys-has : (d : Dict CatalogMember) → All (λ k. has d k ≡ true) (keys d)
unfolding lookup
keys-has [] = tt
keys-has ((k, v) ∷ d) = (
  let own : str_eq k k ≡ true = ground (arith, eq_iff k k) in rw own,
  All-mono (λ j. has d j ≡ true) (λ j. has ((k, v) ∷ d) j ≡ true)
      (λ j h. elim (Bool-cases (str_eq k j)) [ inl same ↦ rw same | inr other ↦ rw other h ])
      (keys d) (keys-has d),
)

-- The entries stand in order for the sorted ids of the two catalogs, those of the live one and those
-- of the local one that are not live: no relay is left out and none is invented.
pub relay_diff_ids :
    (before : String → String → Bool) (live here : List CatalogMember)
    → map (λ e. e.relay_id) (relay_diff before live here)
      ≡ diff_ids before (by_id live []) (by_id here [])
unfolding relay_diff diff_ids
relay_diff_ids before live here =
    let l : Dict CatalogMember = by_id live [] in
    let h : Dict CatalogMember = by_id here [] in
    let in_live : All (IsListed l h) (keys l) =
      All-mono (λ k. has l k ≡ true) (IsListed l h) (λ k e. ground (arith, e)) (keys l)
        (keys-has l) in
    let in_here : All (IsListed l h) (keys h) =
      All-mono (λ k. has h k ≡ true) (IsListed l h) (λ k e. ground (arith, e)) (keys h)
        (keys-has h) in
    diff_entries_ids l h (diff_ids before l h) (
      All-sort before (IsListed l h) (keys l ++ keep (λ k. not (has l k)) (keys h)) (
        All-append (IsListed l h) (keys l) (keep (λ k. not (has l k)) (keys h)) in_live
          (All-keep (IsListed l h) (λ k. not (has l k)) (keys h) in_here)))
