-- ===== src/Store/Documents.antt =====
-- `MemoryReplicatedDocumentStore`: get, list, put, delete and changesSince, each with the state
-- that it leaves. `now` is the clock's reading in milliseconds.
use Prim.Native.String.{String}
use proof_cli_baran.Prelude.{
  ℕ, ◌+◌, Bool, true, false, not, Option, none, some, List, [], ◌∷◌, ◌++◌, ltb, leb, if◌then◌else◌,
  keep, sort,
}
use proof_cli_baran.Prelude.Text.{Text}
use proof_cli_baran.Store.Dict.{lookup, insert, values}
use proof_cli_baran.Store.Types.{
  Document, Change, StoreSnapshot, revision_conflict, Result, ok, err,
}
use proof_cli_baran.Store.Revision.{next_revision, rev_of, assert_expected_revision}

module _ {ℓ} {T : Type ℓ} where
  unfoldable pub empty : StoreSnapshot T
  empty = record { sequence = 0; documents = []; changes = []; leases = [] }

  unfoldable pub change_from_document : Document T → Change T
  change_from_document d = record {
    sequence = d.sequence;
    id = d.id;
    rev = d.rev;
    updated_at = d.updated_at;
    deleted = d.deleted;
    value = if d.deleted then none else some d.value;
  }

  unfoldable pub get : String → StoreSnapshot T → Option (Document T)
  get id s = elim (lookup id s.documents) [
    | none ↦ none
    | some document ↦ if document.deleted then none else some document
  ]

  -- `locale_le` is the order of `localeCompare`.
  unfoldable pub list : (String → String → Bool) → StoreSnapshot T → List (Document T)
  list locale_le s =
      sort (λ left right. locale_le left.id right.id)
        (keep (λ document. not document.deleted) (values s.documents))

  abbrev pub by_sequence : Change T → Change T → Bool
  by_sequence left right = leb left.sequence right.sequence

  unfoldable pub changes_since : ℕ → StoreSnapshot T → List (Change T)
  changes_since sequence s = sort by_sequence (keep (λ c. ltb sequence c.sequence) s.changes)

  -- The two writes and the push that end `put` and `delete`.
  unfoldable pub commit : String → Document T → StoreSnapshot T → StoreSnapshot T
  unfolding change_from_document
  commit id document s = record s {
    sequence = document.sequence;
    documents = insert id document s.documents;
    changes = s.changes ++ change_from_document document ∷ [];
  }

module _ {ℓ} {T : Type ℓ} (digest : ℕ → T → Text) where
  unfoldable pub new_document : String → T → ℕ → StoreSnapshot T → Document T
  new_document id value now s = record {
    id = id;
    rev = next_revision digest (rev_of (lookup id s.documents)) (s.sequence + 1) value;
    sequence = s.sequence + 1;
    updated_at = now;
    value = value;
    deleted = false;
  }

  unfoldable pub put :
      String → T → Option Text → ℕ → StoreSnapshot T → Result (Document T) × StoreSnapshot T
  unfolding new_document
  put id value expected now s =
      elim (assert_expected_revision id (lookup id s.documents) expected) [
        | some e ↦ (err e, s)
        | none ↦ (ok (new_document id value now s), commit id (new_document id value now s) s)
      ]

  unfoldable pub tombstone : Document T → ℕ → StoreSnapshot T → Document T
  tombstone existing now s = record existing {
    rev = next_revision digest (some existing.rev) (s.sequence + 1) existing.value;
    sequence = s.sequence + 1;
    updated_at = now;
    deleted = true;
  }

  remove_existing :
      String
      → Option (Document T)
      → Option Text
      → ℕ
      → StoreSnapshot T
      → Result (Document T) × StoreSnapshot T
  remove_existing id none expected now s = (err (revision_conflict id expected none), s)
  remove_existing id (some existing) expected now s =
      (ok (tombstone existing now s), commit id (tombstone existing now s) s)

  unfoldable pub delete :
      String → Option Text → ℕ → StoreSnapshot T → Result (Document T) × StoreSnapshot T
  unfolding remove_existing tombstone
  delete id expected now s = elim (assert_expected_revision id (lookup id s.documents) expected) [
    | some e ↦ (err e, s)
    | none ↦ remove_existing id (lookup id s.documents) expected now s
  ]
