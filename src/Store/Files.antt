-- ===== src/Store/Files.antt =====
-- `JsonFileReplicatedDocumentStore`: every call reloads the snapshot from the file, makes the call
-- in memory and flushes. The file holds a snapshot, or is not there yet (ENOENT); other errors of the
-- file system and of `JSON.parse` are outside the model.
pub mod WriteBack
pub mod Refines
use proof_cli_baran.Prelude.Sorting.{
  All-sort, sort-All, length-sort, Rising, any-sort, sort-eq-nil, Rising-sort, insert_sorted_comm,
}
use Prim.Native.String.{String}
use proof_cli_baran.Prelude.{
  ℕ, zero, suc, ◌+◌, ◌-◌, ◌*◌, ◌/◌, ◌%◌, ◌^◌, ◌≤◌, ◌<◌, ◌≡◌, refl, sym, ap, ◌∙◌, ◌≢◌, ◌↔◌, ◌⊎◌, inl,
  inr, Bool, true, false, not, ◌&&◌, ◌||◌, Option, none, some, List, [], ◌∷◌, ◌++◌, map, arith, ltb,
  leb, ◌==◌, if◌then◌else◌, ltb→lt, lt→ltb, leb→le, ==_iff, Bool-cases, Option-cases, length,
  get_elem?, take, drop, all, any, keep, find, length-append, keep-append, All, All-append, sort,
  insert_sorted, IsSorted, sort-of_IsSorted, All-mono, All-keep, All-keep_passed, IsSorted-keep,
  IsSorted-append_last, List-cases,
}
use proof_cli_baran.Prelude.Text.{
  Text, codes, text_eq, text_eq_refl, text_eq_iff, is_space, trim, to_lower_case, split, join,
  starts_with, includes, ends_with, mem_text, unique_from, join-split, trim_solid, All-reverse,
}
use proof_cli_baran.Prelude.Number.{
  ℤ, pos, negsuc, pos_part, neg_part, sub_ℕ, ◌-ℤ◌, ◌+ℤ◌, ◌≤ℤ◌, leb_ℤ, ltb_ℤ, Number, nan, infinity,
  minus_infinity, finite, integer, whole, is_finite, is_integer, is_le_zero, is_lt_zero, floor,
  floor_ℕ, positive_integer, positive_integer-pos,
}
use proof_cli_baran.Store.Types.{Document, Change, Lease, StoreSnapshot, Result, ok, err}
use proof_cli_baran.Store.Documents.{empty, get, list, changes_since, put, delete}
use proof_cli_baran.Store.Leases.{acquire_lease, release_lease}
use proof_cli_baran.Store.Trace.{Call, put_call, delete_call, acquire_call, release_call}

pub record FileStore {ℓ} (T : Type ℓ) : Type ℓ where
  pub memory : StoreSnapshot T
  pub file : Option (StoreSnapshot T)

module _ {ℓ} {T : Type ℓ} where
  unfoldable pub contents : Option (StoreSnapshot T) → StoreSnapshot T
  unfolding empty
  contents none = empty
  contents (some s) = s

  unfoldable pub reload : FileStore T → FileStore T
  unfolding contents
  reload f = record f { memory = contents f.file }

  unfoldable pub flush : FileStore T → FileStore T
  flush f = record f { file = some f.memory }

  -- What follows `super.put` and its like: the flush is skipped when the call throws.
  unfoldable pub write_back {κ} :
      {A : Type κ} → Result A × StoreSnapshot T → FileStore T → Result A × FileStore T
  unfolding flush
  write_back (ok a, s) f = (ok a, flush (record f { memory = s }))
  write_back (err e, s) f = (err e, record f { memory = s })

  unfoldable pub write_back_if : Bool × StoreSnapshot T → FileStore T → Bool × FileStore T
  unfolding flush
  write_back_if (true, s) f = (true, flush (record f { memory = s }))
  write_back_if (false, s) f = (false, record f { memory = s })

  unfoldable pub file_get : String → FileStore T → Option (Document T) × FileStore T
  unfolding reload
  file_get id f = (get id (reload f).memory, reload f)

  unfoldable pub file_list :
      (String → String → Bool) → FileStore T → List (Document T) × FileStore T
  unfolding reload
  file_list locale_le f = (list locale_le (reload f).memory, reload f)

  unfoldable pub file_changes_since : ℕ → FileStore T → List (Change T) × FileStore T
  unfolding reload
  file_changes_since sequence f = (changes_since sequence (reload f).memory, reload f)

  unfoldable pub file_acquire_lease :
      String → String → Number → ℕ → String → FileStore T → Result (Option Lease) × FileStore T
  unfolding reload write_back
  file_acquire_lease name owner ttl now token f =
      write_back (acquire_lease name owner ttl now token (reload f).memory) (reload f)

  unfoldable pub file_release_lease : String → String → FileStore T → Bool × FileStore T
  unfolding reload write_back_if
  file_release_lease name token f =
      write_back_if (release_lease name token (reload f).memory) (reload f)

module _ {ℓ} {T : Type ℓ} (digest : ℕ → T → Text) where
  unfoldable pub file_put :
      String → T → Option Text → ℕ → FileStore T → Result (Document T) × FileStore T
  unfolding reload write_back
  file_put id value expected now f =
      write_back (put digest id value expected now (reload f).memory) (reload f)

  unfoldable pub file_delete :
      String → Option Text → ℕ → FileStore T → Result (Document T) × FileStore T
  unfolding reload write_back
  file_delete id expected now f =
      write_back (delete digest id expected now (reload f).memory) (reload f)

  unfoldable pub file_run : Call T → FileStore T → FileStore T
  file_run (put_call id value expected now) f = (file_put id value expected now f).1
  file_run (delete_call id expected now) f = (file_delete id expected now f).1
  file_run (acquire_call name owner ttl now token) f =
      (file_acquire_lease name owner ttl now token f).1
  file_run (release_call name token) f = (file_release_lease name token f).1
