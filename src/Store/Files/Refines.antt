-- ===== src/Store/Files/Refines.antt =====
-- The file store is the memory store on the contents of the file, whoever calls it: processes that
-- share the file, and make their calls one after another, see one store.
use Prim.Native.String.{String}
use proof_cli_baran.Prelude.{
  ℕ, ◌≡◌, refl, ap, Bool, Option, List, [], ◌∷◌, map, ◌==◌, if◌then◌else◌,
}
use proof_cli_baran.Prelude.Text.{Text}
use proof_cli_baran.Store.Types.{Document, Change, Lease, StoreSnapshot, Result}
use proof_cli_baran.Store.Documents.{put, delete, get, list, changes_since}
use proof_cli_baran.Store.Leases.{acquire_lease, release_lease}
use proof_cli_baran.Store.Trace.{Call, put_call, delete_call, acquire_call, release_call, run}
use proof_cli_baran.Store.Files.{
  FileStore, file_get, file_list, file_changes_since, contents, reload, file_acquire_lease,
  file_release_lease, file_put, file_delete, file_run,
}
use proof_cli_baran.Store.Files.WriteBack.{
  contents-write_back, result-write_back, Atomic-put, Atomic-delete, Atomic-acquire_lease,
  release_lease-false, contents-write_back_if, result-write_back_if,
}

-- What a process asks of a store: a call, or one of the reads.
pub data Request {ℓ} (T : Type ℓ) : Type ℓ where
  call : Call T → Request T
  get_request : String → Request T
  list_request : Request T
  changes_request : ℕ → Request T

-- What a request returns or throws.
pub data Reply {ℓ} (T : Type ℓ) : Type ℓ where
  document : Result (Document T) → Reply T
  lease : Result (Option Lease) → Reply T
  released : Bool → Reply T
  found : Option (Document T) → Reply T
  listed : List (Document T) → Reply T
  changed : List (Change T) → Reply T

module _ {ℓ} {T : Type ℓ} (digest : ℕ → T → Text) (locale_le : String → String → Bool) where
  call_reply : Call T → StoreSnapshot T → Reply T
  call_reply (put_call id value expected now) s = document (put digest id value expected now s).0
  call_reply (delete_call id expected now) s = document (delete digest id expected now s).0
  call_reply (acquire_call name owner ttl now token) s =
      lease (acquire_lease name owner ttl now token s).0
  call_reply (release_call name token) s = released (release_lease name token s).0

  file_call_reply : Call T → FileStore T → Reply T
  file_call_reply (put_call id value expected now) f =
      document (file_put digest id value expected now f).0
  file_call_reply (delete_call id expected now) f =
      document (file_delete digest id expected now f).0
  file_call_reply (acquire_call name owner ttl now token) f =
      lease (file_acquire_lease name owner ttl now token f).0
  file_call_reply (release_call name token) f = released (file_release_lease name token f).0

  unfoldable pub reply : Request T → StoreSnapshot T → Reply T
  unfolding call_reply
  reply (call c) s = call_reply c s
  reply (get_request id) s = found (get id s)
  reply list_request s = listed (list locale_le s)
  reply (changes_request sequence) s = changed (changes_since sequence s)

  unfoldable pub file_reply : Request T → FileStore T → Reply T
  unfolding file_call_reply
  file_reply (call c) f = file_call_reply c f
  file_reply (get_request id) f = found (file_get id f).0
  file_reply list_request f = listed (file_list locale_le f).0
  file_reply (changes_request sequence) f = changed (file_changes_since sequence f).0

  unfoldable pub after : Request T → StoreSnapshot T → StoreSnapshot T
  after (call c) s = run digest c s
  after _ s = s

  unfoldable pub file_after : Request T → FileStore T → FileStore T
  file_after (call c) f = file_run digest c f
  file_after (get_request id) f = (file_get id f).1
  file_after list_request f = (file_list locale_le f).1
  file_after (changes_request sequence) f = (file_changes_since sequence f).1

  contents-file_run :
      (c : Call T) (f : FileStore T)
      → contents (file_run digest c f).file ≡ run digest c (contents f.file)
  unfolding file_run run file_put file_delete file_acquire_lease file_release_lease
  contents-file_run (put_call id value expected now) f =
      contents-write_back f (put digest id value expected now (contents f.file))
        (Atomic-put digest id value expected now (contents f.file))
  contents-file_run (delete_call id expected now) f =
      contents-write_back f (delete digest id expected now (contents f.file))
        (Atomic-delete digest id expected now (contents f.file))
  contents-file_run (acquire_call name owner ttl now token) f =
      contents-write_back f (acquire_lease name owner ttl now token (contents f.file))
        (Atomic-acquire_lease name owner token ttl now (contents f.file))
  contents-file_run (release_call name token) f =
      contents-write_back_if f (release_lease name token (contents f.file))
        (release_lease-false name token (contents f.file))

  contents-file_after :
      (r : Request T) (f : FileStore T) → contents (file_after r f).file ≡ after r (contents f.file)
  unfolding file_after after file_get file_list file_changes_since reload
  contents-file_after (call c) f = contents-file_run c f
  contents-file_after (get_request id) f = refl
  contents-file_after list_request f = refl
  contents-file_after (changes_request sequence) f = refl

  file_call_reply-eq-call_reply :
      (c : Call T) (f : FileStore T) → file_call_reply c f ≡ call_reply c (contents f.file)
  unfolding call_reply file_call_reply file_put file_delete file_acquire_lease file_release_lease
  file_call_reply-eq-call_reply (put_call id value expected now) f =
      ap (λ r. document r)
        (result-write_back (reload f) (put digest id value expected now (contents f.file)))
  file_call_reply-eq-call_reply (delete_call id expected now) f =
      ap (λ r. document r)
        (result-write_back (reload f) (delete digest id expected now (contents f.file)))
  file_call_reply-eq-call_reply (acquire_call name owner ttl now token) f =
      ap (λ r. lease r)
        (result-write_back (reload f) (acquire_lease name owner ttl now token (contents f.file)))
  file_call_reply-eq-call_reply (release_call name token) f =
      ap (λ r. released r)
        (result-write_back_if (reload f) (release_lease name token (contents f.file)))

  file_reply-eq-reply :
      (r : Request T) (f : FileStore T) → file_reply r f ≡ reply r (contents f.file)
  unfolding reply file_reply file_get file_list file_changes_since reload
  file_reply-eq-reply (call c) f = file_call_reply-eq-call_reply c f
  file_reply-eq-reply (get_request id) f = refl
  file_reply-eq-reply list_request f = refl
  file_reply-eq-reply (changes_request sequence) f = refl

  -- Several processes, each with a memory of its own, make requests on one file in turn.
  unfoldable pub run_shared :
      List (ℕ × Request T)
      → (ℕ → StoreSnapshot T)
      → Option (StoreSnapshot T)
      → List (Reply T) × Option (StoreSnapshot T)
  unfolding file_after file_reply
  run_shared [] memories file = ([], file)
  run_shared ((p, r) ∷ rest) memories file =
      let f : FileStore T = record { memory = memories p; file = file } in
      let f' : FileStore T = file_after r f in
      let later = run_shared rest (λ q. if q == p then f'.memory else memories q) f'.file in
      (file_reply r f ∷ later.0, later.1)

  -- The same requests on one store in memory.
  unfoldable pub run_replies : List (Request T) → StoreSnapshot T → List (Reply T) × StoreSnapshot T
  unfolding after reply
  run_replies [] s = ([], s)
  run_replies (r ∷ rs) s = let later = run_replies rs (after r s) in (reply r s ∷ later.0, later.1)

  -- Processes that share a file and whose requests do not overlap get the replies, and leave the
  -- contents, of a single store in memory that starts from the file's contents (an empty store where
  -- there is no file), whatever each process remembers. The requests are the document calls, the calls
  -- on leases, and the reads of a document, of the list and of the changes.
  pub shared_file_refines :
      (schedule : List (ℕ × Request T)) (memories : ℕ → StoreSnapshot T)
      (file : Option (StoreSnapshot T))
      → ((run_shared schedule memories file).0
          ≡ (run_replies (map (λ step. step.1) schedule) (contents file)).0)
        × (contents (run_shared schedule memories file).1
            ≡ (run_replies (map (λ step. step.1) schedule) (contents file)).1)
  unfolding run_shared run_replies
  shared_file_refines [] memories file = (refl, refl)
  shared_file_refines ((p, r) ∷ rest) memories file =
      let f : FileStore T = record { memory = memories p; file = file } in
      let (replies, final) =
        shared_file_refines rest (λ q. if q == p then (file_after r f).memory else memories q)
          (file_after r f).file in
      let here = contents-file_after r f in
      (cc (file_reply-eq-reply r f, replies, here), cc (final, here))
