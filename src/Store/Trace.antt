-- ===== src/Store/Trace.antt =====
-- The store's operations as values, and what a sequence of calls leaves behind.
use Prim.Native.String.{String}
use proof_cli_baran.Prelude.{ℕ, ◌≡◌, ap, inl, inr, Option, some, List, [], ◌∷◌, arith}
use proof_cli_baran.Prelude.Text.{Text}
use proof_cli_baran.Prelude.Number.{Number}
use proof_cli_baran.Store.Dict.{lookup}
use proof_cli_baran.Store.Types.{Document, StoreSnapshot}
use proof_cli_baran.Store.Documents.{put, delete, commit, new_document, tombstone}
use proof_cli_baran.Store.Writes.{put_outcome, delete_outcome}
use proof_cli_baran.Store.Leases.{acquire_lease, release_lease}

-- A call with its arguments: the clock's reading and the random token are arguments too.
pub data Call {ℓ} (T : Type ℓ) : Type ℓ where
  put_call : String → T → Option Text → ℕ → Call T
  delete_call : String → Option Text → ℕ → Call T
  acquire_call : String → String → Number → ℕ → String → Call T
  release_call : String → String → Call T

module _ {ℓ} {T : Type ℓ} (digest : ℕ → T → Text) where
  unfoldable pub run : Call T → StoreSnapshot T → StoreSnapshot T
  run (put_call id value expected now) s = (put digest id value expected now s).1
  run (delete_call id expected now) s = (delete digest id expected now s).1
  run (acquire_call name owner ttl now token) s = (acquire_lease name owner ttl now token s).1
  run (release_call name token) s = (release_lease name token s).1

  unfoldable pub run_all : List (Call T) → StoreSnapshot T → StoreSnapshot T
  unfolding run
  run_all [] s = s
  run_all (c ∷ cs) s = run_all cs (run c s)

-- How a call changes what is stored: not at all, by a commit of a document that carries the next
-- sequence number and the next revision of what the id held, or in the leases alone.
pub data Effect {ℓ} {T : Type ℓ} (digest : ℕ → T → Text) (s : StoreSnapshot T)
    : StoreSnapshot T → Type ℓ where
  unchanged : {t : StoreSnapshot T} → t ≡ s → Effect digest s t
  created :
      {t : StoreSnapshot T} (id : String) (value : T) (now : ℕ)
      → t ≡ commit id (new_document digest id value now s) s
      → Effect digest s t
  buried :
      {t : StoreSnapshot T} (id : String) (d : Document T) (now : ℕ)
      → lookup id s.documents ≡ some d
      → t ≡ commit id (tombstone digest d now s) s
      → Effect digest s t
  leases_only :
      {t : StoreSnapshot T}
      → t.documents ≡ s.documents
      → t.changes ≡ s.changes
      → t.sequence ≡ s.sequence
      → Effect digest s t

module _ {ℓ} {T : Type ℓ} (digest : ℕ → T → Text) where
  pub run-Effect : (c : Call T) (s : StoreSnapshot T) → Effect digest s (run digest c s)
  unfolding run
  run-Effect (put_call id value expected now) s =
      elim (put_outcome digest id value expected now s id) [
        | inl (_, accepted, _) ↦ created id value now (ap (λ r. r.1) accepted)
        | inr (_, refused) ↦ unchanged (ap (λ r. r.1) refused.unchanged)
      ]
  run-Effect (delete_call id expected now) s = elim (delete_outcome digest id expected now s id) [
    | inl (d, found, _, accepted, _) ↦ buried id d now found (ap (λ r. r.1) accepted)
    | inr (_, refused) ↦ unchanged (ap (λ r. r.1) refused.unchanged)
  ]
  run-Effect (acquire_call name owner ttl now token) s =
      unfold acquire_lease in
      leases_only {t = (acquire_lease name owner ttl now token s).1} (ground arith) (ground arith)
        (ground arith)
  run-Effect (release_call name token) s =
      unfold release_lease in
      leases_only {t = (release_lease name token s).1} (ground arith) (ground arith) (ground arith)
