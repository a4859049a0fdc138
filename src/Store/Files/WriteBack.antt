-- ===== src/Store/Files/WriteBack.antt =====
-- What a call of the file store leaves in the file (src/switchboard-core/src/replicated-doc-store.ts).
use Prim.Native.String.{String}
use proof_cli_baran.Prelude.{
  ℕ, ◌+◌, ◌≡◌, refl, sym, inl, inr, Bool, true, false, Option, arith, ltb, Bool-cases, Option-cases,
}
use proof_cli_baran.Prelude.Text.{Text}
use proof_cli_baran.Prelude.Number.{Number, positive_integer}
use proof_cli_baran.Store.Types.{StoreSnapshot, Result, ok, err}
use proof_cli_baran.Store.Documents.{put, delete}
use proof_cli_baran.Store.Writes.{put_outcome, delete_outcome}
use proof_cli_baran.Store.Leases.{acquire_lease, release_lease, grant, held_by_other, date_max}
use proof_cli_baran.Store.Dict.{lookup}
use proof_cli_baran.Store.Files.{FileStore, contents, reload, write_back, write_back_if}

-- A throwing call leaves the snapshot as it is.
abbrev pub Atomic {ℓ κ} :
    {T : Type ℓ} {A : Type κ} → StoreSnapshot T → Result A × StoreSnapshot T → Type ℓ
Atomic s (ok a, t) = Unit
Atomic s (err e, t) = t ≡ s

module _ {ℓ κ} {T : Type ℓ} {A : Type κ} where
  pub contents-write_back :
      (f : FileStore T) (r : Result A × StoreSnapshot T)
      → Atomic (contents f.file) r
      → contents (write_back r (reload f)).1.file ≡ r.1
  unfolding write_back reload contents
  contents-write_back f (ok a, t) h = refl
  contents-write_back f (err e, t) h = sym h

  pub result-write_back :
      (f : FileStore T) (r : Result A × StoreSnapshot T) → (write_back r f).0 ≡ r.0
  unfolding write_back
  result-write_back f (ok a, t) = refl
  result-write_back f (err e, t) = refl

module _ {ℓ} {T : Type ℓ} (digest : ℕ → T → Text) where
  pub Atomic-put :
      (id : String) (value : T) (expected : Option Text) (now : ℕ) (s : StoreSnapshot T)
      → Atomic s (put digest id value expected now s)
  Atomic-put id value expected now s = elim (put_outcome digest id value expected now s id) [
    | inl (_, accepted, _) ↦ rw accepted tt
    | inr (_, refused) ↦ rw refused.unchanged refl
  ]

  pub Atomic-delete :
      (id : String) (expected : Option Text) (now : ℕ) (s : StoreSnapshot T)
      → Atomic s (delete digest id expected now s)
  Atomic-delete id expected now s = elim (delete_outcome digest id expected now s id) [
    | inl (_, _, _, accepted, _) ↦ rw accepted tt
    | inr (_, refused) ↦ rw refused.unchanged refl
  ]

module _ {ℓ} {T : Type ℓ} where
  Atomic-grant :
      (name owner token : String) (ms now : ℕ) (s : StoreSnapshot T)
      → Atomic s (grant name owner ms now token s)
  unfolding grant
  Atomic-grant name owner token ms now s = elim (Bool-cases (ltb date_max (now + ms))) [
    | inl late ↦ rw (late, grant) refl
    | inr fits ↦ rw (fits, grant) tt
  ]

  pub Atomic-acquire_lease :
      (name owner token : String) (ttl : Number) (now : ℕ) (s : StoreSnapshot T)
      → Atomic s (acquire_lease name owner ttl now token s)
  unfolding acquire_lease
  Atomic-acquire_lease name owner token ttl now s = elim (Option-cases (positive_integer ttl)) [
    | inl bad ↦ rw (bad, acquire_lease) refl
    | inr (ms, valid) ↦ elim (Bool-cases (held_by_other (lookup name s.leases) owner now)) [
      | inl held ↦ rw (valid, held, acquire_lease) tt
      | inr free ↦ rw (valid, free, acquire_lease) (Atomic-grant name owner token ms now s)
    ]
  ]

  pub release_lease-false :
      (name token : String) (s : StoreSnapshot T)
      → (release_lease name token s).0 ≡ false
      → (release_lease name token s).1 ≡ s
  unfolding release_lease
  release_lease-false name token s h = ground arith

  pub contents-write_back_if :
      (f : FileStore T) (r : Bool × StoreSnapshot T)
      → (r.0 ≡ false → r.1 ≡ contents f.file)
      → contents (write_back_if r (reload f)).1.file ≡ r.1
  unfolding write_back_if reload contents
  contents-write_back_if f (true, t) h = refl
  contents-write_back_if f (false, t) h = sym (h refl)

  pub result-write_back_if :
      (f : FileStore T) (r : Bool × StoreSnapshot T) → (write_back_if r f).0 ≡ r.0
  unfolding write_back_if
  result-write_back_if f (true, t) = refl
  result-write_back_if f (false, t) = refl
