-- ===== src/Store/Exclusion.antt =====
-- Leases: while a lease runs and its holder leaves it alone, nobody else is given it.
use Prim.Native.String.{String}
use text.Mathlib.Text.{◌==◌ as str_eq}
use text.Mathlib.TextEquality.{eq_iff}
use text.Mathlib.TextPositions.{eq_refl}
use proof_cli_baran.Prelude.{
  ℕ, ◌+◌, ◌<◌, ◌≡◌, refl, ◌⊎◌, inl, inr, false, Option, none, some, List, [], ◌∷◌, arith, ltb,
  lt→ltb, Bool-cases, Option-cases, All,
}
use proof_cli_baran.Prelude.Number.{Number, positive_integer}
use proof_cli_baran.Prelude.Text.{Text}
use proof_cli_baran.Store.Dict.{lookup, insert, lookup-insert, lookup-remove}
use proof_cli_baran.Store.Types.{Lease, Document, StoreSnapshot, ok}
use proof_cli_baran.Store.Documents.{put, delete, commit}
use proof_cli_baran.Store.Leases.{acquire_lease, release_lease, date_max, grant, held_by_other}
use proof_cli_baran.Store.Trace.{Call, put_call, delete_call, acquire_call, release_call, run_all}

-- A call that the holder of `l` does not make: others try to acquire the name before `l` expires,
-- and nobody else knows its token.
abbrev pub Foreign {ℓ} : {T : Type ℓ} → String → Lease → Call T → Type 0
Foreign name l (put_call _ _ _ _) = Unit
Foreign name l (delete_call _ _ _) = Unit
Foreign name l (acquire_call n owner _ now _) =
    (str_eq n name ≡ false) ⊎ ((str_eq l.owner_id owner ≡ false) × (now < l.expires_at))
Foreign name l (release_call n token) = (str_eq n name ≡ false) ⊎ (str_eq l.token token ≡ false)

module _ {ℓ} {T : Type ℓ} where
  -- A running lease of another owner: nothing is acquired and nothing changes.
  acquire_lease-held :
      (name owner token : String) (ttl : Number) (ms now : ℕ) (l : Lease) (s : StoreSnapshot T)
      → lookup name s.leases ≡ some l
      → positive_integer ttl ≡ some ms
      → str_eq l.owner_id owner ≡ false
      → now < l.expires_at
      → acquire_lease name owner ttl now token s ≡ (ok none, s)
  unfolding acquire_lease
  acquire_lease-held name owner token ttl ms now l s found valid other running =
      ground (arith, lt→ltb now l.expires_at running)

  grant-granted :
      (name owner token : String) (ms now : ℕ) (l : Lease) (s : StoreSnapshot T)
      → (grant name owner ms now token s).0 ≡ ok (some l)
      → ((grant name owner ms now token s).1.leases ≡ insert name l s.leases) × (l.owner_id ≡ owner)
  unfolding grant
  grant-granted name owner token ms now l s got = elim (Bool-cases (ltb date_max (now + ms))) [
    | inl late ↦ absurd (cc (rw (late, grant) at got))
    | inr fits ↦ ground (arith, fits)
  ]

  -- A lease that is returned is stored, and is the caller's.
  pub acquire_lease-granted :
      (name owner token : String) (ttl : Number) (now : ℕ) (l : Lease) (s : StoreSnapshot T)
      → (acquire_lease name owner ttl now token s).0 ≡ ok (some l)
      → (lookup name (acquire_lease name owner ttl now token s).1.leases ≡ some l)
        × (l.owner_id ≡ owner)
  unfolding acquire_lease
  acquire_lease-granted name owner token ttl now l s got =
      elim (Option-cases (positive_integer ttl)) [
        | inl bad ↦ absurd (cc (rw (bad, acquire_lease) at got))
        | inr (ms, valid) ↦ elim (Bool-cases (held_by_other (lookup name s.leases) owner now)) [
          | inl held ↦ absurd (cc (rw (valid, held, acquire_lease) at got))
          | inr free ↦
              let (stored, owned) =
                grant-granted name owner token ms now l s
                  (rw (valid, free, acquire_lease) at got) in
              (rw (valid, free, acquire_lease) (rw (stored, lookup-insert, eq_refl)), owned)
        ]
      ]

  leases-commit :
      (id : String) (d : Document T) (s : StoreSnapshot T) → (commit id d s).leases ≡ s.leases
  unfolding commit
  leases-commit id d s = refl

module _ {ℓ} {T : Type ℓ} (digest : ℕ → T → Text) (name : String) (l : Lease) where
  leases-put :
      (id : String) (value : T) (expected : Option Text) (now : ℕ) (s : StoreSnapshot T)
      → (put digest id value expected now s).1.leases ≡ s.leases
  unfolding put commit
  leases-put id value expected now s = ground arith

  leases-delete :
      (id : String) (expected : Option Text) (now : ℕ) (s : StoreSnapshot T)
      → (delete digest id expected now s).1.leases ≡ s.leases
  unfolding delete commit
  leases-delete id expected now s = ground arith

  lookup-grant :
      (n owner token : String) (ms now : ℕ) (s : StoreSnapshot T)
      → str_eq n name ≡ false
      → lookup name (grant n owner ms now token s).1.leases ≡ lookup name s.leases
  unfolding grant
  lookup-grant n owner token ms now s other = elim (Bool-cases (ltb date_max (now + ms))) [
    | inl late ↦ rw (late, grant)
    | inr fits ↦ rw (fits, lookup-insert, other)
  ]

  -- What is granted to a foreign call has another name.
  free_elsewhere :
      (n owner : String) (now : ℕ) (s : StoreSnapshot T)
      → lookup name s.leases ≡ some l
      → (str_eq n name ≡ false) ⊎ ((str_eq l.owner_id owner ≡ false) × (now < l.expires_at))
      → held_by_other (lookup n s.leases) owner now ≡ false
      → str_eq n name ≡ false
  unfolding held_by_other
  free_elsewhere n owner now s found (inl away) free = away
  free_elsewhere n owner now s found (inr (other, running)) free =
      elim (Bool-cases (str_eq n name)) [
        | inr away ↦ away
        | inl same ↦
            let here : lookup n s.leases ≡ some l = rw ((eq_iff n name).0 same) found in
            ground (arith, lt→ltb now l.expires_at running)
      ]

  lookup-acquire_lease :
      (n owner token : String) (ttl : Number) (now : ℕ) (s : StoreSnapshot T)
      → lookup name s.leases ≡ some l
      → (str_eq n name ≡ false) ⊎ ((str_eq l.owner_id owner ≡ false) × (now < l.expires_at))
      → lookup name (acquire_lease n owner ttl now token s).1.leases ≡ some l
  unfolding acquire_lease
  lookup-acquire_lease n owner token ttl now s found away =
      elim (Option-cases (positive_integer ttl)) [
        | inl bad ↦ rw (bad, acquire_lease) found
        | inr (ms, valid) ↦ elim (Bool-cases (held_by_other (lookup n s.leases) owner now)) [
          | inl held ↦ rw (valid, held, acquire_lease) found
          | inr free ↦
              rw (valid, free, acquire_lease)
                (rw
                  (lookup-grant n owner token ms now s
                    (free_elsewhere n owner now s found away free))
                  found)
        ]
      ]

  lookup-release_lease :
      (n token : String) (s : StoreSnapshot T)
      → lookup name s.leases ≡ some l
      → (str_eq n name ≡ false) ⊎ (str_eq l.token token ≡ false)
      → lookup name (release_lease n token s).1.leases ≡ some l
  unfolding release_lease
  lookup-release_lease n token s found away =
      ground (arith, lookup-remove n name s.leases, eq_iff n name)

  run_all-Foreign :
      (calls : List (Call T)) (s : StoreSnapshot T)
      → All (Foreign name l) calls
      → lookup name s.leases ≡ some l
      → lookup name (run_all digest calls s).leases ≡ some l
  unfolding run_all
  run_all-Foreign [] s h found = found
  run_all-Foreign (put_call id v e now ∷ cs) s (h, hs) found =
      run_all-Foreign cs (put digest id v e now s).1 hs (rw (leases-put id v e now s) found)
  run_all-Foreign (delete_call id e now ∷ cs) s (h, hs) found =
      run_all-Foreign cs (delete digest id e now s).1 hs (rw (leases-delete id e now s) found)
  run_all-Foreign (acquire_call n owner ttl now token ∷ cs) s (h, hs) found =
      run_all-Foreign cs (acquire_lease n owner ttl now token s).1 hs
        (lookup-acquire_lease n owner token ttl now s found h)
  run_all-Foreign (release_call n token ∷ cs) s (h, hs) found =
      run_all-Foreign cs (release_lease n token s).1 hs (lookup-release_lease n token s found h)

module _ {ℓ} {T : Type ℓ} (digest : ℕ → T → Text) where
  -- A lease of a name was granted. Then, after any calls of others (document calls, acquisitions by
  -- other owners before it expires, releases with other tokens, and anything about other names),
  -- another owner with a valid time to live who asks before it expires gets nothing, and the store
  -- is unchanged.
  pub lease_exclusive :
      (calls : List (Call T)) (s : StoreSnapshot T) (name owner other token theirs : String)
      (ttl ttl' : Number) (ms now later : ℕ) (l : Lease)
      → (acquire_lease name owner ttl now token s).0 ≡ ok (some l)
      → All (Foreign name l) calls
      → positive_integer ttl' ≡ some ms
      → str_eq owner other ≡ false
      → later < l.expires_at
      → acquire_lease name other ttl' later theirs
          (run_all digest calls (acquire_lease name owner ttl now token s).1)
        ≡ (ok none, run_all digest calls (acquire_lease name owner ttl now token s).1)
  lease_exclusive calls s name owner other token theirs ttl ttl' ms now later l got foreign valid ne
        running =
      let (stored, owned) = acquire_lease-granted name owner token ttl now l s got in
      acquire_lease-held name other theirs ttl' ms later l
        (run_all digest calls (acquire_lease name owner ttl now token s).1)
        (run_all-Foreign digest name l calls (acquire_lease name owner ttl now token s).1 foreign
          stored)
        valid (rw owned ne) running
