-- ===== src/Store/Stale.antt =====
-- Optimistic concurrency: a revision that has been overwritten is never accepted again.
use Prim.Native.String.{String}
use text.Mathlib.Text.{◌==◌ as str_eq}
use text.Mathlib.TextEquality.{eq_iff}
use text.Mathlib.TextPositions.{eq_refl}
use proof_cli_baran.Prelude.{
  ℕ, ◌+◌, ◌≤◌, ◌≡◌, ◌≢◌, inl, inr, Option, none, some, List, [], ◌∷◌, arith, Bool-cases,
  Option-cases,
}
use proof_cli_baran.Prelude.Text.{Text}
use proof_cli_baran.Store.Dict.{lookup, lookup-insert}
use proof_cli_baran.Store.Types.{Document, StoreSnapshot}
use proof_cli_baran.Store.Revision.{
  next_revision, rev_of, previous_generation, previous_generation-next_revision,
}
use proof_cli_baran.Store.Documents.{commit, new_document, tombstone, put}
use proof_cli_baran.Store.Writes.{Refused, put_accepted, put-Refused}
use proof_cli_baran.Store.Trace.{
  Call, run, run_all, Effect, unchanged, created, buried, leases_only, run-Effect,
}

-- A generation that is a number and no less than `g`.
abbrev pub AtLeast : ℕ → Option ℕ → Type 0
AtLeast g none = ⊥
AtLeast g (some h) = g ≤ h

module _ {ℓ} {T : Type ℓ} where
  unfoldable pub generation : StoreSnapshot T → String → Option ℕ
  generation s id = previous_generation (rev_of (lookup id s.documents))

module _ {ℓ} {T : Type ℓ} (digest : ℕ → T → Text) where
  AtLeast-next_revision :
      (g : ℕ) (previous : Option Text) (sequence : ℕ) (value : T)
      → AtLeast g (previous_generation previous)
      → AtLeast (g + 1) (previous_generation (some (next_revision digest previous sequence value)))
  AtLeast-next_revision g previous sequence value h =
      elim (Option-cases (previous_generation previous)) [
        | inl missing ↦ absurd (rw missing at h)
        | inr (k, found) ↦
            let fits : g ≤ k = rw found at h in
            rw (previous_generation-next_revision digest previous sequence value k found)
              (omega arith)
      ]

  AtLeast-pred : (g : ℕ) (o : Option ℕ) → AtLeast (g + 1) o → AtLeast g o
  AtLeast-pred g none h = h
  AtLeast-pred g (some k) h = omega arith

  -- A commit whose document keeps to the bound lets no generation fall below it.
  AtLeast-commit :
      (g : ℕ) (id j : String) (d : Document T) (s : StoreSnapshot T)
      → (id ≡ j → AtLeast g (previous_generation (some d.rev)))
      → AtLeast g (generation s j)
      → AtLeast g (generation (commit id d s) j)
  unfolding generation commit
  AtLeast-commit g id j d s grown h = elim (Bool-cases (str_eq id j)) [
    | inl same ↦ rw (lookup-insert, same) (grown ((eq_iff id j).0 same))
    | inr other ↦ rw (lookup-insert, other) h
  ]

  Effect-AtLeast :
      (g : ℕ) (j : String) (s t : StoreSnapshot T)
      → Effect digest s t
      → AtLeast g (generation s j)
      → AtLeast g (generation t j)
  Effect-AtLeast g j s t (unchanged e) h = rw e h
  Effect-AtLeast g j s t (created id value now e) h = rw e (
      AtLeast-commit g id j (new_document digest id value now s) s
        (λ same. AtLeast-pred g _ (
          unfold new_document generation in
          AtLeast-next_revision g (rev_of (lookup id s.documents)) (s.sequence + 1) value
            (rw same h)))
        h)
  Effect-AtLeast g j s t (buried id d now found e) h = rw e (
      AtLeast-commit g id j (tombstone digest d now s) s
        (λ same. AtLeast-pred g _ (
          unfold tombstone generation in
          AtLeast-next_revision g (some d.rev) (s.sequence + 1) d.value
            (rw (← same, generation, found) at h)))
        h)
  Effect-AtLeast g j s t (leases_only ds cs q) h = unfold generation in rw ds h

  run_all-AtLeast :
      (calls : List (Call T)) (g : ℕ) (j : String) (s : StoreSnapshot T)
      → AtLeast g (generation s j)
      → AtLeast g (generation (run_all digest calls s) j)
  unfolding run_all
  run_all-AtLeast [] g j s h = h
  run_all-AtLeast (c ∷ cs) g j s h =
      run_all-AtLeast cs g j (run digest c s)
        (Effect-AtLeast g j s (run digest c s) (run-Effect digest c s) h)

  -- A put that names the stored revision raises the generation by one.
  generation-put :
      (id : String) (d : Document T) (value : T) (now g : ℕ) (s : StoreSnapshot T)
      → lookup id s.documents ≡ some d
      → previous_generation (some d.rev) ≡ some g
      → generation (put digest id value (some d.rev) now s).1 id ≡ some (g + 1)
  generation-put id d value now g s found gen =
      rw (put_accepted digest id value (some d.rev) now s (rw found)) (
        unfold generation commit new_document in
        rw (lookup-insert, eq_refl, found)
          (previous_generation-next_revision digest (some d.rev) (s.sequence + 1) value g gen))

  stale_absurd :
      (g : ℕ) (t : StoreSnapshot T) (id : String) (r : Text)
      → previous_generation (some r) ≡ some g
      → AtLeast (g + 1) (generation t id)
      → some r ≢ rev_of (lookup id t.documents)
  unfolding generation
  stale_absurd g t id r gen h e =
      let now_g : AtLeast (g + 1) (some g) = rw (← e, gen) at h in omega arith

  -- Two clients have read the same document, whose revision has a numeric generation. Once a put of
  -- one of them with that revision has been made, a put of the other with the same revision is
  -- refused and changes nothing, whatever calls come between.
  pub stale_put-Refused :
      (calls : List (Call T)) (s : StoreSnapshot T) (id : String) (d : Document T) (g : ℕ)
      (mine theirs : T) (now later : ℕ)
      → lookup id s.documents ≡ some d
      → previous_generation (some d.rev) ≡ some g
      → Refused (run_all digest calls (put digest id mine (some d.rev) now s).1) (
          put digest id theirs
            (some d.rev)
            later
            (run_all digest calls (put digest id mine (some d.rev) now s).1))
  stale_put-Refused calls s id d g mine theirs now later found gen =
      let t : StoreSnapshot T = run_all digest calls (put digest id mine (some d.rev) now s).1 in
      let risen : AtLeast (g + 1) (generation t id) =
        run_all-AtLeast calls (g + 1) id (put digest id mine (some d.rev) now s).1
          (rw (generation-put id d mine now g s found gen) (omega arith)) in
      put-Refused digest id theirs (some d.rev) later t (stale_absurd g t id d.rev gen risen)
