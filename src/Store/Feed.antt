-- ===== src/Store/Feed.antt =====
-- The change feed: a copy of the store that applies `changesSince` becomes equal to the store.
use Prim.Native.String.{String}
use text.Mathlib.Text.{◌==◌ as str_eq}
use text.Mathlib.TextEquality.{eq_iff}
use proof_cli_baran.Prelude.{
  ℕ, ◌+◌, ◌≤◌, ◌≡◌, refl, ◌∙◌, true, Option, none, some, List, [], ◌∷◌, ◌++◌, arith, ltb,
  if◌then◌else◌, keep, keep-append, All, All-append, IsSorted, sort-of_IsSorted, All-mono,
  IsSorted-keep, IsSorted-append_last,
}
use proof_cli_baran.Store.Dict.{lookup, lookup-insert}
use proof_cli_baran.Store.Types.{Document, Change, StoreSnapshot}
use proof_cli_baran.Prelude.Text.{Text}
use proof_cli_baran.Store.Documents.{
  change_from_document, changes_since, by_sequence, commit, new_document, tombstone, empty,
}
use proof_cli_baran.Store.Trace.{
  Call, run, run_all, Effect, unchanged, created, buried, leases_only, run-Effect,
}

-- The newest change of each id, as a copy of the store keeps it.
abbrev pub Replica {ℓ} : Type ℓ → Type ℓ
Replica T = String → Option (Change T)

module _ {ℓ} {T : Type ℓ} where
  unfoldable pub latest : StoreSnapshot T → Replica T
  latest s j = elim (lookup j s.documents) [ none ↦ none | some d ↦ some (change_from_document d) ]

  unfoldable pub apply_change : Change T → Replica T → Replica T
  apply_change c base j = if str_eq c.id j then some c else base j

  unfoldable pub apply_changes : List (Change T) → Replica T → Replica T
  unfolding apply_change
  apply_changes [] base = base
  apply_changes (c ∷ cs) base = apply_changes cs (apply_change c base)

  apply_changes-append :
      (xs : List (Change T)) (c : Change T) (base : Replica T)
      → apply_changes (xs ++ c ∷ []) base ≡ apply_change c (apply_changes xs base)
  unfolding apply_changes
  apply_changes-append [] c base = refl
  apply_changes-append (x ∷ xs) c base = apply_changes-append xs c (apply_change x base)

-- Documents stand under their own ids, and the feed is in the order of the sequence numbers, none
-- of which is above the store's.
pub record IsWellFormed {ℓ} {T : Type ℓ} (s : StoreSnapshot T) : Type ℓ where
  pub keyed : (id : String) (d : Document T) → lookup id s.documents ≡ some d → d.id ≡ id
  pub bounded : All (λ c. c.sequence ≤ s.sequence) s.changes
  pub ordered : IsSorted by_sequence s.changes

-- `base`, which was the store's state at sequence number `n`, and the later changes give the store.
record Synced {ℓ} {T : Type ℓ} (n : ℕ) (base : Replica T) (s : StoreSnapshot T) : Type ℓ where
  formed : IsWellFormed s
  past : n ≤ s.sequence
  caught_up :
      (j : String) → apply_changes (keep (λ c. ltb n c.sequence) s.changes) base j ≡ latest s j

module _ {ℓ} {T : Type ℓ} (id : String) (d : Document T) (s : StoreSnapshot T) (own : d.id ≡ id)
    (next : d.sequence ≡ s.sequence + 1) where
  commit-IsWellFormed : IsWellFormed s → IsWellFormed (commit id d s)
  unfolding commit
  commit-IsWellFormed w = record {
    keyed =
        λ j e h. ground (arith, own, eq_iff id j, lookup-insert id j d s.documents, w.keyed j e);
    bounded =
        All-append (λ c. c.sequence ≤ d.sequence) s.changes (change_from_document d ∷ [])
          (All-mono (λ c. c.sequence ≤ s.sequence) (λ c. c.sequence ≤ d.sequence)
            (λ c h. omega arith) s.changes w.bounded)
          (omega arith, tt);
    ordered = IsSorted-append_last by_sequence s.changes (change_from_document d) w.ordered (
        All-mono (λ c. c.sequence ≤ s.sequence) (λ c. by_sequence c (change_from_document d) ≡ true)
          (λ c h. ground arith) s.changes w.bounded);
  }

  latest-commit :
      (j : String) → latest (commit id d s) j ≡ apply_change (change_from_document d) (latest s) j
  unfolding commit latest apply_change change_from_document
  latest-commit j = ground (arith, own, lookup-insert id j d s.documents, eq_iff id j)

  -- The feed after `n` gains the new change at its end.
  since-commit :
      (n : ℕ)
      → n ≤ s.sequence
      → keep (λ c. ltb n c.sequence) (commit id d s).changes
        ≡ keep (λ c. ltb n c.sequence) s.changes ++ change_from_document d ∷ []
  unfolding commit
  since-commit n past =
      let newer : ltb n d.sequence ≡ true = ground arith in
      rw (keep-append (λ (c : Change T). ltb n c.sequence) s.changes (change_from_document d ∷ []))
        (unfold change_from_document in rw newer)

  commit-Synced : (n : ℕ) (base : Replica T) → Synced n base s → Synced n base (commit id d s)
  commit-Synced n base y = record {
    formed = commit-IsWellFormed y.formed;
    past = unfold commit in omega arith;
    caught_up = λ j.
        rw (since-commit n y.past, apply_changes-append, latest-commit)
          (unfold apply_change in rw (y.caught_up j));
  }

module _ {ℓ} {T : Type ℓ} (digest : ℕ → T → Text) where
  Synced-leases :
      (n : ℕ) (base : Replica T) (s t : StoreSnapshot T)
      → t.documents ≡ s.documents
      → t.changes ≡ s.changes
      → t.sequence ≡ s.sequence
      → Synced n base s
      → Synced n base t
  Synced-leases n base s t ds cs q y = record {
    formed = record {
      keyed = λ j e h. y.formed.keyed j e (rw ds at h);
      bounded = rw (cs, q) y.formed.bounded;
      ordered = rw cs y.formed.ordered;
    };
    past = rw q y.past;
    caught_up = λ j. rw cs (y.caught_up j ∙ unfold latest in rw ds);
  }

  Effect-Synced :
      (n : ℕ) (base : Replica T) (s t : StoreSnapshot T)
      → Effect digest s t
      → Synced n base s
      → Synced n base t
  Effect-Synced n base s t (unchanged e) y = rw e y
  Effect-Synced n base s t (created id value now e) y = rw e (
      unfold new_document in
      commit-Synced id (new_document digest id value now s) s refl refl n base y)
  Effect-Synced n base s t (buried id d now found e) y = rw e (
      unfold tombstone in
      commit-Synced id (tombstone digest d now s) s (y.formed.keyed id d found) refl n base y)
  Effect-Synced n base s t (leases_only ds cs q) y = Synced-leases n base s t ds cs q y

  run_all-Synced :
      (calls : List (Call T)) (n : ℕ) (base : Replica T) (s : StoreSnapshot T)
      → Synced n base s
      → Synced n base (run_all digest calls s)
  unfolding run_all
  run_all-Synced [] n base s y = y
  run_all-Synced (c ∷ cs) n base s y =
      run_all-Synced cs n base (run digest c s)
        (Effect-Synced n base s (run digest c s) (run-Effect digest c s) y)

nothing_since {ℓ} :
    {T : Type ℓ} (n : ℕ) (xs : List (Change T))
    → All (λ c. c.sequence ≤ n) xs
    → keep (λ c. ltb n c.sequence) xs ≡ []
nothing_since n [] h = refl
nothing_since n (c ∷ xs) (p, h) = ground (arith, nothing_since n xs h)

Synced-start {ℓ} :
    {T : Type ℓ} (s : StoreSnapshot T) → IsWellFormed s → Synced s.sequence (latest s) s
Synced-start s w = record {
  formed = w;
  past = omega arith;
  caught_up = λ j. rw (nothing_since s.sequence s.changes w.bounded) (unfold apply_changes in refl);
}

-- In a well-formed store the feed needs no sorting.
changes_since-eq-keep {ℓ} :
    {T : Type ℓ} (n : ℕ) (s : StoreSnapshot T)
    → IsWellFormed s
    → changes_since n s ≡ keep (λ c. ltb n c.sequence) s.changes
unfolding changes_since
changes_since-eq-keep n s w =
    sort-of_IsSorted by_sequence (keep (λ c. ltb n c.sequence) s.changes)
      (IsSorted-keep by_sequence (λ c. ltb n c.sequence) s.changes w.ordered)

module _ {ℓ} {T : Type ℓ} (digest : ℕ → T → Text) where
  -- Every sequence of calls, failing ones included, keeps a well-formed store well formed.
  pub run_all-IsWellFormed :
      (calls : List (Call T)) (s : StoreSnapshot T)
      → IsWellFormed s
      → IsWellFormed (run_all digest calls s)
  run_all-IsWellFormed calls s w =
      (run_all-Synced digest calls s.sequence (latest s) s (Synced-start s w)).formed

  -- A copy of a well-formed store, taken before any sequence of calls, that applies the changes
  -- since its sequence number holds for each id the newest change that the store now stands for.
  pub apply_changes_since :
      (calls : List (Call T)) (s : StoreSnapshot T) (j : String)
      → IsWellFormed s
      → apply_changes (changes_since s.sequence (run_all digest calls s)) (latest s) j
        ≡ latest (run_all digest calls s) j
  apply_changes_since calls s j w =
      let y = run_all-Synced digest calls s.sequence (latest s) s (Synced-start s w) in
      rw (changes_since-eq-keep s.sequence (run_all digest calls s) y.formed) (y.caught_up j)

pub IsWellFormed-empty {ℓ} : {T : Type ℓ} → IsWellFormed (empty {T = T})
unfolding empty lookup
IsWellFormed-empty = record { keyed = λ id d h. ground arith; bounded = tt; ordered = tt }
