-- ===== src/Store/Writes.antt =====
-- What one `put` or `delete` does: the revision check decides, and a refused write writes nothing.
use Prim.Native.String.{String}
use text.Mathlib.Text.{◌==◌ as str_eq}
use text.Mathlib.TextEquality.{eq_iff}
use proof_cli_baran.Prelude.{
  ℕ, ◌≡◌, refl, ap, ◌∙◌, ◌≢◌, ◌⊎◌, inl, inr, Option, none, some, arith, if◌then◌else◌, Bool-cases,
  Option-cases,
}
use proof_cli_baran.Prelude.Text.{Text, text_eq, text_eq_iff}
use proof_cli_baran.Store.Dict.{lookup, lookup-insert}
use proof_cli_baran.Store.Types.{Document, StoreSnapshot, Error, Result, ok, err, revision_conflict}
use proof_cli_baran.Store.Revision.{rev_of, assert_expected_revision, assert_expected_revision_iff}
use proof_cli_baran.Store.Documents.{get, commit, new_document, put, tombstone, delete}

-- A write that throws, and leaves the store as it is.
pub record Refused {ℓ} {T : Type ℓ} (s : StoreSnapshot T)
    (r : Result (Document T) × StoreSnapshot T) : Type ℓ where
  pub error : Error
  pub unchanged : r ≡ (err error, s)

rev_eq? : (a b : Option Text) → (a ≡ b) ⊎ (a ≢ b)
rev_eq? none none = inl refl
rev_eq? none (some r) = inr (λ e. cc)
rev_eq? (some r) none = inr (λ e. cc)
rev_eq? (some r) (some t) = elim (Bool-cases (text_eq r t)) [
  | inl same ↦ inl (ap (λ (x : Text). some x) ((text_eq_iff r t).0 same))
  | inr other ↦ inr (λ e. ground (arith, text_eq_iff r t))
]

-- What `get` returns of a stored document.
abbrev live {ℓ} : {T : Type ℓ} → Option (Document T) → Option (Document T)
live none = none
live (some d) = if d.deleted then none else some d

get-eq-live {ℓ} :
    {T : Type ℓ} (j : String) (s : StoreSnapshot T) → get j s ≡ live (lookup j s.documents)
unfolding get
get-eq-live j s = ground arith

pub get-commit {ℓ} :
    {T : Type ℓ} (id : String) (d : Document T) (s : StoreSnapshot T) (j : String)
    → get j (commit id d s) ≡ (if str_eq id j then live (some d) else get j s)
unfolding commit
get-commit id d s j = rw (get-eq-live, get-eq-live, lookup-insert) (ground (arith, eq_iff id j))

module _ {ℓ} {T : Type ℓ} (digest : ℕ → T → Text) where
  get-commit_new :
      (id : String) (value : T) (now : ℕ) (s : StoreSnapshot T) (j : String)
      → get j (commit id (new_document digest id value now s) s)
        ≡ (if str_eq id j then some (new_document digest id value now s) else get j s)
  unfolding new_document
  get-commit_new id value now s j = get-commit id (new_document digest id value now s) s j

  pub put_accepted :
      (id : String) (value : T) (expected : Option Text) (now : ℕ) (s : StoreSnapshot T)
      → expected ≡ rev_of (lookup id s.documents)
      → put digest id value expected now s ≡ (
        ok (new_document digest id value now s),
        commit id (new_document digest id value now s) s,
      )
  put_accepted id value expected now s e =
      let passed = (assert_expected_revision_iff id (lookup id s.documents) expected).1 e in
      unfold put in rw (passed, put)

  pub put-Refused :
      (id : String) (value : T) (expected : Option Text) (now : ℕ) (s : StoreSnapshot T)
      → expected ≢ rev_of (lookup id s.documents)
      → Refused s (put digest id value expected now s)
  unfolding put
  put-Refused id value expected now s ne =
      elim (Option-cases (assert_expected_revision id (lookup id s.documents) expected)) [
        | inl passed ↦
            absurd
              (ne ((assert_expected_revision_iff id (lookup id s.documents) expected).0 passed))
        | inr (e, failed) ↦ record { error = e; unchanged = rw (failed, put) }
      ]

  -- A put is accepted exactly when the expected revision is the stored one (none where nothing is
  -- stored): it commits the new document, which `get` then returns, and `get` of any other id is as
  -- before. Otherwise it throws and the store is unchanged.
  pub put_outcome :
      (id : String) (value : T) (expected : Option Text) (now : ℕ) (s : StoreSnapshot T)
      (j : String)
      → ((expected ≡ rev_of (lookup id s.documents))
          × (put digest id value expected now s ≡ (
            ok (new_document digest id value now s),
            commit id (new_document digest id value now s) s,
          ))
          × (get j (put digest id value expected now s).1
              ≡ (if str_eq id j then some (new_document digest id value now s) else get j s)))
        ⊎ ((expected ≢ rev_of (lookup id s.documents))
            × Refused s (put digest id value expected now s))
  put_outcome id value expected now s j = elim (rev_eq? expected (rev_of (lookup id s.documents))) [
    | inl e ↦
        let accepted = put_accepted id value expected now s e in
        inl (e, accepted, rw accepted (get-commit_new id value now s j))
    | inr ne ↦ inr (ne, put-Refused id value expected now s ne)
  ]

module _ {ℓ} {T : Type ℓ} (digest : ℕ → T → Text) where
  get-commit-tombstone :
      (id : String) (d : Document T) (now : ℕ) (s : StoreSnapshot T) (j : String)
      → get j (commit id (tombstone digest d now s) s) ≡ (if str_eq id j then none else get j s)
  unfolding tombstone
  get-commit-tombstone id d now s j = get-commit id (tombstone digest d now s) s j

  delete_accepted :
      (id : String) (d : Document T) (now : ℕ) (s : StoreSnapshot T)
      → lookup id s.documents ≡ some d
      → delete digest id (some d.rev) now s
        ≡ (ok (tombstone digest d now s), commit id (tombstone digest d now s) s)
  unfolding delete
  delete_accepted id d now s found =
      let passed = (assert_expected_revision_iff id (some d) (some d.rev)).1 refl in
      ground (arith, found, passed)

  delete_missing :
      (id : String) (expected : Option Text) (now : ℕ) (s : StoreSnapshot T)
      → lookup id s.documents ≡ none
      → Refused s (delete digest id expected now s)
  unfolding delete assert_expected_revision
  delete_missing id none now s missing = record {
    error = revision_conflict id none none;
    unchanged = ground arith;
  }
  delete_missing id (some r) now s missing = record {
    error = revision_conflict id (some r) none;
    unchanged = ground arith;
  }

  delete-Refused :
      (id : String) (expected : Option Text) (now : ℕ) (s : StoreSnapshot T)
      → expected ≢ rev_of (lookup id s.documents)
      → Refused s (delete digest id expected now s)
  unfolding delete
  delete-Refused id expected now s ne =
      elim (Option-cases (assert_expected_revision id (lookup id s.documents) expected)) [
        | inl passed ↦
            absurd
              (ne ((assert_expected_revision_iff id (lookup id s.documents) expected).0 passed))
        | inr (e, failed) ↦ record { error = e; unchanged = rw (failed, delete) }
      ]

  -- A delete is accepted exactly when a document is stored under the id and the expected revision
  -- is its revision: `get` then returns nothing for the id, and is as before for any other id.
  -- Otherwise it throws and the store is unchanged.
  pub delete_outcome :
      (id : String) (expected : Option Text) (now : ℕ) (s : StoreSnapshot T) (j : String)
      → ((d : Document T) × (lookup id s.documents ≡ some d)
          × (expected ≡ some d.rev)
          × (delete digest id expected now s
              ≡ (ok (tombstone digest d now s), commit id (tombstone digest d now s) s))
          × (get j (delete digest id expected now s).1 ≡ (if str_eq id j then none else get j s)))
        ⊎ (((lookup id s.documents ≡ none) ⊎ (expected ≢ rev_of (lookup id s.documents)))
            × Refused s (delete digest id expected now s))
  delete_outcome id expected now s j = elim (rev_eq? expected (rev_of (lookup id s.documents))) [
    | inr ne ↦ inr (inr ne, delete-Refused id expected now s ne)
    | inl e ↦ elim (Option-cases (lookup id s.documents)) [
      | inl missing ↦ inr (inl missing, delete_missing id expected now s missing)
      | inr (d, found) ↦
          let rev : expected ≡ some d.rev = e ∙ ap rev_of found in
          let accepted = delete_accepted id d now s found in
          inl
            (d, found, rev, rw rev accepted, rw (rev, accepted) (get-commit-tombstone id d now s j))
    ]
  ]
