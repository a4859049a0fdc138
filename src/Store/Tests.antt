-- ===== src/Store/Tests.antt =====
-- Tests of the store, and its properties at concrete inputs.
use proof_cli_baran.Prelude.{
  ℕ, ◌≡◌, refl, ◌≢◌, ◌⊎◌, inr, Bool, true, false, none, some, List, [], ◌∷◌, map, arith,
  if◌then◌else◌, length, sort,
}
use Prim.Native.String.{String}
use proof_cli_baran.Prelude.{
  ℕ, ◌≡◌, refl, ◌≢◌, ◌⊎◌, inr, Bool, true, false, none, some, List, [], ◌∷◌, map, arith,
  if◌then◌else◌, length, sort,
}
use proof_cli_baran.Prelude.Text.{Text, codes, text_eq}
use proof_cli_baran.Prelude.Number.{whole, positive_integer}
use proof_cli_baran.Prelude.Decimal.{show_ℕ, read_ℕ}
use text.Mathlib.Text.{◌==◌ as str_eq}
use proof_cli_baran.Store.Dict.{lookup, insert}
use proof_cli_baran.Store.Types.{StoreSnapshot, Document, Lease, ok}
use proof_cli_baran.Store.Revision.{
  rev_of, assert_expected_revision, previous_generation, next_revision,
  previous_generation-next_revision,
}
use proof_cli_baran.Store.Documents.{
  empty, get, put, delete, commit, new_document, tombstone, changes_since,
}
use proof_cli_baran.Store.Leases.{acquire_lease}
use proof_cli_baran.Store.Trace.{Call, put_call, delete_call, acquire_call, release_call, run_all}
use proof_cli_baran.Store.Writes.{Refused, put_outcome, delete_outcome}
use proof_cli_baran.Store.Feed.{
  IsWellFormed, IsWellFormed-empty, apply_changes, latest, apply_changes_since,
  run_all-IsWellFormed,
}
use proof_cli_baran.Store.Stale.{stale_put-Refused}
use proof_cli_baran.Store.Exclusion.{lease_exclusive}
use proof_cli_baran.Store.Files.{contents}
use proof_cli_baran.Store.Files.Refines.{
  Request, call, get_request, changes_request, run_shared, run_replies, shared_file_refines,
}

abbrev digest : ℕ → ℕ → Text
digest n value = codes "0123456789abcdef0123"

abbrev nothing_stored : StoreSnapshot ℕ
nothing_stored = empty

abbrev first_note : Document ℕ
first_note = record {
  id = "note";
  rev = codes "1-0123456789abcdef";
  sequence = 1;
  updated_at = 100;
  value = 5;
  deleted = false;
}

abbrev one_note : StoreSnapshot ℕ
one_note = (put digest "note" 5 none 100 empty).1

one_note_lem : lookup "note" one_note.documents ≡ some first_note
unfolding put lookup assert_expected_revision empty commit insert next_revision previous_generation
    show_ℕ
one_note_lem = refl

put_outcome_example :
    ((none ≡ rev_of (lookup "note" nothing_stored.documents))
      × (put digest "note" 5 none 100 nothing_stored ≡ (
        ok (new_document digest "note" 5 100 nothing_stored),
        commit "note" (new_document digest "note" 5 100 nothing_stored) nothing_stored,
      ))
      × (get "note" (put digest "note" 5 none 100 nothing_stored).1 ≡ (
          if str_eq "note" "note"
          then some (new_document digest "note" 5 100 nothing_stored)
          else get "note" nothing_stored)))
    ⊎ ((none ≢ rev_of (lookup "note" nothing_stored.documents))
        × Refused nothing_stored (put digest "note" 5 none 100 nothing_stored))
put_outcome_example = put_outcome digest "note" 5 none 100 nothing_stored "note"

delete_outcome_example :
    ((d : Document ℕ) × (lookup "note" nothing_stored.documents ≡ some d)
      × (none ≡ some d.rev)
      × (delete digest "note" none 200 nothing_stored ≡ (
        ok (tombstone digest d 200 nothing_stored),
        commit "note" (tombstone digest d 200 nothing_stored) nothing_stored,
      ))
      × (get "note" (delete digest "note" none 200 nothing_stored).1
          ≡ (if str_eq "note" "note" then none else get "note" nothing_stored)))
    ⊎ (((lookup "note" nothing_stored.documents ≡ none)
          ⊎ (none ≢ rev_of (lookup "note" nothing_stored.documents)))
        × Refused nothing_stored (delete digest "note" none 200 nothing_stored))
delete_outcome_example = delete_outcome digest "note" none 200 nothing_stored "note"

abbrev two_calls : List (Call ℕ)
two_calls =
    put_call "note" 5 none 100 ∷ delete_call "note" (some (codes "1-0123456789abcdef")) 200 ∷ []

run_all-IsWellFormed_example : IsWellFormed (run_all digest two_calls nothing_stored)
run_all-IsWellFormed_example =
    run_all-IsWellFormed digest two_calls nothing_stored IsWellFormed-empty

apply_changes_since_example :
    apply_changes
      (changes_since nothing_stored.sequence (run_all digest two_calls nothing_stored))
      (latest nothing_stored)
      "note"
    ≡ latest (run_all digest two_calls nothing_stored) "note"
apply_changes_since_example =
    apply_changes_since digest two_calls nothing_stored "note" IsWellFormed-empty

-- The feed of the two calls has a change for each.
two_calls_feed : length (changes_since 0 (run_all digest two_calls nothing_stored)) ≡ 2
unfolding run_all changes_since sort delete put assert_expected_revision lookup empty commit insert
    text_eq next_revision previous_generation show_ℕ
two_calls_feed = refl

first_generation : previous_generation (some first_note.rev) ≡ some 1
unfolding previous_generation read_ℕ
first_generation = refl

stale_put-Refused_example :
    Refused (run_all digest [] (put digest "note" 6 (some first_note.rev) 200 one_note).1) (
      put digest "note" 7
        (some first_note.rev)
        300
        (run_all digest [] (put digest "note" 6 (some first_note.rev) 200 one_note).1))
stale_put-Refused_example =
    stale_put-Refused digest [] one_note "note" first_note 1 6 7 200 300 one_note_lem
      first_generation

abbrev held : Lease
held = record {
  name = "settle";
  owner_id = "a";
  token = "t1";
  acquired_at = 100;
  expires_at = 1100;
}

abbrev others : List (Call ℕ)
others =
    acquire_call "settle" "b" (whole 50) 200 "t2"
    ∷ put_call "note" 5 none 300
    ∷ release_call "settle" "t9"
    ∷ []

lease_granted : (acquire_lease "settle" "a" (whole 1000) 100 "t1" nothing_stored).0 ≡ ok (some held)
unfolding acquire_lease positive_integer lookup empty
lease_granted = refl

ten : positive_integer (whole 10) ≡ some 10
unfolding positive_integer
ten = refl

lease_exclusive_example :
    acquire_lease "settle" "c"
      (whole 10)
      1000
      "t3"
      (run_all digest others (acquire_lease "settle" "a" (whole 1000) 100 "t1" nothing_stored).1)
    ≡ (
      ok none,
      run_all digest others (acquire_lease "settle" "a" (whole 1000) 100 "t1" nothing_stored).1,
    )
lease_exclusive_example =
    lease_exclusive digest others nothing_stored "settle" "a" "c" "t1" "t3" (whole 1000) (whole 10)
      10 100 1000 held lease_granted (inr (refl, omega arith), (tt, (inr refl, tt))) ten refl
      (omega arith)

-- Any order of the ids will do.
abbrev in_any_order : String → String → Bool
in_any_order left right = true

abbrev schedule : List (ℕ × Request ℕ)
schedule =
    (0, call (put_call "note" 5 none 100))
    ∷ (1, get_request "note")
    ∷ (1, call (put_call "note" 6 none 200))
    ∷ (0, changes_request 0)
    ∷ []

shared_file_refines_example :
    ((run_shared digest in_any_order schedule (λ p. nothing_stored) none).0
      ≡ (run_replies digest in_any_order (map (λ step. step.1) schedule) (contents none)).0)
    × (contents (run_shared digest in_any_order schedule (λ p. nothing_stored) none).1
        ≡ (run_replies digest in_any_order (map (λ step. step.1) schedule) (contents none)).1)
shared_file_refines_example =
    shared_file_refines digest in_any_order schedule (λ p. nothing_stored) none

nine : previous_generation (some (codes "9-abc")) ≡ some 9
unfolding previous_generation read_ℕ
nine = refl

next_generation_example :
    previous_generation (some (next_revision digest (some (codes "9-abc")) 3 5)) ≡ some 10
next_generation_example = previous_generation-next_revision digest (some (codes "9-abc")) 3 5 9 nine
