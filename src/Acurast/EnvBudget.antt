-- ===== src/Acurast/EnvBudget.antt =====
-- src/switchboard-core/src/acurast-env-budget.ts: the limits on a job's environment. `len` counts the
-- bytes of a text in UTF-8, as `Buffer.byteLength` does.
use Prim.Native.String.{String, len}
use proof_cli_baran.Prelude.{
  ℕ, ◌≤◌, ◌≡◌, refl, ◌↔◌, List, [], ◌∷◌, ◌++◌, arith, ltb, if◌then◌else◌, length, All,
}

abbrev pub acurast_max_env_vars : ℕ
acurast_max_env_vars = 10

abbrev pub acurast_env_key_max_bytes : ℕ
acurast_env_key_max_bytes = 32

abbrev pub acurast_env_value_max_bytes : ℕ
acurast_env_value_max_bytes = 996

pub data Violation : Type 0 where
  count : ℕ → Violation
  key : String → ℕ → Violation
  value : String → ℕ → Violation

-- The error names the source and the violations in order.
pub data Audit : Type 0 where
  accepted : Audit
  refused : String → List Violation → Audit

count_violations : ℕ → List Violation
count_violations n = if ltb acurast_max_env_vars n then count n ∷ [] else []

key_violations : String → List Violation
key_violations k = if ltb acurast_env_key_max_bytes (len k) then key k (len k) ∷ [] else []

value_violations : String → String → List Violation
value_violations k v = if ltb acurast_env_value_max_bytes (len v) then value k (len v) ∷ [] else []

entry_violations : List (String × String) → List Violation
unfolding key_violations value_violations
entry_violations [] = []
entry_violations ((k, v) ∷ entries) =
    key_violations k ++ (value_violations k v ++ entry_violations entries)

keys_violations : List String → List Violation
unfolding key_violations
keys_violations [] = []
keys_violations (k ∷ ks) = key_violations k ++ keys_violations ks

verdict : String → List Violation → Audit
verdict source [] = accepted
verdict source (v ∷ vs) = refused source (v ∷ vs)

unfoldable pub audit_acurast_env : List (String × String) → String → Audit
unfolding count_violations entry_violations verdict
audit_acurast_env env source =
    verdict source (count_violations (length env) ++ entry_violations env)

unfoldable pub audit_acurast_env_key_set : List String → String → Audit
unfolding count_violations keys_violations verdict
audit_acurast_env_key_set keys source =
    verdict source (count_violations (length keys) ++ keys_violations keys)

abbrev pub FitsKey : String → Type 0
FitsKey k = len k ≤ acurast_env_key_max_bytes

abbrev pub FitsEntry : String × String → Type 0
FitsEntry e = FitsKey e.0 × (len e.1 ≤ acurast_env_value_max_bytes)

append-eq-nil : (xs ys : List Violation) → ((xs ++ ys) ≡ []) ↔ ((xs ≡ []) × (ys ≡ []))
append-eq-nil [] ys = (λ e. (refl, e), λ p. p.1)
append-eq-nil (x ∷ xs) ys = (λ e. absurd (cc e), λ p. absurd (cc p.0))

verdict-accepted :
    (source : String) (vs : List Violation) → (verdict source vs ≡ accepted) ↔ (vs ≡ [])
unfolding verdict
verdict-accepted source [] = (λ e. refl, λ e. refl)
verdict-accepted source (v ∷ vs) = (λ e. absurd (cc e), λ e. absurd (cc e))

count_violations-nil : (n : ℕ) → (count_violations n ≡ []) ↔ (n ≤ acurast_max_env_vars)
unfolding count_violations
count_violations-nil n = (λ e. ground arith, λ h. ground arith)

key_violations-nil : (k : String) → (key_violations k ≡ []) ↔ FitsKey k
unfolding key_violations
key_violations-nil k = (λ e. ground arith, λ h. ground arith)

value_violations-nil :
    (k v : String) → (value_violations k v ≡ []) ↔ (len v ≤ acurast_env_value_max_bytes)
unfolding value_violations
value_violations-nil k v = (λ e. ground arith, λ h. ground arith)

entry_violations-nil :
    (env : List (String × String)) → (entry_violations env ≡ []) ↔ All FitsEntry env
unfolding entry_violations
entry_violations-nil [] = (λ e. tt, λ h. refl)
entry_violations-nil ((k, v) ∷ env) =
    let both = append-eq-nil (key_violations k) (value_violations k v ++ entry_violations env) in
    let later = append-eq-nil (value_violations k v) (entry_violations env) in
    (
      λ e.
          let (here, rest) = both.0 e in
          let (there, more) = later.0 rest in
          (
            ((key_violations-nil k).0 here, (value_violations-nil k v).0 there),
            (entry_violations-nil env).0 more,
          ),
      λ (fits, more). both.1 (
        (key_violations-nil k).1 fits.0,
        later.1 ((value_violations-nil k v).1 fits.1, (entry_violations-nil env).1 more),
      ),
    )

keys_violations-nil : (ks : List String) → (keys_violations ks ≡ []) ↔ All FitsKey ks
unfolding keys_violations
keys_violations-nil [] = (λ e. tt, λ h. refl)
keys_violations-nil (k ∷ ks) =
    let both = append-eq-nil (key_violations k) (keys_violations ks) in
    (
      λ e. ((key_violations-nil k).0 (both.0 e).0, (keys_violations-nil ks).0 (both.0 e).1),
      λ (fits, more). both.1 ((key_violations-nil k).1 fits, (keys_violations-nil ks).1 more),
    )

-- An environment is accepted exactly when it has at most ten variables, every key has at most 32
-- bytes and every value at most 996.
pub audit_acurast_env_iff :
    (env : List (String × String)) (source : String)
    → (audit_acurast_env env source ≡ accepted) ↔ ((length env ≤ 10) × All FitsEntry env)
unfolding audit_acurast_env
audit_acurast_env_iff env source =
    let vs = verdict-accepted source (count_violations (length env) ++ entry_violations env) in
    let both = append-eq-nil (count_violations (length env)) (entry_violations env) in
    (
      λ e.
          let (few, fit) = both.0 (vs.0 e) in
          ((count_violations-nil (length env)).0 few, (entry_violations-nil env).0 fit),
      λ (few, fit).
          vs.1
            (both.1 ((count_violations-nil (length env)).1 few, (entry_violations-nil env).1 fit)),
    )

-- The audit of the keys alone accepts exactly what the audit of an environment says of its keys.
pub audit_acurast_env_key_set_iff :
    (keys : List String) (source : String)
    → (audit_acurast_env_key_set keys source ≡ accepted) ↔ ((length keys ≤ 10) × All FitsKey keys)
unfolding audit_acurast_env_key_set
audit_acurast_env_key_set_iff keys source =
    let vs = verdict-accepted source (count_violations (length keys) ++ keys_violations keys) in
    let both = append-eq-nil (count_violations (length keys)) (keys_violations keys) in
    (
      λ e.
          let (few, fit) = both.0 (vs.0 e) in
          ((count_violations-nil (length keys)).0 few, (keys_violations-nil keys).0 fit),
      λ (few, fit).
          vs.1
            (both.1 ((count_violations-nil (length keys)).1 few, (keys_violations-nil keys).1 fit)),
    )
