-- ===== src/Acurast/Tests.antt =====
-- The audits of Acurast environments at concrete inputs.
use proof_cli_baran.Prelude.{◌≤◌, ◌≡◌, ◌↔◌, List, [], ◌∷◌, length, All}
use Prim.Native.String.{String}
use proof_cli_baran.Acurast.EnvBudget.{
  audit_acurast_env, audit_acurast_env_key_set, accepted, FitsKey, FitsEntry, audit_acurast_env_iff,
  audit_acurast_env_key_set_iff,
}

abbrev env : List (String × String)
env = ("RELAY_ID", "relay-1") ∷ ("REGISTRY", "0x12") ∷ []

audit_acurast_env_iff_example :
    (audit_acurast_env env "relay" ≡ accepted) ↔ ((length env ≤ 10) × All FitsEntry env)
audit_acurast_env_iff_example = audit_acurast_env_iff env "relay"

abbrev keys : List String
keys = "RELAY_ID" ∷ []

audit_acurast_env_key_set_iff_example :
    (audit_acurast_env_key_set keys "relay" ≡ accepted) ↔ ((length keys ≤ 10) × All FitsKey keys)
audit_acurast_env_key_set_iff_example = audit_acurast_env_key_set_iff keys "relay"
