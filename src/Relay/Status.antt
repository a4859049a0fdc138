-- ===== src/Relay/Status.antt =====
-- The probe of a relay (src/switchboard-core/cli/src/relay/status.ts). What a request gives, and what
-- `JSON.parse` makes of a text, are parameters.
use proof_cli_baran.Prelude.{
  ℕ, Bool, true, false, ◌&&◌, Option, none, some, List, [], ◌∷◌, ◌++◌, if◌then◌else◌,
}
use proof_cli_baran.Prelude.Text.{Text, codes}
use proof_cli_baran.Discovery.Catalogs.{strip_slashes, is_false, RelayCatalogInputEntry}
use proof_cli_baran.Discovery.Types.{ServiceState, disabled, active}

-- The text of a response, or the message of the error in reading it.
pub data BodyText : Type 0 where
  read : Text → BodyText
  unread : Text → BodyText

-- A response (success, status, duration and body), or how long a request took that failed, and why.
pub data Fetched : Type 0 where
  response : Bool → ℕ → ℕ → BodyText → Fetched
  no_response : ℕ → Text → Fetched

pub data ParseError : Type 0 where
  failed_to_parse_json : Text → ParseError
  request_error : Text → ParseError

pub record ProbeOutcome (Json : Type 0) : Type 0 where
  pub url : Text
  pub ok : Bool
  pub http_status : Option ℕ
  pub duration_ms : ℕ
  pub error : Option ParseError
  pub body : Option Json

pub record RelayStatusResult (Json : Type 0) : Type 0 where
  pub relay_id : Text
  pub api_base_url : Text
  pub state : ServiceState
  pub health : ProbeOutcome Json
  pub relay_status : ProbeOutcome Json
  pub relay_catalog : ProbeOutcome Json

-- What `JSON.parse` gives: a value, or the message of its error.
pub data Parsed (Json : Type 0) : Type 0 where
  value : Json → Parsed Json
  no_value : Text → Parsed Json

module _ {Json : Type 0} (parse_json : Text → Parsed Json) where
  body_outcome : Text → ℕ → ℕ → BodyText → ProbeOutcome Json
  body_outcome url status duration (unread why) = record {
    url = url;
    ok = true;
    http_status = some status;
    duration_ms = duration;
    error = some (failed_to_parse_json why);
    body = none;
  }
  body_outcome url status duration (read []) = record {
    url = url;
    ok = true;
    http_status = some status;
    duration_ms = duration;
    error = none;
    body = none;
  }
  body_outcome url status duration (read (c ∷ s)) = elim (parse_json (c ∷ s)) [
    | value v ↦ record {
      url = url;
      ok = true;
      http_status = some status;
      duration_ms = duration;
      error = none;
      body = some v;
    }
    | no_value why ↦ record {
      url = url;
      ok = true;
      http_status = some status;
      duration_ms = duration;
      error = some (failed_to_parse_json why);
      body = none;
    }
  ]

  unfoldable pub probe_json : Text → Fetched → ProbeOutcome Json
  unfolding body_outcome
  probe_json url (response true status duration body) = body_outcome url status duration body
  probe_json url (response false status duration body) = record {
    url = url;
    ok = false;
    http_status = some status;
    duration_ms = duration;
    error = none;
    body = none;
  }
  probe_json url (no_response duration why) = record {
    url = url;
    ok = false;
    http_status = none;
    duration_ms = duration;
    error = some (request_error why);
    body = none;
  }

  -- `entry.state ?? (entry.active === false ? "disabled" : "active")`
  abbrev pub entry_state : RelayCatalogInputEntry → ServiceState
  entry_state entry = elim entry.state [
    | none ↦ (if is_false entry.active_flag then disabled else active)
    | some state ↦ state
  ]

  -- The three requests are made at once: `fetch_all` gives what each of them gave.
  unfoldable pub probe_relay {ℓ} :
      {W : Type ℓ}
      → (ℕ → List Text → W → (Text → Fetched) × W)
      → RelayCatalogInputEntry
      → Option ℕ
      → W
      → RelayStatusResult Json × W
  unfolding probe_json strip_slashes
  probe_relay fetch_all entry timeout_ms w =
      let timeout : ℕ = elim timeout_ms [ none ↦ 5000 | some t ↦ t ] in
      let base : Text = strip_slashes entry.api_base_url in
      let health : Text = base ++ codes "/health" in
      let status : Text = base ++ codes "/v1/relay-status" in
      let catalog : Text = base ++ codes "/v1/service-catalogs/relay" in
      let (fetched, after) = fetch_all timeout (health ∷ status ∷ catalog ∷ []) w in
      (
        record {
          relay_id = entry.relay_id;
          api_base_url = entry.api_base_url;
          state = entry_state entry;
          health = probe_json health (fetched health);
          relay_status = probe_json status (fetched status);
          relay_catalog = probe_json catalog (fetched catalog);
        },
        after,
      )

  abbrev pub is_ready : RelayStatusResult Json → Bool
  is_ready probe = probe.health.ok && probe.relay_status.ok && probe.relay_catalog.ok
