-- ===== src/Relay/Authority.antt =====
-- When a relay may hold authority, that it never regains it by waiting, and the earliest end.
use proof_cli_baran.Prelude.{
  ℕ, ◌+◌, ◌≤◌, ◌<◌, ◌≡◌, refl, sym, ap, ◌∙◌, ◌↔◌, inl, inr, Bool, true, false, Option, none, some,
  List, [], ◌∷◌, arith, leb, ◌==◌, Bool-cases, Option-cases, any, All, sort, List-cases,
}
use proof_cli_baran.Prelude.Text.{Text}
use proof_cli_baran.Prelude.Number.{pos, sub_ℕ, leb_ℤ}
use proof_cli_baran.Prelude.Sorting.{sort-All, any-sort, sort-eq-nil, Rising-sort}
use proof_cli_baran.Relay.Lifecycle.{
  RelayAuthorityState, authority_eligible, draining, expired, unknown, RelayLifecycleConfig,
  normalize_schedule_end_ms, normalize_authority_runway_ms, classify_at, classify_relay_lifecycle,
  RelayScheduleEndCandidate, ValidEnd, valid_ends, by_end, select_earliest_relay_schedule_end,
  is_eligible,
}

-- The runway that counts for a configuration.
abbrev pub runway : RelayLifecycleConfig → ℕ
runway c = normalize_authority_runway_ms c.authority_runway_ms

is_eligible_iff :
    (end run now : ℕ) → (is_eligible (classify_at end run now) ≡ true) ↔ (now + run < end)
unfolding classify_at is_eligible
is_eligible_iff end run now = (λ e. ground arith, λ h. ground arith)

is_eligible-state : (s : RelayAuthorityState) → (is_eligible s ≡ true) ↔ (s ≡ authority_eligible)
unfolding is_eligible
is_eligible-state authority_eligible = (λ e. refl, λ e. refl)
is_eligible-state draining = (λ e. absurd (cc e), λ e. ap is_eligible e)
is_eligible-state expired = (λ e. absurd (cc e), λ e. ap is_eligible e)
is_eligible-state unknown = (λ e. absurd (cc e), λ e. ap is_eligible e)

flag_iff :
    (c : RelayLifecycleConfig) (now : ℕ)
    → ((classify_relay_lifecycle (some c) now).authority_eligible_flag ≡ true) ↔ (
        (end : ℕ) × (normalize_schedule_end_ms c.schedule_end_ms ≡ some end)
        × (now + runway c < end))
unfolding classify_relay_lifecycle
flag_iff c now = elim (Option-cases (normalize_schedule_end_ms c.schedule_end_ms)) [
  | inl missing ↦ (
    λ e. absurd (cc (rw (missing, classify_relay_lifecycle) at e)),
    λ (end, known, _). absurd (cc (sym missing ∙ known)),
  )
  | inr (end, known) ↦
      let iff = is_eligible_iff end (runway c) now in
      (
        λ e. (end, known, iff.0 (rw (known, classify_relay_lifecycle) at e)),
        λ (other, known', fits).
            let same : end ≡ other = cc (sym known ∙ known') in
            rw (known, classify_relay_lifecycle) (iff.1 (rw same fits)),
      )
]

-- The flag of a relay and its state say the same.
flag_state :
    (c : RelayLifecycleConfig) (now : ℕ)
    → ((classify_relay_lifecycle (some c) now).authority_eligible_flag ≡ true)
      ↔ ((classify_relay_lifecycle (some c) now).state ≡ authority_eligible)
unfolding classify_relay_lifecycle
flag_state c now = elim (Option-cases (normalize_schedule_end_ms c.schedule_end_ms)) [
  | inl missing ↦ rw (missing, classify_relay_lifecycle) (is_eligible-state unknown)
  | inr (end, known) ↦
      rw (known, classify_relay_lifecycle) (is_eligible-state (classify_at end (runway c) now))
]

-- A relay with a configuration is eligible exactly when its schedule end is known and the runway
-- before that end has not begun, and its state says the same as its flag.
pub eligible_iff :
    (c : RelayLifecycleConfig) (now : ℕ)
    → (((classify_relay_lifecycle (some c) now).authority_eligible_flag ≡ true) ↔ (
        (end : ℕ) × (normalize_schedule_end_ms c.schedule_end_ms ≡ some end)
        × (now + runway c < end)))
      × (((classify_relay_lifecycle (some c) now).authority_eligible_flag ≡ true)
          ↔ ((classify_relay_lifecycle (some c) now).state ≡ authority_eligible))
eligible_iff c now = (flag_iff c now, flag_state c now)

-- How a state may change as time passes.
pub data MovesTo : RelayAuthorityState → RelayAuthorityState → Type 0 where
  stays : {s : RelayAuthorityState} → MovesTo s s
  eligible_drains : MovesTo authority_eligible draining
  eligible_expires : MovesTo authority_eligible expired
  draining_expires : MovesTo draining expired

classify_at-MovesTo :
    (end run now later : ℕ)
    → now ≤ later
    → MovesTo (classify_at end run now) (classify_at end run later)
unfolding classify_at
classify_at-MovesTo end run now later h = elim (Bool-cases (leb end now)) [
  | inl over ↦ let still : leb end later ≡ true = ground arith in rw (over, still) stays
  | inr before ↦ elim (Bool-cases (leb end later)) [
    | inl over ↦ elim (Bool-cases (leb_ℤ (sub_ℕ end run) (pos now))) [
      | inl short ↦ rw (before, over, short) draining_expires
      | inr long ↦ rw (before, over, long) eligible_expires
    ]
    | inr ahead ↦ elim (Bool-cases (leb_ℤ (sub_ℕ end run) (pos now))) [
      | inl short ↦
          let still : leb_ℤ (sub_ℕ end run) (pos later) ≡ true = ground arith in
          rw (before, ahead, short, still) stays
      | inr long ↦ elim (Bool-cases (leb_ℤ (sub_ℕ end run) (pos later))) [
        | inl short ↦ rw (before, ahead, long, short) eligible_drains
        | inr still ↦ rw (before, ahead, long, still) stays
      ]
    ]
  ]
]

-- As time passes the state of a relay only moves from eligible to draining to expired, and an
-- unknown schedule stays unknown: authority once lost does not come back.
pub classify_mono :
    (c : Option RelayLifecycleConfig) (now later : ℕ)
    → now ≤ later
    → MovesTo (classify_relay_lifecycle c now).state (classify_relay_lifecycle c later).state
unfolding classify_relay_lifecycle
classify_mono none now later h = stays
classify_mono (some c) now later h =
    elim (Option-cases (normalize_schedule_end_ms c.schedule_end_ms)) [
      | inl missing ↦ rw (missing, classify_relay_lifecycle) stays
      | inr (end, known) ↦
          rw (known, classify_relay_lifecycle) (classify_at-MovesTo end (runway c) now later h)
    ]

-- The selected end is none exactly when no candidate has a valid one; a selected end is that of a
-- valid candidate and no valid end is earlier.
abbrev pub IsFirstEnd : Option ℕ → List ValidEnd → Type 0
IsFirstEnd none ends = ends ≡ []
IsFirstEnd (some e) ends =
    (any (λ c. c.schedule_end_ms == e) ends ≡ true) × All (λ c. e ≤ c.schedule_end_ms) ends

module _ (locale_le : Text → Text → Bool) where
  upward : (a b : ValidEnd) → by_end locale_le a b ≡ true → a.schedule_end_ms ≤ b.schedule_end_ms
  upward a b h = ground arith

  downward : (a b : ValidEnd) → by_end locale_le a b ≡ false → b.schedule_end_ms ≤ a.schedule_end_ms
  downward a b h = ground arith

  IsFirstEnd-first :
      (ends : List ValidEnd) (first : ValidEnd) (rest : List ValidEnd)
      → sort (by_end locale_le) ends ≡ first ∷ rest
      → IsFirstEnd (some first.schedule_end_ms) ends
  IsFirstEnd-first ends first rest e = (
    sym (any-sort (by_end locale_le) (λ c. c.schedule_end_ms == first.schedule_end_ms) ends)
        ∙ ap (any (λ c. c.schedule_end_ms == first.schedule_end_ms)) e
        ∙ ground arith,
    sort-All (by_end locale_le) (λ c. first.schedule_end_ms ≤ c.schedule_end_ms) ends
        (rw e (
          omega arith,
          (rw e at
              (Rising-sort (by_end locale_le) (λ c. c.schedule_end_ms) upward downward ends)).0,
        )),
  )

  -- The selected end is none exactly when no candidate has a valid end; otherwise it is the end of
  -- a valid candidate, and no valid candidate ends earlier. Any order of the sources will do.
  pub select_earliest_relay_schedule_end-IsFirstEnd :
      (candidates : List RelayScheduleEndCandidate)
      → IsFirstEnd
          (select_earliest_relay_schedule_end locale_le candidates).schedule_end_ms
          (valid_ends candidates)
  unfolding select_earliest_relay_schedule_end
  select_earliest_relay_schedule_end-IsFirstEnd candidates =
      elim (List-cases (sort (by_end locale_le) (valid_ends candidates))) [
        | inl nothing ↦ rw nothing (sort-eq-nil (by_end locale_le) (valid_ends candidates) nothing)
        | inr (first, rest, e) ↦ rw e (IsFirstEnd-first (valid_ends candidates) first rest e)
      ]
