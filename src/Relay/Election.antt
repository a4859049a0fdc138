-- ===== src/Relay/Election.antt =====
-- The election of the settlement leader: it is one of the active relays, it fails over in order, and
-- every relay that lists the same members, in whatever order, elects the same leader.
use proof_cli_baran.Prelude.Sorting.{insert_sorted_comm}
use mathlib.Core.List.{Perm, Permᴰ}
use mathlib.Core.Logic.{∥∥₁_elim}
use Prim.Native.Nat.{Ordering}
use proof_cli_baran.Prelude.{
  ◌≡◌, refl, ap, ◌∙◌, Bool, true, false, ◌||◌, List, [], ◌∷◌, arith, if◌then◌else◌, All, sort,
  insert_sorted, Listed, All-Listed,
}
use proof_cli_baran.Prelude.Text.{Text, text_eq, text_eq_iff, mem_text}
use proof_cli_baran.Relay.Leadership.{
  RelayLeadershipMember, active_unique_from, before, SettlementLeadershipInput, is_skipped,
  select_settlement_leader, ordered_settlement_relay_ids, settlement_leadership_seed, elect,
}

-- `localeCompare` as an order of texts, in which different texts may compare as equal.
pub record IsLocaleOrder (compare : Text → Text → Ordering) : Type 0 where
  pub lt_flip : (a b : Text) → compare a b ≡ Ordering.lt → compare b a ≡ Ordering.gt
  pub gt_flip : (a b : Text) → compare a b ≡ Ordering.gt → compare b a ≡ Ordering.lt
  pub eq_left : (a b c : Text) → compare a b ≡ Ordering.eq → compare a c ≡ compare b c
  pub eq_right : (a b c : Text) → compare a b ≡ Ordering.eq → compare c a ≡ compare c b
  pub lt_trans :
      (a b c : Text)
      → compare a b ≡ Ordering.lt
      → compare b c ≡ Ordering.lt
      → compare a c ≡ Ordering.lt

-- Of these ids, no two different ones compare as equal.
abbrev pub TellsApart : (Text → Text → Ordering) → List RelayLeadershipMember → Type 0
TellsApart compare rs =
    (a b : RelayLeadershipMember)
    → Listed a rs
    → Listed b rs
    → compare a.relay_id b.relay_id ≡ Ordering.eq
    → a.relay_id ≡ b.relay_id

module _ (score : Text → Text → Text) (compare : Text → Text → Ordering) (o : IsLocaleOrder compare)
    (seed : Text) where
  before_total :
      (a b : Text) → before score compare seed a b ≡ false → before score compare seed b a ≡ true
  unfolding before
  before_total a b h = ground (
    arith,
    o.gt_flip (score seed a) (score seed b),
    o.lt_flip (score seed b) (score seed a),
    o.gt_flip (score seed b) (score seed a),
    o.gt_flip a b,
  )

  before_antisymmetric :
      (a b : Text)
      → (compare a b ≡ Ordering.eq → a ≡ b)
      → before score compare seed a b ≡ true
      → before score compare seed b a ≡ true
      → a ≡ b
  unfolding before
  before_antisymmetric a b apart h k = ground (
    arith,
    o.lt_flip (score seed a) (score seed b),
    o.lt_flip (score seed b) (score seed a),
    o.lt_flip a b,
    apart,
  )

  before_transitive :
      (a b c : Text)
      → before score compare seed a b ≡ true
      → before score compare seed b c ≡ true
      → before score compare seed a c ≡ true
  unfolding before
  before_transitive a b c h k = ground (
    arith,
    o.lt_trans (score seed a) (score seed b) (score seed c),
    o.eq_left (score seed a) (score seed b) (score seed c),
    o.eq_right (score seed b) (score seed c) (score seed a),
    o.lt_trans a b c,
    o.eq_left a b c,
    o.eq_right b c a,
  )

-- Two lists of the ids seen so far that answer alike.
abbrev SameSeen : List Text → List Text → Type 0
SameSeen s t = (a : Text) → mem_text a s ≡ mem_text a t

SameSeen-cons : (x : Text) (s t : List Text) → SameSeen s t → SameSeen (x ∷ s) (x ∷ t)
unfolding mem_text
SameSeen-cons x s t h a = ap (λ b. text_eq a x || b) (h a)

SameSeen-swap : (x y : Text) (s : List Text) → SameSeen (x ∷ y ∷ s) (y ∷ x ∷ s)
unfolding mem_text
SameSeen-swap x y s a = ground arith

active_unique_from-SameSeen :
    (s t : List Text) (rs : List RelayLeadershipMember)
    → SameSeen s t
    → active_unique_from s rs ≡ active_unique_from t rs
unfolding active_unique_from
active_unique_from-SameSeen s t [] h = refl
active_unique_from-SameSeen s t (r ∷ rs) h = ground (
  arith,
  h r.relay_id,
  active_unique_from-SameSeen s t rs h,
  active_unique_from-SameSeen (r.relay_id ∷ s) (r.relay_id ∷ t) rs (SameSeen-cons r.relay_id s t h),
)

module _ (le : Text → Text → Bool) where
  -- The ids in the order of the election.
  abbrev ranked : List Text → List RelayLeadershipMember → List Text
  ranked seen rs = sort le (active_unique_from seen rs)

  ranked-cons :
      (s : List Text) (r : RelayLeadershipMember) (rs : List RelayLeadershipMember)
      → ranked s (r ∷ rs) ≡ (
          if is_skipped r || mem_text r.relay_id s
          then ranked s rs
          else insert_sorted le r.relay_id (ranked (r.relay_id ∷ s) rs))
  unfolding active_unique_from sort
  ranked-cons s r rs = ground arith

  module _ (Known : Text → Type 0)
      (comm : (a b : Text) (xs : List Text)
        → Known a
        → Known b
        → insert_sorted le a (insert_sorted le b xs)
          ≡ insert_sorted le b (insert_sorted le a xs)) where
    ranked-swap :
        (s : List Text) (a b : RelayLeadershipMember) (l : List RelayLeadershipMember)
        → Known a.relay_id
        → Known b.relay_id
        → ranked s (a ∷ b ∷ l) ≡ ranked s (b ∷ a ∷ l)
    unfolding mem_text
    ranked-swap s a b l ka kb = ground (
      arith,
      ranked-cons s a (b ∷ l),
      ranked-cons s b (a ∷ l),
      ranked-cons s b l,
      ranked-cons s a l,
      ranked-cons (a.relay_id ∷ s) b l,
      ranked-cons (b.relay_id ∷ s) a l,
      text_eq_iff a.relay_id b.relay_id,
      text_eq_iff b.relay_id a.relay_id,
      comm a.relay_id b.relay_id (ranked (b.relay_id ∷ a.relay_id ∷ s) l) ka kb,
      active_unique_from-SameSeen (b.relay_id ∷ a.relay_id ∷ s) (a.relay_id ∷ b.relay_id ∷ s) l
          (SameSeen-swap b.relay_id a.relay_id s),
    )

    All-Permᴰ :
        {rs ts : List RelayLeadershipMember}
        → Permᴰ rs ts
        → All (λ r. Known r.relay_id) rs
        → All (λ r. Known r.relay_id) ts
    All-Permᴰ Permᴰ.nil h = h
    All-Permᴰ (Permᴰ.cons e p) (k, h) = (rw (← e) k, All-Permᴰ p h)
    All-Permᴰ (Permᴰ.swap e f) (k, (j, h)) = rw (← e, ← f) (j, (k, h))
    All-Permᴰ (Permᴰ.trans p q) h = All-Permᴰ q (All-Permᴰ p h)

    ranked-Permᴰ :
        (s : List Text) {rs ts : List RelayLeadershipMember}
        → Permᴰ rs ts
        → All (λ r. Known r.relay_id) rs
        → ranked s rs ≡ ranked s ts
    ranked-Permᴰ s Permᴰ.nil h = refl
    ranked-Permᴰ s (Permᴰ.cons {a} {b} {l₁ = l} {l₂ = m} e p) (k, h) = rw (
      ranked-cons s a l,
      ranked-cons s b m,
      e,
      ranked-Permᴰ s p h,
      ranked-Permᴰ (b.relay_id ∷ s) p h,
    )
    ranked-Permᴰ s (Permᴰ.swap {a} {b} {l} e f) (k, (j, h)) =
        rw (← e, ← f) (ranked-swap s a b l k j)
    ranked-Permᴰ s (Permᴰ.trans p q) h = ranked-Permᴰ s p h ∙ ranked-Permᴰ s q (All-Permᴰ p h)

-- The id of a listed relay.
abbrev IdOf : List RelayLeadershipMember → Text → Type 0
IdOf rs a = (r : RelayLeadershipMember) × Listed r rs × (r.relay_id ≡ a)

texts_set : IsSet (List Text)
texts_set = hlevel

-- Two inputs that differ in the order of their members alone, so that the seeds agree too.
abbrev pub with_relays :
    SettlementLeadershipInput → List RelayLeadershipMember → SettlementLeadershipInput
with_relays input rs = record input { relays = rs }

module _ (score : Text → Text → Text) (compare : Text → Text → Ordering)
    (o : IsLocaleOrder compare) where
  before_comm :
      (rs : List RelayLeadershipMember) (seed a b : Text) (xs : List Text)
      → TellsApart compare rs
      → IdOf rs a
      → IdOf rs b
      → insert_sorted (before score compare seed) a (insert_sorted (before score compare seed) b xs)
        ≡ insert_sorted
            (before score compare seed)
            b
            (insert_sorted (before score compare seed) a xs)
  before_comm rs seed a b xs apart (q, lq, eq) (r, lr, er) =
      insert_sorted_comm (before score compare seed) (before_total score compare o seed)
        (before_transitive score compare o seed) a b xs
        (before_antisymmetric score compare o seed a b (rw (← eq, ← er) (apart q r lq lr)))

  -- Every relay that lists the same members, in whatever order, selects the same leader with the
  -- same order of succession (or fails alike), provided that `localeCompare` is an order of texts and
  -- that it tells the ids of the listed members apart.
  pub select_settlement_leader-perm :
      (input : SettlementLeadershipInput) (rs ts : List RelayLeadershipMember)
      → TellsApart compare rs
      → Perm rs ts
      → select_settlement_leader score compare (with_relays input rs)
        ≡ select_settlement_leader score compare (with_relays input ts)
  unfolding select_settlement_leader ordered_settlement_relay_ids settlement_leadership_seed elect
  select_settlement_leader-perm input rs ts apart p =
      let seed = settlement_leadership_seed input in
      let le = before score compare seed in
      let known : All (λ r. IdOf rs r.relay_id) rs =
        All-Listed (λ r. IdOf rs r.relay_id) rs (λ r l. (r, l, refl)) in
      let ids : ranked le [] rs ≡ ranked le [] ts =
        ∥∥₁_elim p (texts_set (ranked le [] rs) (ranked le [] ts)) (λ d.
          ranked-Permᴰ le (IdOf rs) (λ a b xs ka kb. before_comm rs seed a b xs apart ka kb) [] d
            known) in
      rw ids
