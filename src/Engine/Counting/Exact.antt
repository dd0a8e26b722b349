-- ===== src/Engine/Counting/Exact.antt =====
-- How much each uid is charged.
use mathlib.Core.Path.{subst}
use ningshi.Engine.Usage.{member_uids}
use ningshi.Prelude.{
  ℕ, ◌≤◌, ◌+◌, ◌≡◌, refl, ap, ◌∙◌, inl, inr, String, Bool, true, false, not, ◌&&◌, List, [], ◌∷◌,
  Option, none, some, arith, ltb, eqb, eqb_iff, u64, contains, or_else, if◌then◌else◌, nat_key,
  string_key, Bool-cases,
}
use ningshi.Prelude.Map.{values, Map, get, get-insert}
use ningshi.Prelude.Set
use ningshi.Prelude.Set.{contains-insert}
use ningshi.Rules.{AppRule, GroupRule}
use ningshi.Engine.{Engine}
use ningshi.Engine.Counting.Targets.{has_limit, contains-duration_targets, has_limit-needs_usage}
use ningshi.Engine.Counting.{
  is_limited, elapsed_since, needs_usage, count_usage, needs_live_scan, count_up, insert_all,
  insert_found, app_targets, group_targets, duration_targets, count_one, count_all,
}

-- No uid stands twice.
abbrev pub IsUnique : List ℕ → Type 0
IsUnique [] = Unit
IsUnique (u ∷ us) = (contains us u ≡ false) × IsUnique us

insert-IsUnique : (us : List ℕ) (u : ℕ) → IsUnique us → IsUnique (Set.insert us u)
unfolding Set.insert
insert-IsUnique us u h = elim (Bool-cases (contains us u)) [
  | inl there ↦ rw there h
  | inr absent ↦ rw absent (absent, h)
]

insert_all-IsUnique : (out us : List ℕ) → IsUnique out → IsUnique (insert_all out us)
unfolding insert_all
insert_all-IsUnique out [] h = h
insert_all-IsUnique out (u ∷ us) h =
    insert_all-IsUnique (Set.insert out u) us (insert-IsUnique out u h)

if-IsUnique :
    (b : Bool) (us vs : List ℕ) → IsUnique us → IsUnique vs → IsUnique (if b then us else vs)
if-IsUnique true us vs h k = h
if-IsUnique false us vs h k = k

insert_found-IsUnique : (out : List ℕ) (o : Option ℕ) → IsUnique out → IsUnique (insert_found out o)
insert_found-IsUnique out none h = h
insert_found-IsUnique out (some u) h = insert-IsUnique out u h

get-count_up :
    (m : Map ℕ ℕ) (uid j elapsed : ℕ)
    → get (count_up m uid elapsed) j
      ≡ (if eqb uid j then some (u64 (or_else (get m uid) 0 + elapsed)) else get m j)
unfolding count_up
get-count_up m uid j elapsed = get-insert m uid j (u64 (or_else (get m uid) 0 + elapsed))

elapsed_since-le : (last : Option ℕ) (now : ℕ) → elapsed_since last now ≤ 60
unfolding elapsed_since
elapsed_since-le none now = omega arith
elapsed_since-le (some t) now = omega arith

-- What a uid counts after so many seconds, if it is charged.
abbrev pub charged : Bool → ℕ → ℕ → ℕ
charged b old elapsed = if b then u64 (old + elapsed) else old

-- One table over all targets.
abbrev charge_all : List ℕ → ℕ → List ℕ → Map ℕ ℕ → Map ℕ ℕ
charge_all hit elapsed [] m = m
charge_all hit elapsed (u ∷ us) m =
    charge_all hit elapsed us (if contains hit u then count_up m u elapsed else m)

charge_all_lem :
    (hit : List ℕ) (elapsed j : ℕ) (targets : List ℕ) (m : Map ℕ ℕ)
    → IsUnique targets
    → or_else (get (charge_all hit elapsed targets m) j) 0
      ≡ charged (contains targets j && contains hit j) (or_else (get m j) 0) elapsed
charge_all_lem hit elapsed j [] m h = refl
charge_all_lem hit elapsed j (u ∷ us) m h = charge_all_lem hit elapsed j us _ h.1 ∙ step
  where
    step :
        charged
          (contains us j && contains hit j)
          (or_else (get (if contains hit u then count_up m u elapsed else m) j) 0)
          elapsed
        ≡ charged (contains (u ∷ us) j && contains hit j) (or_else (get m j) 0) elapsed
    step = elim (Bool-cases (eqb u j)) [
      | inr ne ↦ ground (arith, get-count_up m u j elapsed)
      | inl same ↦
          let absent : contains us j ≡ false =
            subst (λ x. contains us x ≡ false) ((eqb_iff u j).0 same) h.0 in
          let seen : contains hit u ≡ contains hit j =
            ap (λ x. contains hit x) ((eqb_iff u j).0 same) in
          let usage : get m u ≡ get m j = ap (λ x. get m x) ((eqb_iff u j).0 same) in
          ground (arith, get-count_up m u j elapsed)
    ]

module _ {M : Type 0} where
  app_targets-IsUnique :
      (e : Engine M) (apps : Map String AppRule) (out : List ℕ)
      → IsUnique out
      → IsUnique (app_targets e apps out)
  unfolding app_targets
  app_targets-IsUnique e [] out h = h
  app_targets-IsUnique e ((key, app) ∷ apps) out h = app_targets-IsUnique e apps _ (
      if-IsUnique (app.enabled && is_limited app.rules) (insert_found out (get e.uid_of key)) out
        (insert_found-IsUnique out (get e.uid_of key) h) h)

  group_targets-IsUnique :
      (e : Engine M) (groups : List GroupRule) (out : List ℕ)
      → IsUnique out
      → IsUnique (group_targets e groups out)
  unfolding group_targets
  group_targets-IsUnique e [] out h = h
  group_targets-IsUnique e (g ∷ groups) out h = group_targets-IsUnique e groups _ (
      if-IsUnique (not g.enabled) out _ h (
        if-IsUnique (eqb g.rules.duration.limit_minutes 0) out _ h
          (insert_all-IsUnique out (member_uids e g.members) h)))

  pub duration_targets-IsUnique : (e : Engine M) → IsUnique (duration_targets e)
  unfolding duration_targets
  duration_targets-IsUnique e =
      group_targets-IsUnique e (values e.rules.groups) _ (app_targets-IsUnique e e.rules.apps [] tt)

  usage_seconds-count_all :
      (live fg : List ℕ) (elapsed : ℕ) (targets : List ℕ) (e : Engine M)
      → (count_all live fg elapsed targets e).usage_seconds
        ≡ charge_all live elapsed targets e.usage_seconds
  unfolding count_all count_one
  usage_seconds-count_all live fg elapsed [] e = refl
  usage_seconds-count_all live fg elapsed (u ∷ us) e =
      usage_seconds-count_all live fg elapsed us (count_one live fg elapsed u e)

  usage_fg-count_all :
      (live fg : List ℕ) (elapsed : ℕ) (targets : List ℕ) (e : Engine M)
      → (count_all live fg elapsed targets e).usage_fg ≡ charge_all fg elapsed targets e.usage_fg
  unfolding count_all count_one
  usage_fg-count_all live fg elapsed [] e = refl
  usage_fg-count_all live fg elapsed (u ∷ us) e =
      usage_fg-count_all live fg elapsed us (count_one live fg elapsed u e)

  module _ (e : Engine M) (j : ℕ) (hit : List ℕ) (elapsed : ℕ) where
    -- The targets are those with a limit.
    charged_limited :
        (m m' : Map ℕ ℕ)
        → m' ≡ (
            if ltb 0 elapsed && needs_usage e
            then charge_all hit elapsed (duration_targets e) m
            else m)
        → or_else (get m' j) 0
          ≡ charged (ltb 0 elapsed && has_limit e j && contains hit j) (or_else (get m j) 0) elapsed
    charged_limited m m' same =
        ap (λ (x : Map ℕ ℕ). or_else (get x j) 0) same
        ∙ ground (
          arith,
          charge_all_lem hit elapsed j (duration_targets e) m (duration_targets-IsUnique e),
          contains-duration_targets e j,
          has_limit-needs_usage e j,
        )

  -- A tick charges the seconds since the last tick, 60 at most, to exactly the uids that have a limit
  -- by an enabled rule, once each: to the general count if the snapshot has the uid among those
  -- alive, and to the foreground count if it has it among those in front. All other uids keep both
  -- counts. The snapshot may report anything.
  pub count_usage-charged :
      (snapshot : Bool → List ℕ → List ℕ × List ℕ) (now : ℕ) (e : Engine M) (j : ℕ)
      → let elapsed = elapsed_since e.last_tick now in
        let (live, fg) = snapshot (needs_live_scan e) (duration_targets e) in
        let e' = count_usage snapshot now e in
        (elapsed ≤ 60)
        × (or_else (get e'.usage_seconds j) 0
            ≡ charged
                (ltb 0 elapsed && has_limit e j && contains live j)
                (or_else (get e.usage_seconds j) 0)
                elapsed)
        × (or_else (get e'.usage_fg j) 0
            ≡ charged
                (ltb 0 elapsed && has_limit e j && contains fg j)
                (or_else (get e.usage_fg j) 0)
                elapsed)
  unfolding count_usage
  count_usage-charged snapshot now e j =
      let (live, fg) = snapshot (needs_live_scan e) (duration_targets e) in
      let elapsed = elapsed_since e.last_tick now in
      let begun = record e { last_tick = some now } in
      (
        elapsed_since-le e.last_tick now,
        charged_limited e j live elapsed e.usage_seconds (count_usage snapshot now e).usage_seconds
            (elim (Bool-cases (ltb 0 elapsed && needs_usage e)) [
              | inl runs ↦
                  rw runs (usage_seconds-count_all live fg elapsed (duration_targets e) begun)
              | inr idle ↦ rw idle refl
            ]),
        charged_limited e j fg elapsed e.usage_fg (count_usage snapshot now e).usage_fg
            (elim (Bool-cases (ltb 0 elapsed && needs_usage e)) [
              | inl runs ↦ rw runs (usage_fg-count_all live fg elapsed (duration_targets e) begun)
              | inr idle ↦ rw idle refl
            ]),
      )
