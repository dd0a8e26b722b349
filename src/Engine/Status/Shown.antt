-- ===== src/Engine/Status/Shown.antt =====
-- What a client reads in the status about one app.
use ningshi.Prelude.{
  ℕ, ◌<◌, ◌≡◌, refl, ap, sym, ◌∙◌, inl, inr, String, [], ◌∷◌, Option, or_else, arith, eqb, eqb_iff,
  ==_refl, ==_ne, parse_u32, nat_key, string_key, ◌==◌, Bool-cases,
}
use ningshi.Prelude.Map.{Map, get}
use ningshi.Prelude.Decimal.{decimal, parse_u32-decimal}
use ningshi.Gate.Health.{GateHealth}
use ningshi.Engine.{Engine}
use ningshi.Engine.Status.{by_uid, status}

-- All uids have 32 bits.
abbrev pub HasUids : Map ℕ ℕ → Type 0
HasUids [] = Unit
HasUids ((uid, v) ∷ m) = (uid < 4294967296) × HasUids m

decimal_inj : (a b : ℕ) → a < 4294967296 → b < 4294967296 → decimal a ≡ decimal b → a ≡ b
decimal_inj a b small small' h =
    ap (λ (o : Option ℕ). or_else o a)
      (sym (parse_u32-decimal a small) ∙ ap parse_u32 h ∙ parse_u32-decimal b small')

==-decimal : (a b : ℕ) → a < 4294967296 → b < 4294967296 → (decimal a == decimal b) ≡ eqb a b
==-decimal a b small small' = elim (Bool-cases (eqb a b)) [
  | inl same ↦ rw same (rw (ap decimal ((eqb_iff a b).0 same)) (==_refl (decimal b)))
  | inr other ↦ rw other (
      ==_ne (decimal a) (decimal b)
        (λ e. cc ((eqb_iff a b).1 (decimal_inj a b small small' e), other)))
]

get-by_uid :
    (m : Map ℕ ℕ) (uid : ℕ)
    → HasUids m
    → uid < 4294967296
    → get (by_uid m) (decimal uid) ≡ get m uid
unfolding by_uid get
get-by_uid [] uid h small = refl
get-by_uid ((k, v) ∷ m) uid h small =
    ground (arith, get-by_uid m uid h.1, ==-decimal k uid h.0 small)

-- A client that looks a uid up by its decimal print finds exactly what the engine holds for the
-- uid, in all four tables of the status; uids have 32 bits.
status_shown :
    {M : Type 0} (version : String) (gate : GateHealth) (now : ℕ) (e : Engine M) (uid : ℕ)
    → HasUids e.extension_until
    → HasUids e.usage_seconds
    → HasUids e.usage_fg
    → HasUids e.kill_count
    → uid < 4294967296
    → let s = status version gate now e in
      (get s.extensions (decimal uid) ≡ get e.extension_until uid)
      × (get s.usage_seconds (decimal uid) ≡ get e.usage_seconds uid)
      × (get s.usage_fg_seconds (decimal uid) ≡ get e.usage_fg uid)
      × (get s.kill_counts (decimal uid) ≡ get e.kill_count uid)
unfolding status
status_shown version gate now e uid ext used front killed small = (
  get-by_uid e.extension_until uid ext small,
  get-by_uid e.usage_seconds uid used small,
  get-by_uid e.usage_fg uid front small,
  get-by_uid e.kill_count uid killed small,
)
