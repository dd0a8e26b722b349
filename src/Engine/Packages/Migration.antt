-- ===== src/Engine/Packages/Migration.antt =====
-- Where per-uid state goes when apps change their uids.
use ningshi.Prelude.{
  ℕ, ◌≡◌, ◌≢◌, refl, ap, ◌∙◌, ◌⊎◌, inl, inr, String, true, false, [], ◌∷◌, ◌++◌, Option,
  Option-cases, none, some, arith, nat_key, string_key, eqb, eqb_iff,
}
use ningshi.Prelude.Map.{values, Map, get, remove, get-retain, get-insert_self}
use ningshi.Engine.{Engine}
use ningshi.Engine.Packages.{move_key, move_uid, migrate_one, migrate, is_live, drop_dead, resync}

-- The entry that moves, or else the one that is there.
abbrev pub or_there : Option ℕ → Option ℕ → Option ℕ
or_there none there = there
or_there (some v) there = some v

get-move_key :
    (m : Map ℕ ℕ) (old new : ℕ) → get (move_key m old new) new ≡ or_there (get m old) (get m new)
unfolding move_key
get-move_key m old new = elim (Option-cases (get m old)) [
  | inl gone ↦ rw (gone, move_key) refl
  | inr (v, e) ↦ rw (e, move_key) (get-insert_self (remove m old) new v)
]

is_live-append :
    (pre post : Map String ℕ) (key : String) (uid : ℕ)
    → is_live (pre ++ (key, uid) ∷ post) uid ≡ true
unfolding values
is_live-append [] post key uid = ground (arith, eqb_iff uid uid)
is_live-append ((k, u) ∷ pre) post key uid = ground (arith, is_live-append pre post key uid)

-- Keys that are new, or that keep their uid.
abbrev pub IsQuiet : Map String ℕ → Map String ℕ → Type 0
IsQuiet uid_of [] = Unit
IsQuiet uid_of ((key, uid) ∷ entries) =
    ((get uid_of key ≡ none) ⊎ (get uid_of key ≡ some uid)) × IsQuiet uid_of entries

module _ {M : Type 0} (uid_of : Map String ℕ) where
  migrate_one_quiet :
      (key : String) (uid : ℕ) (e : Engine M)
      → (get uid_of key ≡ none) ⊎ (get uid_of key ≡ some uid)
      → migrate_one (get uid_of key) uid e ≡ e
  unfolding migrate_one
  migrate_one_quiet key uid e (inl h) = rw (h, migrate_one)
  migrate_one_quiet key uid e (inr h) = rw (h, migrate_one, (eqb_iff uid uid).1 refl)

  migrate_quiet : (l : Map String ℕ) (e : Engine M) → IsQuiet uid_of l → migrate uid_of l e ≡ e
  unfolding migrate
  migrate_quiet [] e h = refl
  migrate_quiet ((key, uid) ∷ l) e h =
      ap (migrate uid_of l) (migrate_one_quiet key uid e h.0) ∙ migrate_quiet l e h.1

  migrate-append :
      (l r : Map String ℕ) (e : Engine M)
      → migrate uid_of (l ++ r) e ≡ migrate uid_of r (migrate uid_of l e)
  unfolding migrate
  migrate-append [] r e = refl
  migrate-append ((key, uid) ∷ l) r e = migrate-append l r (migrate_one (get uid_of key) uid e)

  -- One key moves, and all others are quiet.
  migrate_moved :
      (pre post : Map String ℕ) (key : String) (old new : ℕ) (e : Engine M)
      → IsQuiet uid_of pre
      → IsQuiet uid_of post
      → get uid_of key ≡ some old
      → eqb old new ≡ false
      → migrate uid_of (pre ++ (key, new) ∷ post) e ≡ move_uid e old new
  migrate_moved pre post key old new e before after was moved =
      migrate-append pre ((key, new) ∷ post) e
      ∙ ap (migrate uid_of ((key, new) ∷ post)) (migrate_quiet pre e before)
      ∙ unfold migrate migrate_one in
        rw (was, migrate_one, moved) (migrate_quiet post (move_uid e old new) after)

module _ {M : Type 0} (e : Engine M) (mtime : ℕ) (pre post : Map String ℕ) (key : String)
    (old new : ℕ) (before : IsQuiet e.uid_of pre) (after : IsQuiet e.uid_of post)
    (was : get e.uid_of key ≡ some old) (moved : old ≢ new) where
  resynced :
      resync mtime (pre ++ (key, new) ∷ post) e
      ≡ drop_dead
          (pre ++ (key, new) ∷ post)
          (record (move_uid (record e { last_pkg_mtime = some mtime }) old new) {
            uid_of = pre ++ (key, new) ∷ post;
          })
  unfolding resync
  resynced =
      ap
        (λ (x : Engine M).
          drop_dead (pre ++ (key, new) ∷ post) (record x { uid_of = pre ++ (key, new) ∷ post }))
        (migrate_moved e.uid_of pre post key old new (record e { last_pkg_mtime = some mtime })
          before after was (ground (arith, eqb_iff old new)))

  pub resync_moved :
      let e' = resync mtime (pre ++ (key, new) ∷ post) e in
      (get e'.usage_seconds new ≡ or_there (get e.usage_seconds old) (get e.usage_seconds new))
      × (get e'.usage_fg new ≡ or_there (get e.usage_fg old) (get e.usage_fg new))
      × (get e'.extension_until new
          ≡ or_there (get e.extension_until old) (get e.extension_until new))
      × (get e'.ext_granted_today new ≡ get e.ext_granted_today new)
      × (get e'.cooldown_until new ≡ get e.cooldown_until new)
  unfolding drop_dead move_uid
  resync_moved = rw resynced (
    rw (get-retain, is_live-append) (get-move_key e.usage_seconds old new),
    rw (get-retain, is_live-append) (get-move_key e.usage_fg old new),
    rw (get-retain, is_live-append) (get-move_key e.extension_until old new),
    rw (get-retain, is_live-append),
    rw (get-retain, is_live-append),
  )
