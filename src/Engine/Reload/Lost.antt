-- ===== src/Engine/Reload/Lost.antt =====
-- A reload that is the first to see a new package list.
use mathlib.Core.Path.{subst}
use ningshi.Prelude.{
  ℕ, All, ◌≡◌, refl, sym, ap, ◌∙◌, inl, inr, String, [], ◌∷◌, Option, none, some, eqb_iff,
  if◌then◌else◌, nat_key, string_key, ◌==◌, Bool-cases, ==_refl,
}
use ningshi.Prelude.Map.{Map, get, IsDistinct, retain, get-retain}
use ningshi.Rules.{Serde}
use ningshi.Engine.{Engine}
use ningshi.Engine.Packages.{is_live, migrate_one, migrate, drop_dead, resync}
use ningshi.Engine.Reload.{Files, System, finish_reload, with_uids, shared_flags, reload}
use ningshi.Engine.Reload.Frame.{OutlivesReload, reset_toggled-keep, reload-keep}

-- Every entry of the list has in the map the uid that it has.
abbrev Agrees : Map String ℕ → Map String ℕ → Type 0
Agrees m l = All (λ (kv : String × ℕ). get m kv.0 ≡ some kv.1) l

module _ {M : Type 0} where
  migrate_agreeing : (m l : Map String ℕ) (e : Engine M) → Agrees m l → migrate m l e ≡ e
  unfolding migrate migrate_one
  migrate_agreeing m [] e h = refl
  migrate_agreeing m ((key, uid) ∷ l) e h =
      rw (h.0, migrate_one, (eqb_iff uid uid).1 refl) (migrate_agreeing m l e h.1)

  uid_of-reload :
      (serde : Serde) (sys : System) (e : Engine M) (files : Files) (m : Map String ℕ)
      → sys.resolved ≡ some m
      → (reload serde sys e files).0.0.uid_of ≡ m
  unfolding reload with_uids finish_reload
  uid_of-reload serde sys e files m read =
      rw (read, with_uids)
        (reset_toggled-keep (λ (x : Engine M). x.uid_of ≡ m) (λ e c h. h) (λ e c h. h)
          (shared_flags e.rules.groups) _ refl)

cons-Agrees :
    (k : String) (v : ℕ) (m l : Map String ℕ) → get m k ≡ none → Agrees m l → Agrees ((k, v) ∷ m) l
cons-Agrees k v m [] fresh h = tt
cons-Agrees k v m ((j, u) ∷ l) fresh (at, h) = (here, cons-Agrees k v m l fresh h)
  where
    here : get ((k, v) ∷ m) j ≡ some u
    here = elim (Bool-cases (k == j)) [
      | inl same ↦ cc (at, ap (get m) ((string_key.same_iff k j).0 same), fresh)
      | inr other ↦ unfold get in rw other at
    ]

distinct-Agrees : (m : Map String ℕ) → IsDistinct m → Agrees m m
distinct-Agrees [] h = tt
distinct-Agrees ((k, v) ∷ m) (fresh, h) =
    (unfold get in rw (==_refl k) refl, cons-Agrees k v m m fresh (distinct-Agrees m h))

-- A table of the engine that a reload, a new package list and its time leave alone.
pub record IsTable {M : Type 0} (f : Engine M → Map ℕ ℕ) : Type 0 where
  pub outlives : (a : Map ℕ ℕ) → OutlivesReload (λ (x : Engine M). f x ≡ a)
  pub seen : (e : Engine M) (t : Option ℕ) → f (record e { last_pkg_mtime = t }) ≡ f e
  pub dropped :
      (e : Engine M) (m : Map String ℕ)
      → f (drop_dead m (record e { uid_of = m })) ≡ retain (is_live m) (f e)

module _ {M : Type 0} (serde : Serde) (sys : System) (e : Engine M) (files : Files) where
  pub table-resync-reload :
      (f : Engine M → Map ℕ ℕ) (table : IsTable f) (m : Map String ℕ) (mtime uid : ℕ)
      → sys.resolved ≡ some m
      → IsDistinct m
      → get (f (resync mtime m (reload serde sys e files).0.0)) uid
        ≡ (if is_live m uid then get (f e) uid else none)
  unfolding resync
  table-resync-reload f table m mtime uid read distinct =
      let e' = (reload serde sys e files).0.0 in
      let e2 = record e' { last_pkg_mtime = some mtime } in
      let kept : f (migrate e'.uid_of m e2) ≡ f e =
        ap f (
          migrate_agreeing e'.uid_of m e2 (
            subst (λ o. Agrees o m) (sym (uid_of-reload serde sys e files m read))
              (distinct-Agrees m distinct)))
        ∙ table.seen e' (some mtime)
        ∙ reload-keep (λ (x : Engine M). f x ≡ f e) (table.outlives (f e)) serde sys e files refl in
      ap (λ us. get us uid)
        (table.dropped (migrate e'.uid_of m e2) m ∙ ap (retain (is_live m)) kept)
      ∙ get-retain (is_live m) (f e) uid

-- The tables whose entries live with their uid, but for those that a cooldown can change.
pub usage_seconds-IsTable : {M : Type 0} → IsTable (λ (x : Engine M). x.usage_seconds)
unfolding drop_dead
usage_seconds-IsTable = record {
  outlives = λ a. record {
    rule_set = λ e r s h. h;
    settings = λ e tz ime home h. h;
    uids = λ e m t h. h;
    uid_cooldowns = λ e c h. h;
    group_cooldowns = λ e c h. h;
  };
  seen = λ e t. refl;
  dropped = λ e m. refl;
}

pub usage_fg-IsTable : {M : Type 0} → IsTable (λ (x : Engine M). x.usage_fg)
unfolding drop_dead
usage_fg-IsTable = record {
  outlives = λ a. record {
    rule_set = λ e r s h. h;
    settings = λ e tz ime home h. h;
    uids = λ e m t h. h;
    uid_cooldowns = λ e c h. h;
    group_cooldowns = λ e c h. h;
  };
  seen = λ e t. refl;
  dropped = λ e m. refl;
}

pub ext_granted_today-IsTable : {M : Type 0} → IsTable (λ (x : Engine M). x.ext_granted_today)
unfolding drop_dead
ext_granted_today-IsTable = record {
  outlives = λ a. record {
    rule_set = λ e r s h. h;
    settings = λ e tz ime home h. h;
    uids = λ e m t h. h;
    uid_cooldowns = λ e c h. h;
    group_cooldowns = λ e c h. h;
  };
  seen = λ e t. refl;
  dropped = λ e m. refl;
}

pub kill_count-IsTable : {M : Type 0} → IsTable (λ (x : Engine M). x.kill_count)
unfolding drop_dead
kill_count-IsTable = record {
  outlives = λ a. record {
    rule_set = λ e r s h. h;
    settings = λ e tz ime home h. h;
    uids = λ e m t h. h;
    uid_cooldowns = λ e c h. h;
    group_cooldowns = λ e c h. h;
  };
  seen = λ e t. refl;
  dropped = λ e m. refl;
}

module _ {M : Type 0} (serde : Serde) (sys : System) (e : Engine M) (files : Files) where
  pub usage-resync-reload :
      (m : Map String ℕ) (mtime uid : ℕ)
      → sys.resolved ≡ some m
      → IsDistinct m
      → get (resync mtime m (reload serde sys e files).0.0).usage_seconds uid
        ≡ (if is_live m uid then get e.usage_seconds uid else none)
  usage-resync-reload =
      table-resync-reload serde sys e files (λ (x : Engine M). x.usage_seconds)
        usage_seconds-IsTable
