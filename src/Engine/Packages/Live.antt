-- ===== src/Engine/Packages/Live.antt =====
-- No state outlives its app.
use ningshi.Prelude.{ℕ, ◌≡◌, String, false, none, nat_key, string_key}
use ningshi.Prelude.Map.{Map, get, get-retain}
use ningshi.Engine.{Engine}
use ningshi.Engine.Packages.{is_live, drop_dead, resync}

module _ {M : Type 0} where
  -- Nothing is kept for the uid.
  pub record IsForgotten (e : Engine M) (uid : ℕ) : Type 0 where
    pub usage : get e.usage_seconds uid ≡ none
    pub foreground : get e.usage_fg uid ≡ none
    pub extension : get e.extension_until uid ≡ none
    pub granted : get e.ext_granted_today uid ≡ none
    pub cooldown : get e.cooldown_until uid ≡ none
    pub kills : get e.kill_count uid ≡ none

  -- After the package list was read again, nothing is kept for a uid that no package has: an app
  -- that is given the number later starts afresh.
  pub resync-IsForgotten :
      (mtime : ℕ) (new_uids : Map String ℕ) (e : Engine M) (uid : ℕ)
      → is_live new_uids uid ≡ false
      → IsForgotten (resync mtime new_uids e) uid
  unfolding resync drop_dead
  resync-IsForgotten mtime new_uids e uid dead = record {
    usage = rw (get-retain, dead);
    foreground = rw (get-retain, dead);
    extension = rw (get-retain, dead);
    granted = rw (get-retain, dead);
    cooldown = rw (get-retain, dead);
    kills = rw (get-retain, dead);
  }
