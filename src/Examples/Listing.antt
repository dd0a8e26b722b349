-- ===== src/Examples/Listing.antt =====
-- The theorems on package lists, process listings and names, with one device.
use ningshi.Prelude.{
  ℕ, eqb, if◌then◌else◌, ◌≡◌, refl, String, true, false, ◌&&◌, List, [], ◌∷◌, Option, none, some,
  arith, any, contains, lines, line_lead, drop_last_empty, lead, flush, split_whitespace,
  split_once, parse_u32, nat_key, string_key,
}
use ningshi.Prelude.Map.{Map, get, insert, contains_key, remove}
use ningshi.Prelude.Decimal.{append, decimal, digits_of, digit}
use ningshi.Prelude.Sort.{sort, insert_sorted}
use ningshi.PackageList.{
  users, collect_users, resolve_uids, add_lines, add_line, add_package, insert_all, keys_for,
  key_of,
}
use ningshi.PackageList.Keys.{IsSmall}
use ningshi.PackageList.Listed.{is_listed, contains_key-resolve_uids}
use ningshi.Foreground.{ProcDir, uids_snapshot}
use ningshi.Foreground.Snapshot.{lives, fronts, is_uid, contains-uids_snapshot}
use ningshi.Engine.{Engine}
use ningshi.Engine.Plan.{is_protected, make_plan}
use ningshi.Decide.{eval, windows_block}
use ningshi.Engine.Usage.{over_duration}
use ningshi.Window.{in_window, parse_hhmm, inside, days_allow}
use ningshi.Engine.Plan.Names.{IsNamed}
use ningshi.Engine.Plan.Resolved.{make_plan_resolved-IsNamed}
use ningshi.Examples.{live_engine}
use ningshi.Examples.Ticking.{late}

-- Two users, and one app.
abbrev device_users : Option (List String)
device_users = some ("0" ∷ "10" ∷ "tmp" ∷ [])

abbrev listing : String
listing = "video 10001 /data/user/0/video default:targetSdkVersion=34\n"

contains_key-resolve_uids_example :
    (m : Map String ℕ) × (resolve_uids device_users (some listing) ≡ some m)
    × (contains_key m "10:video"
        ≡ any
            (λ (line : String). is_listed (users device_users) "10:video" (split_whitespace line))
            (lines listing))
contains_key-resolve_uids_example = contains_key-resolve_uids device_users listing "10:video"

abbrev listed_engine : Engine (List ℕ)
listed_engine = record live_engine { uid_of = ("10:video", 1010001) ∷ ("0:video", 10001) ∷ [] }

users-IsSmall : IsSmall (users device_users)
unfolding users collect_users sort insert_sorted parse_u32
users-IsSmall = (omega arith, (omega arith, tt))

resolved : resolve_uids device_users (some listing) ≡ some listed_engine.uid_of
unfolding resolve_uids users collect_users sort insert_sorted parse_u32 lines line_lead
    drop_last_empty split_whitespace lead flush add_lines add_line add_package insert_all keys_for
    key_of append decimal digits_of digit insert remove
resolved = refl

blocks_video : get (make_plan listed_engine late false).want 10001 ≡ some true
unfolding get make_plan is_protected split_once insert eval over_duration windows_block in_window
    parse_hhmm parse_u32 inside days_allow
blocks_video = refl

make_plan_resolved-IsNamed_example : IsNamed 10001 (make_plan listed_engine late false).names
make_plan_resolved-IsNamed_example =
    make_plan_resolved-IsNamed listed_engine device_users (some listing) 10001 late false
      users-IsSmall resolved blocks_video

-- Process 500 is video's, in front; 600 is another app's.
abbrev dir : ProcDir
dir = record {
  pids = some (1 ∷ 500 ∷ 600 ∷ []);
  pid_uid = λ pid. if eqb pid 500 then some 10001 else (if eqb pid 600 then some 10003 else none);
}

contains-uids_snapshot_example :
    (contains (uids_snapshot dir (500 ∷ []) true (10001 ∷ [])).0 10001 ≡ (
      contains {A = ℕ} (10001 ∷ []) 10001
      && any (lives dir (10001 ∷ []) 10001 (500 ∷ [])) (1 ∷ 500 ∷ 600 ∷ [])))
    × (contains (uids_snapshot dir (500 ∷ []) true (10001 ∷ [])).1 10001 ≡ (
        contains {A = ℕ} (10001 ∷ []) 10001
        && any (fronts dir (10001 ∷ []) 10001 (500 ∷ [])) (1 ∷ 500 ∷ 600 ∷ [])))
    × (contains (uids_snapshot dir (500 ∷ []) false (10001 ∷ [])).0 10001 ≡ false)
    × (contains (uids_snapshot dir (500 ∷ []) false (10001 ∷ [])).1 10001 ≡ (
        contains {A = ℕ} (10001 ∷ []) 10001
        && any (λ pid. is_uid (dir.pid_uid pid) 10001) (500 ∷ [])))
contains-uids_snapshot_example =
    contains-uids_snapshot dir (10001 ∷ []) 10001 (500 ∷ []) (1 ∷ 500 ∷ 600 ∷ []) refl
