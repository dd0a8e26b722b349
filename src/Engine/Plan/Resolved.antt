-- ===== src/Engine/Plan/Resolved.antt =====
-- Names for the killer, when the uids come from the package list.
use ningshi.Prelude.{
  ℕ, ◌≡◌, ◌≢◌, arith, String, Bool, List, Option, none, some, true, nat_key, string_key,
  Option-cases, inl, inr,
}
use ningshi.Prelude.Map.{Map, get}
use ningshi.PackageList.{users, resolve_uids}
use ningshi.PackageList.Keys.{IsSmall, IsKeyed, resolve_uids-IsKeyed}
use ningshi.Engine.{Engine, Moment}
use ningshi.Engine.Plan.{package_of, make_plan}
use ningshi.Engine.Plan.Names.{HasPackages, IsNamed, make_plan-IsNamed}

package_of_keyed : (key : String) (uid : ℕ) → IsKeyed key uid → package_of key ≢ none
unfolding package_of
package_of_keyed key uid (user, pkg, parts, number, named) nameless =
    ground (arith, parts, named, nameless)

resolve_uids-HasPackages :
    (names : Option (List String)) (content : Option String) (m : Map String ℕ)
    → IsSmall (users names)
    → resolve_uids names content ≡ some m
    → HasPackages m
resolve_uids-HasPackages names content m small done key present = elim (Option-cases (get m key)) [
  | inl gone ↦ absurd (present gone)
  | inr (uid, at) ↦
      package_of_keyed key uid (resolve_uids-IsKeyed names content m key uid small done at)
]

module _ {M : Type 0} (e : Engine M) (names : Option (List String)) (content : Option String) where
  -- With the uids that were read from a package list, on a device whose user numbers are below
  -- 42949: a uid that is to be blocked has a package name for the killer to confirm.
  pub make_plan_resolved-IsNamed :
      (uid : ℕ) (m : Moment) (off : Bool)
      → IsSmall (users names)
      → resolve_uids names content ≡ some e.uid_of
      → get (make_plan e m off).want uid ≡ some true
      → IsNamed uid (make_plan e m off).names
  make_plan_resolved-IsNamed uid m off small done =
      make_plan-IsNamed e (resolve_uids-HasPackages names content e.uid_of small done) uid m off
