-- ===== src/Engine/Protected.antt =====
-- The packages that no rule blocks: `PROTECTED_PACKAGES`, `cmd_line` and `resolve_protected` of
-- daemon/src/engine.rs.
use ningshi.Prelude.{
  ◌≡◌, refl, ◌∙◌, inl, inr, String, Bool, true, false, List, [], ◌∷◌, Option, none, some, contains,
  is_empty, lines, trim, split_once, if◌then◌else◌, string_key, ◌==◌, Option-cases, Bool-cases,
}
use mathlib.Core.List.{reverse}
use ningshi.Prelude.Set

-- A helper that could be run, and its output as text.
pub record Output : Type 0 where
  pub success : Bool
  pub stdout : String

-- `find(|l| !l.trim().is_empty())`
unfoldable pub first_full : List String → Option String
first_full [] = none
first_full (l ∷ ls) = let rest = first_full ls in if is_empty (trim l) then rest else some l

abbrev pub trimmed : Option String → Option String
trimmed none = none
trimmed (some l) = some (trim l)

-- `none` is a helper that could not be run.
unfoldable pub cmd_line : Option Output → Bool → Option String
unfolding first_full
cmd_line none last = none
cmd_line (some out) last =
    if out.success
    then trimmed (first_full (if last then reverse (lines out.stdout) else lines out.stdout))
    else none

-- `none` of `cmd_line`, or of the `split_once`, adds nothing.
before_slash : Option (String × String) → List String → List String
before_slash none set = set
before_slash (some (pkg, rest)) set = Set.insert set pkg

unfoldable pub add_component : Option String → List String → List String
unfolding before_slash
add_component none set = set
add_component (some line) set = before_slash (split_once b'/' line) set

abbrev pub protected_packages : List String
protected_packages = "me.weishu.kernelsu" ∷ "com.android.systemui" ∷ "com.android.settings" ∷ []

-- What the input method's and the launcher's helper leave.
unfoldable pub resolve_protected : Option Output → Option Output → List String
unfolding add_component cmd_line
resolve_protected input_method launcher =
    add_component (cmd_line launcher true)
      (add_component (cmd_line input_method false) protected_packages)

-- `set.insert(pkg)` adds to what is there.
contains-add_component :
    (line : Option String) (set : List String) (pkg : String)
    → contains set pkg ≡ true
    → contains (add_component line set) pkg ≡ true
unfolding add_component before_slash
contains-add_component none set pkg h = h
contains-add_component (some line) set pkg h = elim (Option-cases (split_once b'/' line)) [
  | inl none_there ↦ rw none_there h
  | inr ((p, rest), at) ↦ rw at (
      Set.contains-insert set p pkg
      ∙ rw h (elim (Bool-cases (p == pkg)) [ inl same ↦ rw same refl | inr other ↦ rw other refl ]))
]

pub contains-resolve_protected :
    (input_method launcher : Option Output) (pkg : String)
    → contains protected_packages pkg ≡ true
    → contains (resolve_protected input_method launcher) pkg ≡ true
unfolding resolve_protected
contains-resolve_protected input_method launcher pkg h =
    contains-add_component (cmd_line launcher true) _ pkg
      (contains-add_component (cmd_line input_method false) protected_packages pkg h)
