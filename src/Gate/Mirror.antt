-- ===== src/Gate/Mirror.antt =====
-- The kernel's block map and its mirror after one call of `set_blocked`.
use ningshi.Prelude.{ℕ, ◌≡◌, Bool, true, false, some, arith, contains, eqb, nat_key, if◌then◌else◌}
use ningshi.Prelude.Set.{contains-insert, contains-remove}
use ningshi.Gate.{BlockMap, BlockMapLaws, Gate, set_blocked}

module _ {M : Type 0} (bpf : BlockMap M) where
  module _ (laws : BlockMapLaws bpf) where
    pub has-set_blocked :
        (g g' : Gate M) (uid : ℕ) (b : Bool) (j : ℕ)
        → set_blocked bpf g uid b ≡ some g'
        → bpf.has g'.blocked j ≡ (if eqb uid j then b else bpf.has g.blocked j)
    unfolding set_blocked
    has-set_blocked g g' uid true j e = ground (arith, laws.has-insert g.blocked g'.blocked uid j)
    has-set_blocked g g' uid false j e = ground (arith, laws.has-remove g.blocked g'.blocked uid j)

  pub contains-set_blocked :
      (g g' : Gate M) (uid : ℕ) (b : Bool) (j : ℕ)
      → set_blocked bpf g uid b ≡ some g'
      → contains g'.blocked_set j ≡ (if eqb uid j then b else contains g.blocked_set j)
  unfolding set_blocked
  contains-set_blocked g g' uid true j e = ground (arith, contains-insert g.blocked_set uid j)
  contains-set_blocked g g' uid false j e = ground (arith, contains-remove g.blocked_set uid j)
