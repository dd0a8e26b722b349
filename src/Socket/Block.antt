-- ===== src/Socket/Block.antt =====
-- A connection leaves the block list to the tick.
use ningshi.Prelude.{ℕ, ◌≡◌, refl, List, Option, nat_key, string_key}
use ningshi.Rules.{Serde}
use ningshi.Engine.{Engine}
use ningshi.Engine.Extension.Frame.{add_extension-keep}
use ningshi.Engine.Reload.{Files}
use ningshi.Engine.Tick.View.{view, view-OutlivesTick}
use ningshi.Socket.{Parsed, Around, handle}
use ningshi.Socket.Frame.{handle-keep}

module _ {M : Type 0} (e : Engine M) where
  -- No request changes which uids are blocked: not the engine's set, nor the mirror of the killer
  -- thread, nor the block map of the kernel.
  pub view-handle :
      (serde : Serde) (around : Around) (files : Files) (from_slice : List ℕ → Parsed)
      (buf : Option (List ℕ))
      → view (handle from_slice serde around buf e files).0.0 ≡ view e
  view-handle serde around files =
      handle-keep (λ (x : Engine M). view x ≡ view e) (view-OutlivesTick (view e)).reloading
        (add_extension-keep (λ (x : Engine M). view x ≡ view e) (λ x g u h. h) (λ x g u h. h)) serde
        around e files refl
