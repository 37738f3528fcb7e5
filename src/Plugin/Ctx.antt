-- ===== src/Plugin/Ctx.antt =====
-- `Ctx` of plugin/ctx.hh: how a process opens the store of a directory, whose cache a corrupt read
-- may have poisoned.
pub mod Poison
use nix_tarmac.Base.{ℕ, ◌+◌, Bool, not, ◌&&◌, List, [], if◌then◌else◌}
use nix_tarmac.Base.Bytes.{Bytes}
use nix_tarmac.Base.Exec.{Exec, Outcome, returns, throws, final, modify, ◌>>=◌, ◌>>◌}
use nix_tarmac.Pack.Platform.{Platform}
use nix_tarmac.Pack.State.{Impl, M}
use nix_tarmac.Pack.Open.{remove_all, open_cas}
use nix_tarmac.Roots.{TreeStore}
use nix_tarmac.Gc.{maybe_gc}

module _ {T : Type 0} (p : Platform T) where
  -- `exists(dir + "/poison")`, which is no if the call fails, and what follows from it. The failures
  -- of `remove_all` and `create_directories` are ignored.
  unfoldable pub drop_poisoned : Bool → (Impl T → Impl T) → Impl T → Impl T
  drop_poisoned poisoned remains s =
      let s' = record s { calls = s.calls + 1 } in
      if poisoned && not (p.kernel.fails s.calls) then remove_all p remains s' else s'

  unfoldable pub create_directory : Impl T → Impl T
  create_directory s = record s { calls = s.calls + 1 }

  -- The other arguments are those of `open`.
  unfoldable pub open_healed : Bool → List Bytes → List Bytes → (Impl T → Impl T) → M p (Unit {0})
  unfolding drop_poisoned create_directory
  open_healed poisoned names left remains = do
    modify (drop_poisoned poisoned remains)
    modify create_directory
    open_cas p names left remains

  -- The constructor; the exceptions of `maybeGc` are caught, what it has done stays. `store_of` sets
  -- the times that `TreeStore` is made with.
  unfoldable pub make_ctx : (Impl T → TreeStore T) → ℕ → ℕ → ℕ → M p (Unit {0}) → M p (TreeStore T)
  make_ctx store_of tid fuel now open_store s = elim (open_store s) [
    | throws e t ↦ throws e t
    | returns done t ↦
        let store = final (maybe_gc p tid fuel now (store_of t)) in returns store store.cas
  ]
