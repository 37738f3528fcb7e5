-- ===== src/Plugin/Ctx/Poison.antt =====
-- What is left of a poisoned cache.
use nix_tarmac.Base.{ℕ, ◌+◌, ◌≡◌, refl, sym, subst, true, false, none, List, inl, inr}
use nix_tarmac.Base.Bytes.{Bytes}
use nix_tarmac.Base.Exec.{returns}
use nix_tarmac.Pack.Platform.{Platform}
use nix_tarmac.Pack.State.{Impl}
use nix_tarmac.Pack.Open.{remove_all}
use nix_tarmac.Pack.Open.Steps.{IsUsable, empty_db, empty_db-IsUsable}
use nix_tarmac.Pack.Open.Opens.{IsOpen, IsOpen-of_emptied, emptied, Recovered, open_cas-Recovered}
use nix_tarmac.Plugin.Ctx.{drop_poisoned, create_directory, open_healed}

module _ {T : Type 0} (p : Platform T) (works : (n : ℕ) → p.kernel.fails n ≡ false) where
  abbrev at_open : (Impl T → Impl T) → Impl T → Impl T
  at_open remains s = create_directory p (drop_poisoned p true remains s)

  at_open-emptied :
      (remains : Impl T → Impl T) (s : Impl T)
      → ((at_open remains s).committed ≡ empty_db p)
        × ((gen : ℕ) → (at_open remains s).names gen ≡ none)
  unfolding drop_poisoned create_directory remove_all
  at_open-emptied remains s =
      rw (create_directory, drop_poisoned, works s.calls, remove_all, works (s.calls + 1))
        (refl, λ gen. refl)

  from_either :
      (s u t : Impl T)
      → u.committed ≡ empty_db p
      → ((gen : ℕ) → u.names gen ≡ none)
      → Recovered p u t
      → IsOpen p (emptied p s) t
  from_either s u t empty gone (inl (usable, is_open)) =
      IsOpen-of_emptied p s u t empty gone is_open
  from_either s u t empty gone (inr (bad, is_open)) =
      absurd (bad (subst (IsUsable p) (sym empty) (empty_db-IsUsable p)))

  -- Where no call fails, the next process that opens a poisoned cache gets an open store on an empty
  -- directory: whatever the poisoned one held, no blob, no record but that of the format and no pack
  -- is left of it, and the pack of the store is new and empty.
  pub open_healed-poisoned :
      (names left : List Bytes) (remains : Impl T → Impl T) (s : Impl T)
      → (t : Impl T) × (open_healed p true names left remains s ≡ returns tt t)
        × IsOpen p (emptied p s) t
  unfolding open_healed
  open_healed-poisoned names left remains s =
      let (t, e, recovered) = open_cas-Recovered p works names left remains (at_open remains s) in
      let (empty, gone) = at_open-emptied remains s in
      (t, e, from_either s (at_open remains s) t empty gone recovered)
