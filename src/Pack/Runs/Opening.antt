-- ===== src/Pack/Runs/Opening.antt =====
-- Opening a cache of another format, beside a pack that no index has.
use nix_tarmac.Base.{true, ◌≡◌, refl, false, none, some, [], ◌∷◌}
use nix_tarmac.Base.Exec.{returns}
use nix_tarmac.Base.Text.{codes}
use nix_tarmac.Pack.Platform.{Platform}
use nix_tarmac.Pack.State.{Impl}
use nix_tarmac.Pack.Meta.{format_key, starts_with}
use nix_tarmac.Pack.Open.{from_digits, parse_gen, pack_gen, open_cas}
use nix_tarmac.Pack.Open.Opens.{IsOpen, emptied, Recovered, open_cas-Recovered}
use nix_tarmac.Plugin.Ctx.{open_healed}
use nix_tarmac.Plugin.Ctx.Poison.{open_healed-poisoned}
use nix_tarmac.Pack.Runs.Table.{Log}
use nix_tarmac.Pack.Runs.{the_platform, the_impl}

abbrev calm : Platform Log
calm = record the_platform { kernel = record the_platform.kernel { fails = λ call. false } }

abbrev old_format : Impl Log
old_format = record (the_impl none) {
  committed = record { blobs = []; meta = (format_key, b'1' ∷ []) ∷ [] };
}

orphan : pack_gen (codes "pack.12") ≡ some 12
unfolding pack_gen parse_gen from_digits starts_with
orphan = refl

no_pack : pack_gen (codes "pack.1x") ≡ none
unfolding pack_gen parse_gen from_digits starts_with
no_pack = refl

open_cas-Recovered_example :
    (t : Impl Log) × (open_cas calm (codes "pack.12" ∷ []) [] (λ s. s) old_format ≡ returns tt t)
    × Recovered calm old_format t
open_cas-Recovered_example =
    open_cas-Recovered calm (λ n. refl) (codes "pack.12" ∷ []) [] (λ s. s) old_format

open_healed-poisoned_example :
    (t : Impl Log) × (open_healed calm true (codes "pack.12" ∷ []) [] (λ s. s) old_format
      ≡ returns tt t)
    × IsOpen calm (emptied calm old_format) t
open_healed-poisoned_example =
    open_healed-poisoned calm (λ n. refl) (codes "pack.12" ∷ []) [] (λ s. s) old_format
