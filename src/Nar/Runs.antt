-- ===== src/Nar/Runs.antt =====
-- The NAR of a directory with one executable file.
use nix_tarmac.Base.{
  suc, ◌%◌, ◌^◌, ◌≤◌, ◌≡◌, refl, none, some, [], ◌∷◌, ◌++◌, length, if◌then◌else◌, arith,
  append_assoc, append-nil, ◌∙◌, sym, ap,
}
use nix_tarmac.Base.Bytes.{Bytes, bytes_eq}
use nix_tarmac.Base.Text.{codes}
use nix_tarmac.Base.Result.{ok, err, corrupt}
use nix_tarmac.Base.Exec.{returns, ◌>>◌}
use nix_tarmac.Paths.{max_tree_depth}
use nix_tarmac.Nar.{
  Objects, nar_str, nar_leaf, nar_directory, nar_loop, nar_dump, push_children, root_entry,
}
use nix_tarmac.Nar.Recursive.{rounds, node_rounds, children_rounds, emit_node, nar_dump-emit_node}
use nix_tarmac.Nar.Sha256.{Digest, nar_sha256}
use nix_tarmac.Nar.Sha256.Whole.{collect, answer, nar_sha256-collect}

abbrev root_id : Bytes
root_id = 1 ∷ []

abbrev the_objects : Objects
the_objects = record {
  read_tree = λ id.
      if bytes_eq id root_id
      then ok (record { name = b'a' ∷ []; type = b'x'; id = 2 ∷ [] } ∷ [])
      else err corrupt;
  read_blob_view = λ id. ok (if bytes_eq id root_id then none else some (104 ∷ 105 ∷ []));
}

few_rounds : rounds the_objects collect root_id ≤ 20
unfolding rounds node_rounds children_rounds bytes_eq
few_rounds = omega arith

nar_dump-emit_node_example : nar_dump the_objects collect 20 root_id ≡ (
    nar_str the_objects collect (codes "nix-archive-1")
    >> emit_node the_objects collect (suc max_tree_depth) (root_entry root_id))
nar_dump-emit_node_example = nar_dump-emit_node the_objects collect root_id 20 few_rounds

absorbed_append :
    (d e f a b : Bytes)
    → some (d ++ a) ≡ some e
    → some (e ++ b) ≡ some f
    → some (d ++ (a ++ b)) ≡ some f
absorbed_append d e f a b first second =
    ap some (sym (append_assoc d a b)) ∙ ap (λ (x : Bytes). some (x ++ b)) (cc first) ∙ second

-- A digest that keeps what it has taken.
abbrev the_digest : Digest Bytes
the_digest = record {
  init = some [];
  update = λ d a. some (d ++ a);
  final = λ d. some d;
  update-nil = λ d. ap some (append-nil d);
  update-append = λ d e f a b. absorbed_append d e f a b;
}

the_nar : (seen : Bytes) × (nar_dump the_objects collect 20 root_id [] ≡ returns tt seen)
unfolding nar_dump nar_loop nar_str nar_leaf nar_directory push_children bytes_eq
the_nar = (_, refl)

nar_sha256-collect_example :
    (d : Bytes) × (the_digest.update [] the_nar.0 ≡ some d)
    × (nar_sha256 the_digest the_objects 20 root_id
        ≡ answer the_digest the_objects d (length the_nar.0 % 2 ^ 64))
nar_sha256-collect_example =
    nar_sha256-collect the_digest the_objects [] 20 root_id the_nar.0 (λ c a. (c ++ a, refl)) refl
      the_nar.1
