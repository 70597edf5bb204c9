-- ===== src/Tests/Codecs.antt =====
-- The serialized forms at concrete objects.
use context_fs.Base.{
  ℕ, zero, suc, ◌<◌, ◌≡◌, ◌≢◌, ◌↔◌, refl, true, List, [], ◌∷◌, ◌++◌, replicate, arith, All,
}
use context_fs.Base.Order.{Bytes}
use context_fs.WorkingTree.{Hash}
use context_fs.Codec.{parsed, out_of_bounds, from_le}
use context_fs.Commit.{CommitData, serialize_commit, deserialize_commit}
use context_fs.Commit.RoundTrip.{IsCommit, deserialize-serialize_commit}
use context_fs.Commit.Bounds.{deserialize_commit_in_bounds, deserialize_commit_overflow}
use context_fs.TreeSerialize.{
  Child, serialize_tree_entries, deserialize_tree_entries, kind_byte, kind_of_byte,
}
use mathlib.Core.List.{Perm}
use context_fs.TreeSerialize.Sort.{IsAscending}
use context_fs.TreeSerialize.RoundTrip.{IsChild, deserialize-serialize_tree_entries}
use context_fs.TreeSerialize.Bounds.{deserialize_tree_entries_in_bounds}
use context_fs.Text.{is_valid_branch_name}
use context_fs.Text.Hex.{IsHash}
use context_fs.Text.Names.{IsBranchName, is_valid_branch_name_lem}
use context_fs.Tests.Data.{file_of, a_dir}

abbrev merge_commit : CommitData
merge_commit = record {
  tree_hash = replicate 32 7;
  parents = replicate 32 1 ∷ replicate 32 2 ∷ [];
  session_id = 12;
  timestamp_ns = 1000000007;
  label = b'm' ∷ b'e' ∷ [];
  policy_version = 1;
}

merge_commit-IsCommit : IsCommit merge_commit
merge_commit-IsCommit = record {
  tree_hash = refl;
  parents = (refl, (refl, tt));
  few = omega arith;
  session_id = omega arith;
  timestamp_ns = omega arith;
  label = omega arith;
  policy_version = omega arith;
}

deserialize-serialize_commit_example :
    deserialize_commit (serialize_commit merge_commit) ≡ parsed merge_commit
deserialize-serialize_commit_example =
    deserialize-serialize_commit merge_commit merge_commit-IsCommit

-- a body that names `n` parents in its fourth byte and has none
abbrev claims_parents : ℕ → Bytes
claims_parents n = replicate 32 0 ++ ((0 ∷ 0 ∷ 0 ∷ n ∷ []) ++ replicate 22 0)

deserialize_commit_in_bounds_example : deserialize_commit (claims_parents 0) ≢ out_of_bounds
unfolding from_le
deserialize_commit_in_bounds_example = deserialize_commit_in_bounds (claims_parents 0) (omega arith)

deserialize_commit_overflow_example : deserialize_commit (claims_parents 8) ≡ out_of_bounds
unfolding from_le
deserialize_commit_overflow_example =
    deserialize_commit_overflow (claims_parents 8) 1 refl (omega arith) (omega arith)

abbrev two_children : List Child
two_children = (b'b' ∷ [], a_dir) ∷ (b'a' ∷ [], file_of 1) ∷ []

two_children-IsChild : All IsChild two_children
unfolding kind_byte kind_of_byte
two_children-IsChild = (
  record { name = omega arith; mode = omega arith; kind = omega arith; named = refl; hash = refl },
  (
    record {
      name = omega arith;
      mode = omega arith;
      kind = omega arith;
      named = refl;
      hash = refl;
    },
    tt,
  ),
)

deserialize-serialize_tree_entries_example :
    (cs' : List Child) × (deserialize_tree_entries (serialize_tree_entries two_children ++ [])
      ≡ parsed cs')
    × Perm cs' two_children
    × IsAscending cs'
deserialize-serialize_tree_entries_example =
    deserialize-serialize_tree_entries two_children [] two_children-IsChild (omega arith)

deserialize_tree_entries_in_bounds_example :
    deserialize_tree_entries (9 ∷ 0 ∷ 0 ∷ 0 ∷ 200 ∷ 0 ∷ 7 ∷ []) ≢ out_of_bounds
deserialize_tree_entries_in_bounds_example =
    deserialize_tree_entries_in_bounds (9 ∷ 0 ∷ 0 ∷ 0 ∷ 200 ∷ 0 ∷ 7 ∷ [])

All-replicate : (n : ℕ) → All (λ b. b < 256) (replicate n 9)
All-replicate zero = tt
All-replicate (suc n) = (omega arith, All-replicate n)

abbrev nine_hash : Hash
nine_hash = 171 ∷ replicate 31 9

nine_hash-IsHash : IsHash nine_hash
nine_hash-IsHash = record { size = refl; bytes = (omega arith, All-replicate 31) }

-- `a=% b`
abbrev framing : Bytes
framing = b'a' ∷ b'=' ∷ b'%' ∷ b' ' ∷ b'b' ∷ []

-- `main`
abbrev main_name : Bytes
main_name = b'm' ∷ b'a' ∷ b'i' ∷ b'n' ∷ []

is_valid_branch_name_example : (is_valid_branch_name main_name ≡ true) ↔ IsBranchName main_name
is_valid_branch_name_example = is_valid_branch_name_lem main_name
