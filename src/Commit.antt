-- ===== src/Commit.antt =====
-- cas/commit.h and commit.cpp: the serialized form of a commit.
pub mod RoundTrip
pub mod Bounds
use context_fs.Base.{
  ℕ, zero, suc, ◌+◌, ◌-◌, ◌*◌, ◌%◌, ◌^◌, List, [], ◌∷◌, ◌++◌, length, take, replicate,
}
use context_fs.Base.Order.{Bytes}
use context_fs.WorkingTree.{Hash}
use context_fs.Codec.{le_bytes, from_le, Parse, parsed, ◌>>=◌, ◌>>◌, require, grab, grab_int}

pub record CommitData : Type 0 where
  pub tree_hash : Hash
  pub parents : List Hash
  pub session_id : ℕ
  pub timestamp_ns : ℕ
  pub label : Bytes
  pub policy_version : ℕ

abbrev pub concat_hashes : List Hash → Bytes
concat_hashes [] = []
concat_hashes (p ∷ ps) = p ++ concat_hashes ps

-- The label's length is cast to 16 bits and so many bytes of it are written; the buffer has room for
-- the whole label, and what is not written stays zero.
unfoldable pub serialize_commit : CommitData → Bytes
serialize_commit c =
    let ll = length c.label % 2 ^ 16 in
    c.tree_hash
    ++ (le_bytes 4 (length c.parents)
        ++ (concat_hashes c.parents
            ++ (le_bytes 8 c.session_id
                ++ (le_bytes 8 c.timestamp_ns
                    ++ (le_bytes 2 ll
                        ++ (take ll c.label
                            ++ (le_bytes 4 c.policy_version
                                ++ replicate (length c.label - ll) 0)))))))

unfoldable pub read_parents : ℕ → Bytes → Parse (List Hash × Bytes)
read_parents zero s = parsed ([], s)
read_parents (suc n) s =
    grab 32 s >>= λ (p, rest). read_parents n rest >>= λ (ps, rest'). parsed (p ∷ ps, rest')

-- `pc * 32` is a product of 32-bit numbers.
unfoldable pub parents_size : ℕ → ℕ
parents_size pc = pc * 32 % 2 ^ 32

-- what follows the parents
unfoldable pub read_fields : Hash → List Hash → Bytes → Parse CommitData
read_fields tree_hash parents s = do
  (session_id, s₁) ← grab_int 8 s
  (timestamp_ns, s₂) ← grab_int 8 s₁
  (ll, s₃) ← grab_int 2 s₂
  require (ll + 4) s₃
  (label, s₄) ← grab ll s₃
  (policy_version, _) ← grab_int 4 s₄
  parsed (record {
    tree_hash = tree_hash;
    parents = parents;
    session_id = session_id;
    timestamp_ns = timestamp_ns;
    label = label;
    policy_version = policy_version;
  })

unfoldable pub deserialize_commit : Bytes → Parse CommitData
deserialize_commit body = do
  require 36 body
  (tree_hash, s₁) ← grab 32 body
  (pc, s₂) ← grab_int 4 s₁
  require (parents_size pc + 22) s₂
  (parents, s₃) ← read_parents pc s₂
  read_fields tree_hash parents s₃
