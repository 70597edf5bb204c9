-- ===== src/Commit/RoundTrip.antt =====
-- What cas/commit.cpp writes reads back.
use context_fs.Base.{
  ℕ, ◌+◌, ◌-◌, ◌*◌, ◌%◌, ◌^◌, ◌≤◌, ◌<◌, ◌≡◌, refl, List, [], ◌∷◌, ◌++◌, length, replicate, All,
  arith, length-append, append_assoc, take_all,
}
use context_fs.Base.Order.{Bytes}
use context_fs.WorkingTree.{Hash}
use context_fs.Codec.{le_bytes, parsed, grab-append, grab_int-le_bytes, require_ok, length_ints}
use context_fs.Commit.{
  CommitData, concat_hashes, serialize_commit, read_parents, parents_size, read_fields,
  deserialize_commit,
}

-- The fields fit their types in the program, the label fits its length field, and the parents' bytes
-- can be counted in 32 bits.
pub record IsCommit (c : CommitData) : Type 0 where
  pub tree_hash : length c.tree_hash ≡ 32
  pub parents : All (λ (p : Bytes). length p ≡ 32) c.parents
  pub few : length c.parents < 2 ^ 27
  pub session_id : c.session_id < 2 ^ 64
  pub timestamp_ns : c.timestamp_ns < 2 ^ 64
  pub label : length c.label < 2 ^ 16
  pub policy_version : c.policy_version < 2 ^ 32

read_parents-concat_hashes :
    (ps : List Hash) (rest : Bytes)
    → All (λ (p : Bytes). length p ≡ 32) ps
    → read_parents (length ps) (concat_hashes ps ++ rest) ≡ parsed (ps, rest)
unfolding read_parents
read_parents-concat_hashes [] rest h = refl
read_parents-concat_hashes (p ∷ ps) rest h = rw (
  append_assoc p (concat_hashes ps) rest,
  grab-append 32 p (concat_hashes ps ++ rest) h.0,
  read_parents-concat_hashes ps rest h.1,
)

length-concat_hashes :
    (ps : List Hash)
    → All (λ (p : Bytes). length p ≡ 32) ps
    → length (concat_hashes ps) ≡ 32 * length ps
length-concat_hashes [] h = refl
length-concat_hashes (p ∷ ps) h =
    omega (arith, length-append p (concat_hashes ps), length-concat_hashes ps h.1)

module _ (t : Hash) (ps : List Hash) (sid ts pv : ℕ) (label pad : Bytes)
    (valid : IsCommit (record {
      tree_hash = t;
      parents = ps;
      session_id = sid;
      timestamp_ns = ts;
      label = label;
      policy_version = pv;
    })) where
  abbrev policy_on : Bytes
  policy_on = le_bytes 4 pv ++ pad

  abbrev label_on : Bytes
  label_on = label ++ policy_on

  abbrev ids_on : Bytes
  ids_on = le_bytes 8 sid ++ (le_bytes 8 ts ++ (le_bytes 2 (length label) ++ label_on))

  abbrev parents_on : Bytes
  parents_on = concat_hashes ps ++ ids_on

  abbrev count_on : Bytes
  count_on = le_bytes 4 (length ps) ++ parents_on

  length_ids : 22 ≤ length ids_on
  length_ids = omega (
    arith,
    length_ints 8 sid (le_bytes 8 ts ++ (le_bytes 2 (length label) ++ label_on)),
    length_ints 8 ts (le_bytes 2 (length label) ++ label_on),
    length_ints 2 (length label) label_on,
    length-append label policy_on,
    length_ints 4 pv pad,
  )

  length_parents : length parents_on ≡ 32 * length ps + length ids_on
  length_parents =
      omega (arith, length-append (concat_hashes ps) ids_on, length-concat_hashes ps valid.parents)

  read_back :
      deserialize_commit (t ++ count_on)
      ≡ parsed (record {
        tree_hash = t;
        parents = ps;
        session_id = sid;
        timestamp_ns = ts;
        label = label;
        policy_version = pv;
      })
  unfolding deserialize_commit read_fields parents_size
  read_back = rw (
    require_ok 36 (t ++ count_on) (
        omega
          (arith, length-append t count_on, length_ints 4 (length ps) parents_on, valid.tree_hash)),
    grab-append 32 t count_on valid.tree_hash,
    grab_int-le_bytes 4 (length ps) parents_on (omega (arith, valid.few)),
    require_ok (length ps * 32 % 2 ^ 32 + 22) parents_on
        (omega (arith, length_parents, length_ids, valid.few)),
    read_parents-concat_hashes ps ids_on valid.parents,
    grab_int-le_bytes 8 sid (le_bytes 8 ts ++ (le_bytes 2 (length label) ++ label_on))
        valid.session_id,
    grab_int-le_bytes 8 ts (le_bytes 2 (length label) ++ label_on) valid.timestamp_ns,
    grab_int-le_bytes 2 (length label) label_on valid.label,
    require_ok (length label + 4) label_on
        (omega (arith, length-append label policy_on, length_ints 4 pv pad)),
    grab-append (length label) label policy_on refl,
    grab_int-le_bytes 4 pv pad valid.policy_version,
  )

-- A commit whose fields fit reads back as it was written.
pub deserialize-serialize_commit :
    (c : CommitData) → IsCommit c → deserialize_commit (serialize_commit c) ≡ parsed c
unfolding serialize_commit
deserialize-serialize_commit c v =
    let small : length c.label % 2 ^ 16 ≡ length c.label = omega (arith, v.label) in
    rw (small, take_all c.label)
      (read_back c.tree_hash c.parents c.session_id c.timestamp_ns c.policy_version c.label
        (replicate (length c.label - length c.label) 0) v)
