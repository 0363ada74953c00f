-- ===== src/Storage/Paths.antt =====
-- The paths that src/storage.c gives to traces and objects.
use rebuild.Base.{◌≡◌, refl, ap, arith, [], ◌∷◌, some, Bool, true, false, Bytes}
use rebuild.Base.{length, drop, drop-append, sym, ◌∙◌}
use rebuild.Hash.{Hash, IsHash, hash_to_hex, hash_from_hex, zero_hash}
use rebuild.Hash.Hex.{hash_from_hex-hash_to_hex}
use rebuild.Storage.{Os, Storage, build_sharded_path, or_null, get_sharded, storage_get_trace_path}
use rebuild.Storage.{ensure_shard_directory}

-- The digits of a sharded path, less the two slashes.
abbrev digits : Bytes → Bytes
digits (_ ∷ x ∷ y ∷ _ ∷ filename) = x ∷ y ∷ filename
digits path = path

digits-build_sharded_path :
    (base_dir : Bytes) (h : Hash)
    → IsHash h
    → digits (drop (length base_dir) (build_sharded_path base_dir (hash_to_hex h))) ≡ hash_to_hex h
unfolding build_sharded_path hash_to_hex
digits-build_sharded_path base_dir [] i = absurd (omega (arith, i.0))
digits-build_sharded_path base_dir (b ∷ bs) i = rw (drop-append base_dir) refl

hash_to_hex_injective : (h k : Hash) → IsHash h → IsHash k → hash_to_hex h ≡ hash_to_hex k → h ≡ k
hash_to_hex_injective h k i j e =
    sym (ap (λ r. r.1) (hash_from_hex-hash_to_hex h zero_hash i refl))
    ∙ ap (λ hex. (hash_from_hex hex zero_hash).1) e
    ∙ ap (λ r. r.1) (hash_from_hex-hash_to_hex k zero_hash j refl)

build_sharded_path_injective :
    (base_dir : Bytes) (h k : Hash)
    → IsHash h
    → IsHash k
    → build_sharded_path base_dir (hash_to_hex h) ≡ build_sharded_path base_dir (hash_to_hex k)
    → h ≡ k
build_sharded_path_injective base_dir h k i j e = hash_to_hex_injective h k i j (
    sym (digits-build_sharded_path base_dir h i)
    ∙ ap (λ path. digits (drop (length base_dir) path)) e
    ∙ digits-build_sharded_path base_dir k j)

module _ (os : Os) where
  or_null_path :
      (r : Bool × os.Disk) {path p : Bytes}
      → (or_null os r (λ d. (some path, d))).0 ≡ some p
      → path ≡ p
  or_null_path (true, d) e = cc
  or_null_path (false, d) e = cc

  get_sharded_path :
      (d : os.Disk) (base_dir : Bytes) (h : Hash) {p : Bytes}
      → (get_sharded os d base_dir h).0 ≡ some p
      → build_sharded_path base_dir (hash_to_hex h) ≡ p
  unfolding get_sharded
  get_sharded_path d base_dir h e =
      or_null_path (ensure_shard_directory os d base_dir (hash_to_hex h)) e

  -- Two request keys never share a trace file: if `storage_get_trace_path` returns the same path for
  -- two hashes of 32 bytes, at whatever time, they are equal.
  pub storage_get_trace_path_injective :
      (s : Storage) (d d' : os.Disk) (h k : Hash) (p : Bytes)
      → IsHash h
      → IsHash k
      → (storage_get_trace_path os d s h).0 ≡ some p
      → (storage_get_trace_path os d' s k).0 ≡ some p
      → h ≡ k
  unfolding storage_get_trace_path
  storage_get_trace_path_injective s d d' h k p i j e f =
      build_sharded_path_injective s.traces_dir h k i j
        (get_sharded_path d s.traces_dir h e ∙ sym (get_sharded_path d' s.traces_dir k f))
