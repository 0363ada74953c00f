-- ===== src/Hash/Chunks.antt =====
-- `hash_file` against `hash_data`: how `fread` splits the file does not matter.
use mathlib.Core.Option
use rebuild.Base.{◌≡◌, ap, List, [], ◌∷◌, ◌++◌, some, false, Bytes}
use rebuild.Base.{sym}
use rebuild.Hash.{Hash, Blake2, reads, hash_data, hash_chunks, hash_file}

abbrev pub concat : List Bytes → Bytes
concat [] = []
concat (c ∷ cs) = c ++ concat cs

-- What the documentation of BLAKE2 says of its streaming interface: updates add up, and the one-shot
-- function is the stream of one update.
pub record IsStreaming (b : Blake2) : Type 0 where
  pub start : b.State
  pub starts : b.init ≡ some start
  pub step : b.State → Bytes → b.State
  pub steps : (s : b.State) (x : Bytes) → b.update s x ≡ some (step s x)
  pub step_nil : (s : b.State) → step s [] ≡ s
  pub step_append : (s : b.State) (x y : Bytes) → step (step s x) y ≡ step s (x ++ y)
  pub whole : (x : Bytes) → b.one_shot x ≡ b.final (step start x)
  pub digest : b.State → Hash
  pub finishes : (s : b.State) → b.final s ≡ some (digest s)

module _ (b : Blake2) (laws : IsStreaming b) where
  hash_chunks-concat :
      (cs : List Bytes) (s : b.State) → hash_chunks b cs false s ≡ some (laws.step s (concat cs))
  unfolding hash_chunks Option.bind
  hash_chunks-concat [] s = ap some (sym (laws.step_nil s))
  hash_chunks-concat (c ∷ cs) s =
      rw (laws.steps s c, hash_chunks-concat cs (laws.step s c), laws.step_append s c (concat cs))

  -- If BLAKE2b streams, a file that is read without an error hashes as its contents, in whatever chunks it came.
  pub hash_file-hash_data :
      (cs : List Bytes) → hash_file b (reads cs false) ≡ some (hash_data b (concat cs))
  unfolding hash_file hash_data
  hash_file-hash_data cs = rw (
    laws.starts,
    hash_chunks-concat cs laws.start,
    laws.whole (concat cs),
    laws.finishes (laws.step laws.start (concat cs)),
  )
