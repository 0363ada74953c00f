-- ===== src/Trace/Load.antt =====
-- Reading back what `trace_save` wrote.
use mathlib.Core.Path.{subst}
use mathlib.Core.List.{append_assoc, append-nil}
use rebuild.Base.{ℕ, zero, suc, ◌/◌, ◌%◌, ◌^◌, ◌≤◌, ◌<◌, ◌≡◌, refl, ap, arith, List, []}
use rebuild.Base.{◌∷◌, ◌++◌, some, Bool, true, Bytes, length, take, ◌==◌}
use rebuild.Base.{same_string_refl, sym, ◌∙◌, take-append, drop-append}
use rebuild.Base.{length-append, le→leb, take_all, take_long}
use native.Mathlib.Nat.{mod-eq_of_lt, pow-suc}
use rebuild.Hash.{Hash, hash_equal}
use rebuild.Trace.{Trace, trace_create, c_string, trace_add_dependency, le_bytes, of_le_bytes}
use rebuild.Trace.{trace_magic, trace_version}
use rebuild.Trace.Format.{
  Read, ◌>>=◌, ◌>>◌, guard, read_all, read_deps, read_trace, trace_load, return, Writer, on_disk,
  trace_save,
}
use rebuild.Trace.Save.{encode_deps, encode, advance, roomy, trace_save_lem}

-- The reader takes exactly these bytes off the front and returns the value.
pub record Parses {A : Type 0} (p : Read A) (bytes : Bytes) (a : A) : Type 0 where
  pub run : (rest : Bytes) → p (bytes ++ rest) ≡ some (a, rest)

read_all-Parses : (n : ℕ) (bytes : Bytes) → length bytes ≡ n → Parses (read_all n) bytes bytes
unfolding read_all
read_all-Parses n bytes e = record {
  run = λ rest.
      let fits =
        le→leb (length bytes) (length (bytes ++ rest)) (omega (arith, length-append bytes rest)) in
      rw (← e, fits, take-append, drop-append);
}

pub bind_some :
    {A B : Type 0} (p : Read A) (f : A → Read B) {s : Bytes} {a : A} {r : Bytes}
    → p s ≡ some (a, r)
    → (p >>= f) s ≡ f a r
bind_some p f e = rw (e, ◌>>=◌)

>>=-Parses :
    {A B : Type 0} {p : Read A} (f : A → Read B) {x y : Bytes} {a : A} {b : B}
    → Parses p x a
    → Parses (f a) y b
    → Parses (p >>= f) (x ++ y) b
>>=-Parses {p} f {x} {y} h k = record {
  run =
      λ rest. ap (p >>= f) (append_assoc x y rest) ∙ bind_some p f (h.run (y ++ rest)) ∙ k.run rest;
}

-- A guard that holds takes nothing.
guard-Parses :
    {B : Type 0} {b : Bool} {k : Read B} {y : Bytes} {r : B}
    → b ≡ true
    → Parses k y r
    → Parses (guard b >> k) y r
guard-Parses e h = record { run = λ rest. rw e (h.run rest) }

length-le_bytes : (k n : ℕ) → length (le_bytes k n) ≡ k
unfolding le_bytes
length-le_bytes zero n = refl
length-le_bytes (suc k) n = ap suc (length-le_bytes k (n / 256))

of_le_bytes-le_bytes : (k n : ℕ) → n < 256 ^ k → of_le_bytes (le_bytes k n) ≡ n
unfolding of_le_bytes le_bytes
of_le_bytes-le_bytes zero n h = omega arith
of_le_bytes-le_bytes (suc k) n h =
    omega (arith, of_le_bytes-le_bytes k (n / 256) (omega (arith, pow-suc 256 k)))

int-Parses :
    {B : Type 0} (k n : ℕ) (f : Bytes → Read B) {y : Bytes} {b : B}
    → Parses (f (le_bytes k n)) y b
    → Parses (read_all k >>= f) (le_bytes k n ++ y) b
int-Parses k n f h = >>=-Parses f (read_all-Parses k (le_bytes k n) (length-le_bytes k n)) h

-- A path that the file format can hold: a C string of at most 4096 bytes.
pub record IsPath (path : Bytes) : Type 0 where
  pub short : length path ≤ 4096
  pub no_zero : c_string path ≡ path

abbrev pub AreDeps : List (Bytes × Hash) → Type 0
AreDeps [] = Unit
AreDeps ((path, hash) ∷ deps) = IsPath path × (length hash ≡ 32) × AreDeps deps

-- Every field fits its place in the file.
pub record IsStorable (t : Trace) : Type 0 where
  pub key : length t.request_key ≡ 32
  pub deps : AreDeps t.deps
  pub count : length t.deps < 2 ^ 64
  pub output : length t.output_tree_hash ≡ 32
  pub cpu : t.cpu_time_ms < 2 ^ 64
  pub wall : t.wall_time_ms < 2 ^ 64

-- A trace with more dependencies.
abbrev more_deps : Trace → List (Bytes × Hash) → Trace
more_deps t deps = record t { deps = t.deps ++ deps }

more_deps_add :
    (t : Trace) (path : Bytes) (hash : Hash) (deps : List (Bytes × Hash))
    → c_string path ≡ path
    → more_deps (trace_add_dependency t (c_string path) hash) deps
      ≡ more_deps t ((path, hash) ∷ deps)
unfolding trace_add_dependency
more_deps_add t path hash deps e =
    let regroup =
      ap (λ p. (t.deps ++ (p, hash) ∷ []) ++ deps) e
      ∙ append_assoc t.deps ((path, hash) ∷ []) deps in
    λ i. record t { deps = regroup i }

read_deps-Parses :
    (deps : List (Bytes × Hash)) (t : Trace)
    → AreDeps deps
    → Parses (read_deps (length deps) t) (encode_deps deps) (more_deps t deps)
unfolding read_deps
read_deps-Parses [] t ok = record {
  run = λ rest. let e = sym (append-nil t.deps) in λ i. some (record t { deps = e i }, rest);
}
read_deps-Parses ((path, hash) ∷ deps) t (p, h, ok) = record {
  run = λ rest. (steps (read_deps-Parses deps _ ok)).run rest;
}
  where
    len : ℕ
    len = length path % 2 ^ 32

    steps :
        Parses
          (read_deps (length deps) (trace_add_dependency t (c_string path) hash))
          (encode_deps deps)
          (more_deps (trace_add_dependency t (c_string path) hash) deps)
        → Parses
            (read_deps (length ((path, hash) ∷ deps)) t)
            (encode_deps ((path, hash) ∷ deps))
            (more_deps t ((path, hash) ∷ deps))
    steps rest =
        let whole : length path % 2 ^ 32 ≡ length path = mod-eq_of_lt (omega (arith, p.short)) in
        let number : of_le_bytes (le_bytes 4 (length path % 2 ^ 32)) ≡ length path % 2 ^ 32 =
          of_le_bytes-le_bytes 4 (length path % 2 ^ 32) (omega arith) in
        let kept : take (length path % 2 ^ 32) path ≡ path =
          ap (λ (n : ℕ). take n path) whole ∙ take_all path in
        int-Parses 4 (length path % 2 ^ 32) _ (
          guard-Parses (le→leb _ _ (omega (arith, number, whole, p.short))) (
            >>=-Parses _
              (read_all-Parses _ (take (length path % 2 ^ 32) path)
                (ap length kept ∙ sym whole ∙ sym number))
              (>>=-Parses _ (read_all-Parses 32 hash h) (
                rw kept (
                  subst
                    (λ t'.
                      Parses
                        (λ x.
                          read_deps (length deps) (trace_add_dependency t (c_string path) hash) x)
                        (encode_deps deps) t')
                    (more_deps_add t path hash deps p.no_zero) (record { run = rest.run }))))))

hash_equal_refl : (h : Hash) → hash_equal h h ≡ true
unfolding hash_equal
hash_equal_refl h = same_string_refl h

map-Parses :
    {A B : Type 0} {p : Read A} (f : A → B) {bytes : Bytes} {a : A} {b : B}
    → Parses p bytes a
    → f a ≡ b
    → Parses (p >>= λ x. return (f x)) bytes b
map-Parses {p = p} f h e = record {
  run = λ rest. bind_some p (λ x. return (f x)) (h.run rest) ∙ ap (λ x. some (x, rest)) e;
}

version_matches : (of_le_bytes (le_bytes 4 trace_version) == trace_version) ≡ true
unfolding le_bytes of_le_bytes
version_matches = refl

pub read_trace-Parses : (t : Trace) → IsStorable t → Parses (read_trace t.request_key) (encode t) t
unfolding read_trace
read_trace-Parses t s =
    let empty = trace_create t.request_key in
    let count = of_le_bytes-le_bytes 8 (length t.deps) (omega (arith, s.count)) in
    let cpu = of_le_bytes-le_bytes 8 t.cpu_time_ms (omega (arith, s.cpu)) in
    let wall = of_le_bytes-le_bytes 8 t.wall_time_ms (omega (arith, s.wall)) in
    >>=-Parses _ (read_all-Parses 4 trace_magic refl) (
      guard-Parses (same_string_refl trace_magic) (
        int-Parses 4 trace_version _ (
          guard-Parses version_matches (
            >>=-Parses _ (read_all-Parses 32 t.request_key s.key) (
              guard-Parses (hash_equal_refl t.request_key) (
                int-Parses 8 (length t.deps) _ (
                  >>=-Parses _
                    (subst
                      (λ n.
                        Parses (read_deps n empty) (encode_deps t.deps) (more_deps empty t.deps))
                      (sym count) (read_deps-Parses t.deps empty s.deps))
                    (>>=-Parses _ (read_all-Parses 32 t.output_tree_hash s.output) (
                      int-Parses 8 t.cpu_time_ms _ (
                        map-Parses _
                          (read_all-Parses 8 (le_bytes 8 t.wall_time_ms)
                            (length-le_bytes 8 t.wall_time_ms))
                          (unfold trace_create in
                            λ i. record t { cpu_time_ms = cpu i; wall_time_ms = wall i })))))))))))

-- A trace whose fields fit the format, with room for it on the disk, is saved and read back from what
-- the file holds then, whatever follows it in the file and however much libc buffers.
pub trace_load-trace_save :
    (t : Trace) (room : ℕ) (holds : ℕ → Bool) (rest : Bytes)
    → IsStorable t
    → length (encode t) ≤ room
    → (w : Writer) × (trace_save t (some (record { written = []; room = room; holds = holds }))
        ≡ (true, some w))
      × (trace_load t.request_key (some (on_disk w ++ rest)) ≡ some t)
unfolding trace_load
trace_load-trace_save t room holds rest s h =
    let start : Writer = record { written = []; room = room; holds = holds } in
    let whole : take room (encode t) ≡ encode t = take_long room (encode t) h in
    (
      advance start (encode t),
      (trace_save_lem t start).0 (roomy start (length (encode t)) h),
      rw (whole, (read_trace-Parses t s).run rest) refl,
    )
