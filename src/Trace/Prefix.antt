-- ===== src/Trace/Prefix.antt =====
-- A trace file that was cut short is never loaded.
use mathlib.Core.List.{append-nil}
use rebuild.Base.{ℕ, zero, suc, ◌≤◌, ◌<◌, ◌≡◌, inl, inr, refl, ap, arith, [], ◌∷◌, ◌++◌}
use rebuild.Base.{
  Option, none, some, Bool, true, false, Bytes, length, take, drop, leb, ◌==◌, Bool-cases,
}
use rebuild.Base.{same_string, sym, ◌∙◌, take-append_short, drop-append_short, length-append}
use rebuild.Base.{le→leb, Option-cases}
use rebuild.Hash.{Hash, hash_equal}
use rebuild.Trace.{Trace, trace_create, of_le_bytes, trace_magic}
use rebuild.Trace.{trace_version}
use rebuild.Trace.Format.{
  Read, ◌>>=◌, ◌>>◌, return, guard, read_all, read_deps, read_trace, trace_load,
}
use rebuild.Trace.Format.{Writer, on_disk, trace_save}
use rebuild.Trace.Save.{encode, trace_save_lem, trace_save_noticed}
use rebuild.Trace.Load.{IsStorable, read_trace-Parses, bind_some}

-- A reader that succeeds does not look past what it takes.
pub record Extends {A : Type 0} (p : Read A) : Type 0 where
  pub keep :
      (s more : Bytes) (a : A) (r : Bytes) → p s ≡ some (a, r) → p (s ++ more) ≡ some (a, r ++ more)

read_all-Extends : (n : ℕ) → Extends (read_all n)
unfolding read_all
read_all-Extends n = record {
  keep = λ s more a r h. elim (Bool-cases (leb n (length s))) [
    | inr e ↦ absurd (ground (arith, h))
    | inl e ↦
        let fits : n ≤ length s = ground arith in
        let ha : take n s ≡ a = ground (arith, h) in
        let hr : drop n s ≡ r = ground (arith, h) in
        rw (
          le→leb n (length (s ++ more)) (omega (arith, length-append s more)),
          take-append_short n s more fits,
          drop-append_short n s more fits,
          ha,
          hr,
        )
  ];
}

return-Extends : {A : Type 0} (a : A) → Extends (return a)
return-Extends a = record { keep = λ s more b r h. ground (arith, h) }

module _ {A B : Type 0} (p : Read A) (f : A → Read B) where
  bind_inv :
      (s : Bytes) (b : B) (r : Bytes)
      → (p >>= f) s ≡ some (b, r)
      → (a : A) × (r' : Bytes) × (p s ≡ some (a, r')) × (f a r' ≡ some (b, r))
  bind_inv s b r h = elim (Option-cases (p s)) [
    | inl e ↦ absurd (stuck e)
    | inr ((a, r'), e) ↦ (a, r', e, sym (bind_some p f e) ∙ h)
  ]
    where
      stuck : p s ≡ none → ⊥
      stuck e = let e' : (p >>= f) s ≡ none = rw (e, ◌>>=◌) in cc (e', h)

  >>=-Extends : Extends p → ((a : A) → Extends (f a)) → Extends (p >>= f)
  >>=-Extends ep ef = record {
    keep = λ s more b r h.
        let (a, r', e, e') = bind_inv s b r h in
        bind_some p f (ep.keep s more a r' e) ∙ (ef a).keep r' more b r e';
  }

guard-Extends : {B : Type 0} (b : Bool) (k : Read B) → Extends k → Extends (guard b >> k)
guard-Extends true k e = record { keep = e.keep }
guard-Extends false k e = record { keep = λ s more a r h. cc }

read_deps-Extends : (n : ℕ) (t : Trace) → Extends (read_deps n t)
unfolding read_deps
read_deps-Extends zero t = record { keep = (return-Extends t).keep }
read_deps-Extends (suc n) t = record { keep = (steps (read_deps-Extends n)).keep }
  where
    steps : ((t' : Trace) → Extends (read_deps n t')) → Extends (read_deps (suc n) t)
    steps rest = >>=-Extends _ _ (read_all-Extends 4) λ len.
        guard-Extends (leb (of_le_bytes len) 4096) _ (
          >>=-Extends _ _ (read_all-Extends (of_le_bytes len))
            λ path. >>=-Extends _ _ (read_all-Extends 32) λ hash. record { keep = (rest _).keep })

read_trace-Extends : (key : Hash) → Extends (read_trace key)
unfolding read_trace
read_trace-Extends key = >>=-Extends _ _ (read_all-Extends 4) λ magic.
    guard-Extends (same_string magic trace_magic) _ (
      >>=-Extends _ _ (read_all-Extends 4) λ version.
        guard-Extends (of_le_bytes version == trace_version) _ (
          >>=-Extends _ _ (read_all-Extends 32) λ stored. guard-Extends (hash_equal stored key) _ (
            >>=-Extends _ _ (read_all-Extends 8) λ count.
              >>=-Extends _ _ (read_deps-Extends (of_le_bytes count) (trace_create key)) λ t.
                >>=-Extends _ _ (read_all-Extends 32) λ output.
                  >>=-Extends _ _ (read_all-Extends 8)
                    λ cpu. >>=-Extends _ _ (read_all-Extends 8) λ wall. return-Extends _)))

take-drop :
    (n : ℕ) (xs : Bytes) → n < length xs → (y : ℕ) × (ys : Bytes) × (xs ≡ take n xs ++ y ∷ ys)
take-drop zero [] h = absurd (omega arith)
take-drop zero (x ∷ xs) h = (x, xs, refl)
take-drop (suc n) [] h = absurd (omega arith)
take-drop (suc n) (x ∷ xs) h =
    let (y, ys, e) = take-drop n xs (omega arith) in (y, ys, ap (λ t. x ∷ t) e)

left_over : Option (Trace × Bytes) → ℕ
left_over none = 0
left_over (some (t, r)) = length r

-- A file that holds a proper prefix of a trace's encoding is not loaded.
read_trace_cut :
    (t : Trace) (n : ℕ)
    → IsStorable t
    → n < length (encode t)
    → read_trace t.request_key (take n (encode t)) ≡ none
read_trace_cut t n s h = elim (Option-cases (read_trace t.request_key (take n (encode t)))) [
  | inl e ↦ e
  | inr ((t', r), e) ↦
      let (y, ys, whole) = take-drop n (encode t) h in
      absurd (
        too_much t' r y ys (
          sym ((read_trace-Extends t.request_key).keep (take n (encode t)) (y ∷ ys) t' r e)
          ∙ ap (read_trace t.request_key) (sym whole ∙ sym (append-nil (encode t)))
          ∙ (read_trace-Parses t s).run []))
]
  where
    too_much :
        (t' : Trace) (r : Bytes) (y : ℕ) (ys : Bytes)
        → ◌≡◌ {A = Option (Trace × Bytes)} (some (t', r ++ y ∷ ys)) (some (t, []))
        → ⊥
    too_much t' r y ys e =
        unfold left_over in omega (arith, ap left_over e, length-append r (y ∷ ys))

-- If there is too little room on the disk for a trace whose fields fit the format, `trace_save` leaves
-- a file that is not loaded, whatever it returns and whatever stays in libc's buffer.
pub trace_load_cut :
    (t : Trace) (room : ℕ) (holds : ℕ → Bool)
    → IsStorable t
    → room < length (encode t)
    → (r : Bool) × (w : Writer) × (trace_save t
          (some (record { written = []; room = room; holds = holds }))
        ≡ (r, some w))
      × (trace_load t.request_key (some (on_disk w)) ≡ none)
unfolding trace_load
trace_load_cut t room holds s h =
    let start : Writer = record { written = []; room = room; holds = holds } in
    let (r, w, run, part) = (trace_save_lem t start).1 h in
    (r, w, run, rw (part, read_trace_cut t room s h))

-- If there is too little room on the disk for a trace, `trace_save` returns true where libc takes all
-- of it into its buffer, and false where libc holds nothing back.
pub trace_save_unnoticed :
    (t : Trace) (room : ℕ) (buffered : Bool)
    → room < length (encode t)
    → (trace_save t (some (record { written = []; room = room; holds = λ n. buffered }))).0
      ≡ buffered
trace_save_unnoticed t room true h =
    let start : Writer = record { written = []; room = room; holds = λ n. true } in
    ap (λ r. r.0) ((trace_save_lem t start).0 (λ n le. ground arith))
trace_save_unnoticed t room false h =
    let start : Writer = record { written = []; room = room; holds = λ n. false } in
    trace_save_noticed t start (λ n. refl) (omega arith) h
