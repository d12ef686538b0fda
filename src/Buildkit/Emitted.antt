-- ===== src/Buildkit/Emitted.antt =====
-- The arguments of buildctl, and the buffer and the vertices behind the emitted lines.
use mathlib.Core.List.{append_assoc, append-nil}
use buildkit_multipartable.Base.{
  ℕ, zero, suc, ◌≤◌, ◌<◌, ◌≡◌, refl, ◌∙◌, ap, sym, ◌↔◌, true, false, not, ◌&&◌, List, [], ◌∷◌, ◌++◌,
  map, none, some, Bytes, eqb, length, length-append, take, ltb, arith, All, Bool-cases,
  Option-cases, inl, inr, ok, Files, write,
}
use buildkit_multipartable.Strings.{split, trim_right_of}
use buildkit_multipartable.Buildkit.{
  RawVertex, VertexInfo, Tracker, find_vertex, get_vertex, is_valid_build_arg_key,
}
use buildkit_multipartable.Buildkit.Run.{
  BuildOptions, base_args, opt_of, add_build_args, buildctl_args, Stream, max_log_bytes, emit,
  numbered, start_vertex, complete_vertex, on_vertex, emit_each, on_log, on_status, Item, plain,
  raw_vertex, raw_log, raw_status, on_item, read_stream, num_of,
}

abbrev pub AllValid : List (Bytes × Bytes) → Type 0
AllValid kvs = All (λ kv. is_valid_build_arg_key kv.0 ≡ true) kvs

add_build_args-AllValid :
    (args : List Bytes) (kvs : List (Bytes × Bytes))
    → AllValid kvs
    → add_build_args args kvs ≡ ok (args ++ map opt_of kvs)
unfolding add_build_args
add_build_args-AllValid args [] a = rw append-nil refl
add_build_args-AllValid args (kv ∷ kvs) (h, a) =
    rw h (add_build_args-AllValid (args ++ opt_of kv ∷ []) kvs a ∙ rw append_assoc refl)

add_build_args-ok :
    (args : List Bytes) (kvs : List (Bytes × Bytes)) (r : List Bytes)
    → add_build_args args kvs ≡ ok r
    → AllValid kvs
unfolding add_build_args
add_build_args-ok args [] r h = tt
add_build_args-ok args (kv ∷ kvs) r h = elim (Bool-cases (is_valid_build_arg_key kv.0)) [
  | inl v ↦ (v, add_build_args-ok (args ++ opt_of kv ∷ []) kvs r (valid v h))
  | inr v ↦ absurd (invalid v h)
]
  where
    valid :
        is_valid_build_arg_key kv.0 ≡ true
        → add_build_args args (kv ∷ kvs) ≡ ok r
        → add_build_args (args ++ opt_of kv ∷ []) kvs ≡ ok r
    valid v h = ground (arith, v, h)

    invalid : is_valid_build_arg_key kv.0 ≡ false → add_build_args args (kv ∷ kvs) ≡ ok r → ⊥
    invalid v h = ground (arith, v, h)

-- buildctl gets arguments exactly if the keys of all build arguments are valid: then the fixed ones and
-- one option for each build argument, in order.
pub buildctl_args_correct :
    (addr : Bytes) (opts : BuildOptions) (args : List Bytes)
    → (buildctl_args addr opts ≡ ok args)
      ↔ (AllValid opts.build_args × (args ≡ base_args addr opts ++ map opt_of opts.build_args))
unfolding buildctl_args
buildctl_args_correct addr opts args = (there, back)
  where
    there :
        add_build_args (base_args addr opts) opts.build_args ≡ ok args
        → AllValid opts.build_args × (args ≡ base_args addr opts ++ map opt_of opts.build_args)
    there h =
        let a = add_build_args-ok (base_args addr opts) opts.build_args args h in
        let e = add_build_args-AllValid (base_args addr opts) opts.build_args a in (a, cc)

    back :
        AllValid opts.build_args × (args ≡ base_args addr opts ++ map opt_of opts.build_args)
        → add_build_args (base_args addr opts) opts.build_args ≡ ok args
    back (a, e) = rw e (add_build_args-AllValid (base_args addr opts) opts.build_args a)

abbrev pub concat : List Bytes → Bytes
concat [] = []
concat (l ∷ ls) = l ++ concat ls

-- The buffer holds the first `n` lines, and all of them until it is full.
pub record IsKept (s : Stream) : Type 0 where
  pub n : ℕ
  pub bounded : n ≤ length s.lines
  pub first : s.log_buf ≡ concat (take n s.lines)
  pub full : n < length s.lines → max_log_bytes ≤ length s.log_buf

take-append : (n : ℕ) (xs ys : List Bytes) → n ≤ length xs → take n (xs ++ ys) ≡ take n xs
take-append zero xs ys h = refl
take-append (suc n) [] ys h = absurd (omega arith)
take-append (suc n) (x ∷ xs) ys h = ap (λ l. x ∷ l) (take-append n xs ys (omega arith))

take-all : (xs : List Bytes) → take (length xs) xs ≡ xs
take-all [] = refl
take-all (x ∷ xs) = ap (λ l. x ∷ l) (take-all xs)

concat-append : (xs ys : List Bytes) → concat (xs ++ ys) ≡ concat xs ++ concat ys
concat-append [] ys = refl
concat-append (x ∷ xs) ys =
    ap (λ l. x ++ l) (concat-append xs ys) ∙ sym (append_assoc x (concat xs) (concat ys))

take-one : (xs : List Bytes) (y : Bytes) → take (suc (length xs)) (xs ++ y ∷ []) ≡ xs ++ y ∷ []
take-one [] y = refl
take-one (x ∷ xs) y = ap (λ l. x ∷ l) (take-one xs y)

-- The buffer has room, so that it holds all lines.
emit_more :
    (line : Bytes) (s : Stream)
    → IsKept s
    → ltb (length s.log_buf) max_log_bytes ≡ true
    → IsKept (emit line s)
unfolding emit
emit_more line s k h =
    let all : k.n ≡ length s.lines = (let f = k.full in let b = k.bounded in ground arith) in
    let held : s.log_buf ≡ concat s.lines =
      k.first ∙ (ap (λ m. concat (take m s.lines)) all ∙ ap concat (take-all s.lines)) in
    record {
      n = suc (length s.lines);
      bounded = omega (arith, length-append {0} s.lines (line ∷ []));
      first =
          rw (h, take-one s.lines line, concat-append s.lines (line ∷ []), append-nil)
            (ap (λ b. b ++ line) held);
      full = λ few. absurd (omega (arith, few, length-append {0} s.lines (line ∷ [])));
    }

emit_less :
    (line : Bytes) (s : Stream)
    → IsKept s
    → ltb (length s.log_buf) max_log_bytes ≡ false
    → IsKept (emit line s)
unfolding emit
emit_less line s k h = record {
  n = k.n;
  bounded = omega (arith, k.bounded, length-append {0} s.lines (line ∷ []));
  first = rw (h, take-append k.n s.lines (line ∷ []) k.bounded) k.first;
  full = λ few. rw h (ground (arith, h));
}

emit-IsKept : (line : Bytes) (s : Stream) → IsKept s → IsKept (emit line s)
emit-IsKept line s k = elim (Bool-cases (ltb (length s.log_buf) max_log_bytes)) [
  | inl h ↦ emit_more line s k h
  | inr h ↦ emit_less line s k h
]

-- The other fields do not matter.
with_tracker : (t : Tracker) (s : Stream) → IsKept s → IsKept (record s { tracker = t })
with_tracker t s k = record { n = k.n; bounded = k.bounded; first = k.first; full = k.full }

with_starts : (f : Files) (s : Stream) → IsKept s → IsKept (record s { starts = f })
with_starts f s k = record { n = k.n; bounded = k.bounded; first = k.first; full = k.full }

start_vertex-IsKept :
    (raw : RawVertex) (v : VertexInfo) (s : Stream) → IsKept s → IsKept (start_vertex raw v s)
unfolding start_vertex
start_vertex-IsKept raw v s k = elim (Bool-cases (not (eqb raw.started []) && not v.started)) [
  | inr h ↦ rw h k
  | inl h ↦ rw h (
      emit-IsKept (numbered v.num v.name) _
        (with_starts (write raw.digest raw.started s.starts) s k))
]

complete_vertex-IsKept :
    (elapsed : Bytes → Bytes → Bytes) (raw : RawVertex) (v : VertexInfo) (s : Stream)
    → IsKept s
    → IsKept (complete_vertex elapsed raw v s)
unfolding complete_vertex
complete_vertex-IsKept elapsed raw v s k =
    elim (Bool-cases (not (eqb raw.completed []) && not v.completed)) [
      | inr h ↦ rw h k
      | inl h ↦ rw h (emit-IsKept (10 ∷ []) _ (emit-IsKept _ s k))
    ]

on_vertex-IsKept :
    (elapsed : Bytes → Bytes → Bytes) (raw : RawVertex) (s : Stream)
    → IsKept s
    → IsKept (on_vertex elapsed raw s)
unfolding on_vertex
on_vertex-IsKept elapsed raw s k =
    let t = get_vertex raw.digest raw.name s.tracker in
    elim (Option-cases (find_vertex raw.digest t.vertices)) [
      | inl e ↦ rw (on_vertex, e) (with_tracker t s k)
      | inr (v, e) ↦
          rw (on_vertex, e)
            (with_tracker _ _
              (complete_vertex-IsKept elapsed raw v _ (start_vertex-IsKept raw v s k)))
    ]

emit_each-IsKept : (num : ℕ) (ls : List Bytes) (s : Stream) → IsKept s → IsKept (emit_each num ls s)
unfolding emit_each
emit_each-IsKept num [] s k = k
emit_each-IsKept num (l ∷ ls) s k =
    emit_each-IsKept num ls (emit (numbered num l) s) (emit-IsKept (numbered num l) s k)

on_status-IsKept :
    (digest name completed : Bytes) (s : Stream)
    → IsKept s
    → IsKept (on_status digest name completed s)
unfolding on_status
on_status-IsKept digest name completed s k = elim (Bool-cases (eqb completed [])) [
  | inl h ↦ rw h k
  | inr h ↦ rw h (emit-IsKept _ _ (with_tracker (get_vertex digest [] s.tracker) s k))
]

on_item-IsKept :
    (elapsed : Bytes → Bytes → Bytes) (i : Item) (s : Stream)
    → IsKept s
    → IsKept (on_item elapsed i s)
unfolding on_item on_log
on_item-IsKept elapsed (plain line) s k = emit-IsKept (line ++ 10 ∷ []) s k
on_item-IsKept elapsed (raw_vertex raw) s k = on_vertex-IsKept elapsed raw s k
on_item-IsKept elapsed (raw_log digest none) s k = with_tracker (get_vertex digest [] s.tracker) s k
on_item-IsKept elapsed (raw_log digest (some text)) s k =
    let t = get_vertex digest [] s.tracker in
    emit_each-IsKept (num_of (find_vertex digest t.vertices)) (split (trim_right_of 10 text) 10)
      (record s { tracker = t }) (with_tracker t s k)
on_item-IsKept elapsed (raw_status digest name completed) s k =
    on_status-IsKept digest name completed s k

-- Whatever is read of buildctl's progress, the buffer holds the lines from the first one on, and all of
-- them unless it has its 10 MB: lines that come after that are not in it.
pub read_stream-IsKept :
    (elapsed : Bytes → Bytes → Bytes) (items : List Item) (s : Stream)
    → IsKept s
    → IsKept (read_stream elapsed items s)
unfolding read_stream
read_stream-IsKept elapsed [] s k = k
read_stream-IsKept elapsed (i ∷ items) s k =
    read_stream-IsKept elapsed items (on_item elapsed i s) (on_item-IsKept elapsed i s k)
