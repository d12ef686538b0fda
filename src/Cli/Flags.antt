-- ===== src/Cli/Flags.antt =====
-- The flags of a command line, read back by parseArgs, kvFlag and getServerURL.
use buildkit_multipartable.Base.{
  ℕ, suc, ◌≡◌, refl, ap, sym, subst, false, List, [], ◌∷◌, ◌++◌, map, some, Bytes, codes, eqb,
  eqb_iff, arith, All, Bool-cases, inl, inr, ◌==◌, length, take, drop, Files,
}
use buildkit_multipartable.Strings.{has_prefix, index}
use buildkit_multipartable.Paths.Relative.{has_prefix_self}
use buildkit_multipartable.Cli.{
  is_flag, split_arg, add_arg, parse_round, parse_loop, Part, field, arg_fields,
}

-- what a flag "--arg." stands for
abbrev pub arg_flag : Bytes × Bytes → Bytes
arg_flag kv = codes "--arg." ++ (kv.0 ++ (b'=' ∷ kv.1))

abbrev pub NoEquals : Bytes → Type 0
NoEquals s = All (λ (c : ℕ). (c == b'=') ≡ false) s

pub flag_other : (a s : Bytes) → is_flag a ≡ false → eqb a (codes "--" ++ s) ≡ false
flag_other a s h = elim (Bool-cases (eqb a (codes "--" ++ s))) [
  | inr e ↦ e
  | inl e ↦
      let t = has_prefix_self (codes "--") s in
      let u = subst (λ b. is_flag b ≡ false) ((eqb_iff a (codes "--" ++ s)).0 e) h in cc
]

pub prefix_other : (p s a : Bytes) → has_prefix a p ≡ false → eqb (p ++ s) a ≡ false
prefix_other p s a h = elim (Bool-cases (eqb (p ++ s) a)) [
  | inr e ↦ e
  | inl e ↦
      let t = has_prefix_self p s in
      let u = subst (λ b. has_prefix b p ≡ false) (sym ((eqb_iff (p ++ s) a).0 e)) h in cc
]

-- A word that is no flag is no build argument.
pub flag_no_arg : (a : Bytes) → is_flag a ≡ false → has_prefix a (codes "--arg.") ≡ false
unfolding has_prefix
flag_no_arg [] h = refl
flag_no_arg (c ∷ []) h = ground arith
flag_no_arg (c ∷ d ∷ a) h = ground (arith, h)

index_equals : (k v : Bytes) → NoEquals k → index (k ++ (b'=' ∷ v)) (codes "=") ≡ some (length k)
unfolding index has_prefix
index_equals [] v h = refl
index_equals (c ∷ k) v (h, hs) = rw (h, index_equals k v hs) refl

take_key : (k v : Bytes) → take (length k) (k ++ v) ≡ k
take_key [] v = refl
take_key (c ∷ k) v = ap (λ s. c ∷ s) (take_key k v)

drop_key : (k v : Bytes) (c : ℕ) → drop (suc (length k)) (k ++ (c ∷ v)) ≡ v
drop_key [] v c = refl
drop_key (d ∷ k) v c = drop_key k v c

pub split_arg-arg_flag : (kv : Bytes × Bytes) → NoEquals kv.0 → split_arg (arg_flag kv) ≡ some kv
unfolding split_arg
split_arg-arg_flag (k, v) h =
    rw (split_arg, index_equals k v h, take_key k (b'=' ∷ v), drop_key k v b'=') refl

abbrev pub arg_part : Bytes × Bytes → Part
arg_part kv = field (codes "arg." ++ kv.0) kv.1

pub arg_fields-arg_flag :
    (kvs : List (Bytes × Bytes))
    → All (λ kv. NoEquals kv.0) kvs
    → arg_fields (map arg_flag kvs) ≡ map arg_part kvs
unfolding arg_fields has_prefix
arg_fields-arg_flag [] h = refl
arg_fields-arg_flag (kv ∷ kvs) (h, hs) =
    rw (split_arg-arg_flag kv h) (ap (λ ps. arg_part kv ∷ ps) (arg_fields-arg_flag kvs hs))

-- Flags for build arguments are no positional arguments.
pub parse_loop-arg_flag :
    (kvs : List (Bytes × Bytes)) (kv : Files) (positional : List Bytes)
    → (parse_loop false (map arg_flag kvs) (kv, positional)).1 ≡ positional
unfolding parse_loop parse_round has_prefix
parse_loop-arg_flag [] kv positional = refl
parse_loop-arg_flag (a ∷ kvs) kv positional =
    parse_loop-arg_flag kvs (add_arg (split_arg (arg_flag a)) kv) positional
