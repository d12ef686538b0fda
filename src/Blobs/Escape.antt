-- ===== src/Blobs/Escape.antt =====
-- The key of a form that names its build.
use buildkit_multipartable.Base.{
  suc, ◌+◌, ◌≡◌, refl, ◌∙◌, ap, subst, true, false, List, [], ◌∷◌, ◌++◌, Bytes, codes, eqb, arith,
  length, length-append, All, All-append,
}
use buildkit_multipartable.Strings.{join, split, has_prefix}
use buildkit_multipartable.Paths.{
  slash, dots, clean, kept, walk, enter, drop_last, backtracks, join_path,
}
use buildkit_multipartable.Paths.Parts.{NoSlash, IsName, split-append, split-join, split_name}
use buildkit_multipartable.Paths.Walk.{kept-IsName, walk_names, drop_last-All, backtracks-names}
use buildkit_multipartable.Paths.Rooted.{IsBelow, clean_rooted, names-NoSlash, split_cons}
use buildkit_multipartable.Paths.Under.{kept-nonempty, walk-append, first_slash}
use buildkit_multipartable.Api.{SubmitForm, form_submission}
use buildkit_multipartable.Blobs.{resolve_key}
use buildkit_multipartable.Blobs.Keys.{IsFolder}
use buildkit_multipartable.Blobs.Contexts.{suffix, suffix-IsName}

clean_up :
    (name : Bytes) → IsName name → clean (codes "contexts/../../" ++ name) ≡ codes "../" ++ name
unfolding clean kept split has_prefix walk enter join eqb backtracks drop_last
clean_up name n = rw (split_name name n.3, walk_names false (dots ∷ []) (name ∷ []) (n, tt)) refl

length-drop_last :
    (k : Bytes) (ks : List Bytes) → suc (length (drop_last (k ∷ ks))) ≡ length (k ∷ ks)
unfolding drop_last
length-drop_last k [] = refl
length-drop_last k (l ∷ ks) = ap suc (length-drop_last l ks)

parts_length :
    (ps : List Bytes) (name : Bytes)
    → All NoSlash ps
    → NoSlash name
    → length (split (join (ps ++ name ∷ []) slash) b'/') ≡ length ps + 1
parts_length [] name h n = rw (split-join name [] (n, tt)) refl
parts_length (p ∷ ps) name (h, hs) n =
    rw (split-join p (ps ++ name ∷ []) (h, All-append NoSlash ps (name ∷ []) hs (n, tt)))
      (omega (arith, length-append {0} ps (name ∷ [])))

split_dots : (ps : List Bytes) → split dots b'/' ++ ps ≡ dots ∷ ps
unfolding split
split_dots ps = refl

up_and_down :
    (k : Bytes) (ks : List Bytes) (name : Bytes)
    → backtracks (k ∷ ks) ≡ true
    → IsName name
    → walk true (k ∷ ks) (dots ∷ name ∷ []) ≡ drop_last (k ∷ ks) ++ name ∷ []
unfolding walk enter eqb
up_and_down k ks name b n = rw b (walk_names true (drop_last (k ∷ ks)) (name ∷ []) (n, tt))

kept_above :
    (base k : Bytes) (ks : List Bytes) (name : Bytes)
    → has_prefix base slash ≡ true
    → kept base ≡ k ∷ ks
    → IsName name
    → kept (base ++ (b'/' ∷ (dots ++ (b'/' ∷ name)))) ≡ drop_last (k ∷ ks) ++ name ∷ []
unfolding kept
kept_above base k ks name r h n =
    let full = kept-nonempty base k ks h in
    let two : split (dots ++ (b'/' ∷ name)) b'/' ≡ dots ∷ name ∷ [] =
      split-append dots name ∙ rw (split_name name n.3) dots_first in
    let start : walk true [] (split base b'/') ≡ k ∷ ks =
      subst (λ b. walk b [] (split base b'/') ≡ k ∷ ks) r h in
    let names = subst (All IsName) h (kept-IsName base r) in
    rw
      (
        first_slash base (b'/' ∷ (dots ++ (b'/' ∷ name))) full,
        r,
        split-append base (dots ++ (b'/' ∷ name)),
        two,
        walk-append true [] (split base b'/') (dots ∷ name ∷ []),
        start,
      )
      (up_and_down k ks name (backtracks-names k ks names) n)
  where
    dots_first : split dots b'/' ++ name ∷ [] ≡ dots ∷ name ∷ []
    dots_first = split_dots _

-- The element above a folder, and a name there.
clean_above :
    (base k : Bytes) (ks : List Bytes) (name : Bytes)
    → has_prefix base slash ≡ true
    → kept base ≡ k ∷ ks
    → IsName name
    → clean (base ++ (b'/' ∷ (dots ++ (b'/' ∷ name))))
      ≡ b'/' ∷ join (drop_last (k ∷ ks) ++ name ∷ []) slash
clean_above base k ks name r h n =
    let full = kept-nonempty base k ks h in
    let root : has_prefix (base ++ (b'/' ∷ (dots ++ (b'/' ∷ name)))) slash ≡ true =
      first_slash base (b'/' ∷ (dots ++ (b'/' ∷ name))) full ∙ r in
    clean_rooted (base ++ (b'/' ∷ (dots ++ (b'/' ∷ name)))) root
    ∙ rw (kept_above base k ks name r h n) refl

-- The parts are too few.
too_few :
    (k : Bytes) (ks : List Bytes) (name : Bytes)
    → All IsName (k ∷ ks)
    → IsName name
    → ¬ IsBelow (b'/' ∷ join (k ∷ ks) slash) (b'/' ∷ join (drop_last (k ∷ ks) ++ name ∷ []) slash)
too_few k ks name a n (p, ps, _, e) =
    let rest = join (p ∷ ps) slash in
    let folder = join (k ∷ ks) slash in
    let file = join (drop_last (k ∷ ks) ++ name ∷ []) slash in
    let f : file ≡ folder ++ (b'/' ∷ rest) = cc in
    let dropped = drop_last-All NoSlash (k ∷ ks) (names-NoSlash (k ∷ ks) a) in
    omega (
      arith,
      ap (λ s. length (split s b'/')) f,
      ap length (split-append folder rest),
      length-append {0} (split folder b'/') (split rest b'/'),
      parts_length (drop_last (k ∷ ks)) name dropped n.3,
      ap length (split-join k ks (names-NoSlash (k ∷ ks) a)),
      ap length (split_cons rest).2,
      length-drop_last k ks,
    )

-- A form may name its build. Where it asks for a build "../../" and a name, the key of its context
-- stands for a file that is not below the folder of a LocalStore, if that folder is absolute and not
-- the root.
pub resolve_key_escapes :
    (base uuid api_key id : Bytes) (form : SubmitForm)
    → has_prefix base slash ≡ true
    → IsFolder base
    → NoSlash id
    → form.build_id ≡ codes "../../" ++ id
    → ¬ IsBelow (clean base) (resolve_key base (form_submission uuid api_key form).ctx_key)
unfolding form_submission resolve_key join_path eqb
resolve_key_escapes base uuid api_key id form r (k, ks, f) h e below =
    let n = suffix-IsName id h in
    let names = subst (All IsName) f (kept-IsName base r) in
    let file : resolve_key base (form_submission uuid api_key form).ctx_key
        ≡ b'/' ∷ join (drop_last (k ∷ ks) ++ (id ++ suffix) ∷ []) slash =
      rw (e, clean_up (id ++ suffix) n, kept-nonempty base k ks f)
        (clean_above base k ks (id ++ suffix) r f n) in
    let folder : clean base ≡ b'/' ∷ join (k ∷ ks) slash =
      clean_rooted base r ∙ ap (λ xs. b'/' ∷ join xs slash) f in
    too_few k ks (id ++ suffix) names n (
      subst (λ d. IsBelow d (b'/' ∷ join (drop_last (k ∷ ks) ++ (id ++ suffix) ∷ []) slash)) folder
        (subst (IsBelow (clean base)) file below))
