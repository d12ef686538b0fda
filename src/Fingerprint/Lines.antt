-- ===== src/Fingerprint/Lines.antt =====
-- The loop of FromDockerfile over the lines.
use buildkit_multipartable.Base.{
  ◌≡◌, refl, true, false, List, [], ◌∷◌, ◌++◌, Perm, arith, Bytes, subst, ◌⊎◌, inl, inr,
}
use mathlib.Core.List.{Permᴰ, append_assoc, append-nil, perm_append_comm}
use mathlib.Core.List.Perm
use mathlib.Core.Logic.{∥∥₁_elim, ∥∥₁_prop}
use buildkit_multipartable.Base.Sort.{IsOrder}
use buildkit_multipartable.Fingerprint.{Kind, skipped, base, instruction, kind, scan, string_le}

string_le_total : (x y : Bytes) → string_le x y ≡ false → string_le y x ≡ true
unfolding string_le
string_le_total [] y h = ground arith
string_le_total (a ∷ x) [] h = refl
string_le_total (a ∷ x) (b ∷ y) h = ground (arith, string_le_total x y)

string_le_trans :
    (x y z : Bytes) → string_le x y ≡ true → string_le y z ≡ true → string_le x z ≡ true
unfolding string_le
string_le_trans [] y z h k = refl
string_le_trans (a ∷ x) [] z h k = ground arith
string_le_trans (a ∷ x) (b ∷ y) [] h k = ground arith
string_le_trans (a ∷ x) (b ∷ y) (c ∷ z) h k = ground (arith, string_le_trans x y z)

pub string_le-IsOrder : IsOrder string_le
string_le-IsOrder = record { total = string_le_total; trans = string_le_trans }

pub string_le_antisym : (x y : Bytes) → string_le x y ≡ true → string_le y x ≡ true → x ≡ y
unfolding string_le
string_le_antisym [] [] h k = refl
string_le_antisym [] (b ∷ y) h k = ground arith
string_le_antisym (a ∷ x) [] h k = ground arith
string_le_antisym (a ∷ x) (b ∷ y) h k = ground (arith, string_le_antisym x y)

pub base_of : Kind → List Bytes
base_of skipped = []
base_of (base img) = img ∷ []
base_of (instruction line) = []

pub instruction_of : Kind → List Bytes
instruction_of skipped = []
instruction_of (base img) = []
instruction_of (instruction line) = line ∷ []

-- What `f` finds on the lines, in their order.
pub found : (Kind → List Bytes) → List Bytes → List Bytes
found f [] = []
found f (l ∷ ls) = f (kind l) ++ found f ls

-- The images of the FROM lines.
abbrev pub base_lines : List Bytes → List Bytes
base_lines = found base_of

-- The RUN, COPY and ADD lines.
abbrev pub instruction_lines : List Bytes → List Bytes
instruction_lines = found instruction_of

Kind-cases :
    (k : Kind)
    → (k ≡ skipped) ⊎ ((img : Bytes) × (k ≡ base img)) ⊎ ((line : Bytes) × (k ≡ instruction line))
Kind-cases skipped = inl refl
Kind-cases (base img) = inr (inl (img, refl))
Kind-cases (instruction line) = inr (inr (line, refl))

pub scan_lem :
    (ls bs is : List Bytes) → scan ls bs is ≡ (bs ++ base_lines ls, is ++ instruction_lines ls)
unfolding scan found base_of instruction_of
scan_lem [] bs is = let e = append-nil bs in let f = append-nil is in cc
scan_lem (l ∷ ls) bs is = elim (Kind-cases (kind l)) [
  | inl e ↦ ground (arith, e, scan_lem ls bs is)
  | inr (inl (img, e)) ↦
      ground (arith, e, scan_lem ls (bs ++ img ∷ []) is, append_assoc bs (img ∷ []) (base_lines ls))
  | inr (inr (line, e)) ↦ ground (
    arith,
    e,
    scan_lem ls bs (is ++ line ∷ []),
    append_assoc is (line ∷ []) (instruction_lines ls),
  )
]

found-swap :
    (f : Kind → List Bytes) (a b : Bytes) (ls : List Bytes)
    → Perm (found f (a ∷ b ∷ ls)) (found f (b ∷ a ∷ ls))
unfolding found
found-swap f a b ls =
    subst (λ xs. Perm xs (f (kind b) ++ (f (kind a) ++ found f ls)))
      (append_assoc (f (kind a)) (f (kind b)) (found f ls))
      (subst (λ xs. Perm (f (kind a) ++ f (kind b) ++ found f ls) xs)
        (append_assoc (f (kind b)) (f (kind a)) (found f ls))
        (Perm.append_right (found f ls) (perm_append_comm (f (kind a)) (f (kind b)))))

Permᴰ-found :
    (f : Kind → List Bytes) {xs ys : List Bytes} → Permᴰ xs ys → Perm (found f xs) (found f ys)
unfolding found
Permᴰ-found f Permᴰ.nil = Perm.refl []
Permᴰ-found f (Permᴰ.cons {a} {l₁} {l₂} e q) =
    subst (λ x. Perm (found f (a ∷ l₁)) (found f (x ∷ l₂))) e
      (Perm.append_left (f (kind a)) (Permᴰ-found f q))
Permᴰ-found f (Permᴰ.swap {a} {b} {l = zs} e e') =
    subst {A = Bytes × Bytes} (λ p. Perm (found f (a ∷ b ∷ zs)) (found f (p.0 ∷ p.1 ∷ zs)))
      (λ i. (e' i, e i)) (found-swap f a b zs)
Permᴰ-found f (Permᴰ.trans q r) = Perm.trans (Permᴰ-found f q) (Permᴰ-found f r)

-- What is found depends on the lines up to their order.
pub perm-found :
    (f : Kind → List Bytes) {xs ys : List Bytes} → Perm xs ys → Perm (found f xs) (found f ys)
perm-found f q = ∥∥₁_elim q ∥∥₁_prop (Permᴰ-found f)
