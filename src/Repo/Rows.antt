-- ===== src/Repo/Rows.antt =====
-- Tables as lists of rows: keys, look-ups and conditional updates.
use buildkit_multipartable.Base.{
  ◌≡◌, refl, ◌∙◌, inl, inr, Bool, true, false, none, some, List, [], ◌∷◌, ◌++◌, arith, Bytes, eqb,
  eqb_iff, Bool-cases, select, All, if◌then◌else◌,
}
use buildkit_multipartable.Domain.{Build}
use buildkit_multipartable.Repo.{update_where, find_row}

-- No row has the key `id`.
abbrev pub Fresh : Bytes → List Build → Type 0
Fresh id = All (λ r. eqb r.id id ≡ false)

-- No two rows have the same key.
abbrev pub HasKeys : List Build → Type 0
HasKeys [] = Unit {0}
HasKeys (r ∷ rs) = Fresh r.id rs × HasKeys rs

pub eqb_sym : (x y : Bytes) → eqb x y ≡ eqb y x
eqb_sym x y = ground (arith, eqb_iff x y, eqb_iff y x)

pub find_row-none : (id : Bytes) (rows : List Build) → find_row id rows ≡ none → Fresh id rows
unfolding find_row
find_row-none id [] e = tt
find_row-none id (r ∷ rs) e = ground (arith, find_row-none id rs)

pub find_row-Fresh : (id : Bytes) (rows : List Build) → Fresh id rows → find_row id rows ≡ none
unfolding find_row
find_row-Fresh id [] f = refl
find_row-Fresh id (r ∷ rs) f = ground (arith, find_row-Fresh id rs f.1)

pub find_row-id :
    (id : Bytes) (rows : List Build) {r : Build} → find_row id rows ≡ some r → r.id ≡ id
unfolding find_row
find_row-id id [] e = cc
find_row-id id (x ∷ rs) {r} e = ground (arith, eqb_iff x.id id, find_row-id id rs {r = r})

pub find_row-append :
    (id : Bytes) (rows : List Build) (b : Build)
    → find_row id (rows ++ b ∷ [])
      ≡ elim (find_row id rows) [ some r ↦ some r | none ↦ if eqb b.id id then some b else none ]
unfolding find_row
find_row-append id [] b = refl
find_row-append id (r ∷ rs) b = ground (arith, find_row-append id rs b)

Fresh-append :
    (id : Bytes) (rows : List Build) (b : Build)
    → Fresh id rows
    → eqb b.id id ≡ false
    → Fresh id (rows ++ b ∷ [])
Fresh-append id [] b f h = (h, tt)
Fresh-append id (r ∷ rs) b f h = (f.0, Fresh-append id rs b f.1 h)

pub HasKeys-append :
    (rows : List Build) (b : Build) → HasKeys rows → Fresh b.id rows → HasKeys (rows ++ b ∷ [])
HasKeys-append [] b k f = (tt, tt)
HasKeys-append (r ∷ rs) b k f =
    (Fresh-append r.id rs b k.0 (eqb_sym b.id r.id ∙ f.0), HasKeys-append rs b k.1 f.1)

Fresh-select :
    (id : Bytes) (p : Build → Bool) (rows : List Build) → Fresh id rows → Fresh id (select p rows)
Fresh-select id p [] f = tt
Fresh-select id p (r ∷ rs) f = ground (arith, Fresh-select id p rs f.1)

pub HasKeys-select : (p : Build → Bool) (rows : List Build) → HasKeys rows → HasKeys (select p rows)
HasKeys-select p [] k = tt
HasKeys-select p (r ∷ rs) k = ground (arith, HasKeys-select p rs k.1, Fresh-select r.id p rs k.0)

pub find_row-select :
    (id : Bytes) (p : Build → Bool) (rows : List Build)
    → HasKeys rows
    → find_row id (select p rows)
      ≡ elim (find_row id rows) [ some r ↦ if p r then some r else none | none ↦ none ]
unfolding find_row
find_row-select id p [] k = refl
find_row-select id p (r ∷ rs) k = ground (
  arith,
  eqb_iff r.id id,
  find_row-select id p rs k.1,
  find_row-Fresh r.id (select p rs) (Fresh-select r.id p rs k.0),
  find_row-Fresh r.id rs k.0,
)

pub All-select {κ} :
    (P : Build → Type κ) (p : Build → Bool) (rows : List Build) → All P rows → All P (select p rows)
All-select P p [] a = tt
All-select P p (r ∷ rs) a =
    elim (p r) as (λ b. All P (elim b [ true ↦ r ∷ select p rs | false ↦ select p rs ])) [
      | true ↦ (a.0, All-select P p rs a.1)
      | false ↦ All-select P p rs a.1
    ]

-- Updates that leave the key alone.
module _ (test : Build → Bool) (change : Build → Build)
    (keeps : (r : Build) → (change r).id ≡ r.id) where
  pub find_row-update_where :
      (id : Bytes) (rows : List Build)
      → find_row id (update_where test change rows)
        ≡ elim (find_row id rows) [ some r ↦ some (if test r then change r else r) | none ↦ none ]
  unfolding find_row update_where
  find_row-update_where id [] = refl
  find_row-update_where id (r ∷ rs) = ground (arith, keeps r, find_row-update_where id rs)

  Fresh-update_where :
      (id : Bytes) (rows : List Build) → Fresh id rows → Fresh id (update_where test change rows)
  unfolding update_where
  Fresh-update_where id [] f = tt
  Fresh-update_where id (r ∷ rs) f = ground (arith, keeps r, Fresh-update_where id rs f.1)

  pub HasKeys-update_where :
      (rows : List Build) → HasKeys rows → HasKeys (update_where test change rows)
  unfolding update_where
  HasKeys-update_where [] k = tt
  HasKeys-update_where (r ∷ rs) k =
      ground (arith, keeps r, Fresh-update_where r.id rs k.0, HasKeys-update_where rs k.1)

pub All-update_where {ℓ κ} :
    {A : Type ℓ} (P : A → Type κ) (test : A → Bool) (change : A → A) (rows : List A)
    → ((r : A) → P r → test r ≡ true → P (change r))
    → All P rows
    → All P (update_where test change rows)
unfolding update_where
All-update_where P test change [] h a = tt
All-update_where P test change (r ∷ rs) h a = elim (Bool-cases (test r)) [
  | inl e ↦ rw e (h r a.0 e, All-update_where P test change rs h a.1)
  | inr e ↦ rw e (a.0, All-update_where P test change rs h a.1)
]
