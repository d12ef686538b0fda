-- ===== src/Blobs/Refine.antt =====
-- LocalStore as a map from keys to contents.
use buildkit_multipartable.Base.{
  ◌∙◌, false, not, ◌||◌, arith, ◌≡◌, refl, subst, true, Option, none, some, Bytes, eqb, length,
  Option-cases, inl, inr, Bool-cases, if◌then◌else◌, ok, err, Files, read, write, erase, read-write,
  read-erase, eqb_iff,
}
use buildkit_multipartable.Paths.{dir}
use buildkit_multipartable.Paths.Relative.{IsKey}
use buildkit_multipartable.Blobs.{
  collides, Device, copied, resolve_key, put_local, get_local, delete_local, local_store,
}
use buildkit_multipartable.Blobs.Keys.{IsFolder, resolve_key_distinct}
use buildkit_multipartable.Blobs.Contract.{Implements, whole, found}

-- No call of the file system fails, but that a file may not be creatable at a path.
pub record IsWorking (dev : Device) : Type 0 where
  pub makes_dir-true : (p : Bytes) → dev.makes_dir p ≡ true
  pub takes-none : (p : Bytes) → dev.takes p ≡ none
  pub gives-none : (p : Bytes) → dev.gives p ≡ none
  pub removes-true : (p : Bytes) → dev.removes p ≡ true

-- No call of the file system fails.
pub record IsHealthy (dev : Device) : Type 0 where
  pub makes_dir-true : (p : Bytes) → dev.makes_dir p ≡ true
  pub creates-true : (p : Bytes) → dev.creates p ≡ true
  pub takes-none : (p : Bytes) → dev.takes p ≡ none
  pub gives-none : (p : Bytes) → dev.gives p ≡ none
  pub removes-true : (p : Bytes) → dev.removes p ≡ true

abbrev pub stored : Bytes → Bytes → Files → Option Bytes
stored base key files = read (resolve_key base key) files

-- A file can be created at the path of the key: no file is above or below it, and no folder is at it.
abbrev pub HasRoom : Device → Bytes → Bytes → Files → Type 0
HasRoom dev base key files =
    (collides (resolve_key base key) files ≡ false) × (dev.creates (resolve_key base key) ≡ true)

module _ (dev : Device) (base : Bytes) (good : IsWorking dev) where
  put_local_lem :
      (k c : Bytes) (files : Files)
      → HasRoom dev base k files
      → put_local dev base k (whole c) files ≡ (write (resolve_key base k) c files, ok (length c))
  unfolding put_local copied
  put_local_lem k c files room =
      let p = resolve_key base k in
      rw (good.makes_dir-true (dir p), room.0, room.1, good.takes-none p) refl

  put_refused :
      (k c : Bytes) (files : Files)
      → (collides (resolve_key base k) files || not (dev.creates (resolve_key base k))) ≡ true
      → put_local dev base k (whole c) files ≡ (files, err tt)
  unfolding put_local
  put_refused k c files h = let p = resolve_key base k in rw (good.makes_dir-true (dir p), h) refl

  get_local_lem :
      (k : Bytes) (files : Files) → get_local dev base k files ≡ found (stored base k files)
  unfolding get_local copied
  get_local_lem k files = elim (Option-cases (stored base k files)) [
    | inl e ↦ rw (get_local, e) refl
    | inr s ↦ rw (get_local, s.1, good.gives-none (resolve_key base k)) refl
  ]

  delete_missing :
      (k : Bytes) (files : Files)
      → stored base k files ≡ none
      → (delete_local dev base k files).0 ≡ files
  unfolding delete_local
  delete_missing k files e = rw (delete_local, e) refl

  delete_present :
      (k c : Bytes) (files : Files)
      → stored base k files ≡ some c
      → delete_local dev base k files ≡ (erase (resolve_key base k) files, ok tt)
  unfolding delete_local
  delete_present k c files e = rw (delete_local, e, good.removes-true (resolve_key base k)) refl

  still_missing :
      (k j : Bytes) (files : Files)
      → stored base k files ≡ none
      → stored base j files ≡ (if eqb k j then none else stored base j files)
  still_missing k j files e = elim (Bool-cases (eqb k j)) [
    | inl q ↦ rw q (subst (λ l. stored base l files ≡ none) ((eqb_iff k j).0 q) e)
    | inr q ↦ rw q refl
  ]

  module _ (folder : IsFolder base) where
    stored-put :
        (k j c : Bytes) (files : Files)
        → IsKey k
        → IsKey j
        → HasRoom dev base k files
        → stored base j (put_local dev base k (whole c) files).0
          ≡ (if eqb k j then some c else stored base j files)
    stored-put k j c files hk hj room =
        rw
          (
            put_local_lem k c files room,
            read-write (resolve_key base j) (resolve_key base k) c files,
            resolve_key_distinct base k j folder hk hj,
          )
          refl

    stored-other :
        (k j c : Bytes) (files : Files)
        → IsKey k
        → IsKey j
        → eqb k j ≡ false
        → stored base j (put_local dev base k (whole c) files).0 ≡ stored base j files
    stored-other k j c files hk hj ne =
        let p = resolve_key base k in
        elim (Bool-cases (collides p files || not (dev.creates p))) [
          | inl h ↦ rw (put_refused k c files h) refl
          | inr h ↦
              let room : HasRoom dev base k files = (ground (arith, h), ground (arith, h)) in
              stored-put k j c files hk hj room ∙ rw ne refl
        ]

    stored-delete :
        (k j : Bytes) (files : Files)
        → IsKey k
        → IsKey j
        → stored base j (delete_local dev base k files).0
          ≡ (if eqb k j then none else stored base j files)
    stored-delete k j files hk hj = elim (Option-cases (stored base k files)) [
      | inl e ↦ rw (delete_missing k files e) (still_missing k j files e)
      | inr s ↦
          rw
            (
              delete_present k s.0 files s.1,
              read-erase (resolve_key base j) (resolve_key base k) files,
              resolve_key_distinct base k j folder hk hj,
            )
            refl
    ]

-- On a device where no call fails, but that a file may not be creatable at a path, a LocalStore in a
-- folder other than the root and the current one is a map from keys to contents, for the keys that are
-- names with slashes between: Get answers by what the map holds; Put succeeds where no file is above or below
-- the path of the key and no folder is at it; Delete succeeds on a key that the map has; and Put and Delete
-- change the map at their key only.
pub local_store-Implements :
    (dev : Device) (base : Bytes)
    → IsWorking dev
    → IsFolder base
    → Implements (local_store dev base) (stored base) IsKey (HasRoom dev base)
local_store-Implements dev base good folder = record {
  get-found = λ k files key. get_local_lem dev base good k files;
  put-ok = λ k c files key room. rw (put_local_lem dev base good k c files room) refl;
  view-put = stored-put dev base good folder;
  put-other = stored-other dev base good folder;
  delete-ok = λ k c files key e. rw (delete_present dev base good k c files e) refl;
  view-delete = stored-delete dev base good folder;
}
