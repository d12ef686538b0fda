-- ===== src/Blobs/Contract.antt =====
-- BlobStore as a map from keys to contents: what its three operations promise for some view of the
-- state behind them.
use buildkit_multipartable.Base.{
  ℕ, ◌≡◌, false, [], Option, none, some, Bytes, eqb, length, if◌then◌else◌, Result, ok, err,
}
use buildkit_multipartable.Blobs.{BlobStore, Reader}

abbrev pub whole : Bytes → Reader
whole content = record { content = content; broken = false }

-- what Get writes and returns for what the map holds
abbrev pub found : Option Bytes → Bytes × Result (Unit {0}) ℕ
found none = ([], err tt)
found (some content) = (content, ok (length content))

-- `Room` says where there is room for a key. What Delete returns on a key that the map does not have is
-- left open: S3 and an empty folder accept it, a file system without the path does not.
pub record Implements {S : Type 0} (store : BlobStore S) (view : Bytes → S → Option Bytes)
    (Key : Bytes → Type 0) (Room : Bytes → S → Type 0) : Type 0 where
  pub get-found : (k : Bytes) (s : S) → Key k → store.get k s ≡ found (view k s)
  pub put-ok :
      (k c : Bytes) (s : S) → Key k → Room k s → (store.put k (whole c) s).1 ≡ ok (length c)
  pub view-put :
      (k j c : Bytes) (s : S)
      → Key k
      → Key j
      → Room k s
      → view j (store.put k (whole c) s).0 ≡ (if eqb k j then some c else view j s)
  pub put-other :
      (k j c : Bytes) (s : S)
      → Key k
      → Key j
      → eqb k j ≡ false
      → view j (store.put k (whole c) s).0 ≡ view j s
  pub delete-ok : (k c : Bytes) (s : S) → Key k → view k s ≡ some c → (store.delete k s).1 ≡ ok tt
  pub view-delete :
      (k j : Bytes) (s : S)
      → Key k
      → Key j
      → view j (store.delete k s).0 ≡ (if eqb k j then none else view j s)
