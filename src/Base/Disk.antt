-- ===== src/Base/Disk.antt =====
-- Files: a map from paths to contents.
use buildkit_multipartable.Base.Tests.{if◌then◌else◌}
use buildkit_multipartable.Base.Text.{Bytes, eqb, eqb_iff}
use mathlib.Core.Path.{◌≡◌}
use mathlib.Core.Option.{Option, none, some}
use mathlib.Core.List.{List, [], ◌∷◌}
use native.Mathlib.Omega.{arith}

abbrev pub Files : Type 0
Files = List (Bytes × Bytes)

unfoldable pub read : Bytes → Files → Option Bytes
read path [] = none
read path (f ∷ fs) = if eqb f.0 path then some f.1 else read path fs

unfoldable pub erase : Bytes → Files → Files
erase path [] = []
erase path (f ∷ fs) = let rest = erase path fs in if eqb f.0 path then rest else f ∷ rest

unfoldable pub write : Bytes → Bytes → Files → Files
unfolding erase
write path content fs = (path, content) ∷ erase path fs

pub read-erase :
    (q p : Bytes) (fs : Files) → read q (erase p fs) ≡ (if eqb p q then none else read q fs)
unfolding read erase
read-erase q p [] = ground arith
read-erase q p (f ∷ fs) =
    ground (arith, read-erase q p fs, eqb_iff f.0 p, eqb_iff f.0 q, eqb_iff p q)

pub read-write :
    (q p content : Bytes) (fs : Files)
    → read q (write p content fs) ≡ (if eqb p q then some content else read q fs)
unfolding read write
read-write q p content fs = ground (arith, read-erase q p fs)
