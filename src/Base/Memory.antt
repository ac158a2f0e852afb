-- ===== src/Base/Memory.antt =====
-- Byte arrays as functions from the index. A definition writes where the code writes; that the
-- indices stay inside the C array is a theorem of the module that owns the array.
use Prim.Native.Nat.{ℕ, zero, suc, ◌+◌, ◌-◌, ◌≤◌}
use mathlib.Core.Path.{◌≡◌, ap}
use mathlib.Core.Logic.{◌⊎◌}
use mathlib.Core.Bool.{Bool, ◌&&◌}
use native.Mathlib.Omega.{arith}
use lunaria_os.Base.Tests.{ltb, leb, ◌==◌, if◌then◌else◌}

abbrev pub Bytes : Type 0
Bytes = ℕ → ℕ

abbrev pub write : Bytes → ℕ → ℕ → Bytes
write m i v j = if j == i then v else m j

-- `lo <= j < hi`
abbrev pub in_range : ℕ → ℕ → ℕ → Bool
in_range lo hi j = leb lo j && ltb j hi

-- `for (; n > 0; i++, n--) m[i] = f(i, m[i]);`
unfoldable pub each : (ℕ → ℕ → ℕ) → ℕ → ℕ → Bytes → Bytes
each f zero i m = m
each f (suc n) i m = each f n (i + 1) (write m i (f i (m i)))

pub each_lem :
    (f : ℕ → ℕ → ℕ) (n i : ℕ) (m : Bytes) (j : ℕ)
    → each f n i m j ≡ (if in_range i (i + n) j then f j (m j) else m j)
unfolding each
each_lem f zero i m j = ground arith
each_lem f (suc n) i m j = ground (arith, each_lem f n (i + 1) (write m i (f i (m i))) j)

-- `for (; n > 0; i++, n--) m[d + i] = m[s + i];` inside one memory
unfoldable pub copy : ℕ → ℕ → ℕ → Bytes → Bytes
copy zero d s m = m
copy (suc n) d s m = copy n (d + 1) (s + 1) (write m d (m s))

-- Where the target does not run into the part of the source that is still to be read, the copy is
-- the old source.
pub copy_lem :
    (n d s : ℕ) (m : Bytes) (j : ℕ)
    → (d ≤ s) ⊎ (s + n ≤ d)
    → copy n d s m j ≡ (if in_range d (d + n) j then m (s + (j - d)) else m j)
unfolding copy
copy_lem zero d s m j h = ground arith
copy_lem (suc n) d s m j h =
    ground (arith, copy_lem n (d + 1) (s + 1) (write m d (m s)) j, ap m (step_back s d j))
  where
    step_back : (s d j : ℕ) → s + 1 + (j - (d + 1)) ≡ (if ltb d j then s + (j - d) else s + 1)
    step_back s d j = ground arith
