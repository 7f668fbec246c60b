-- ===== src/Strings/Mem.antt =====
-- What memcpy, memset and memcmp do to a memory.
use lesch_os.Base.{
  ℕ, zero, suc, ◌+◌, ◌-◌, ◌≤◌, ◌≡◌, ◌⊎◌, ◌↔◌, refl, Bool, ◌&&◌, arith, if◌then◌else◌, leb, ltb,
  ◌==◌, Bool-cases, inl, inr,
}
use lesch_os.Strings.{Memory, write, memcpy_loop, memcpy, memset_loop, memset, memcmp}

-- The address lies in the `size` bytes from `base`.
abbrev pub within : (base size a : ℕ) → Bool
within base size a = leb base a && ltb a (base + size)

memcpy_loop_lem :
    (left i dst src : ℕ) (mem : Memory) (a : ℕ)
    → (dst ≤ src) ⊎ (src + i + left ≤ dst + i)
    → memcpy_loop left i dst src mem a
      ≡ (if within (dst + i) left a then mem (src + (a - dst)) else mem a)
unfolding memcpy_loop
memcpy_loop_lem zero i dst src mem a h = ground arith
memcpy_loop_lem (suc left) i dst src mem a h =
    ground (arith, memcpy_loop_lem left (i + 1) dst src (write mem (dst + i) (mem (src + i))) a)

-- `memcpy` where the target does not start inside the source: afterwards the target holds what the
-- source held, and every other byte is as before.
pub memcpy_lem :
    (dst src size : ℕ) (mem : Memory) (a : ℕ)
    → (dst ≤ src) ⊎ (src + size ≤ dst)
    → memcpy dst src size mem a ≡ (if within dst size a then mem (src + (a - dst)) else mem a)
unfolding memcpy
memcpy_lem dst src size mem a h = ground (arith, memcpy_loop_lem size 0 dst src mem a)

memset_loop_lem :
    (left i dst sign : ℕ) (mem : Memory) (a : ℕ)
    → memset_loop left i dst sign mem a ≡ (if within (dst + i) left a then sign else mem a)
unfolding memset_loop
memset_loop_lem zero i dst sign mem a = ground arith
memset_loop_lem (suc left) i dst sign mem a =
    ground (arith, memset_loop_lem left (i + 1) dst sign (write mem (dst + i) sign) a)

-- `memset` fills exactly the bytes given.
pub memset_lem :
    (dst sign size : ℕ) (mem : Memory) (a : ℕ)
    → memset dst sign size mem a ≡ (if within dst size a then sign else mem a)
unfolding memset
memset_lem dst sign size mem a = ground (arith, memset_loop_lem size 0 dst sign mem a)

-- The `len` bytes at both addresses are the same.
abbrev pub Same : (a b len : ℕ) → Memory → Type 0
Same a b zero mem = Unit
Same a b (suc len) mem = (mem a ≡ mem b) × Same (a + 1) (b + 1) len mem

-- `memcmp` returns 1 exactly when the bytes are the same, and else 0.
pub memcmp_iff :
    (a b len : ℕ) (mem : Memory)
    → ((memcmp a b len mem ≡ 1) ↔ Same a b len mem) × (memcmp a b len mem ≤ 1)
unfolding memcmp
memcmp_iff a b zero mem = ((λ e. tt, λ s. refl), omega arith)
memcmp_iff a b (suc len) mem =
    let rest = memcmp_iff (a + 1) (b + 1) len mem in
    elim (Bool-cases (mem a == mem b)) [
      | inl e ↦ rw e ((λ h. (ground arith, rest.0.0 h), λ s. rest.0.1 s.1), rest.1)
      | inr e ↦ rw e ((λ h. absurd (omega arith), λ s. ground arith), omega arith)
    ]
