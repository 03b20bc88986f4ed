-- ===== src/AddressSpaces/Units.antt =====
-- The conversions of `address_space_config` between addresses and bytes.
use native.Mathlib.Nat.{div-eq_of_lt-le, div-add-mod', mod-lt, mod-eq_of_lt, one-le-pow}
use remame.Base.{ℕ, suc, ◌+◌, ◌-◌, ◌*◌, ◌/◌, ◌%◌, ◌^◌, ◌≤◌, ◌<◌, ◌≡◌, ◌↔◌, ap, arith}
use remame.Base.Int.{pos, negsuc}
use remame.AddressSpaces.{addr2byte, byte2addr, addr2byte_end, byte2addr_end}

-- What a quotient by `d` says.
pub div_iff : (d x y : ℕ) → 0 < d → (y / d ≡ x) ↔ ((x * d ≤ y) × (y ≤ x * d + (d - 1)))
div_iff d x y pos_d = (to, from)
  where
    to : y / d ≡ x → (x * d ≤ y) × (y ≤ x * d + (d - 1))
    to e =
        let whole = div-add-mod' y d in
        let rest = mod-lt y pos_d in
        let same = ap (λ (q : ℕ). q * d) e in
        (omega (arith, whole, same), omega (arith, whole, rest, same))

    from : (x * d ≤ y) × (y ≤ x * d + (d - 1)) → y / d ≡ x
    from (lo, hi) = div-eq_of_lt-le d lo (omega arith)

pub power_pos : (k : ℕ) → 0 < 2 ^ k
power_pos k = one-le-pow k 2 (omega arith)

-- A product that fits is not cut.
fits : (d x : ℕ) → 0 < d → x * d + d ≤ 2 ^ 32 → x * d % 2 ^ 32 ≡ x * d
fits d x pos_d h = mod-eq_of_lt (omega arith)

-- For a unit, of 2 to the power of k + 1 bytes, that ends within 32 bits, and a negative shift:
-- the bytes from `addr2byte` to `addr2byte_end` of its address are exactly those of which
-- `byte2addr` gives the address. Likewise, for a positive shift and so many addresses in a
-- byte, the addresses from `byte2addr` to `byte2addr_end` of a byte are exactly those of which
-- `addr2byte` gives the byte.
pub units_iff :
    (k x y : ℕ)
    → x * 2 ^ suc k + 2 ^ suc k ≤ 2 ^ 32
    → ((byte2addr (negsuc k) y ≡ x)
        ↔ ((addr2byte (negsuc k) x ≤ y) × (y ≤ addr2byte_end (negsuc k) x)))
      × ((addr2byte (pos (suc k)) y ≡ x)
          ↔ ((byte2addr (pos (suc k)) x ≤ y) × (y ≤ byte2addr_end (pos (suc k)) x)))
unfolding byte2addr addr2byte addr2byte_end byte2addr_end
units_iff k x y h =
    let d = 2 ^ suc k in
    let iff = div_iff d x y (power_pos (suc k)) in rw (fits d x (power_pos (suc k)) h) (iff, iff)
