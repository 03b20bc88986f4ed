-- ===== src/AddressTable/Uses.antt =====
-- `subtable_release` and `subtable_realloc` on a subtable in use.
use remame.Base.{ℕ, ◌+◌, ◌-◌, ◌^◌, ◌<◌, ◌≡◌, refl, arith, ◌==◌, ne→==, Bool-cases, inl, inr}
use remame.Base.Result.{Fatal, Returns, returns, Flawless}
use remame.AddressTable.{AddressTable, subtable_base, level2_bits_large}
use remame.AddressTable.Subtable.{subtable_realloc, subtable_release}
use remame.AddressTable.Core.{core, used}
use remame.AddressTable.Frame.{core-unref_loop}
use remame.AddressTable.Sound.{Retagged}

-- The one fatal error of a table in order.
abbrev pub Exhausted : Fatal → Type 0
Exhausted e = e ≡ Fatal.out_of_subtables

pub subtable_realloc-Retagged :
    (e : ℕ) (t : AddressTable)
    → 0 < used (core t) (e - subtable_base)
    → Returns
        (λ t'.
          Retagged (e - subtable_base) (used (core t) (e - subtable_base) + 1) (core t) (core t'))
        Flawless
        (subtable_realloc e t)
unfolding subtable_realloc
subtable_realloc-Retagged e t pos = rw (ne→== (used (core t) (e - subtable_base)) 0 (omega arith)) (
    returns (record {
      tag = record (t.subtables (e - subtable_base)) {
        usecount = used (core t) (e - subtable_base) + 1;
      };
      uses = refl;
      result = refl;
    }))

pub subtable_release-Retagged :
    (e : ℕ) (t : AddressTable)
    → 0 < used (core t) (e - subtable_base)
    → Returns
        (λ t'.
          Retagged (e - subtable_base) (used (core t) (e - subtable_base) - 1) (core t) (core t'))
        Flawless
        (subtable_release e t)
unfolding subtable_release
subtable_release-Retagged e t pos =
    rw (ne→== (used (core t) (e - subtable_base)) 0 (omega arith))
      (elim (Bool-cases (used (core t) (e - subtable_base) - 1 == 0)) [
        | inl last ↦ rw last (
            returns (record {
              tag = record (t.subtables (e - subtable_base)) {
                usecount = used (core t) (e - subtable_base) - 1;
                checksum = 0;
              };
              uses = refl;
              result = core-unref_loop (2 ^ level2_bits_large) _ _;
            }))
        | inr more ↦ rw more (
            returns (record {
              tag = record (t.subtables (e - subtable_base)) {
                usecount = used (core t) (e - subtable_base) - 1;
              };
              uses = refl;
              result = refl;
            }))
      ])
