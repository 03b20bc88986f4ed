-- ===== src/LruCacheMap/Examples.antt =====
-- The theorem on `lru_cache_map` at a cache of two elements.
use remame.Base.{ℕ, ◌≡◌, true, false, arith, ltb, List, [], ◌∷◌}
use remame.LruCacheMap.{new_lru_cache_map}
use remame.LruCacheMap.Set.{Comparison}
use remame.LruCacheMap.Valid.{IsValid}
use remame.LruCacheMap.Spec.{Command, do_insert, do_assign, do_find, do_at, do_erase}
use remame.LruCacheMap.Refines.{run, replay, run-replay}

ltb_irreflexive : (a : ℕ) → ltb a a ≡ false
ltb_irreflexive a = ground arith

ltb_trans : (a b c : ℕ) → ltb a b ≡ true → ltb b c ≡ true → ltb a c ≡ true
ltb_trans a b c h h' = ground arith

ltb_connected : (a b : ℕ) → ltb a b ≡ false → ltb b a ≡ false → a ≡ b
ltb_connected a b h h' = ground arith

instance abbrev less_than : Comparison ℕ
less_than = record {
  less = ltb;
  less_irreflexive = ltb_irreflexive;
  less_trans = ltb_trans;
  less_connected = ltb_connected;
}

-- 5 is used again before 9 comes, which drives out 3.
abbrev commands : List (Command ℕ ℕ)
commands =
    do_insert 5 50
    ∷ (do_insert 3 30
        ∷ (do_find 5 ∷ (do_assign 0 9 90 ∷ (do_at 3 ∷ (do_insert 5 51 ∷ (do_erase 9 ∷ []))))))

run-replay_example :
    IsValid (run commands (new_lru_cache_map 2)).0
    × ((run commands (new_lru_cache_map 2)).0.elements ≡ (replay 2 commands []).0)
    × ((run commands (new_lru_cache_map 2)).1 ≡ (replay 2 commands []).1)
run-replay_example = run-replay 2 commands (omega arith)
