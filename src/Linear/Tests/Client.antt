-- ===== src/Linear/Tests/Client.antt =====
-- A program that allocates two blocks, writes into one and frees the other.
use system_sw.Prelude.{◌≡◌, refl, inl, inr, some, [], ◌∷◌, arith}
use system_sw.Linear.{AlcInfo, mem_alloc, mem_free, alc_init}
use system_sw.Linear.Client.{
  World, without, learn, put_byte, allocates, frees, writes, Reach, here, next,
}
use system_sw.Linear.Client.Safe.{Safe, Reach-Safe}
use system_sw.Linear.Tests.{junk, mem, second, or_empty, fresh, busy_two}

abbrev one : AlcInfo
one = second (mem_alloc junk 10 fresh)

abbrev start : World
start = record { mi = fresh; live = []; shadow = λ i. 0 }

abbrev written : AlcInfo
unfolding busy_two
written = record busy_two { memory = put_byte busy_two.memory 25 7 }

abbrev end : World
end = record {
  mi = or_empty (mem_free junk 48 written);
  live = without 48 ((48, 8) ∷ (24, 10) ∷ []);
  shadow = put_byte (learn (learn (λ i. 0) one.memory 24 10) busy_two.memory 48 8) 25 7;
}

first_run : mem_alloc junk 10 fresh ≡ some (some 24, one)
unfolding busy_two
first_run = refl

second_run : mem_alloc junk 8 one ≡ some (some 48, busy_two)
unfolding busy_two
second_run = refl

free_run : mem_free junk 48 written ≡ some (or_empty (mem_free junk 48 written))
unfolding mem_free written
free_run = refl

reaches : Reach junk start end
unfolding busy_two
reaches =
    next
      (next
        (next (next here (allocates start 10 24 one first_run))
          (allocates _ 8 48 busy_two second_run))
        (writes _ 24 10 25 7 (inr (inl (refl, refl))) (omega arith) (omega arith)))
      (frees _ 48 8 _ (inl (refl, refl)) free_run)

init_run : alc_init junk 100 (some mem) ≡ some fresh
unfolding fresh
init_run = refl

Reach-Safe_example : Safe junk end
Reach-Safe_example =
    Reach-Safe junk 100 mem fresh (λ i. 0) end (omega arith) (omega arith) init_run reaches
