-- ===== src/Rf/Tests.antt =====
-- Runs of the functions on bit masks at the masks of their comments.
use feed_core.Prelude.{◌≡◌, refl, true, false, List, [], ◌∷◌, ◌++◌, replicate, length, map}
use feed_core.Prelude.Int.{ℤ, pos, negsuc}
use feed_core.Prelude.Bits.{bit, land, lor}
use feed_core.Rf.{
  increment, count_loop, sub_count_bits, sub_feed_nset_bits, Output, output_count, split_loop,
  asub_split_bits,
}
use feed_core.Rf.Splits.{IsSplit, set_above, asub_split_bits-IsSplit}

count_run : sub_count_bits 0x80000005 ≡ pos 3
unfolding sub_count_bits count_loop increment
count_run = refl

nset_runs :
    (sub_feed_nset_bits 2 7 ≡ pos 2)
    × ((sub_feed_nset_bits 2 5 ≡ pos 1)
        × ((sub_feed_nset_bits 2 4 ≡ pos 0) × (sub_feed_nset_bits 2 1 ≡ negsuc 0)))
unfolding sub_feed_nset_bits count_loop increment bit land lor
nset_runs = (refl, (refl, (refl, refl)))

abbrev unset : Output
unset = record { is_long = true; value = pos 77; count = 0 }

abbrev value_of : Output → ℤ
value_of o = o.value

-- With the mask 5 and three outputs of four, the top bit is the third.
split_run :
    map value_of (asub_split_bits true 3 5 (replicate 4 unset)).1
    ≡ pos 0 ∷ negsuc 0 ∷ pos 1 ∷ pos 77 ∷ []
unfolding asub_split_bits split_loop output_count bit replicate
split_run = refl

-- With the mask 5 and all twelve outputs, the first nine are -1.
split_all_run :
    map value_of (asub_split_bits false 0 5 (replicate 12 unset)).1
    ≡ replicate 9 (negsuc 0) ++ (pos 0 ∷ negsuc 0 ∷ pos 1 ∷ [])
unfolding asub_split_bits split_loop output_count bit replicate
split_all_run = refl

asub_split_bits-IsSplit_example :
    (os : List Output) × (asub_split_bits true 3 5 ((unset ∷ unset ∷ unset ∷ []) ++ (unset ∷ []))
      ≡ (set_above 3 5 3, os ++ (unset ∷ [])))
    × (length os ≡ 3)
    × IsSplit 3 5 0 os
unfolding output_count
asub_split_bits-IsSplit_example =
    asub_split_bits-IsSplit true 3 5 (unset ∷ unset ∷ unset ∷ []) (unset ∷ []) refl
      (refl, (refl, (refl, tt)))
