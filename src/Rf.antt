-- ===== src/Rf.antt =====
-- src/rf/asub.c: the functions of records on bit masks. The arguments are the words that the fields of
-- the record convert to.
pub mod Splits
mod Tests
use feed_core.Prelude.{
  ℕ, zero, suc, ◌+◌, ◌-◌, ◌*◌, ◌/◌, ◌%◌, ◌^◌, Bool, true, false, ◌&&◌, List, [], ◌∷◌, ◌++◌, ltb,
  ◌==◌, if◌then◌else◌, take, drop,
}
use feed_core.Prelude.Int.{ℤ, pos, negsuc}
use feed_core.Prelude.Bits.{land, lor, bit}

unfoldable pub increment : ℤ → ℤ
increment (pos n) = pos (suc n)
increment (negsuc zero) = pos 0
increment (negsuc (suc n)) = negsuc n

-- The loop that counts the bits of a mask, of n bits at most.
unfoldable pub count_loop : ℕ → ℕ → ℤ → ℤ
count_loop zero mask v = v
count_loop (suc n) mask v = count_loop n (mask / 2) (if mask % 2 == 1 then increment v else v)

-- sub_count_bits
unfoldable pub sub_count_bits : ℕ → ℤ
sub_count_bits mask = count_loop 32 mask (pos 0)

-- sub_feed_nset_bits, for a bit of a 32-bit word.
unfoldable pub sub_feed_nset_bits : ℕ → ℕ → ℤ
sub_feed_nset_bits mybit bitmask =
    if bit bitmask mybit == 1
    then count_loop 32 (land 32 bitmask (lor 32 (2 ^ mybit) (2 ^ mybit - 1))) (negsuc 0)
    else negsuc 0

-- One of the fields VALB to VALM: whether its type is LONG, its value, and the number of its elements.
pub record Output : Type 0 where
  pub is_long : Bool
  pub value : ℤ
  pub count : ℕ

-- The number of outputs: 12, or the smaller one that field B asks for, if that is a ULONG.
unfoldable pub output_count : Bool → ℕ → ℕ
output_count is_ulong noutput = if is_ulong && ltb 0 noutput && ltb noutput 12 then noutput else 12

-- The loop over the outputs, for nout bits: the count of set bits, and the outputs.
unfoldable pub split_loop : ℕ → ℕ → ℕ → List Output → ℕ × List Output
split_loop nout mask bitcnt [] = (bitcnt, [])
split_loop nout mask bitcnt (o ∷ os) =
    let chosen = bit mask (nout - 1) == 1 in
    let next =
      split_loop nout ((mask * 2) % 2 ^ 32) (if o.is_long && chosen then bitcnt + 1 else bitcnt)
        os in
    let written = record o { value = if chosen then pos bitcnt else negsuc 0; count = 1 } in
    (next.0, (if o.is_long then written else o) ∷ next.1)

-- asub_split_bits: the value of VALA, and the outputs.
unfoldable pub asub_split_bits : Bool → ℕ → ℕ → List Output → ℕ × List Output
asub_split_bits is_ulong noutput mask outputs =
    let nout = output_count is_ulong noutput in
    let r = split_loop nout mask 0 (take nout outputs) in (r.0, r.1 ++ drop nout outputs)
