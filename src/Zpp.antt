-- ===== src/Zpp.antt =====
-- src/util/zpp.cpp: zdeflate and zinflate, which differ in the functions of zlib that they call and in
-- the texts of their errors. zlib is the parameter.
pub mod Output
mod Tests
use Prim.Native.String.{String}
use feed_core.Prelude.{
  ℕ, zero, suc, ◌+◌, ◌-◌, Bool, true, false, List, [], ◌∷◌, ◌++◌, Option, none, some, Bytes, length,
  take, drop, replicate,
}
use feed_core.Prelude.Exn.{Exn, runtime_error, fuel_out, Result, ok, err, ◌>>=◌}
use feed_core.Rom.{Codec}

-- Z_OK, Z_STREAM_END, and any other result.
pub data ZCode : Type 0 where
  z_ok stream_end : ZCode
  z_error : ℕ → ZCode

-- A call of deflate or inflate: what is left of the input, what it wrote, its result, and strm.msg.
pub record Step (Z : Type 0) : Type 0 where
  pub state : Z
  pub rest : Bytes
  pub made : Bytes
  pub code : ZCode
  pub msg : Option Bytes

-- One direction of zlib, whose internal state is Z: `step finish state input room`.
pub record Zlib (Z : Type 0) : Type 0 where
  pub init : ZCode × Z
  pub step : Bool → Z → Bytes → ℕ → Step Z
  pub close : Z → ZCode
  pub init_text : String
  pub msg_text : String
  pub step_text : String
  pub close_text : String

-- std::vector::resize
unfoldable pub resize_bytes : ℕ → Bytes → Bytes
resize_bytes n xs = take n xs ++ replicate (n - length xs) 0

-- The bytes that zlib writes at an offset of the buffer.
unfoldable pub write_at : ℕ → Bytes → Bytes → Bytes
write_at zero made buf = made ++ drop (length made) buf
write_at (suc k) made [] = []
write_at (suc k) made (b ∷ buf) = b ∷ write_at k made buf

abbrev pub inc : ℕ
inc = 128

abbrev pub is_empty_input : Bytes → Bool
is_empty_input [] = true
is_empty_input (c ∷ cs) = false

module _ {Z : Type 0} (lib : Zlib Z) where
  unfoldable pub step_error : Option Bytes → ℕ → Exn
  step_error (some m) code = runtime_error lib.msg_text m
  step_error none code = runtime_error lib.step_text (code ∷ [])

  abbrev pub check : String → ZCode → Result (Unit {0})
  check text z_ok = ok tt
  check text stream_end = err (runtime_error text (1 ∷ []))
  check text (z_error code) = err (runtime_error text (code ∷ []))

  -- The loop: the buffer and the state at the end. zlib decides when it ends, so it runs on fuel.
  unfoldable pub pump : ℕ → Z → Bytes → Bytes → ℕ → Result (Bytes × Z)
  pump zero s input out total_out = err fuel_out
  pump (suc fuel) s input out total_out =
      let r = lib.step (is_empty_input input) s input inc in
      let out' = write_at total_out r.made (resize_bytes (total_out + inc) out) in
      let avail_out = inc - length r.made in
      let more = pump fuel r.state r.rest out' (total_out + length r.made) in
      elim r.code [
        | stream_end ↦ ok (resize_bytes (length out' - avail_out) out', r.state)
        | z_ok ↦ more
        | z_error code ↦ err (step_error r.msg code)
      ]

  -- zdeflate or zinflate into a vector that holds `out`.
  unfoldable pub compress : ℕ → Bytes → Bytes → Result Bytes
  compress fuel out input = check lib.init_text lib.init.0 >>= λ u.
      pump fuel lib.init.1 input out 0 >>= λ r. check lib.close_text (lib.close r.1) >>= λ u. ok r.0

-- The codec that a ROM image uses, both of whose vectors start empty.
unfoldable pub codec_of : {Z W : Type 0} → Zlib Z → Zlib W → ℕ → Codec
codec_of deflate inflate fuel = record {
  zdeflate = compress deflate fuel [];
  zinflate = compress inflate fuel [];
}
