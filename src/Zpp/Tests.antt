-- ===== src/Zpp/Tests.antt =====
-- A zlib that copies its input, and a run of it into a vector that is not empty.
use feed_core.Prelude.{
  ℕ, ◌≡◌, ◌≤◌, refl, Bool, true, false, [], none, Bytes, arith, codes, length, length-take, take,
  drop, replicate,
}
use feed_core.Prelude.Exn.{ok, ◌>>=◌}
use feed_core.Zpp.{z_ok, stream_end, Step, Zlib, check, pump, compress, write_at, resize_bytes}
use feed_core.Zpp.Output.{IsBounded, written, compress-written}

abbrev copy_step : Bool → Unit {0} → Bytes → ℕ → Step (Unit {0})
copy_step true s input room = record {
  state = s;
  rest = [];
  made = [];
  code = stream_end;
  msg = none;
}
copy_step false s input room = record {
  state = s;
  rest = drop room input;
  made = take room input;
  code = z_ok;
  msg = none;
}

abbrev copying : Zlib (Unit {0})
copying = record {
  init = (z_ok, tt);
  step = copy_step;
  close = λ s. z_ok;
  init_text = "deflateInit() -> ";
  msg_text = "deflate() : ";
  step_text = "deflate() -> ";
  close_text = "deflateEnd() -> ";
}

copy_step_bounded :
    (finish : Bool) (s : Unit {0}) (input : Bytes) (room : ℕ)
    → length (copy_step finish s input room).made ≤ room
copy_step_bounded true s input room = omega arith
copy_step_bounded false s input room = omega (arith, length-take room input)

copy_run : compress copying 3 (codes "old") (codes "hello") ≡ ok (codes "hello")
unfolding compress pump write_at resize_bytes replicate
copy_run = refl

compress-written_example : compress copying 3 (codes "old") (codes "hello") ≡ (
    check copying copying.init_text copying.init.0 >>= λ u.
    written copying 3 copying.init.1 (codes "hello") >>= λ r.
    check copying copying.close_text (copying.close r.1) >>= λ u. ok r.0)
unfolding IsBounded
compress-written_example =
    compress-written copying 3 (codes "old") (codes "hello") copy_step_bounded
