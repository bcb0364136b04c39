-- ===== src/Options/Tests.antt =====
-- Runs of split_pairs and configure, and the theorems at them.
use feed_core.Prelude.{ℕ, ◌≡◌, refl, true, false, [], ◌∷◌, ◌++◌, Option, none, Bytes, codes, ◌===◌}
use feed_core.Prelude.Exn.{ok}
use feed_core.Prelude.Maps.{insert, lookup, bytes_lt}
use feed_core.Options.{
  split_pairs, split_loop, after_key, read_value, token, skip_blanks, get_pair, read_bool,
  get_uint32, get_double, configure, new_info,
}
use feed_core.Options.Total.{IsEnded, split_pairs-IsEnded}
use feed_core.Options.RoundTrip.{OptionText, text_of_all, pairs_of, split_pairs-text}

-- "name = dev \treg=x"
abbrev name_dev : OptionText
name_dev = record {
  key = (b'n', codes "ame");
  before = b' ' ∷ [];
  behind = b' ' ∷ [];
  value = (b'd', codes "ev");
  last = b' ' ∷ 9 ∷ [];
}

abbrev reg_x : OptionText
reg_x = record { key = (b'r', codes "eg"); before = []; behind = []; value = (b'x', []); last = [] }

split_pairs-text_example :
    split_pairs (b' ' ∷ [] ++ text_of_all (name_dev ∷ reg_x ∷ [])) []
    ≡ ok (pairs_of (name_dev ∷ reg_x ∷ []) [])
split_pairs-text_example =
    split_pairs-text (b' ' ∷ []) (name_dev ∷ reg_x ∷ []) [] (refl, tt)
      (
        record {
          key_chars = (refl, (refl, (refl, (refl, tt))));
          value_chars = (refl, (refl, (refl, tt)));
          before_blank = (refl, tt);
          behind_blank = (refl, tt);
          last_blank = (refl, (refl, tt));
        },
        (λ e. cc),
        record {
          key_chars = (refl, (refl, (refl, tt)));
          value_chars = (refl, tt);
          before_blank = tt;
          behind_blank = tt;
          last_blank = tt;
        },
      )

split_pairs-IsEnded_example : IsEnded (split_pairs (codes "name") [])
split_pairs-IsEnded_example = split_pairs-IsEnded (codes "name") []

-- A value may hold a `=`, and an empty value takes the next word.
split_run :
    split_pairs (codes "a=b=c d= e=f") []
    ≡ ok ((codes "a", codes "b=c") ∷ (codes "d", codes "e=f") ∷ [])
unfolding split_pairs split_loop after_key read_value token skip_blanks insert ◌===◌ bytes_lt
split_run = refl

abbrev no_number : Bytes → Option ℕ
no_number v = none

configure_run :
    configure ℕ 1 no_number no_number
      ((codes "commit", codes "false") ∷ [])
      (new_info ℕ 1 no_number no_number)
    ≡ ok (record {
      offset = 0;
      step = 1;
      scale = 1;
      commit = false;
      wait = true;
      rbv = false;
      meta = false;
    })
unfolding configure new_info get_uint32 get_double get_pair read_bool lookup ◌===◌
configure_run = refl
