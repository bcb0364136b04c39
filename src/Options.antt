-- ===== src/Options.antt =====
-- src/driver/devutil.cpp: the options in the link of a record, as text and as values.
pub mod Total
pub mod RoundTrip
mod Tests
use feed_core.Prelude.{
  ℕ, zero, suc, Bool, true, false, ◌||◌, List, [], ◌∷◌, Option, none, some, ◌==◌, ◌===◌,
  if◌then◌else◌, Bytes, codes, length,
}
use feed_core.Prelude.Exn.{Exn, runtime_error, fuel_out, Result, ok, err, ◌>>=◌}
use feed_core.Prelude.Maps.{lookup, insert, bytes_key}

abbrev pub is_blank : ℕ → Bool
is_blank c = c == b' ' || c == 9

abbrev pub ends_key : ℕ → Bool
ends_key c = c == b'=' || is_blank c

-- `while(*lstr==' ' || *lstr=='\t') lstr++`
unfoldable pub skip_blanks : Bytes → Bytes
skip_blanks [] = []
skip_blanks (c ∷ cs) = let rest = skip_blanks cs in if is_blank c then rest else c ∷ cs

-- A token up to a character that ends it, or to the end of the text; and what is left.
unfoldable pub token : (ℕ → Bool) → Bytes → Bytes × Bytes
token ends [] = ([], [])
token ends (c ∷ cs) = let r = token ends cs in if ends c then ([], c ∷ cs) else (c ∷ r.0, r.1)

abbrev pub Pairs : Type 0
Pairs = List (Bytes × Bytes)

abbrev pub missing_equals : Result Pairs
missing_equals = err (runtime_error "Missing expected '=' at " [])

-- The text behind a key, with what `more` makes of the text behind the value.
unfoldable pub read_value : Bytes → Pairs → (Bytes → Pairs → Result Pairs) → Bytes → Result Pairs
read_value key pairs more [] = missing_equals
read_value key pairs more (c ∷ cs) =
    let v = token is_blank (skip_blanks cs) in
    if c == b'=' then more (skip_blanks v.1) (insert key v.0 pairs) else missing_equals

abbrev pub zero_length_key : Result Pairs
zero_length_key = err (runtime_error "Zero length key value not allowed" [])

unfoldable pub after_key : Bytes → Pairs → (Bytes → Pairs → Result Pairs) → Bytes → Result Pairs
after_key [] pairs more text = zero_length_key
after_key (k ∷ ks) pairs more text = read_value (k ∷ ks) pairs more (skip_blanks text)

-- A round takes a character at least.
unfoldable pub split_loop : ℕ → Bytes → Pairs → Result Pairs
split_loop zero text pairs = err fuel_out
split_loop (suc fuel) [] pairs = ok pairs
split_loop (suc fuel) (c ∷ cs) pairs =
    let k = token ends_key (c ∷ cs) in after_key k.0 pairs (split_loop fuel) k.1

-- split_pairs, on the characters in front of the NUL. What a throw leaves in the pairs is not
-- modelled: the only caller drops them.
unfoldable pub split_pairs : Bytes → Pairs → Result Pairs
split_pairs text pairs = split_loop (suc (length text)) (skip_blanks text) pairs

-- get_pair: `out` is kept where the key is missing, and what `read` makes of the value otherwise.
unfoldable pub get_pair {ℓ} : {A : Type ℓ} → (Bytes → Result A) → Pairs → Bytes → A → Result A
get_pair read pairs key out = elim (lookup key pairs) [ none ↦ ok out | some v ↦ read v ]

unfoldable pub read_bool : Bytes → Result Bool
read_bool v =
    if v === codes "true"
    then ok true
    else if v === codes "false"
    then ok false
    else err (runtime_error "Expected 'true' or 'false'" [])

-- A parse function of libCom, where `none` is its error.
unfoldable pub read_number {ℓ} : {A : Type ℓ} → Exn → (Bytes → Option A) → Bytes → Result A
read_number e parse v = elim (parse v) [ none ↦ err e | some x ↦ ok x ]

-- The options of a RecInfo; D is the type of double.
pub record RecInfo (D : Type 0) : Type 0 where
  pub offset : ℕ
  pub step : ℕ
  pub scale : D
  pub commit : Bool
  pub wait : Bool
  pub rbv : Bool
  pub meta : Bool

module _ (D : Type 0) (one : D) (parse_uint32 : Bytes → Option ℕ)
    (parse_double : Bytes → Option D) where
  -- RecInfo::RecInfo
  unfoldable pub new_info : RecInfo D
  new_info = record {
    offset = 0;
    step = 1;
    scale = one;
    commit = true;
    wait = true;
    rbv = false;
    meta = false;
  }

  unfoldable pub get_uint32 : Pairs → Bytes → ℕ → Result ℕ
  get_uint32 = get_pair (read_number (runtime_error "Error parsing integer" []) parse_uint32)

  unfoldable pub get_double : Pairs → Bytes → D → Result D
  get_double = get_pair (read_number (runtime_error "Error parsing double" []) parse_double)

  -- RecInfo::configure
  unfoldable pub configure : Pairs → RecInfo D → Result (RecInfo D)
  configure pairs info = get_uint32 pairs (codes "offset") info.offset >>= λ offset.
      get_uint32 pairs (codes "step") info.step >>= λ step.
      get_double pairs (codes "scale") info.scale >>= λ scale.
      get_pair read_bool pairs (codes "commit") info.commit >>= λ commit.
      get_pair read_bool pairs (codes "wait") info.wait >>= λ wait.
      get_pair read_bool pairs (codes "rbv") info.rbv >>= λ rbv.
      get_pair read_bool pairs (codes "meta") info.meta >>= λ meta. ok (record {
        offset = offset;
        step = step;
        scale = scale;
        commit = commit;
        wait = wait;
        rbv = rbv;
        meta = meta;
      })
