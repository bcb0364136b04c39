-- ===== src/Sim/Rfs/Slow.antt =====
-- src/sim/simulator_rfs.cpp: where acquire puts the header of a waveform in its slow data.
use feed_core.Prelude.{
  ℕ, zero, suc, ◌+◌, ◌*◌, ◌/◌, ◌%◌, ◌≡◌, ◌≢◌, ◌<◌, ◌≤◌, refl, ap, arith, List, [], ◌∷◌, ◌++◌,
  length, length-set, set, get_or, get_or-set_self, get_or-set_ne, replicate, length-replicate, ◌∙◌,
}
use feed_core.Sim.Rfs.{high_byte, low_byte, four_words, set_all, slow_words}

length-set_all : (i : ℕ) (ws slow : List ℕ) → length (set_all i ws slow) ≡ length slow
unfolding set_all
length-set_all i [] slow = refl
length-set_all i (w ∷ ws) slow = length-set_all (i + 1) ws (set slow i w) ∙ length-set slow i w

set_all-below :
    (i : ℕ) (ws slow : List ℕ) (k : ℕ) → k < i → get_or (set_all i ws slow) k 0 ≡ get_or slow k 0
unfolding set_all
set_all-below i [] slow k h = refl
set_all-below i (w ∷ ws) slow k h =
    set_all-below (i + 1) ws (set slow i w) k (omega arith)
    ∙ get_or-set_ne slow i k w 0 (λ e. omega (arith, e))

set_all-within :
    (i : ℕ) (ws slow : List ℕ) (j : ℕ)
    → j < length ws
    → i + length ws ≤ length slow
    → get_or (set_all i ws slow) (i + j) 0 ≡ get_or ws j 0
unfolding set_all
set_all-within i [] slow j h l = absurd (omega arith)
set_all-within i (w ∷ ws) slow zero h l =
    ap (λ k. get_or (set_all (i + 1) ws (set slow i w)) k 0) (omega arith)
    ∙ (set_all-below (i + 1) ws (set slow i w) i (omega arith)
        ∙ get_or-set_self slow i w 0 (omega arith))
set_all-within i (w ∷ ws) slow (suc j) h l =
    ap (λ k. get_or (set_all (i + 1) ws (set slow i w)) k 0) (omega arith)
    ∙ set_all-within (i + 1) ws (set slow i w) j (omega arith) (omega (arith, length-set slow i w))

set_all-above :
    (i : ℕ) (ws slow : List ℕ) (k : ℕ)
    → i + length ws ≤ k
    → get_or (set_all i ws slow) k 0 ≡ get_or slow k 0
unfolding set_all
set_all-above i [] slow k h = refl
set_all-above i (w ∷ ws) slow k h =
    set_all-above (i + 1) ws (set slow i w) k (omega arith)
    ∙ get_or-set_ne slow i k w 0 (λ e. omega (arith, e))

get_or-replicate : (n k : ℕ) → get_or (replicate {A = ℕ} n 0) k 0 ≡ 0
unfolding replicate
get_or-replicate zero k = refl
get_or-replicate (suc n) zero = refl
get_or-replicate (suc n) (suc k) = get_or-replicate n k

-- The header of a waveform, in slow data of more than 42 words. The counter is at 17 and 18, its high
-- byte first; the least and the greatest value, each with its high byte first, are at 21 to 24, and
-- again at 25 and at 29; the tag is at 33 and 34. The other words are 0.
pub record IsHeader (circle_count tag min max : ℕ) (slow : List ℕ) : Type 0 where
  pub count_high : get_or slow 17 0 ≡ circle_count / 256 % 256
  pub count_low : get_or slow 18 0 ≡ circle_count % 256
  pub min_high : (m : ℕ) → m < 3 → get_or slow (21 + 4 * m) 0 ≡ min / 256 % 256
  pub min_low : (m : ℕ) → m < 3 → get_or slow (22 + 4 * m) 0 ≡ min % 256
  pub max_high : (m : ℕ) → m < 3 → get_or slow (23 + 4 * m) 0 ≡ max / 256 % 256
  pub max_low : (m : ℕ) → m < 3 → get_or slow (24 + 4 * m) 0 ≡ max % 256
  pub tagged : get_or slow 33 0 ≡ tag
  pub tagged_again : get_or slow 34 0 ≡ tag
  pub blank_before : (k : ℕ) → k < 17 → get_or slow k 0 ≡ 0
  pub blank_between : (k : ℕ) → 18 < k → k < 21 → get_or slow k 0 ≡ 0
  pub blank_behind : (k : ℕ) → 34 < k → get_or slow k 0 ≡ 0

get_or-append_left :
    (xs ys : List ℕ) (i : ℕ) → i < length xs → get_or (xs ++ ys) i 0 ≡ get_or xs i 0
get_or-append_left [] ys i h = elim h [ ]
get_or-append_left (x ∷ xs) ys zero h = refl
get_or-append_left (x ∷ xs) ys (suc i) h = get_or-append_left xs ys i (omega arith)

get_or-append_right : (xs ys : List ℕ) (i : ℕ) → get_or (xs ++ ys) (length xs + i) 0 ≡ get_or ys i 0
get_or-append_right [] ys i = ap (λ k. get_or ys k 0) (omega arith)
get_or-append_right (x ∷ xs) ys i =
    let next : suc (length xs) + i ≡ suc (length xs + i) = omega arith in
    ap (λ k. get_or (x ∷ (xs ++ ys)) k 0) next ∙ get_or-append_right xs ys i

-- A word of three copies of four words.
thrice :
    (ws : List ℕ) (m j : ℕ)
    → length ws ≡ 4
    → m < 3
    → j < 4
    → get_or (ws ++ (ws ++ ws)) (4 * m + j) 0 ≡ get_or ws j 0
thrice ws zero j h l u =
    ap (λ k. get_or (ws ++ (ws ++ ws)) k 0) (omega arith)
    ∙ get_or-append_left ws (ws ++ ws) j (omega (arith, h))
thrice ws (suc zero) j h l u =
    ap (λ k. get_or (ws ++ (ws ++ ws)) k 0) (omega (arith, h))
    ∙ (get_or-append_right ws (ws ++ ws) j ∙ get_or-append_left ws ws j (omega (arith, h)))
thrice ws (suc (suc zero)) j h l u =
    ap (λ k. get_or (ws ++ (ws ++ ws)) k 0) (omega (arith, h))
    ∙ (get_or-append_right ws (ws ++ ws) (length ws + j) ∙ get_or-append_right ws ws j)
thrice ws (suc (suc (suc m))) j h l u = absurd (omega arith)

pub slow_words-IsHeader :
    (len circle_count tag min max : ℕ)
    → 42 < len
    → IsHeader circle_count tag min max (slow_words len circle_count tag min max)
unfolding slow_words high_byte low_byte
slow_words-IsHeader len circle_count tag min max h = record {
  count_high =
      low_kept 17 (omega arith)
      ∙ set_all-within 17 counts blank 0 (omega arith) (omega (arith, sized));
  count_low =
      low_kept 18 (omega arith)
      ∙ set_all-within 17 counts blank 1 (omega arith) (omega (arith, sized));
  min_high = λ m l. at_range m 0 l (omega arith) _ (omega arith);
  min_low = λ m l. at_range m 1 l (omega arith) _ (omega arith);
  max_high = λ m l. at_range m 2 l (omega arith) _ (omega arith);
  max_low = λ m l. at_range m 3 l (omega arith) _ (omega arith);
  tagged =
      get_or-set_self (set ranged 34 tag) 33 tag 0
        (omega (arith, length-set ranged 34 tag, ranged_sized));
  tagged_again =
      get_or-set_ne (set ranged 34 tag) 33 34 tag 0 (λ e. omega (arith, e))
      ∙ get_or-set_self ranged 34 tag 0 (omega (arith, ranged_sized));
  blank_before = λ k l.
      low_kept k (omega arith) ∙ (set_all-below 17 counts blank k l ∙ get_or-replicate len k);
  blank_between = λ k l u.
      low_kept k u ∙ (set_all-above 17 counts blank k (omega arith) ∙ get_or-replicate len k);
  blank_behind = λ k l.
      tag_kept k (λ e. omega (arith, e)) (λ e. omega (arith, e))
      ∙ (set_all-above 21 words counted k (omega arith)
          ∙ (set_all-above 17 counts blank k (omega arith) ∙ get_or-replicate len k));
}
  where
    counts : List ℕ
    counts = high_byte circle_count ∷ low_byte circle_count ∷ []

    words : List ℕ
    words = four_words min max ++ (four_words min max ++ four_words min max)

    blank : List ℕ
    blank = replicate len 0

    counted : List ℕ
    counted = set_all 17 counts blank

    ranged : List ℕ
    ranged = set_all 21 words counted

    sized : length blank ≡ len
    sized = length-replicate len 0

    counted_sized : length counted ≡ len
    counted_sized = length-set_all 17 counts blank ∙ sized

    ranged_sized : length ranged ≡ len
    ranged_sized = length-set_all 21 words counted ∙ counted_sized

    tag_kept :
        (k : ℕ) → 33 ≢ k → 34 ≢ k → get_or (set (set ranged 34 tag) 33 tag) k 0 ≡ get_or ranged k 0
    tag_kept k n n' =
        get_or-set_ne (set ranged 34 tag) 33 k tag 0 n ∙ get_or-set_ne ranged 34 k tag 0 n'

    low_kept : (k : ℕ) → k < 21 → get_or (set (set ranged 34 tag) 33 tag) k 0 ≡ get_or counted k 0
    low_kept k l =
        tag_kept k (λ e. omega (arith, e)) (λ e. omega (arith, e))
        ∙ set_all-below 21 words counted k l

    at_range :
        (m j : ℕ)
        → m < 3
        → j < 4
        → (k : ℕ) → k ≡ 21 + (4 * m + j)
        → get_or (set (set ranged 34 tag) 33 tag) k 0 ≡ get_or (four_words min max) j 0
    at_range m j l u k e =
        tag_kept k (λ e'. omega (arith, e, e')) (λ e'. omega (arith, e, e'))
        ∙ (ap (λ i. get_or ranged i 0) e
            ∙ (set_all-within 21 words counted (4 * m + j) (omega arith)
                  (omega (arith, counted_sized))
                ∙ thrice (four_words min max) m j refl l u))

pub length-slow_words :
    (len circle_count tag min max : ℕ) → length (slow_words len circle_count tag min max) ≡ len
unfolding slow_words
length-slow_words len circle_count tag min max =
    length-set _ 33 tag
    ∙ (length-set _ 34 tag
        ∙ (length-set_all 21 _ _ ∙ (length-set_all 17 _ _ ∙ length-replicate len 0)))
