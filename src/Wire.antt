-- ===== src/Wire.antt =====
-- The two ends of the protocol together: a packet of src/driver/device.cpp, answered by the simulator of
-- src/sim/simulator.cpp.
pub mod Exchange
mod Tests
use feed_core.Prelude.{
  ℕ, zero, suc, ◌+◌, ◌*◌, ◌/◌, ◌%◌, ◌^◌, ◌≡◌, ◌<◌, ◌≤◌, refl, sym, ap, ◌∙◌, subst, List, [], ◌∷◌,
  ◌++◌, some, arith, Bytes, length, get_or, take, take_long, All,
}
use feed_core.Prelude.Words.{be32, put_be32, be32-put, be_bytes, be_words}
use feed_core.Device.Packets.{IsPacket}
use feed_core.Sim.{Simulator, respond, pkt_size_limit}
use feed_core.Sim.Replies.{IsAnswer, Echo, evens, respond-IsAnswer}

length-be_bytes : (ws : List ℕ) → length (be_bytes ws) ≡ 4 * length ws
unfolding be_bytes put_be32
length-be_bytes [] = omega arith
length-be_bytes (w ∷ ws) = omega (arith, length-be_bytes ws)

be_words-be_bytes : (ws : List ℕ) → All (λ w. w < 2 ^ 32) ws → be_words (be_bytes ws) ≡ ws
unfolding be_bytes be_words put_be32
be_words-be_bytes [] h = refl
be_words-be_bytes (w ∷ ws) h =
    ap (λ v. v ∷ be_words (be_bytes ws)) (be32-put w h.0) ∙ ap (◌∷◌ w) (be_words-be_bytes ws h.1)

length-be_words :
    (b : Bytes) → (4 * length (be_words b) ≤ length b) × (length b < 4 * length (be_words b) + 4)
unfolding be_words
length-be_words [] = omega arith
length-be_words (a ∷ []) = omega arith
length-be_words (a ∷ b ∷ []) = omega arith
length-be_words (a ∷ b ∷ c ∷ []) = omega arith
length-be_words (a ∷ b ∷ c ∷ d ∷ rest) = omega (arith, length-be_words rest)

get_or-evens : (ws : List ℕ) (k : ℕ) → get_or ws (2 * k) 0 ≡ get_or (evens ws) k 0
unfolding evens
get_or-evens [] k = refl
get_or-evens (x ∷ []) zero = refl
get_or-evens (x ∷ []) (suc k) =
    let e : 2 * suc k ≡ suc (suc (2 * k)) = omega arith in ap (λ i. get_or (x ∷ []) i 0) e
get_or-evens (x ∷ y ∷ ws) zero = refl
get_or-evens (x ∷ y ∷ ws) (suc k) =
    let e : 2 * suc k ≡ suc (suc (2 * k)) = omega arith in
    ap (λ i. get_or (x ∷ y ∷ ws) i 0) e ∙ get_or-evens ws k

-- The sequence word depends on the header alone.
header_word : (b : Bytes) → get_or (be_words (take 8 b)) 1 0 ≡ get_or (be_words b) 1 0
unfolding be_words
header_word [] = refl
header_word (a ∷ []) = refl
header_word (a ∷ b ∷ []) = refl
header_word (a ∷ b ∷ c ∷ []) = refl
header_word (a ∷ b ∷ c ∷ d ∷ []) = refl
header_word (a ∷ b ∷ c ∷ d ∷ e ∷ []) = refl
header_word (a ∷ b ∷ c ∷ d ∷ e ∷ f ∷ []) = refl
header_word (a ∷ b ∷ c ∷ d ∷ e ∷ f ∷ g ∷ []) = refl
header_word (a ∷ b ∷ c ∷ d ∷ e ∷ f ∷ g ∷ h ∷ rest) = refl

-- What handle_process looks at before it takes a word: the length, the magic word, the sequence word,
-- and the command word of each slot.
pub record IsAccepted (packet : List ℕ) (reply : Bytes) : Type 0 where
  pub long : 32 ≤ length reply
  pub same_length : length (be_words reply) ≡ length packet
  pub magic : get_or (be_words reply) 0 0 ≡ 0xfeedc0de
  pub same_seq : get_or (be_words reply) 1 0 ≡ get_or packet 1 0
  pub same_commands : (j : ℕ) → get_or (be_words reply) (j * 2 + 2) 0 ≡ get_or packet (j * 2 + 2) 0

-- When the simulator answers a well-formed packet of 32-bit words, the device finds in the answer what
-- it expects: at least 32 bytes, as many words as it sent, the magic word, the sequence word of the
-- packet, and in every slot the command word that it sent.
pub respond-IsAccepted :
    (n : ℕ) (packet : List ℕ) (reply : Bytes) (s : Simulator)
    → IsPacket n packet
    → All (λ w. w < 2 ^ 32) packet
    → (respond (be_bytes packet) s).0 ≡ some reply
    → IsAccepted packet reply
respond-IsAccepted n packet reply s p w h =
    let size = length-be_bytes packet in
    let whole : take pkt_size_limit (be_bytes packet) ≡ be_bytes packet =
      take_long pkt_size_limit (be_bytes packet) (omega (arith, p.short)) in
    let a : IsAnswer (be_bytes packet) reply =
      subst (λ t. IsAnswer t reply) whole (respond-IsAnswer (be_bytes packet) reply s h).0 in
    let same : evens (be_words reply) ≡ evens packet =
      a.echo.same_commands ∙ ap evens (be_words-be_bytes packet w) in
    let even : (k : ℕ) → get_or (be_words reply) (2 * k) 0 ≡ get_or packet (2 * k) 0 = λ k.
      get_or-evens (be_words reply) k
      ∙ (ap (λ t. get_or t k 0) same ∙ sym (get_or-evens packet k)) in
    record {
      long = omega (arith, a.echo.same_length, p.long);
      same_length = omega (arith, a.echo.same_length, length-be_words reply);
      magic = even 0 ∙ p.magic;
      same_seq =
          sym (header_word reply)
          ∙ (ap (λ t. get_or (be_words t) 1 0) a.same_header
              ∙ (header_word (be_bytes packet)
                  ∙ ap (λ t. get_or t 1 0) (be_words-be_bytes packet w)));
      same_commands = λ j.
          let e : j * 2 + 2 ≡ 2 * (j + 1) = omega arith in
          ap (λ i. get_or (be_words reply) i 0) e
          ∙ (even (j + 1) ∙ ap (λ i. get_or packet i 0) (sym e));
    }
