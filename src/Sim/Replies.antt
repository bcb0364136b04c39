-- ===== src/Sim/Replies.antt =====
-- An answer of the simulator against its request.
use feed_core.Prelude.{
  ℕ, suc, ◌≡◌, refl, ap, Bool, true, false, List, [], ◌∷◌, ◌++◌, Option, none, some, arith, length,
  take, drop, ltb, if◌then◌else◌, Bytes, subst, ◌≤◌,
}
use feed_core.Prelude.Words.{be32, put_be32, be_words}
use feed_core.Sim.{Simulator, command, commands, respond, pkt_size_limit}

-- Every second word, from the first on: those that carry a command and its address.
unfoldable pub evens : List ℕ → List ℕ
evens [] = []
evens (x ∷ []) = x ∷ []
evens (x ∷ y ∷ ws) = x ∷ evens ws

-- An answer as long as the request, with the same command words.
pub record Echo (request reply : Bytes) : Type 0 where
  pub same_length : length reply ≡ length request
  pub same_commands : evens (be_words reply) ≡ evens (be_words request)

Echo-refl : (b : Bytes) → Echo b b
Echo-refl b = record { same_length = refl; same_commands = refl }

Echo-cons :
    (a b c d e f g h v : ℕ) (request reply : Bytes)
    → Echo request reply
    → Echo (a ∷ b ∷ c ∷ d ∷ e ∷ f ∷ g ∷ h ∷ request) (a ∷ b ∷ c ∷ d ∷ (put_be32 v ++ reply))
unfolding put_be32 be_words evens
Echo-cons a b c d e f g h v request reply k = record {
  same_length = ap (λ n. suc (suc (suc (suc (suc (suc (suc (suc n)))))))) k.same_length;
  same_commands = ap (◌∷◌ (be32 a b c d)) k.same_commands;
}

commands-Echo : (b : Bytes) (s : Simulator) → Echo b (commands b s).bytes
unfolding commands
commands-Echo (a ∷ b ∷ c ∷ d ∷ e ∷ f ∷ g ∷ h ∷ rest) s =
    let r = command (be32 a b c d) (be32 e f g h) s in
    Echo-cons a b c d e f g h r.data_word rest _ (commands-Echo rest r.simulator)
commands-Echo [] s = Echo-refl []
commands-Echo (a ∷ []) s = Echo-refl _
commands-Echo (a ∷ b ∷ []) s = Echo-refl _
commands-Echo (a ∷ b ∷ c ∷ []) s = Echo-refl _
commands-Echo (a ∷ b ∷ c ∷ d ∷ []) s = Echo-refl _
commands-Echo (a ∷ b ∷ c ∷ d ∷ e ∷ []) s = Echo-refl _
commands-Echo (a ∷ b ∷ c ∷ d ∷ e ∷ f ∷ []) s = Echo-refl _
commands-Echo (a ∷ b ∷ c ∷ d ∷ e ∷ f ∷ g ∷ []) s = Echo-refl _

-- An answer as long as the request, with the request's header, and each command word as it was asked.
pub record IsAnswer (request reply : Bytes) : Type 0 where
  pub echo : Echo request reply
  pub same_header : take 8 reply ≡ take 8 request

header-IsAnswer :
    (b : Bytes) (s : Simulator)
    → 8 ≤ length b
    → IsAnswer b (take 8 b ++ (commands (drop 8 b) s).bytes)
unfolding be_words evens
header-IsAnswer (a ∷ b ∷ c ∷ d ∷ e ∷ f ∷ g ∷ h ∷ rest) s l =
    let more = commands-Echo rest s in
    record {
      echo = record {
        same_length = ap (λ n. suc (suc (suc (suc (suc (suc (suc (suc n)))))))) more.same_length;
        same_commands = ap (◌∷◌ (be32 a b c d)) more.same_commands;
      };
      same_header = refl;
    }
header-IsAnswer [] s l = absurd (omega arith)
header-IsAnswer (a ∷ []) s l = absurd (omega arith)
header-IsAnswer (a ∷ b ∷ []) s l = absurd (omega arith)
header-IsAnswer (a ∷ b ∷ c ∷ []) s l = absurd (omega arith)
header-IsAnswer (a ∷ b ∷ c ∷ d ∷ []) s l = absurd (omega arith)
header-IsAnswer (a ∷ b ∷ c ∷ d ∷ e ∷ []) s l = absurd (omega arith)
header-IsAnswer (a ∷ b ∷ c ∷ d ∷ e ∷ f ∷ []) s l = absurd (omega arith)
header-IsAnswer (a ∷ b ∷ c ∷ d ∷ e ∷ f ∷ g ∷ []) s l = absurd (omega arith)

answered :
    (short ignore : Bool) (x reply : Bytes) (s s' : Simulator)
    → (if◌then◌else◌ {A = Option Bytes × Simulator} short
        (none, s)
        ((if ignore then none else some x), s')).0
      ≡ some reply
    → (short ≡ false) × (x ≡ reply)
answered true ignore x reply s s' h = cc
answered false true x reply s s' h = cc
answered false false x reply s s' h = (refl, cc)

-- Each answer that the simulator sends to a datagram, of which at most the packet size limit is taken,
-- has the length, the header and every command word of what was taken, and only a datagram of 32 bytes
-- or more is answered.
pub respond-IsAnswer :
    (datagram reply : Bytes) (s : Simulator)
    → (respond datagram s).0 ≡ some reply
    → IsAnswer (take pkt_size_limit datagram) reply × (32 ≤ length (take pkt_size_limit datagram))
unfolding respond
respond-IsAnswer datagram reply s h =
    let buf = take pkt_size_limit datagram in
    let r = commands (drop 8 buf) s in
    let e = answered (ltb (length buf) 32) r.ignore (take 8 buf ++ r.bytes) reply s r.after h in
    let long : 32 ≤ length buf = ground (arith, e.0) in
    (subst (IsAnswer buf) e.1 (header-IsAnswer buf s (omega arith)), long)
