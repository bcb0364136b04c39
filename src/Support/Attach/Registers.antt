-- ===== src/Support/Attach/Registers.antt =====
-- The interests that a register lists, when an inspection adds it (src/driver/device.cpp).
use feed_core.Prelude.{
  ℕ, zero, suc, ◌+◌, ◌<◌, ◌≡◌, refl, sym, ap, ◌∙◌, subst, true, false, List, [], ◌∷◌, ◌++◌, Option,
  none, some, arith, All, length, length-append, get_elem?, get_or, if◌then◌else◌, Bytes, ◌===◌,
  ===-eq, ===-refl, Bool-cases, inl, inr, true-ne-false, if-true, if-false, Option-cases,
}
use feed_core.Prelude.Maps.{lookup, insert, bytes_key, lookup-insert, some_injective}
use feed_core.JBlob.{JRegister}
use feed_core.Device.Types.{Device, Interest, reg_at, new_reg, no_reg}
use feed_core.Device.Inspect.{interested_in, attach, add_register, add_registers}
use feed_core.Support.Attach.{add_interest}
use feed_core.Support.Attach.Interests.{
  IsAttached, IsLinked, AllLinked, All-map, add_interest-AllLinked,
}

abbrev attached_to : Bytes → ℕ → Interest → Interest
attached_to name n x = if x.key === name then record x { reg = some n } else x

get_elem?-attach :
    (name : Bytes) (n : ℕ) (xs : List Interest) (i : ℕ) (x : Interest)
    → get_elem? xs i ≡ some x
    → get_elem? (attach name n xs) i ≡ some (attached_to name n x)
unfolding attach
get_elem?-attach name n [] i x h = cc
get_elem?-attach name n (y ∷ ys) zero x h = ap (λ z. some (attached_to name n z)) (some_injective h)
get_elem?-attach name n (y ∷ ys) (suc i) x h = get_elem?-attach name n ys i x h

-- What holds of the numbers of all interests in a name.
interested_in-All :
    (P : ℕ → Type 0) (name : Bytes) (xs : List Interest) (j : ℕ)
    → ((i : ℕ) (x : Interest) → get_elem? xs i ≡ some x → (x.key === name) ≡ true → P (j + i))
    → All P (interested_in name j xs)
unfolding interested_in
interested_in-All P name [] j f = tt
interested_in-All P name (x ∷ xs) j f =
    let rest =
      interested_in-All P name xs (j + 1) (λ i y h k. subst P (omega arith) (f (suc i) y h k)) in
    elim (Bool-cases (x.key === name)) [
      | inl e ↦ rw e (subst P (omega arith) (f 0 x refl e), rest)
      | inr e ↦ rw e rest
    ]

get_or-append_left :
    {A : Type 0} (xs ys : List A) (i : ℕ) (z : A)
    → i < length xs
    → get_or (xs ++ ys) i z ≡ get_or xs i z
get_or-append_left [] ys i z h = absurd (omega arith)
get_or-append_left (x ∷ xs) ys zero z h = refl
get_or-append_left (x ∷ xs) ys (suc i) z h = get_or-append_left xs ys i z (omega arith)

get_or-append_length :
    {A : Type 0} (xs : List A) (x z : A) → get_or (xs ++ x ∷ []) (length xs) z ≡ x
get_or-append_length [] x z = refl
get_or-append_length (y ∷ xs) x z = get_or-append_length xs x z

module _ (d : Device) (info : JRegister) (linked : AllLinked d) where
  abbrev after : Device
  after = record d {
    regs =
        d.regs
        ++ record (new_reg info false) { interested = interested_in info.name 0 d.reg_interested }
          ∷ [];
    reg_interested = attach info.name (length d.regs) d.reg_interested;
    reg_by_name = insert info.name (length d.regs) d.reg_by_name;
  }

  IsAttached-new :
      (i : ℕ) (x : Interest)
      → get_elem? d.reg_interested i ≡ some x
      → (x.key === info.name) ≡ true
      → IsAttached
          (attach info.name (length d.regs) d.reg_interested)
          info.name
          (length d.regs)
          (0 + i)
  IsAttached-new i x h k =
      let n = length d.regs in
      let e : i ≡ 0 + i = omega arith in
      subst (IsAttached (attach info.name n d.reg_interested) info.name n) e (
        record x { reg = some n },
        get_elem?-attach info.name n d.reg_interested i x h
            ∙ ap some
                (if-true (λ z. z ≡ record x { reg = some n }) (x.key === info.name) _ x k refl),
        refl,
        ===-eq x.key info.name k,
      )

  IsAttached-still :
      (k : Bytes) (p i : ℕ)
      → (info.name === k) ≡ false
      → IsAttached d.reg_interested k p i
      → IsAttached (attach info.name (length d.regs) d.reg_interested) k p i
  IsAttached-still k p i e a =
      let x = a.0 in
      let other : (x.key === info.name) ≡ false = elim (Bool-cases (x.key === info.name)) [
        | inr f ↦ f
        | inl f ↦ absurd (
            true-ne-false (===-refl k)
              (subst (λ z. (z === k) ≡ false) (sym (===-eq x.key info.name f) ∙ a.3) e))
      ] in
      (
        x,
        get_elem?-attach info.name (length d.regs) d.reg_interested i x a.1
            ∙ ap some (if-false (λ z. z ≡ x) (x.key === info.name) _ x other refl),
        a.2,
        a.3,
      )

  -- The new register.
  added_IsLinked : IsLinked after info.name (length d.regs)
  unfolding reg_at
  added_IsLinked =
      let n = length d.regs in
      let new = record (new_reg info false) {
        interested = interested_in info.name 0 d.reg_interested;
      } in
      let at = get_or-append_length d.regs new no_reg in
      record {
        there = omega (arith, length-append d.regs (new ∷ []));
        named = ap (λ r. r.info.name) at ∙ (unfold new_reg in refl);
        attached =
            subst
              (λ r. All (IsAttached (attach info.name n d.reg_interested) info.name n) r.interested)
              (sym at)
              (interested_in-All (IsAttached (attach info.name n d.reg_interested) info.name n)
                info.name d.reg_interested 0 (λ i x h k. IsAttached-new i x h k));
      }

  kept_IsLinked :
      (k : Bytes) (p : ℕ)
      → (info.name === k) ≡ false
      → lookup k d.reg_by_name ≡ some p
      → IsLinked after k p
  unfolding reg_at
  kept_IsLinked k p e h =
      let l = linked k p h in
      let at = get_or-append_left d.regs _ p no_reg l.there in
      record {
        there = omega (
          arith,
          l.there,
          length-append d.regs (
              record (new_reg info false) {
                interested = interested_in info.name 0 d.reg_interested;
              }
              ∷ []),
        );
        named = ap (λ r. r.info.name) at ∙ l.named;
        attached =
            subst
              (λ r.
                All (IsAttached (attach info.name (length d.regs) d.reg_interested) k p)
                  r.interested)
              (sym at) (All-map _ (λ i a. IsAttached-still k p i e a) l.attached);
      }

  after-AllLinked : AllLinked after
  after-AllLinked k p h =
      let n = length d.regs in
      let found = sym (lookup-insert info.name k (length d.regs) d.reg_by_name) ∙ h in
      elim (Bool-cases (info.name === k)) [
        | inl e ↦
            let at =
              some_injective
                (subst (λ b. (if b then some n else lookup k d.reg_by_name) ≡ some p) e found) in
            subst (λ q. IsLinked after k q) at
              (subst (λ z. IsLinked after z n) (===-eq info.name k e) added_IsLinked)
        | inr e ↦
            kept_IsLinked k p e
              (subst (λ b. (if b then some n else lookup k d.reg_by_name) ≡ some p) e found)
      ]

  added : lookup info.name d.reg_by_name ≡ none → add_register info d ≡ after
  unfolding add_register
  added e = rw (e, add_register) refl

  passed_over : (p : ℕ) → lookup info.name d.reg_by_name ≡ some p → add_register info d ≡ d
  unfolding add_register
  passed_over p e = rw (e, add_register) refl

  add_register-AllLinked : AllLinked (add_register info d)
  add_register-AllLinked = elim (Option-cases (lookup info.name d.reg_by_name)) [
    | inl e ↦ subst AllLinked (sym (added e)) after-AllLinked
    | inr f ↦ subst AllLinked (sym (passed_over f.0 f.1)) linked
  ]

add_registers-AllLinked :
    (table : List (Bytes × JRegister)) (d : Device)
    → AllLinked d
    → AllLinked (add_registers table d)
unfolding add_registers
add_registers-AllLinked [] d h = h
add_registers-AllLinked ((k, info) ∷ table) d h =
    add_registers-AllLinked table (add_register info d) (add_register-AllLinked d info h)

interest-AllLinked :
    (d : Device) (key : Option Bytes) → AllLinked d → AllLinked (add_interest d key).1
interest-AllLinked d none h = unfold add_interest in h
interest-AllLinked d (some key) h = add_interest-AllLinked d key h

-- A device in which every register of the table is there, has its name, and lists only interests that
-- are attached to it under this name, stays so when a record adds its interest, with or without a
-- register, and when an inspection adds a table of registers.
pub interests-AllLinked :
    (d : Device) (key : Option Bytes) (table : List (Bytes × JRegister))
    → AllLinked d
    → AllLinked (add_interest d key).1 × AllLinked (add_registers table d)
interests-AllLinked d key table h = (interest-AllLinked d key h, add_registers-AllLinked table d h)
