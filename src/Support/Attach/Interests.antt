-- ===== src/Support/Attach/Interests.antt =====
-- The interests that a register lists, when a record is attached (src/driver/devutil.cpp).
use feed_core.Prelude.{
  ℕ, zero, suc, ◌<◌, ◌≡◌, refl, sym, ap, ◌∙◌, subst, List, [], ◌∷◌, ◌++◌, Option, none, some, All,
  All-append, length, get_elem?, Bytes, Bool-cases, inl, inr, ◌==◌, ==_iff, true-ne-false, if-elim,
}
use feed_core.Prelude.Maps.{lookup, bytes_key}
use feed_core.Device.Types.{Device, DevReg, Interest, reg_at, set_reg}
use feed_core.Device.Store.{reg_at-set_reg_self, reg_at-set_reg_ne, length-set_reg}
use feed_core.Support.Attach.{attach_at, add_interest}

-- The interest i is attached to the register p under the name k.
abbrev pub IsAttached : List Interest → Bytes → ℕ → ℕ → Type 0
IsAttached interests k p i =
    (x : Interest) × (get_elem? interests i ≡ some x) × (x.reg ≡ some p) × (x.key ≡ k)

-- A register of the table: it is there, has its name, and lists only interests that are attached to it.
pub record IsLinked (d : Device) (k : Bytes) (p : ℕ) : Type 0 where
  pub there : p < length d.regs
  pub named : (reg_at d p).info.name ≡ k
  pub attached : All (IsAttached d.reg_interested k p) (reg_at d p).interested

abbrev pub AllLinked : Device → Type 0
AllLinked d = (k : Bytes) (p : ℕ) → lookup k d.reg_by_name ≡ some p → IsLinked d k p

get_elem?-append_left :
    {A : Type 0} (xs ys : List A) (i : ℕ) (x : A)
    → get_elem? xs i ≡ some x
    → get_elem? (xs ++ ys) i ≡ some x
get_elem?-append_left [] ys i x h = cc
get_elem?-append_left (y ∷ xs) ys zero x h = h
get_elem?-append_left (y ∷ xs) ys (suc i) x h = get_elem?-append_left xs ys i x h

get_elem?-append_length :
    {A : Type 0} (xs : List A) (x : A) → get_elem? (xs ++ x ∷ []) (length xs) ≡ some x
get_elem?-append_length [] x = refl
get_elem?-append_length (y ∷ xs) x = get_elem?-append_length xs x

pub All-map :
    {A : Type 0} {P Q : A → Type 0} (xs : List A) → ((x : A) → P x → Q x) → All P xs → All Q xs
All-map [] f h = tt
All-map (x ∷ xs) f h = (f x h.0, All-map xs f h.1)

-- More interests at the end.
IsAttached-more :
    (xs ys : List Interest) (k : Bytes) (p : ℕ) (is : List ℕ)
    → All (IsAttached xs k p) is
    → All (IsAttached (xs ++ ys) k p) is
IsAttached-more xs ys k p is h =
    All-map is (λ i a. (a.0, get_elem?-append_left xs ys i a.0 a.1, a.2, a.3)) h

-- From the register as it is now.
IsLinked-by :
    (d1 : Device) (interests : List Interest) (k : Bytes) (p : ℕ) (r : DevReg)
    → reg_at d1 p ≡ r
    → p < length d1.regs
    → r.info.name ≡ k
    → All (IsAttached interests k p) r.interested
    → IsLinked (record d1 { reg_interested = interests }) k p
unfolding reg_at
IsLinked-by d1 interests k p r e there name h = record {
  there = there;
  named = ap (λ t. t.info.name) e ∙ name;
  attached = subst (λ t. All (IsAttached interests k p) t.interested) (sym e) h;
}

module _ (d : Device) (key : Bytes) (linked : AllLinked d) where
  -- A new interest that is not attached.
  add_detached :
      AllLinked
        (record d { reg_interested = d.reg_interested ++ record { key = key; reg = none } ∷ [] })
  add_detached k p h =
      let l = linked k p h in
      record {
        there = l.there;
        named = unfold reg_at in l.named;
        attached = unfold reg_at in IsAttached-more d.reg_interested _ k p _ l.attached;
      }

  -- One that is attached to the register of its name.
  add_attached :
      (p0 : ℕ)
      → lookup key d.reg_by_name ≡ some p0
      → let r = reg_at d p0 in
        let d1 =
          set_reg d p0 (record r { interested = r.interested ++ length d.reg_interested ∷ [] }) in
        AllLinked (record d1 {
          reg_interested = d1.reg_interested ++ record { key = key; reg = some p0 } ∷ [];
        })
  unfolding set_reg
  add_attached p0 found k p h0 =
      let r = reg_at d p0 in
      let n = length d.reg_interested in
      let new = record r { interested = r.interested ++ n ∷ [] } in
      let d1 = set_reg d p0 new in
      let x : Interest = record { key = key; reg = some p0 } in
      let interests = d.reg_interested ++ x ∷ [] in
      let h : lookup k d.reg_by_name ≡ some p = h0 in
      let l = linked k p h in
      let l0 = linked key p0 found in
      let there : p < length d1.regs = rw (length-set_reg d p0 new) l.there in
      elim (Bool-cases (p0 == p)) [
        | inl e ↦
            let same : p0 ≡ p = (==_iff p0 p).0 e in
            let name : key ≡ k = sym l0.named ∙ (ap (λ q. (reg_at d q).info.name) same ∙ l.named) in
            IsLinked-by d1 interests k p new
              (subst (λ q. reg_at d1 q ≡ new) same (reg_at-set_reg_self d p0 new l0.there)) there
              (l0.named ∙ name)
              (All-append (IsAttached interests k p) r.interested (n ∷ [])
                (IsAttached-more d.reg_interested (x ∷ []) k p r.interested (
                  subst (λ q. All (IsAttached d.reg_interested k p) (reg_at d q).interested)
                    (sym same) l.attached))
                ((x, get_elem?-append_length d.reg_interested x, ap some same, name), tt))
        | inr e ↦
            IsLinked-by d1 interests k p (reg_at d p)
              (reg_at-set_reg_ne d p0 p new (λ q. true-ne-false ((==_iff p0 p).1 q) e)) there
              l.named (IsAttached-more d.reg_interested (x ∷ []) k p _ l.attached)
      ]

  -- The interest behind the attachment.
  grown : Option ℕ × Device → Device
  grown a = record a.1 {
    reg_interested = a.1.reg_interested ++ record { key = key; reg = a.0 } ∷ [];
  }

  attach_at-AllLinked :
      (o : Option ℕ)
      → lookup key d.reg_by_name ≡ o
      → AllLinked (grown (attach_at (length d.reg_interested) d o))
  unfolding attach_at grown
  attach_at-AllLinked none e = add_detached
  attach_at-AllLinked (some p) e =
      if-elim {A = Option ℕ × Device} (λ a. AllLinked (grown a)) (reg_at d p).bootstrap _ _
        (add_attached p e) add_detached

  pub add_interest-AllLinked : AllLinked (add_interest d (some key)).1
  unfolding add_interest grown
  add_interest-AllLinked = attach_at-AllLinked (lookup key d.reg_by_name) refl
