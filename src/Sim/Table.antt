-- ===== src/Sim/Table.antt =====
-- The address table of the simulator, and the registers that its addresses lead to.
use feed_core.Prelude.{
  ℕ, zero, suc, ◌+◌, ◌-◌, ◌^◌, ◌≡◌, ◌≢◌, ◌<◌, ◌≤◌, refl, sym, ap, ◌∙◌, subst, List, Option, none,
  some, arith, length, Bytes, Bool-cases, ◌⊎◌, inl, inr, ◌===◌, ===-eq, ===-refl, ◌==◌,
}
use feed_core.Prelude.Maps.{
  lookup, insert, bytes_key, nat_key, lookup-insert, AllValues, insert-AllValues, AllValues-map,
  some_injective,
}
use feed_core.Prelude.Words.{add32}
use feed_core.Prelude.Exn.{Result, ok}
use feed_core.Sim.{SimReg, Simulator, add, map_addrs}

-- The register that address a leads to, by its name, and that a is one of its addresses.
pub record Located (regs : List (Bytes × SimReg)) (a : ℕ) (name : Bytes) : Type 0 where
  pub reg : SimReg
  pub found : lookup name regs ≡ some reg
  pub named : reg.name ≡ name
  pub from_base : reg.base ≤ a
  pub inside : a < reg.base + length reg.storage

pub record IsTabled (s : Simulator) : Type 0 where
  pub tabled : AllValues (Located s.reg_by_name) s.reg_by_addr

-- A new register leaves what was located.
add-Located :
    (regs : List (Bytes × SimReg)) (new : SimReg) (a : ℕ) (name : Bytes)
    → lookup new.name regs ≡ none
    → Located regs a name
    → Located (insert new.name new regs) a name
add-Located regs new a name free h = record {
  reg = h.reg;
  found = elim (Bool-cases (new.name === name)) [
    | inl e ↦
        let f : lookup new.name regs ≡ some h.reg =
          subst (λ t. lookup t regs ≡ some h.reg) (sym (===-eq new.name name e)) h.found in
        cc
    | inr e ↦ lookup-insert new.name name new regs ∙ (rw e h.found)
  ];
  named = h.named;
  from_base = h.from_base;
  inside = h.inside;
}

-- So does a new content of a register that is there.
pub put-Located :
    (regs : List (Bytes × SimReg)) (name : Bytes) (old new : SimReg) (a : ℕ) (other : Bytes)
    → lookup name regs ≡ some old
    → new.name ≡ old.name
    → new.base ≡ old.base
    → length new.storage ≡ length old.storage
    → Located regs a other
    → Located (insert name new regs) a other
put-Located regs name old new a other there en eb el h = elim (Bool-cases (name === other)) [
  | inl e ↦
      let same : old ≡ h.reg = some_injective (
        sym there
        ∙ (subst (λ t. lookup t regs ≡ some h.reg) (sym (===-eq name other e)) h.found)) in
      record {
        reg = new;
        found = lookup-insert name other new regs ∙ (rw e refl);
        named = en ∙ (ap (λ r. r.name) same ∙ h.named);
        from_base = rw (eb, same) h.from_base;
        inside = rw (eb, el, same) h.inside;
      }
  | inr e ↦ record {
    reg = h.reg;
    found = lookup-insert name other new regs ∙ (rw e h.found);
    named = h.named;
    from_base = h.from_base;
    inside = h.inside;
  }
]

map_addrs-AllValues :
    (P : ℕ → Bytes → Type 0) (n addr : ℕ) (name : Bytes) (m : List (ℕ × Bytes))
    → ((a : ℕ) → addr ≤ a → a < addr + n → P a name)
    → AllValues P m
    → AllValues P (map_addrs n addr name m)
unfolding map_addrs
map_addrs-AllValues P zero addr name m f h = h
map_addrs-AllValues P (suc n) addr name m f h =
    map_addrs-AllValues P n (addr + 1) name (insert addr name m)
      (λ a l k. f a (omega arith) (omega arith))
      (insert-AllValues P addr name m (f addr (omega arith) (omega arith)) h)

added :
    (o : Option SimReg) (e : SimReg → Result Simulator) (s s' : Simulator)
    → ((r : SimReg) → e r ≢ ok s')
    → (elim o [ some old ↦ e old | none ↦ ok s ]) ≡ ok s'
    → (o ≡ none) × (s ≡ s')
added (some old) e s s' n h = absurd (n old h)
added none e s s' n h = (refl, cc)

map_addrs-lookup :
    (n addr a : ℕ) (name : Bytes) (m : List (ℕ × Bytes))
    → ((addr ≤ a) × (a < addr + n)) ⊎ (lookup a m ≡ some name)
    → lookup a (map_addrs n addr name m) ≡ some name
unfolding map_addrs
map_addrs-lookup zero addr a name m (inl h) = absurd (omega (arith, h.0, h.1))
map_addrs-lookup zero addr a name m (inr h) = h
map_addrs-lookup (suc n) addr a name m h =
    map_addrs-lookup n (addr + 1) a name (insert addr name m) (elim (Bool-cases (addr == a)) [
      | inl e ↦ inr (lookup-insert addr a name m ∙ (rw e refl))
      | inr e ↦ elim h [
        | inl k ↦ inl (ground (arith, k.0, k.1), ground (arith, k.0, k.1))
        | inr k ↦ inr (lookup-insert addr a name m ∙ (rw e k))
      ]
    ])

-- A register that `add` accepts has a new name, and the table stays one: every address in it leads to
-- a register that holds it. If the register ends below 2 ^ 32, each of its addresses leads to it.
pub add-IsTabled :
    (reg : SimReg) (s s' : Simulator)
    → add reg s ≡ ok s'
    → IsTabled s
    → IsTabled s'
      × (lookup reg.name s.reg_by_name ≡ none)
      × (reg.base + length reg.storage < 2 ^ 32
          → (a : ℕ) → reg.base ≤ a
          → a < reg.base + length reg.storage
          → lookup a s'.reg_by_addr ≡ some reg.name)
unfolding add
add-IsTabled reg s s' h t =
    let e = added (lookup reg.name s.reg_by_name) _ _ s' (λ r k. cc) h in
    let regs' = insert reg.name reg s.reg_by_name in
    let n = add32 reg.base (length reg.storage) - reg.base in
    let new-Located : (a : ℕ) → reg.base ≤ a → a < reg.base + n → Located regs' a reg.name =
      λ a l k. record {
        reg = reg;
        found = lookup-insert reg.name reg.name reg s.reg_by_name ∙ (rw (===-refl reg.name) refl);
        named = refl;
        from_base = l;
        inside = omega arith;
      } in
    let table' = map_addrs-AllValues (Located regs') n reg.base reg.name s.reg_by_addr new-Located (
      AllValues-map _ (Located regs') s.reg_by_addr
        (λ a name. add-Located s.reg_by_name reg a name e.0) t.tabled) in
    (
      subst IsTabled e.1 (record { tabled = table' }),
      e.0,
      λ short a l k.
          subst (λ u. lookup a u.reg_by_addr ≡ some reg.name) e.1
            (map_addrs-lookup n reg.base a reg.name s.reg_by_addr (inl (l, omega arith))),
    )
