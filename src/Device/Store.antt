-- ===== src/Device/Store.antt =====
-- Reading back what was written through a pointer, or to a message.
use feed_core.Prelude.{ℕ, ◌<◌, ◌≡◌, ◌≢◌, length, get_or-set_self, get_or-set_ne, length-set}
use feed_core.Device.Types.{
  Device, DevReg, DevMsg, reg_at, set_reg, no_reg, msg_at, set_msg, no_msg,
}

pub reg_at-set_reg_self :
    (d : Device) (p : ℕ) (r : DevReg) → p < length d.regs → reg_at (set_reg d p r) p ≡ r
unfolding reg_at set_reg
reg_at-set_reg_self d p r h = get_or-set_self d.regs p r no_reg h

pub reg_at-set_reg_ne :
    (d : Device) (p q : ℕ) (r : DevReg) → p ≢ q → reg_at (set_reg d p r) q ≡ reg_at d q
unfolding reg_at set_reg
reg_at-set_reg_ne d p q r h = get_or-set_ne d.regs p q r no_reg h

pub length-set_reg : (d : Device) (p : ℕ) (r : DevReg) → length (set_reg d p r).regs ≡ length d.regs
unfolding set_reg
length-set_reg d p r = length-set d.regs p r

pub msg_at-set_msg_self :
    (d : Device) (i : ℕ) (m : DevMsg) → i < length d.inflight → msg_at (set_msg d i m) i ≡ m
unfolding msg_at set_msg
msg_at-set_msg_self d i m h = get_or-set_self d.inflight i m no_msg h

pub msg_at-set_msg_ne :
    (d : Device) (i j : ℕ) (m : DevMsg) → i ≢ j → msg_at (set_msg d i m) j ≡ msg_at d j
unfolding msg_at set_msg
msg_at-set_msg_ne d i j m h = get_or-set_ne d.inflight i j m no_msg h
