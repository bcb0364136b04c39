-- ===== src/Support/Connect.antt =====
-- What src/driver/devreg.cpp does when a device has found its registers: the settings of an output
-- record go to the register's memory, and the range of the register to the record's limits.
use feed_core.Prelude.{ℕ, ◌^◌, Bool, false, [], ◌∷◌, ◌++◌, none, some, if◌then◌else◌, ◌==◌}
use feed_core.Prelude.Int.{ℤ, pos, negsuc, to_unsigned, signed32}
use feed_core.Prelude.Exn.{assertion, Result, ok, err}
use feed_core.JBlob.{JRegister, reg_min, reg_max}
use feed_core.Device.Types.{Device, reg_at}
use feed_core.Support.Types.{
  Info, Prec, Call, Post, property, val_field, drvl_field, lopr_field, drvh_field, hopr_field,
}

-- The limits of a longout or longin record, of type epicsInt32.
pub record Limits : Type 0 where
  pub drvl : ℤ
  pub lopr : ℤ
  pub drvh : ℤ
  pub hopr : ℤ

abbrev pub same_ℤ : ℤ → ℤ → Bool
same_ℤ (pos a) (pos b) = a == b
same_ℤ (negsuc a) (negsuc b) = a == b
same_ℤ _ _ = false

-- The conversion of an epicsInt64 to an epicsInt32.
abbrev pub to_int32 : ℤ → ℤ
to_int32 z = signed32 (to_unsigned (2 ^ 32) z)

-- maybePost, for a field of type epicsInt32: the field and the record after it.
unfoldable pub maybe_post : Post → ℤ → ℤ → Prec → ℤ × Prec
maybe_post field fld value prec =
    let fval = to_int32 value in
    if same_ℤ fval fld
    then (fld, prec)
    else (fval, record prec { posts = prec.posts ++ field ∷ property ∷ [] })

-- What a call of connected leaves.
pub record Connected (D : Type 0) : Type 0 where
  pub info : Info D
  pub prec : Prec
  pub device : Device

unfoldable pub with_commit : {D : Type 0} → Bool → Info D → Info D
with_commit commit info = record info { options = record info.options { commit = commit } }

-- The functions of EPICS and of the record type that persistSettings calls: `readwrite` of the record's
-- device support, and recGblResetAlarms.
pub record Hooks (D : Type 0) : Type 0 where
  pub readwrite : Info D → Prec → Device → Call
  pub reset_alarms : Prec → Prec × ℕ

unfoldable pub persist_settings : {D : Type 0} → Hooks D → Info D → Prec → Device → Connected D
persist_settings hooks info prec d =
    let save = info.options.commit in
    let c = hooks.readwrite (with_commit false info) prec d in
    let a = hooks.reset_alarms c.prec in
    if prec.udf then record { info = info; prec = prec; device = d } else record {
      info = with_commit save (with_commit false info);
      prec = if a.1 == 0 then a.0 else record a.0 { posts = a.0.posts ++ val_field a.1 ∷ [] };
      device = c.device;
    }

-- The limits that a longout takes from its register.
unfoldable pub post_limits : JRegister → Limits → Prec → Limits × Prec
post_limits reg l prec =
    let drvl = maybe_post drvl_field l.drvl (reg_min reg) prec in
    let lopr = maybe_post lopr_field l.lopr (reg_min reg) drvl.1 in
    let drvh = maybe_post drvh_field l.drvh (reg_max reg) lopr.1 in
    let hopr = maybe_post hopr_field l.hopr (reg_max reg) drvh.1 in
    (record { drvl = drvl.0; lopr = lopr.0; drvh = drvh.0; hopr = hopr.0 }, hopr.1)

-- Those of a longin.
unfoldable pub post_display : JRegister → Limits → Prec → Limits × Prec
post_display reg l prec =
    let lopr = maybe_post lopr_field l.lopr (reg_min reg) prec in
    let hopr = maybe_post hopr_field l.hopr (reg_max reg) lopr.1 in
    (record l { lopr = lopr.0; hopr = hopr.0 }, hopr.1)

-- The part behind `assert(reg)`.
unfoldable pub with_meta :
    {D : Type 0}
    → (JRegister → Limits → Prec → Limits × Prec)
    → Limits
    → Connected D
    → Result (Limits × Connected D)
with_meta post l c = elim c.info.reg [
  | none ↦ err (assertion "reg")
  | some p ↦ let r = post (reg_at c.device p).info l c.prec in ok (r.0, record c { prec = r.1 })
]

-- RecRegInfo<longoutRecord>::connected
unfoldable pub connected_longout :
    {D : Type 0} → Hooks D → Info D → Limits → Prec → Device → Result (Limits × Connected D)
connected_longout hooks info l prec d =
    let c = persist_settings hooks info prec d in
    if info.options.meta then with_meta post_limits l c else ok (l, c)

-- RecRegInfo<longinRecord>::connected
unfoldable pub connected_longin :
    {D : Type 0} → Info D → Limits → Prec → Device → Result (Limits × Connected D)
connected_longin {D} info l prec d =
    let c : Connected D = record { info = info; prec = prec; device = d } in
    if info.options.meta then with_meta post_display l c else ok (l, c)

-- The connected of ao, bo, mbbo and aao.
unfoldable pub connected_output : {D : Type 0} → Hooks D → Info D → Prec → Device → Connected D
connected_output = persist_settings

-- The connected of ai, bi, mbbi and aai.
unfoldable pub connected_input : {D : Type 0} → Info D → Prec → Device → Connected D
connected_input info prec d = record { info = info; prec = prec; device = d }
