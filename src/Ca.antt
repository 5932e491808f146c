-- ===== src/Ca.antt =====
-- What CChannel.cpp sees of EPICS channel access (cadef.h): the arguments of its callbacks, and the
-- calls that the program makes of it, as values. The library itself is not modelled.
use epics_tcl.Prelude.{ℕ, String, Bool, List, Option}
use epics_tcl.Prelude.Int.{ℤ}

-- The native types of a channel that the source tells apart; `other` is any further code.
pub data FieldType : Type 0 where
  string char short long enum float double other : FieldType

pub data RequestType : Type 0 where
  string long double ctrl_enum : RequestType

-- A `struct dbr_gr_enum`: the number of labels, the labels and the value.
pub record GrEnum : Type 0 where
  pub no_str : ℤ
  pub strs : ℕ → String
  pub value : ℕ

-- The memory at `args.dbr`, as it reads at each type that the converters cast the pointer to: the
-- text in the i-th `dbr_string_t`, the i-th 32-bit word, the bits of the i-th `dbr_double_t`, and
-- the i-th `dbr_gr_enum`. The values past the end of the buffer are what a read there delivers.
pub record Memory : Type 0 where
  pub strings : ℕ → String
  pub words : ℕ → ℕ
  pub doubles : ℕ → ℕ
  pub enums : ℕ → GrEnum

-- `event_handler_args`; `normal` is `status == ECA_NORMAL`.
pub record EventArgs : Type 0 where
  pub normal : Bool
  pub count : ℕ
  pub dbr : Memory

pub data ConnOp : Type 0 where
  up down other : ConnOp

-- `connection_handler_args`, with what channel access answers during the callback:
-- `ca_field_type(id)`, and the event id that `ca_create_subscription` would hand back.
pub record ConnectionArgs : Type 0 where
  pub op : ConnOp
  pub chid : ℕ
  pub field_type : FieldType
  pub event_id : ℕ

-- The calls. An event id that was never written is `none`, and a channel id never written is the
-- constructor's 0. Doubles are their bits, times are milliseconds.
pub data CaCall : Type 0 where
  create_channel : String → CaCall
  create_subscription : RequestType → ℕ → CaCall
  clear_subscription : Option ℕ → CaCall
  clear_channel : ℕ → CaCall
  put_string : ℕ → String → CaCall
  put_int : ℕ → ℤ → CaCall
  put_double : ℕ → ℕ → CaCall
  array_put_string : ℕ → List String → CaCall
  array_put_long : ℕ → List ℤ → CaCall
  array_put_double : ℕ → List ℕ → CaCall
  flush_io : CaCall
  pend_event : ℕ → CaCall

-- The platform that the C code is compiled for: whether `long` has 64 bits, what
-- `sprintf("%.7g")` prints for the bits of a double, and `sizeof(dbr_string_t)`.
pub record Platform : Type 0 where
  pub long_is_64 : Bool
  pub print_double : ℕ → String
  pub string_size : ℕ
