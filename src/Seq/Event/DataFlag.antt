-- ===== src/Seq/Event/DataFlag.antt =====
-- src/seq/event.c: `enum seq_event_data_flag`, the kinds of data that a type of event may carry.
use alsa_gobject.Base.{ℕ}

abbrev pub user : ℕ
user = 0x00100000

abbrev pub blank : ℕ
blank = 0x01000000

abbrev pub absent : ℕ
absent = 0x02000000

abbrev pub result : ℕ
result = 0x00000001

abbrev pub note : ℕ
note = 0x00000002

abbrev pub control : ℕ
control = 0x00000004

abbrev pub queue : ℕ
queue = 0x00000008

abbrev pub addr : ℕ
addr = 0x00000010

abbrev pub connect : ℕ
connect = 0x00000020

abbrev pub byte : ℕ
byte = 0x00000040

abbrev pub quadlet : ℕ
quadlet = 0x00000080

abbrev pub tstamp : ℕ
tstamp = 0x00000100

abbrev pub fixed_any : ℕ
fixed_any = 0x00000fff

abbrev pub blob : ℕ
blob = 0x00001000

abbrev pub variable_any : ℕ
variable_any = 0x0000f000

abbrev pub pointer : ℕ
pointer = 0x00010000

abbrev pub varusr_any : ℕ
varusr_any = 0x000f0000

abbrev pub any : ℕ
any = 0x000fffff
