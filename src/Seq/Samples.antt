-- ===== src/Seq/Samples.antt =====
-- The parameters of src/seq with the values that Linux has, and some events: the tests of the parts of
-- the sequencer run on them.
pub use alsa_gobject.Samples.{platform}
use alsa_gobject.Base.{
  ℕ, ◌==◌, if◌then◌else◌, ◌≡◌, refl, none, some, List, [], ◌∷◌, ◌++◌, get_or, length, arith,
}
use alsa_gobject.Seq.Uapi.{Uapi, IsUapi, Stamp, Ptr, null, inline, heap, user, Ext, Union}
use alsa_gobject.Seq.Event.{Event}
use alsa_gobject.Seq.Event.Heap.{Heap}
use alsa_gobject.Seq.Event.Flatten.{Layout}

abbrev pub linux : Uapi
linux = record {
  time_stamp_mask = 1;
  time_stamp_tick = 0;
  time_stamp_real = 1;
  time_mode_mask = 2;
  event_length_mask = 12;
  event_length_fixed = 0;
  event_length_variable = 4;
  event_length_varusr = 8;
  priority_mask = 16;
  queue_direct = 253;
  event_note = 5;
  event_size = 28;
}

pub linux-IsUapi : IsUapi linux
linux-IsUapi = record {
  stamp_fits = omega arith;
  mode_fits = omega arith;
  length_fits = omega arith;
  priority_fits = omega arith;
  fixed_fits = omega arith;
  variable_fits = omega arith;
  varusr_fits = omega arith;
  fixed_masked = refl;
  variable_masked = refl;
  varusr_masked = refl;
  fixed-ne-variable = λ e. absurd (omega (arith, e));
  fixed-ne-varusr = λ e. absurd (omega (arith, e));
  variable-ne-varusr = λ e. absurd (omega (arith, e));
  tick-ne-real = λ e. absurd (omega (arith, e));
  length-stamp = refl;
  length-mode = refl;
  length-priority = refl;
  mode-stamp = refl;
  mode-length = refl;
  mode-priority = refl;
  priority-stamp = refl;
  priority-mode = refl;
  priority-length = refl;
  size_pos = omega arith;
}

-- A storage of the union that keeps one member at a time, each of them as a number.
pub data Storage : Type 0 where
  blank : Storage
  number : ℕ → Storage
  time : Stamp → Storage
  ext : Ext → Storage

abbrev pub number_of : Storage → ℕ
number_of blank = 0
number_of (number n) = n
number_of (time s) = s.first
number_of (ext e) = e.len

abbrev pub time_of : Storage → Stamp
time_of blank = record { first = 0; second = 0 }
time_of (number n) = record { first = n; second = 0 }
time_of (time s) = s
time_of (ext e) = record { first = e.len; second = 0 }

abbrev pub ext_of : Storage → Ext
ext_of blank = record { len = 0; ptr = null }
ext_of (number n) = record { len = n; ptr = null }
ext_of (time s) = record { len = s.first; ptr = null }
ext_of (ext e) = e

abbrev pub storage : Union
storage = record {
  Raw = Storage;
  zeros = blank;
  Struct = λ m. ℕ;
  put = λ m n r. number n;
  get = λ m r. number_of r;
  get-put = λ m n r. refl;
  put_time = λ s r. time s;
  get_time = time_of;
  get_time-put_time = λ s r. refl;
  put_ext = λ e r. ext e;
  get_ext = ext_of;
  get_ext-put_ext = λ e r. refl;
}

-- Four words for the storage.
abbrev pub ptr_words : Ptr → List ℕ
ptr_words null = 0 ∷ (0 ∷ [])
ptr_words inline = 1 ∷ (0 ∷ [])
ptr_words (heap a) = 2 ∷ (a ∷ [])
ptr_words (user a) = 3 ∷ (a ∷ [])

abbrev pub storage_words : Storage → List ℕ
storage_words blank = 0 ∷ (0 ∷ (0 ∷ (0 ∷ [])))
storage_words (number n) = 1 ∷ (n ∷ (0 ∷ (0 ∷ [])))
storage_words (time s) = 2 ∷ (s.first ∷ (s.second ∷ (0 ∷ [])))
storage_words (ext e) = 3 ∷ (e.len ∷ ptr_words e.ptr)

abbrev pub read_ptr : ℕ → ℕ → Ptr
read_ptr tag a =
    if tag == 0 then null else if tag == 1 then inline else if tag == 2 then heap a else user a

abbrev pub read_storage : ℕ → ℕ → ℕ → ℕ → Storage
read_storage tag a b c =
    if tag == 0
    then blank
    else if tag == 1
    then number a
    else if tag == 2
    then time (record { first = a; second = b })
    else ext (record { len = a; ptr = read_ptr b c })

abbrev pub image : Event Storage → List ℕ
image ev =
    storage_words ev.content
    ++ (ev.kind
        ∷ (ev.flags
            ∷ (ev.tag
                ∷ (ev.queue
                    ∷ (ev.time.first
                        ∷ (ev.time.second
                            ∷ (ev.source.client
                                ∷ (ev.source.port
                                    ∷ (ev.dest.client
                                        ∷ (ev.dest.port
                                            ∷ (0
                                                ∷ (0
                                                    ∷ (0
                                                        ∷ (0
                                                            ∷ (0
                                                            ∷ (0
                                                            ∷ (0
                                                            ∷ (0
                                                            ∷ (0
                                                            ∷ (0
                                                            ∷ (0
                                                            ∷ (0
                                                            ∷ (0 ∷ (0 ∷ []))))))))))))))))))))))))

abbrev pub parse : List ℕ → Event Storage
parse bs = record {
  kind = get_or bs 4 0;
  flags = get_or bs 5 0;
  tag = get_or bs 6 0;
  queue = get_or bs 7 0;
  time = record { first = get_or bs 8 0; second = get_or bs 9 0 };
  source = record { client = get_or bs 10 0; port = get_or bs 11 0 };
  dest = record { client = get_or bs 12 0; port = get_or bs 13 0 };
  content = read_storage (get_or bs 0 0) (get_or bs 1 0) (get_or bs 2 0) (get_or bs 3 0);
}

pub length-image :
    (ev : Event Storage) (r : Storage) → length (image (record ev { content = r })) ≡ 28
length-image ev blank = refl
length-image ev (number n) = refl
length-image ev (time s) = refl
length-image ev (ext e) = length-ext ev e.len e.ptr
  where
    length-ext :
        (ev : Event Storage) (n : ℕ) (p : Ptr)
        → length (image (record ev { content = ext (record { len = n; ptr = p }) })) ≡ 28
    length-ext ev n null = refl
    length-ext ev n inline = refl
    length-ext ev n (heap a) = refl
    length-ext ev n (user a) = refl

pub parse-image :
    (ev : Event Storage) (r : Storage) (rest : List ℕ)
    → parse (image (record ev { content = r }) ++ rest) ≡ record ev { content = r }
parse-image ev blank rest = refl
parse-image ev (number n) rest = refl
parse-image ev (time s) rest = refl
parse-image ev (ext e) rest = parse-ext ev e.len e.ptr rest
  where
    parse-ext :
        (ev : Event Storage) (n : ℕ) (p : Ptr) (rest : List ℕ)
        → parse (image (record ev { content = ext (record { len = n; ptr = p }) }) ++ rest)
          ≡ record ev { content = ext (record { len = n; ptr = p }) }
    parse-ext ev n null rest = refl
    parse-ext ev n inline rest = refl
    parse-ext ev n (heap a) rest = refl
    parse-ext ev n (user a) rest = refl

abbrev pub layout : Layout linux storage
layout = record {
  image = image;
  parse = parse;
  length-image = λ ev. length-image ev ev.content;
  parse-image = λ ev rest. parse-image ev ev.content rest;
}

-- An event of a type, in a mode of length, with a storage.
abbrev pub sample : ℕ → ℕ → Storage → Event Storage
sample kind flags content = record {
  kind = kind;
  flags = flags;
  tag = 0;
  queue = 3;
  time = record { first = 40; second = 0 };
  source = record { client = 128; port = 0 };
  dest = record { client = 14; port = 1 };
  content = content;
}

-- A note, an event of exclusive data that owns the block 0, and an event without data.
abbrev pub note_event : Event Storage
note_event = sample 6 0 (number 60)

abbrev pub sysex_event : Event Storage
sysex_event = sample 130 4 (ext (record { len = 3; ptr = heap 0 }))

abbrev pub empty_sysex : Event Storage
empty_sysex = sample 130 0 blank

abbrev pub sysex_bytes : List ℕ
sysex_bytes = 240 ∷ (126 ∷ (247 ∷ []))

abbrev pub no_blocks : Heap
no_blocks = record { cell = λ a. none; next = 0 }

abbrev pub one_block : Heap
one_block = record { cell = λ a. if a == 0 then some sysex_bytes else none; next = 1 }
