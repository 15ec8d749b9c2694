-- ===== src/Lib.antt =====
-- A model of the libraries of alsa-gobject: the wrappers with GObject interfaces of the ALSA control,
-- sequencer, timer, rawmidi and hwdep interfaces of Linux (src/ctl, src/seq, src/timer, src/rawmidi,
-- src/hwdep, with src/utils).
--
-- The parts and how they interact. A caller holds an object for a character device: ALSACtlCard
-- (src/ctl/card.c), ALSASeqUserClient (src/seq/user-client.c), ALSATimerUserInstance
-- (src/timer/user-instance.c) or ALSARawmidiStreamPair (src/rawmidi/stream-pair.c). Its methods fill a
-- structure of the kernel, execute a system call and turn the result into values or into a GError; its
-- GSource reads bytes from the descriptor and emits signals for the events in them. The sequencer's events are boxed structures of their own
-- (src/seq/event.c) which the client writes in a flattened form, and which it hands on in a container
-- (src/seq/event-cntr.c) that the application deserializes. The queries (query.c of each library) need
-- no object: they open a device, ask it and close it, or look for nodes by libudev (src/utils).
--
-- What models what:
--   Base, Records      shared names, lists, sets and tests over the native numbers, bits of a word,
--                      and records of one size in a buffer
--   Platform           error numbers, replies of system calls, and the ends of a call
--   Descriptor         the function open_fd of src/seq/query.c and src/timer/query.c, whose text is the
--                      same in both, and the queries that close what they open
--   Lifetime           the references of a GObject and of its sources, for src/seq/user-client.c and
--                      src/timer/user-instance.c, whose modules Sources have the functions
--   Utils              Strings, Sysfs and Ioctl model string.c, sysfs.c and ioctl.c of src/utils, Names
--                      the names of nodes in utils.h; Decimal, Numbers, Balance and Prefixes have
--                      the proofs
--   Seq/Uapi           the parameters for the kernel's header: masks, and the storage of the union
--   Seq/Event          src/seq/event.c: `alsaseq_event_get_tag` is `get_tag`, and so on; the children
--                      Types and DataFlag have the table of data types, Read and Data and Blob the
--                      getters and setters of data, Heap the memory they use, Flatten the flattened
--                      form, `seq_event_is_deliverable` and `seq_event_copy`. Ownership, Storage,
--                      Blobs, Attributes, Stamps, Delivering, Building and Built have the
--                      proofs
--   Seq/EventCntr      src/seq/event-cntr.c; Regions, Copies, Loop and RoundTrip have the proofs
--   Seq/Schedule       alsaseq_user_client_schedule_event and _schedule_events; Count and
--                      Single have the proofs
--   Seq/UserClient     the other calls of src/seq/user-client.c; Delivery has proofs, Sources the
--                      functions for sources with their proofs
--   Seq/Query          src/seq/query.c; Lists, Clients, Ports, Queues, Subscriptions and Objects have
--                      the proofs
--   Seq/ClientInfo     src/seq/client-info.c; Filter and Attributes have the proofs
--   Seq/SubscribeData  src/seq/subscribe-data.c; Properties has the proofs
--   Seq/PortInfo       src/seq/port-info.c; Properties has the proofs
--   Seq/RemoveFilter   src/seq/remove-filter.c; Times has the proofs
--   Ctl/Card           src/ctl/card.c: Lists, Tlv, Labels, Elems and Events by the kind of call, each
--                      with the proofs in modules below it
--   Ctl/ElemValue      src/ctl/elem-value.c; Arrays, Setters, Neighbours, RoundTrip and Comparison have
--                      the proofs, LittleEndian one layout of words
--   Ctl/Query          src/ctl/query.c
--   Timer/UserInstance src/timer/user-instance.c; Reading and Modes have proofs, Sources the
--                      functions for sources with their proofs
--   Timer/Query        src/timer/query.c; Devices and Clock have the proofs
--   Timer/InstanceParams
--                      the event filter of src/timer/instance-params.c; Filter has the proofs
--   Rawmidi            StreamPair models src/rawmidi/stream-pair.c, with the proofs in Descriptors and
--                      Sources, and Query src/rawmidi/query.c
--   Hwdep              src/hwdep/query.c; OtherCards has the proofs
--   Samples, Seq/Samples, and the modules Tests have concrete parameters and runs
--
-- How it is modelled. A method is a function of the object's state, of the structures it is given and
-- of the replies of the system calls; a reply is what the call leaves, or the error number. The result
-- is a success with what is given out, or a failure with the GError, if one is set: the checks of
-- g_return_val_if_fail fail without one. `fault`, and `none` in the heap, stand for what C leaves
-- undefined. What the kernel does is a parameter; where a theorem relies on what the kernel documents
-- it is a hypothesis of the theorem. The layout of a structure in bytes is a parameter with the law
-- that reading what was written gives it back. Integers of w bits wrap around by `% 2 ^ w`.
--
-- Fuel. The deserializer has one unit more than the container has bytes, and each round moves on by an
-- event; the loops of a dispatch have as much as there are bytes, and each round takes a record; the
-- loop of allocate_elem_ids has 2^32, and its offset is a word that grows in each round. The walks over
-- clients and ports have 2^32, where an identifier is a byte and grows in each round; the walk over
-- timer devices, which nothing bounds in the code, has its fuel as an argument. The constants of the
-- kernel's headers and of fcntl.h that the queries, src/rawmidi and the filters use stand at the values
-- that Linux has for them; those that src/seq/event.c uses are parameters (Seq/Uapi).
--
-- Not modelled: the other objects that only hold members of the kernel's structures as properties, what
-- libudev and GObject do, the name and the priority of a source, and of the creation of sources by a
-- card or a stream pair all but its guards and the subscription of the card.
pub mod Base
pub mod Platform
pub mod Records
pub mod Samples
pub mod Descriptor
pub mod Lifetime
pub mod Utils
pub mod Seq
pub mod Ctl
pub mod Timer
pub mod Rawmidi
pub mod Hwdep
