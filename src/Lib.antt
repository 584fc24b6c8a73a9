-- ===== src/Lib.antt =====
-- The native extension of rbczmq, the Ruby binding of libczmq: its frames, messages, contexts,
-- sockets, pollers, timers, reactors and beacons, under ext/rbczmq.
--
-- A Ruby object wraps a C struct, and the struct holds a pointer to an object of libczmq. The
-- extension's own work is to keep the three in step: which Ruby object owns which frame, which
-- frame belongs to which message, and that every frame, message, socket and context is given back
-- to the library once, however methods, the collector and the end of a context follow each other.
--
-- The model:
--   Base          lists, Boolean tests, tables, signed integers, and runs: a C function returns,
--                 raises a Ruby exception, or commits an error that C leaves undefined (`fault`),
--                 such as an access through a pointer to freed memory. The state is explicit.
--   Czmq          libczmq's frames and messages, which are not part of the repository: a record of
--                 operations, a parameter of the model, with its documented behaviour as the record
--                 `Documented`. Czmq/Zlist has its lists. Czmq/Ideal is one library that behaves
--                 so, for examples, Czmq/Codec has what encode and decode rely on, and Czmq/Errors
--                 is on the numbers of errno.
--   Objects       the structs of ext/rbczmq/frame.h and message.h, the tables of Ruby objects, and
--                 the macros of these headers and of rbczmq_ext.h.
--   Frame         ext/rbczmq/frame.c, a function for each of rb_czmq_frame_*, named after its Ruby
--                 method. Frame/Ownership: who may use and who destroys a frame.
--   Message       ext/rbczmq/message.c, likewise: the struct and the methods on frames and strings,
--                 with those that move the cursor of its list in Message/Cursor, and those on whole
--                 messages in Message/Copies. Message/Sync states what it means that a message is
--                 in step with the library, and the modules beside it what each method does to
--                 such a message, or to one that is gone; Message/Refinement puts the methods on
--                 strings in sequence, against a double-ended queue. Message/Iteration has the
--                 cursor, which the collector's marking shares, and Message/Exchange takes a message
--                 to a string and back.
--   Net           the structs of ext/rbczmq/context.h and socket.h, with the operations of libczmq
--                 and libzmq on contexts and sockets as a parameter. Net/Ideal as Czmq/Ideal, and
--                 Net/Failing has what a call that fails raises.
--   Context       ext/rbczmq/context.c, with the closing of sockets, that methods, the collector
--                 and the end of a context share. Context/Opening, Context/Closing, Context/Freeing
--                 and Context/Single are on its operations, and Context/Members on the list of its
--                 sockets.
--   Socket        ext/rbczmq/socket.c: the life cycle of a socket, its endpoints, strings that are
--                 sent and received, and in Socket/Options its options. Socket/Endpoints relates
--                 the endpoints to the state. Socket/Lives states how a context and its sockets
--                 belong together, Socket/Idle, Socket/Steps and Socket/Ended what each step makes
--                 of it, and Socket/Orders puts the steps into sequences. Socket/OptionTable has
--                 the methods on integer options as tables, for Socket/Settings.
--   Transfer      the methods of ext/rbczmq/socket.c that send and receive frames and messages, on
--                 the state of Net beside that of Objects. Transfer/Sending: what is sent belongs
--                 to the library. Transfer/Receiving: what is received, and what passes from one
--                 socket to another. Transfer/Ideal as Czmq/Ideal.
--   Monitor       the monitor of a socket in ext/rbczmq/socket.c, and its thread, turn by turn.
--                 Monitor/Events: what it makes of an event.
--   Extension     ext/rbczmq/rbczmq_ext.c, the functions of the module ZMQ. Extension/Clock: ZMQ.now.
--   Beacon        ext/rbczmq/beacon.c. Beacon/Ending: what is left of a beacon after destroy, and of
--                 its socket after close.
--   Pollitem      ext/rbczmq/pollitem.c, and the state of polling.
--   Doubles       the C type double, a parameter, in which timer.c and poller.c compute milliseconds.
--                 Doubles/Ideal as Czmq/Ideal.
--   Timer         ext/rbczmq/timer.c, and the state of reactors: the tables of timers and loops
--                 beside those of polling. Timer/Delays: the numbers of a new timer.
--   Loop          ext/rbczmq/loop.c, its methods on the reactor of libczmq, which is a parameter and
--                 holds handlers: the C functions that it calls back, with their arguments.
--                 Loop/Callbacks has these functions, and start. Loop/Safety states what it means
--                 that all that may be called back is alive, Loop/Methods, on Loop/Outcomes, and
--                 Loop/Tables that it stays so, and Loop/Serving runs the reactor. Loop/Reached
--                 puts these into a step relation with the calls back and the collector.
--                 Loop/Breaking: how a reactor is stopped. Loop/Ending: destroy. Loop/Ideal as
--                 Czmq/Ideal.
--   Poller        ext/rbczmq/poller.c. Poller/Items: its items, their count and the array for
--                 libzmq. Poller/Removal: remove. Poller/Selection: which items are reported as
--                 ready. Poller/Polling: poll, by what libzmq answers. Poller/Order, on Poller/Entries
--                 and Poller/Coercion, states what it means that a poller is in order and that
--                 each method keeps it so, and Poller/Reached puts the methods into sequences with
--                 the collector.
--   Tests         examples of the theorems on concrete states.
--
-- References and addresses are numbers, and 0 is NULL. A reference that is not in a table is an
-- object of another class. The loops of alloc_message and to_a in message.c, and of rb_czmq_free_ctx
-- in context.c, run on fuel, of which they use one unit for each frame or socket and one for the
-- end: the theorems on them ask for more fuel than there are items, and say that the run is defined.
-- The sequences of Socket/Orders give their fuel to each step, so that they ask for more than the
-- sockets and steps together. The marking of a message's frames is such a loop too.
-- The integers that Ruby passes are taken to fit the C type, whose conversion raises else. The
-- integers that the code computes itself wrap around, as the difference of sizes does in frame.c.
--
-- The code of the program that callbacks run is a parameter too, a function from states to states,
-- and so are zloop_start, which calls back, and to_str, by which send and sendm convert an object that
-- is no string. The loop of the thread of a monitor, which is to run until
-- the socket ends, is given the number of its turns. The products of C doubles are a parameter with
-- what C and IEEE 754 say of them; a size_t and a long have 64 bits.
--
-- Where the library gives NULL for a new object, ZmqAssertObjOnAlloc frees the struct of a Ruby object
-- that has just been made. The states list such objects as dangling: their reference is taken, and no
-- table has a struct for them, so that collecting one is an access to freed memory.
--
-- The collector is modelled by what it marks for each struct, by what it frees, and by steps that
-- collect in any order; of a message's marking, which moves a cursor, the run is modelled. A record
-- of documented behaviour says no more than the library's documents: what zlist_next returns beyond
-- the end is left open.
--
-- Not modelled: the log lines of the verbose flag, marking of threads and of the strings of a socket,
-- the mutex around the library, and the release of Ruby's lock; the set-up of classes; and the Ruby
-- files under lib, which call the extension.
pub mod Base
pub mod Czmq
pub mod Objects
pub mod Frame
pub mod Message
pub mod Net
pub mod Context
pub mod Socket
pub mod Monitor
pub mod Transfer
pub mod Extension
pub mod Beacon
pub mod Pollitem
pub mod Doubles
pub mod Timer
pub mod Loop
pub mod Poller
mod Tests
