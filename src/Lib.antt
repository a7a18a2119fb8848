-- ===== src/Lib.antt =====
-- The proxy from its ring buffers and its multiplexer to the handlers that carry requests and responses,
-- with the command that transforms bodies, and the manager's protocol on both of its sides.
--
-- The proxy is one thread round a selector. A socket's handlers are called when it is ready; they move
-- bytes between the socket and a ring buffer, and parse what is there so far with scans that can be put
-- back when a line or a structure is not complete. The manager is a second listening socket with a
-- binary protocol that shows counters and changes the settings that the proxy reads.
--
-- The files and what they model:
-- * Buffer models bin/buffer.c. The record has the fields of the C structure, with the array as a
--   function from indices; each function of the C file has its own name, takes the buffer, and returns
--   the value, the bytes stored at the destination, and the buffer. A size is a signed number, since a
--   failed recv hands over -1. Buffer/Queue is the queue that a buffer stands for.
-- * Settings is bin/include/proxySettings.h with the initial value of bin/main.c. An array with a C
--   string is the list of its bytes, with no bound: what strcpy writes behind an array is not followed.
-- * Protocol and its children model bin/protocolV1.c, bin/include/protocolV1.h and
--   bin/include/configUsers.h. `World` is what a handler reaches through its key and the globals:
--   the session, the settings, and whether and for what the selector watches the socket. Protocol/Login,
--   Protocol/Metrics and Protocol/Transformations have the three handlers, Protocol/Reader the reader's
--   loop and the functions for a socket that is ready; recv and send are functions that it takes.
-- * Client models the commands of client_example/clientMain.c: the bytes sent and what is printed for
--   the bytes that come back. Client/Typed is findCommand, with what sscanf finds in a typed line.
-- * Selector models bin/selector.c: the table of items, the greatest descriptor, the two sets for
--   pselect, and, in Selector/Dispatch, the calls of the handlers behind it. Whether an allocation
--   succeeds is an argument. Selector/Select is selector_select, with the answer of pselect as an
--   argument, and the loop of selector_destroy.
-- * Helpers and Page model bin/helpers.c: the changes of a line, and the page that an error sends. Scan
--   has the uses of sscanf, strncasecmp and sprintf, and Request the parser of a request's first line
--   and of its Host header in bin/proxyClientActiveSocket.c.
-- * Chunked models read_unchunked, write_chunked and the questions about space of
--   bin/proxyOriginActiveSocket.c, with the uses of sprintf, sscanf and strtol. Response models the parts
--   of parse_content: the header, whose lines are read in Response/Notes, the body and the tunnel. Its
--   children from Response/Body on are about the loop over a body as a whole.
-- * MediaType models media_type_match of bin/proxyTransformation.c, on the bytes of the array of the
--   media types: behind an empty text the loop goes on in what the array holds there.
-- * Connection models bin/include/connectionData.h with the data of the client, of the origin and of
--   the transformation, as one record: a buffer that two of them share is one field. `Proxy` is what a
--   handler reaches: the selector, the settings, the connection, whether its memory has been freed, and
--   the bytes offered to send. kill_client, kill_origin, kill_transformation and send_error are here.
-- * Accept models how a connection begins, from its acceptance to the thread that connects to the
--   origin and the handler that is told of it. Accept/Passive has the handlers of the two listening
--   sockets, in bin/proxyPassiveSocket.c and bin/configPassiveSocket.c, with the manager's session that
--   bin/configActiveSocket.c makes. ClientRead models the client's handler for reading,
--   with the states before content is passed on; Relay the loops that pass it on and the handlers for
--   writing, of the client and of the origin; OriginRead the origin's handler for reading, parse_content
--   and the end of the origin; Transformation the handlers for the pipes. recv, read and write on a
--   descriptor are functions that the loops take, on a state of which nothing is known.
-- * Sound has what holds of a connection's state behind every call of its handlers, with a child for
--   each handler. Sound/Runs has the calls of one connection as a step relation.
-- * Arguments models parse_arguments of bin/main.c, from what getopt answers on, and Start the rest of
--   that file: the listening sockets, the registrations and the loop of main. What a call of the system
--   answers is a field of `Environment`.
-- * Base has the helpers that the others share, and Tests the small inputs.
--
-- Numbers are natural; an int that can be negative is a ℤ of two constructors, and the counters are
-- bit patterns below 2 ^ 32. Loops over a buffer are structural in the number of bytes. These loops
-- run on fuel that the caller gives: the manager's reader, for which one round more than bytes that
-- wait is enough unless it is asked for a structure that there is none of; the loop over chunks and
-- the one over a body, for which 8000 rounds are always enough, since each takes a byte at least off
-- the parser's buffer, which has 7999; the match of media types, for which three rounds at each byte
-- of their array and two more are enough; the loop that reads a command's output, for which a
-- round more than the client's buffer has space is enough; and the loop of main, which has no end. The
-- loop that receives a request has no bound of its own, since a full buffer drops what comes. Other
-- loops give themselves fuel: those that take bytes off a buffer as many rounds as it holds bytes, and
-- one more; those that fill one as many as it has space, and two more; and the digits of a number and
-- the bits of a capacity as many as the number itself.
--
-- What sscanf stores for a number that no int can hold is not defined by C; Scan takes what the GNU
-- library stores.
--
-- Not modelled are the system's calls, among them pselect, signals, pipes, processes and threads: what
-- they answer is an argument, and the thread that connects to an origin is a step of its own. Left out
-- too are the child process of a transformation and the failure of fork, the mutex that guards the
-- jobs, the printing of logs and the name that is kept for it, the handlers that are empty or only
-- close a descriptor, and main of the manager's client, which hands each line it gets to findCommand.
pub mod Base
pub mod Buffer
pub mod Settings
pub mod Protocol
pub mod Selector
pub mod Chunked
pub mod Client
pub mod MediaType
pub mod Tests
pub mod Helpers
pub mod Scan
pub mod Request
pub mod Response
pub mod Page
pub mod Connection
pub mod Relay
pub mod Transformation
pub mod Sound
pub mod Start
pub mod OriginRead
pub mod ClientRead
pub mod Accept
pub mod Arguments
