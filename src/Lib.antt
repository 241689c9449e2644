-- ===== src/Lib.antt =====
-- http-c: an HTTP/1.1 server and client for small hosts, in C.
--
-- The program reads requests from non-blocking sockets into fixed buffers, parses them as the bytes
-- arrive, looks up a route, lets its handler fill a response or defer it to a worker thread, and
-- writes the response from a fixed send buffer. One event loop drives a table of connection slots.
--
-- Files and the code that they model:
--   Prelude, Prelude/*        lists, Boolean tests and tactics that the other files share
--   Common                    inc/common.h: results and literals
--   Codes                     inc/http_codes.h: the codes and reasons that the server uses
--   Span, Span/*              the calls of common-lib-c (a submodule) as the record CommonLib
--   Headers, Headers/*        inc/http_headers.h, src/http_headers.c
--   Request, Request/Text     inc/http_request.h, src/http_request.c
--   Response, Response/Text   inc/http_response.h, src/http_response.c
--   RequestParser, RequestParser/*  inc/http_request_parser.h, src/http_request_parser.c
--   Query, Query/*            inc/http_query.h, src/http_query.c
--   Multipart, Multipart/*    inc/multipart.h, src/multipart.c
--   Endpoint, Endpoint/Covers, Endpoint/Entries  src/http_endpoint.c: the helpers on the proxy's
--                             texts, and http_endpoint_proxy_should_bypass
--   Endpoint/Proxy, Endpoint/Proxy/Stored  http_endpoint_proxy_parse_url of the same file
--   Endpoint/Environment      http_endpoint_config_set_proxy_from_environment of the same file
--   Connection                inc/http_connection.h, src/http_connection.c: the clock, the calls of
--                             the stream, sending, closing
--   Connection/Window, Connection/Reader  the same file: response_body_reader_t and its loops
--   Connection/Framing, Connection/Receiving  determine_response_body_framing, receive_response
--   Connection/Requests, Connection/Requests/Message  ensure_buffered, read_chunked_body,
--                             read_remaining_body, http_connection_receive_request
--   Connection/Moving, Filling, Passing, Lines, Closing, ChunkSize, Chunked, ChunkedBody,
--   Connection/Receiving/*, Connection/Requests/*  theorems on them
--   Server, Server/Reclaim    inc/http_server.h, src/http_server.c: acquire_slot, release_slot,
--                             slot_waits_on_peer, slot_is_idle_between_requests,
--                             find_reclaimable_slot
--   Server/Deferral, Server/Deferral/*  the same file: http_exchange_defer, deferral_slot,
--                             deferral_post, http_deferral_complete, http_deferral_cancel, and the
--                             parts under the lock of parking, flush_pending_responses and
--                             sweep_pending_deadlines
--   Server/Responding, Server/Responding/Fits  the same file: prepare_default_response,
--                             client_wants_close, bs_write, stream_finalize,
--                             serialize_and_send, respond_with_status
--   Server/Routes, Server/Routes/Order  the same file: http_server_add_route and the choice of a
--                             route in run_handler_and_serialize
--   Server/Receiving, Server/Receiving/Leftover  the same file: slot_probe_pending and what
--                             slot_finish_send keeps of the receive buffer
--   Server/Loop               the same file: slot_arm, slot_close, listener_rearm, and the calls
--                             outside
--   Server/Loop/Answering     run_handler_and_serialize, serialize_and_send, respond_with_status
--   Server/Loop/Sending       slot_drive_send, slot_finish_send
--   Server/Loop/Driving       slot_drive_handshake, slot_drive_receive, slot_probe_pending,
--                             slot_advance, on_connection_io
--   Server/Loop/Table         on_listen_readable, flush_pending_responses,
--                             sweep_pending_deadlines, sweep_idle_connections, the tear-down
--   Server/Loop/Steps         these as a step relation
--   Server/Loop/Termination, Sweeps, Finalizers, Finalizers/*  theorems on them
--   Server/Lifecycle, Server/Lifecycle/*  the same file: http_server_init, http_server_deinit,
--                             http_server_stop, http_server_run
--   Server/Timers, Server/Timers/*  the same file: consider_deadline, next_tick_ms
--   Examples, Examples/*      runs on concrete inputs
--
-- How the parts meet: the parser stores the head's lines in a Request whose Headers hold the block
-- of fields; finish_head and take_length read Content-Length and Transfer-Encoding through
-- Headers.find. A Slot holds the Parser, and a Response that a worker posted. Request and Response
-- share the serialiser of the header block. An event of a connection goes through slot_advance to
-- the drive function of its state; a complete request goes through dispatch to a handler, and its
-- outcome to serialize_and_send, to parking, or to slot_close. After each iteration the rounds of
-- Server/Loop/Table answer what was deferred and close what has timed out.
--
-- Conventions. A span is the list of bytes that it covers; a span into a buffer is the bytes at the
-- time it was taken, and what a later write to the buffer does to it is not modelled. A function
-- that changes a structure returns the new one with the result code; a NULL structure pointer is
-- `none`; output pointers are taken to be valid, and an output is part of the result where the
-- code sets it. A pointer to a function or a context is an opaque number. uint32_t sums that can
-- wrap and uint64_t times are written with `% 2 ^ 32` and `% 2 ^ 64`; what
-- percent_decode counts in an int is below 2^31. Functions that run under
-- pending_mutex are one step each.
--
-- common-lib-c is not part of the repository. The record CommonLib of Span has a field for each
-- of its functions that the code calls, and laws for what the code relies on: what a slice, a
-- search, a split, a copy and a conversion of digits answer. Span/Reference is an instance.
-- The record Env of Server/Loop has the clock, the sockets, the event loop, the handlers and the
-- body providers as functions of a state of the world, and what is fixed while the server runs.
-- What the slots share is the world, whether the listening socket is registered, and a trace of
-- the calls made. event_loop_run_once is a parameter of http_server_run.
-- The record Peer of Connection has the stream, the clock and the body handlers of the blocking
-- side, and the record Drains of Connection/Moving what is taken of them: a read brings no more
-- bytes than there is room for, and there is a bound on what a stream still does before it is closed
-- or fails.
-- stream_write is a parameter of the serialisers, base64_encode and getenv of the proxy, and the
-- regular expressions are parameters of the routes.
--
-- Bounds. The loops of http_headers_find, http_query_find and multipart.c, and the loop over the
-- hosts that go past the proxy, run on fuel, one round more than the text has bytes; each round
-- takes a byte at least, so the fuel does not run out. The server's loops over the slots are
-- recursion on the table. slot_drive_receive, slot_drive_send and http_server_run go through
-- `iterate`, a loop on fuel that answers `none` where it runs out: the first needs more than its
-- buffer has room, where every read brings a byte; the second more than the providers have chunks;
-- the last runs until another thread stops it, and any number of its iterations may be given.
-- The reading loops of a connection are `rounds` on one fuel, handed on to the loops inside: more
-- than what the stream still does and the bytes that are pending is enough. The buffer of a body
-- reader is the list of its bytes, written in place; its counters are below its size, so the sums
-- of uint32_t on them do not wrap.
--
-- Not modelled: the bounded wait of http_server_stop and http_server_run_async of
-- src/http_server.c; the sockets of src/http_endpoint.c; the storage tables; samples, tests and
-- packaging. A round over the slots is one step, while a worker may post between two slots of it;
-- such a completion touches one slot, and is a step before or after.
pub mod Prelude
pub mod Common
pub mod Codes
pub mod Connection
pub mod Span
pub mod Headers
pub mod Request
pub mod RequestParser
pub mod Response
pub mod Query
pub mod Multipart
pub mod Endpoint
pub mod Server
pub mod Examples
