-- ===== src/Lib.antt =====
-- A model of parts of npupnp, a UPnP library in C++, and the theorems that make them correct.
--
-- Parts, and the file or folder that models each (paths are from the repository's root):
--   Timer          src/threadutil/TimerThread.cpp: the queue of timed events, and its thread.
--   ThreadPool     src/threadutil/ThreadPool.cpp: job queues with priorities, worker threads.
--   Uri            src/utils/uri.cpp, upnp_strlcpy of src/utils/genut.cpp and query_encode of
--                  src/utils/httputils.cpp: characters, escapes, host and port, dot segments,
--                  parse_uri, resolve_rel_url.
--   HttpUtils      src/utils/httputils.cpp, src/utils/statcodes.cpp and src/utils/genut.cpp: header
--                  maps, the tables of methods, headers and codes, and the quoting of XML.
--   NetIf          src/utils/netif.cpp: addresses, interfaces, and which interface serves an address.
--   SsdpParser     src/ssdp/ssdpparser.cpp: the headers of an SSDP packet.
--   Ssdp           src/ssdp/ssdp_server.cpp and src/ssdp/ssdp_device.cpp: which messages are taken, the
--                  devices that a search reaches, and the packets for each. Ctrlpt is
--                  src/ssdp/ssdp_ctrlpt.cpp: what a control point is told, and its searches, which
--                  are events of the timer.
--   WebServer      src/webserver/webserver.cpp: virtual directories, local documents, and from a
--                  request to the source, the range and the headers of its answer.
--   Dispatcher     src/dispatcher/miniserver.cpp: a request's headers and body, the check of its HOST,
--                  and the service that it goes to; the search for a port.
--   ServiceTable   src/gena/service_table.cpp: services and their subscriptions.
--   Handles        the table of handles of src/api/upnpapi.cpp.
--   GenaDevice     src/gena/gena_device.cpp: the subscription requests of control points, the
--                  callback URLs, the event queues and the notification jobs; the dispatch on
--                  the method, src/gena/gena_callback2.cpp.
--   GenaClient     src/gena/gena_ctrlpt.cpp: a control point's subscriptions, their renewal by the
--                  timer, and the notifications.
--   Common         shared names, lists, texts and integers; Tests has witnesses and test data.
--
-- How they interact: a handle of a device holds a service table; the GENA handlers find the
-- service by the path of the request, parsed by Uri, and read and write its subscriptions. An
-- event goes to the queue of each subscription, and the one in front of a queue to the thread
-- pool; the job that is done hands over the next one. The pool is an argument of that code (a
-- state and `add_job`). The timer thread hands its jobs to the pool too: here they are the list
-- of its actions. A control point's renewals are events of that timer. The dispatcher gives a
-- request to the web server, to SOAP or to GENA; it and Ssdp ask NetIf for the interface of a HOST,
-- parsed by Uri, and the web server names a file by the path that Uri has cleaned.
--
-- Correspondence: names are those of the source in snake case. A struct is a record, a
-- std::string or a C string the list of its bytes, a std::list or a std::deque a list, a pointer
-- into a table a position or a SID. A function that runs under a lock is one function from state
-- to state; a thread that gives the lock up is cut there, and theorems over all orders of these
-- sections are about a function `step`. The clock and the transfer are arguments. Where the
-- source returns an error code, the result is an Option, a sum or the code itself. `int` is ℕ
-- where the source never makes it negative and ℤ elsewhere; the port, the event key and the
-- timeout of a request wrap as in the source.
--
-- Fuel: the loop over dot segments, the callback list and the SSDP headers each run on the size
-- of the text and one more, since a round takes at least one byte; `bumpPriority` on twice the
-- number of low jobs and the number of medium ones, since a job only goes up; `addWorker` on the
-- number of jobs and three, since it ends once there are more threads than jobs.
--
-- The loop over the devices for a search runs on the size of the table; the loop that ends all
-- subscriptions on their number and one, since each round takes one away.
--
-- Parameters: getaddrinfo, inet_pton, inet_ntop, stat and fopen, bind, maybeScopeUrlAddr, libcurl, the
-- callbacks of virtual directories and of the client program, the XML parser, parseHTTPRanges and
-- trimstring of smallut, the texts of dates and of the host system, the transfer of an event, the
-- text of a new SID, the handler of NOTIFY, the system's answer to SetPolicyType, and what other
-- threads do while a call on the network has given up the lock (`between`).
--
-- Not modelled: the sockets, the select loop and the start and stop of the server, microhttpd's
-- reading of data, XML and the code that builds on it (src/soap, descriptions),
-- the registration calls of src/api/upnpapi.cpp, the system calls behind the list of
-- interfaces, and the copies of other libraries (MD5, picoxml, expatmm, smallut). In the thread
-- pool, getStats and getAttr, and what other threads do while createWorker waits for its new
-- thread.
pub mod Common
pub mod ThreadPool
pub mod Timer
pub mod Uri
pub mod HttpUtils
pub mod ServiceTable
pub mod Handles
pub mod GenaDevice
pub mod SsdpParser
pub mod NetIf
pub mod Ssdp
pub mod GenaClient
pub mod Dispatcher
pub mod WebServer
pub mod Tests
